-- ===== src/Jobs/Queue/Publication.antt =====
-- What a publication that returns has done: `JobQueue.publish` of backend/services/jobs/queue.py,
-- taken apart into its steps.
use ovrly.Prelude.{
  ℕ, ◌≡◌, refl, ap, ◌∙◌, inl, inr, true, Option, some, List, [], ◌∷◌, arith, Option-cases,
  update_where, first_where,
}
use ovrly.Json.{Document, Codec}
use ovrly.Jobs.States.{JobEvent}
use ovrly.Jobs.Tables.{
  Job, JobResult, Database, Clocks, Lease, PublishedResult, Result, ok, err, >>=-eq-ok,
  integrity_error,
}
use ovrly.Jobs.Spec.{view, advance, only, quiet}
use ovrly.Jobs.Spec.Evolution.{Evolution, Evolution-refl, Evolution-trans, Evolution-mono}
use ovrly.Pipeline.Analysis.{record_terminal, record_terminal-rest}
use ovrly.Jobs.Queue.{active}
use ovrly.Jobs.Queue.Owner.{enqueue}
use ovrly.Jobs.Queue.Refines.{Evolution-by_event}
use ovrly.Jobs.Queue.Transitions.{enqueue-Evolution}
use ovrly.Jobs.Queue.Publish.{
  Successor, published_row, insert_result, result_row, published_result, enqueue_all, publish_row,
  catch_integrity, publish,
}

pub enqueue_all-Evolution :
    (clocks : Clocks) (owner_id : Option ℕ) (successors : List Successor) (db : Database)
    {db' : Database}
    → enqueue_all clocks owner_id successors db ≡ ok db'
    → Evolution quiet db.jobs db'.jobs
unfolding enqueue_all
enqueue_all-Evolution clocks owner_id [] db {db'} h =
    let same : db'.jobs ≡ db.jobs = ground arith in rw same (Evolution-refl quiet db.jobs)
enqueue_all-Evolution clocks owner_id (s ∷ rest) db {db'} h =
    let ((e, mid), inserted, later) =
      >>=-eq-ok (enqueue clocks s.id s.key s.payload owner_id db) _ h in
    Evolution-trans quiet db.jobs mid.jobs db'.jobs
      (enqueue-Evolution clocks s.id s.key s.payload owner_id db inserted)
      (enqueue_all-Evolution clocks owner_id rest mid later)

catch_integrity-ok :
    (n : ℕ) (r : Result (PublishedResult × Database)) {x : PublishedResult × Database}
    → catch_integrity n r ≡ ok x
    → r ≡ ok x
catch_integrity-ok n (ok y) h = h
catch_integrity-ok n (err integrity_error) h = cc
catch_integrity-ok n (err e) h = h

pub recorded-jobs_of :
    (codec : Codec) (clocks : Clocks) (n : ℕ) (o : Option Document) (d d' : Database)
    → record_terminal codec clocks n o d ≡ ok d'
    → d'.jobs ≡ d.jobs
recorded-jobs_of codec clocks n o d d' h = ground (arith, record_terminal-rest codec clocks n o d)

inserted-jobs : (row : JobResult) (d d' : Database) → insert_result row d ≡ ok d' → d'.jobs ≡ d.jobs
inserted-jobs row d d' h = ground arith

published_row-advance :
    (clocks : Clocks) (lease : Lease) (r : Job)
    → active clocks lease r ≡ true
    → advance (view r) JobEvent.publish ≡ some (view (published_row clocks r))
unfolding advance
published_row-advance clocks lease r h = ground arith

-- The row of an active lease makes a PUBLISH transition and no other row changes.
pub published-Evolution :
    (clocks : Clocks) (lease : Lease) (db : Database)
    → Evolution
        (only JobEvent.publish)
        db.jobs
        (update_where (active clocks lease) (published_row clocks) db.jobs)
published-Evolution clocks lease db =
    Evolution-by_event JobEvent.publish (active clocks lease) (published_row clocks) db.jobs
      (published_row-advance clocks lease) (λ r. (refl, refl, refl))

module _ (codec : Codec) (clocks : Clocks) (lease : Lease) (result : Document)
    (successors : List Successor) (on_publish : Database → Result Database)
    (later db : Database) where
  -- The tables between the steps of a publication that returned `p` and left `final`.
  pub record Steps (p : PublishedResult) (final : Database) : Type 0 where
    pub row : Job
    pub found : first_where (active clocks lease) db.jobs ≡ some row
    pub stored : Database
    pub handed : Database
    pub recorded : Database
    pub inserts :
        insert_result
          (result_row clocks lease result row)
          (record db { jobs = update_where (active clocks lease) (published_row clocks) db.jobs })
        ≡ ok stored
    pub hands : enqueue_all clocks row.owner_id successors stored ≡ ok handed
    pub records : record_terminal codec clocks lease.job_id (some result) handed ≡ ok recorded
    pub calls : on_publish recorded ≡ ok final
    pub returns : p ≡ published_result lease result row

  pub publish-Steps :
      (p : PublishedResult) (final : Database)
      → publish codec clocks lease result successors on_publish later db ≡ ok (p, final)
      → Steps p final
  unfolding publish publish_row
  publish-Steps p final h = elim (Option-cases (first_where (active clocks lease) db.jobs)) [
    | inl missing ↦ ground arith
    | inr (r, found) ↦
        let updated = record db {
          jobs = update_where (active clocks lease) (published_row clocks) db.jobs;
        } in
        let done =
          catch_integrity-ok lease.job_id
            (publish_row codec clocks lease result successors on_publish r db) (rw found at h) in
        let (stored, inserts, h1) =
          >>=-eq-ok (insert_result (result_row clocks lease result r) updated) _ done in
        let (handed, hands, h2) =
          >>=-eq-ok (enqueue_all clocks r.owner_id successors stored) _ h1 in
        let (recorded, records, h3) =
          >>=-eq-ok (record_terminal codec clocks lease.job_id (some result) handed) _ h2 in
        let (last, calls, h4) = >>=-eq-ok (on_publish recorded) _ h3 in
        let same : last ≡ final = cc in
        record {
          row = r;
          found = found;
          stored = stored;
          handed = handed;
          recorded = recorded;
          inserts = inserts;
          hands = hands;
          records = records;
          calls = calls ∙ ap ok same;
          returns = cc;
        }
  ]

  -- A publication makes PUBLISH transitions only and appends its successors, where the callback
  -- itself makes no transition.
  pub publish-Evolution :
      (p : PublishedResult) (final : Database)
      → ((d d' : Database) → on_publish d ≡ ok d' → Evolution quiet d.jobs d'.jobs)
      → publish codec clocks lease result successors on_publish later db ≡ ok (p, final)
      → Evolution (only JobEvent.publish) db.jobs final.jobs
  publish-Evolution p final callback h =
      let s = publish-Steps p final h in
      let updated = update_where (active clocks lease) (published_row clocks) db.jobs in
      let quiet_publish : (e : JobEvent) → quiet e ≡ true → only JobEvent.publish e ≡ true =
        λ e q. cc in
      let later : Evolution quiet s.stored.jobs final.jobs =
        Evolution-trans quiet s.stored.jobs s.handed.jobs final.jobs
          (enqueue_all-Evolution clocks s.row.owner_id successors s.stored s.hands)
          (rw
            (← recorded-jobs_of codec clocks lease.job_id (some result) s.handed s.recorded
              s.records)
            (callback s.recorded final s.calls)) in
      Evolution-trans (only JobEvent.publish) db.jobs updated final.jobs
        (published-Evolution clocks lease db)
        (Evolution-mono quiet (only JobEvent.publish) updated final.jobs quiet_publish (
          rw
            (← inserted-jobs (result_row clocks lease result s.row) (record db { jobs = updated })
              s.stored s.inserts)
            later))
