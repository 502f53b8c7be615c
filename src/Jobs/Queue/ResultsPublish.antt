-- ===== src/Jobs/Queue/ResultsPublish.antt =====
-- `JobQueue.publish` of backend/services/jobs/queue.py keeps the tables consistent and meets no
-- duplicate result; so every sequence of transactions keeps them consistent.
use ovrly.Prelude.{
  ℕ, ◌≡◌, ◌≢◌, ◌∙◌, sym, ap, refl, Bool, true, false, ◌||◌, Option, some, List, [], ◌∷◌, ◌++◌, All,
  arith, ◌==◌, ==_iff, any, first_where, update_where,
}
use ovrly.Json.{Document, Codec}
use ovrly.Jobs.States.{JobState, JobEvent}
use ovrly.Jobs.Tables.{
  Job, JobResult, StageKey, Database, Clocks, Lease, PublishedResult, Result, ok, key_eq, >>=-eq-ok,
  Enqueued, Error, ok_injective,
}
use ovrly.Jobs.Spec.{quiet, only}
use ovrly.Jobs.Spec.Unique.{
  UniqueRows, UniqueRows-update_where, In, In-first_where, In-unique_id, In-unique_key, key_eq-eq,
}
use ovrly.Jobs.Spec.Evolution.{Evolution-refl}
use ovrly.Pipeline.Analysis.{record_terminal, record_terminal-rest}
use ovrly.Jobs.Queue.{active, owned}
use ovrly.Jobs.Queue.Owner.{enqueue}
use ovrly.Jobs.Queue.Publish.{
  Successor, published_row, insert_result, result_row, enqueue_all, publish, publish_row,
  published_result,
}
use ovrly.Jobs.Queue.Publication.{
  publish-Steps, recorded-jobs_of, published-Evolution, enqueue_all-Evolution,
}
use ovrly.Jobs.Queue.History.{IsQuietCallback}
use ovrly.Jobs.Queue.Consistency.{IsConsistent, HasRow, HasResult, Table-HasRow}
use ovrly.Jobs.Queue.Results.{All-update_where, In-update_where_fit, keep-IsConsistent}

active-row :
    (clocks : Clocks) (lease : Lease) (r : Job)
    → active clocks lease r ≡ true
    → (r.id ≡ lease.job_id) × (r.state ≡ JobState.running)
unfolding owned
active-row clocks lease r h = ground arith

pub enqueue-results :
    (clocks : Clocks) (id : ℕ) (key : StageKey) (payload : Document) (owner_id : Option ℕ)
    (db : Database) {e : Enqueued} {db' : Database}
    → enqueue clocks id key payload owner_id db ≡ ok (e, db')
    → db'.job_results ≡ db.job_results
unfolding enqueue
enqueue-results clocks id key payload owner_id db h = ground arith

no_result :
    (rows : List Job) (r : Job) (n : ℕ) (results : List JobResult)
    → UniqueRows rows
    → In r rows
    → r.id ≡ n
    → r.state ≡ JobState.running
    → All (HasRow rows) results
    → any (λ s. s.job_id == n || key_eq s.key r.key) results ≡ false
no_result rows r n [] u i id running h = refl
no_result rows r n (res ∷ results) u i id running h =
    let (s, j, sid, skey, published) = h.0 in
    let other : s ≢ r = λ same.
      running_not_published (sym running ∙ ap (λ (y : Job). y.state) (sym same) ∙ published) in
    let rest = no_result rows r n results u i id running h.1 in
    let ids : (res.job_id == n) ≡ false =
      not_true _
        (λ e. other (In-unique_id s r rows u j i (sid ∙ (==_iff res.job_id n).0 e ∙ sym id))) in
    let keys : key_eq res.key r.key ≡ false =
      not_true _ (λ e. other (In-unique_key s r rows u j i (skey ∙ key_eq-eq res.key r.key e))) in
    rw (ids, keys) rest
  where
    running_not_published : JobState.running ≡ JobState.published → ⊥
    running_not_published e = cc

    not_true : (b : Bool) → ¬ (b ≡ true) → b ≡ false
    not_true true h = absurd (h refl)
    not_true false h = refl

All-append {ℓ} :
    {A : Type ℓ} (P : A → Type 0) (xs : List A) (x : A) → All P xs → P x → All P (xs ++ x ∷ [])
All-append P [] x h k = (k, tt)
All-append P (y ∷ ys) x h k = (h.0, All-append P ys x h.1 k)

any-append_left :
    (n : ℕ) (xs : List JobResult) (x : JobResult)
    → any (λ s. s.job_id == n) xs ≡ true
    → any (λ s. s.job_id == n) (xs ++ x ∷ []) ≡ true
any-append_left n [] x h = cc
any-append_left n (y ∷ ys) x h = ground (arith, any-append_left n ys x)

any-append_right :
    (n : ℕ) (xs : List JobResult) (x : JobResult)
    → x.job_id ≡ n
    → any (λ s. s.job_id == n) (xs ++ x ∷ []) ≡ true
any-append_right n [] x h = ground arith
any-append_right n (y ∷ ys) x h = ground (arith, any-append_right n ys x h)

enqueue_all-results :
    (clocks : Clocks) (owner_id : Option ℕ) (successors : List Successor) (db : Database)
    {db' : Database}
    → enqueue_all clocks owner_id successors db ≡ ok db'
    → db'.job_results ≡ db.job_results
unfolding enqueue_all
enqueue_all-results clocks owner_id [] db h = ground arith
enqueue_all-results clocks owner_id (s ∷ rest) db {db'} h =
    let ((e, mid), inserted, later) =
      >>=-eq-ok (enqueue clocks s.id s.key s.payload owner_id db) _ h in
    enqueue_all-results clocks owner_id rest mid later
    ∙ enqueue-results clocks s.id s.key s.payload owner_id db inserted

pub recorded_results :
    (codec : Codec) (clocks : Clocks) (n : ℕ) (o : Option Document) (d d' : Database)
    → record_terminal codec clocks n o d ≡ ok d'
    → d'.job_results ≡ d.job_results
recorded_results codec clocks n o d d' h = ground (arith, record_terminal-rest codec clocks n o d)

-- The tables once the row of an active lease is published and its result is stored.
abbrev pub stored_db : Clocks → Lease → Document → Job → Database → Database
stored_db clocks lease result r db = record db {
  jobs = update_where (active clocks lease) (published_row clocks) db.jobs;
  job_results = db.job_results ++ result_row clocks lease result r ∷ [];
}

module _ (codec : Codec) (clocks : Clocks) (lease : Lease) (result : Document) (db : Database)
    (r : Job) (c : IsConsistent db)
    (found : first_where (active clocks lease) db.jobs ≡ some r) where
  insert_result-ok :
      insert_result
        (result_row clocks lease result r)
        (record db { jobs = update_where (active clocks lease) (published_row clocks) db.jobs })
      ≡ ok (stored_db clocks lease result r db)
  insert_result-ok =
      let (i, fits) = In-first_where (active clocks lease) db.jobs found in
      let (id, running) = active-row clocks lease r fits in
      rw (no_result db.jobs r lease.job_id db.job_results c.unique i id running c.results_have_rows)

  -- The tables after the row is published and its result is stored are consistent.
  stored-IsConsistent : IsConsistent (stored_db clocks lease result r db)
  stored-IsConsistent = record {
    unique =
        UniqueRows-update_where (active clocks lease) (published_row clocks) db.jobs
          (λ s. (refl, refl)) c.unique;
    results_have_rows =
        let (i, fits) = In-first_where (active clocks lease) db.jobs found in
        let (id, running) = active-row clocks lease r fits in
        All-append (HasRow (stored_db clocks lease result r db).jobs) db.job_results
          (result_row clocks lease result r)
          (Table-HasRow (only JobEvent.publish) db.jobs (stored_db clocks lease result r db).jobs
            db.job_results refl (published-Evolution clocks lease db).0 c.results_have_rows)
          (
            published_row clocks r,
            In-update_where_fit (active clocks lease) (published_row clocks) r db.jobs fits i,
            id,
            refl,
            refl,
          );
    rows_have_results =
        All-update_where (HasResult db.job_results)
          (HasResult (stored_db clocks lease result r db).job_results) (active clocks lease)
          (published_row clocks) db.jobs
          (λ s fits has p.
            any-append_right s.id db.job_results (result_row clocks lease result r)
              (sym (active-row clocks lease s fits).0))
          (λ s other has p.
            any-append_left s.id db.job_results (result_row clocks lease result r) (has p))
          c.rows_have_results;
  }

-- A publication that returns keeps the tables consistent, where its callback does.
pub publish-IsConsistent :
    (codec : Codec) (clocks : Clocks) (lease : Lease) (result : Document)
    (successors : List Successor) (on_publish : Database → Result Database) (later db : Database)
    (p : PublishedResult) (final : Database)
    → IsQuietCallback on_publish
    → IsConsistent db
    → publish codec clocks lease result successors on_publish later db ≡ ok (p, final)
    → IsConsistent final
publish-IsConsistent codec clocks lease result successors on_publish later db p final q c h =
    let s = publish-Steps codec clocks lease result successors on_publish later db p final h in
    let start : s.stored ≡ stored_db clocks lease result s.row db =
      ok_injective Error
        (sym s.inserts ∙ insert_result-ok codec clocks lease result db s.row c s.found) in
    let c₁ : IsConsistent s.stored =
      rw start (stored-IsConsistent codec clocks lease result db s.row c s.found) in
    let c₂ =
      keep-IsConsistent quiet s.stored s.handed refl refl
        (enqueue_all-Evolution clocks s.row.owner_id successors s.stored s.hands)
        (enqueue_all-results clocks s.row.owner_id successors s.stored s.hands) c₁ in
    let c₃ =
      keep-IsConsistent quiet s.handed s.recorded refl refl
        (rw (recorded-jobs_of codec clocks lease.job_id (some result) s.handed s.recorded s.records)
          (Evolution-refl quiet s.handed.jobs))
        (recorded_results codec clocks lease.job_id (some result) s.handed s.recorded s.records)
        c₂ in
    let (v, same) = q s.recorded final s.calls in
    keep-IsConsistent quiet s.recorded final refl refl v same c₃

-- On consistent tables a worker whose lease is active publishes: with no successor to enqueue,
-- publish returns the stored result where recording the terminal state and the callback return,
-- and does not reject it as a duplicate.
pub publish-active :
    (codec : Codec) (clocks : Clocks) (lease : Lease) (result : Document)
    (on_publish : Database → Result Database) (later db : Database) (r : Job)
    (recorded final : Database)
    → IsConsistent db
    → first_where (active clocks lease) db.jobs ≡ some r
    → record_terminal codec clocks lease.job_id (some result) (stored_db clocks lease result r db)
      ≡ ok recorded
    → on_publish recorded ≡ ok final
    → publish codec clocks lease result [] on_publish later db
      ≡ ok (published_result lease result r, final)
unfolding publish publish_row enqueue_all
publish-active codec clocks lease result on_publish later db r recorded final c found h k =
    rw (found, insert_result-ok codec clocks lease result db r c found, h, k) refl
