-- ===== src/Jobs/Queue/Refines.antt =====
-- Each operation of backend/services/jobs/queue.py is the event of backend/services/jobs/states.py
-- that it stands for: every row of the table stays as it was or makes legal transitions of that
-- event, with the fencing token and the generation that the specification counts.
use ovrly.Prelude.{
  ℕ, ◌+◌, ◌≡◌, ◌⊎◌, &&-right, refl, inl, inr, Bool, true, Option, none, some, List, String, arith,
  update_where,
}
use ovrly.Json.{Document, Codec}
use ovrly.Jobs.States.{JobState, JobEvent, in_leased_states}
use ovrly.Jobs.Retries.{RetryClass}
use ovrly.Jobs.Tables.{Job, Database, Clocks, Lease, ok}
use ovrly.Jobs.Spec.{view, advance, only, quiet, Evolves-one, Evolves-none}
use ovrly.Jobs.Spec.Evolution.{Evolution, Evolution-update_where}
use ovrly.Pipeline.Analysis.{record_terminal-rest}
use ovrly.Jobs.Queue.{
  owned, give_back, start, startable, owned_leased, heartbeat, save_stage_data, release, retry,
  cancel, record_request_id, fail, failed_with, active, beating,
}

abbrev pub Same : Job → Job → Type 0
Same a b = (b.id ≡ a.id) × (b.key ≡ a.key) × (b.owner_id ≡ a.owner_id)

-- An update whose rows each make one event.
pub Evolution-by_event :
    (e : JobEvent) (p : Job → Bool) (f : Job → Job) (rows : List Job)
    → ((r : Job) → p r ≡ true → advance (view r) e ≡ some (view (f r)))
    → ((r : Job) → Same r (f r))
    → Evolution (only e) rows (update_where p f rows)
Evolution-by_event e p f rows h same =
    Evolution-update_where (only e) p f rows
      (λ r fits. Evolves-one e r (f r) (h r fits) (same r).0 (same r).1 (same r).2)
      (λ r. ((same r).0, (same r).1))

-- An update that no event stands for.
pub Evolution-quiet :
    (p : Job → Bool) (f : Job → Job) (rows : List Job)
    → ((r : Job) → view (f r) ≡ view r)
    → ((r : Job) → Same r (f r))
    → Evolution quiet rows (update_where p f rows)
Evolution-quiet p f rows h same =
    Evolution-update_where quiet p f rows
      (λ r _. Evolves-none quiet r (f r) (h r) (same r).0 (same r).1 (same r).2)
      (λ r. ((same r).0, (same r).1))

pub give_back_row :
    (clocks : Clocks) (e : JobEvent) (r : Job)
    → (e ≡ JobEvent.release) ⊎ ((e ≡ JobEvent.retry) ⊎ (e ≡ JobEvent.expire))
    → in_leased_states r.state ≡ true
    → advance (view r) e ≡ some (view (give_back clocks r))
unfolding advance
give_back_row clocks JobEvent.release r w h = ground arith
give_back_row clocks e r w h = ground arith

module _ (clocks : Clocks) (lease : Lease) (db : Database) where
  -- Starting makes START transitions only.
  pub start-Evolution : Evolution (only JobEvent.start) db.jobs (start clocks lease db).1.jobs
  unfolding start
  start-Evolution =
      Evolution-by_event JobEvent.start _ _ db.jobs start_row (λ r. (refl, refl, refl))
    where
      start_row :
          (r : Job)
          → startable lease r ≡ true
          → advance (view r) JobEvent.start
            ≡ some (view (record r { state = JobState.running; updated_at = clocks.now }))
      start_row r h = unfold advance in ground arith

  -- Releasing makes RELEASE transitions only.
  pub release-Evolution : Evolution (only JobEvent.release) db.jobs (release clocks lease db).1.jobs
  unfolding release
  release-Evolution =
      Evolution-by_event JobEvent.release _ _ db.jobs
        (λ r h. give_back_row clocks JobEvent.release r (inl refl) (&&-right (owned lease r) _ h))
        (λ r. (refl, refl, refl))

  -- Scheduling a retry makes RETRY transitions only.
  pub retry-Evolution :
      (class : RetryClass) (delay : ℕ)
      → Evolution (only JobEvent.retry) db.jobs (retry clocks lease class delay db).1.jobs
  unfolding retry
  retry-Evolution class delay =
      Evolution-by_event JobEvent.retry _ _ db.jobs
        (λ r h.
          give_back_row clocks JobEvent.retry r (inr (inl refl)) (&&-right (owned lease r) _ h))
        (λ r. (refl, refl, refl))

  cancel_row :
      (r : Job)
      → in_leased_states r.state ≡ true
      → advance (view r) JobEvent.cancel
        ≡ some (
            view (record r {
              state = JobState.cancelled;
              cancel_requested = true;
              generation = r.generation + 1;
            }))
  unfolding advance
  cancel_row r h = ground arith

  -- The acknowledgement of a cancellation makes CANCEL transitions only.
  pub cancel-Evolution : Evolution (only JobEvent.cancel) db.jobs (cancel clocks lease db).1.jobs
  unfolding cancel
  cancel-Evolution =
      Evolution-by_event JobEvent.cancel _ _ db.jobs
        (λ r h. cancel_row r (&&-right (owned lease r) _ h)) (λ r. (refl, refl, refl))

  fail_row :
      (reason : String) (class : Option RetryClass) (r : Job)
      → in_leased_states r.state ≡ true
      → advance (view r) JobEvent.fail ≡ some (view (failed_with clocks reason class r))
  unfolding advance
  fail_row reason class r h = ground arith

  -- Failing makes FAIL transitions only.
  pub fail-Evolution :
      (codec : Codec) (reason : String) (class : Option RetryClass) {done : Bool} {db' : Database}
      → fail codec clocks lease reason class db ≡ ok (done, db')
      → Evolution (only JobEvent.fail) db.jobs db'.jobs
  unfolding fail
  fail-Evolution codec reason class {db' = db'} h =
      let failed = update_where (owned_leased lease) (failed_with clocks reason class) db.jobs in
      let same : db'.jobs ≡ failed = ground (
        arith,
        record_terminal-rest codec clocks lease.job_id none (record db { jobs = failed }),
      ) in
      rw same (
        Evolution-by_event JobEvent.fail _ _ db.jobs
          (λ r k. fail_row reason class r (&&-right (owned lease r) _ k)) (λ r. (refl, refl, refl)))

  -- A heartbeat, saved stage data and a recorded request id make no transition.
  pub heartbeat-Evolution :
      (lease_time : ℕ) {requested : Bool} {db' : Database}
      → heartbeat clocks lease lease_time db ≡ ok (requested, db')
      → Evolution quiet db.jobs db'.jobs
  unfolding heartbeat
  heartbeat-Evolution lease_time {db' = db'} h =
      let extended = λ (r : Job). record r {
        lease_expires_at = some (clocks.now + lease_time);
        updated_at = clocks.now;
      } in
      let same : db'.jobs ≡ update_where (beating clocks lease) extended db.jobs = ground arith in
      rw same (
        Evolution-quiet (beating clocks lease) extended db.jobs (λ r. refl)
          (λ r. (refl, refl, refl)))

  pub save_stage_data-Evolution :
      (document : Document) {db' : Database}
      → save_stage_data clocks lease document db ≡ ok (tt, db')
      → Evolution quiet db.jobs db'.jobs
  unfolding save_stage_data
  save_stage_data-Evolution document {db' = db'} h =
      let saved = λ (r : Job). record r { stage_data = document; updated_at = clocks.now } in
      let same : db'.jobs ≡ update_where (active clocks lease) saved db.jobs = ground arith in
      rw same
        (Evolution-quiet (active clocks lease) saved db.jobs (λ r. refl) (λ r. (refl, refl, refl)))

  pub record_request_id-Evolution :
      (request_id : String) {db' : Database}
      → record_request_id clocks lease request_id db ≡ ok (tt, db')
      → Evolution quiet db.jobs db'.jobs
  unfolding record_request_id
  record_request_id-Evolution request_id {db' = db'} h =
      let noted =
        λ (r : Job). record r { provider_request_id = some request_id; updated_at = clocks.now } in
      let same : db'.jobs ≡ update_where (owned_leased lease) noted db.jobs = ground arith in
      rw same
        (Evolution-quiet (owned_leased lease) noted db.jobs (λ r. refl) (λ r. (refl, refl, refl)))
