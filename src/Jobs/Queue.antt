-- ===== src/Jobs/Queue.antt =====
-- backend/services/jobs/queue.py, the operations of a lease: claim, start, heartbeat, retry, release,
-- cancel, fail and the writes of a running stage. Each function is one transaction: it takes the
-- tables and gives them back, or raises and leaves them as they were.
pub mod Owner
pub mod Publish
pub mod Refines
pub mod Transitions
pub mod Publication
pub mod History
pub mod Fencing
pub mod Exclusion
pub mod Lifetimes
pub mod Consistency
pub mod Results
pub mod ResultsPublish
pub mod HistoryConsistent
use ovrly.Prelude.{
  ℕ, ◌+◌, ◌≡◌, Bool, true, false, not, ◌&&◌, ◌||◌, Option, none, some, List, [], ◌∷◌, String,
  str_eq, ◌==◌, ltb, leb, sql_lt, sql_gt, if◌then◌else◌, update_where, first_where, count_where,
  any, select,
}
use ovrly.Json.{Document, Codec}
use ovrly.Jobs.States.{JobState, is_queued, is_state_leased, is_running, in_leased_states}
use ovrly.Jobs.Retries.{RetryClass}
use ovrly.Jobs.Retries.Caps.{counted}
use ovrly.Jobs.Tables.{
  Job, Database, Clocks, Lease, ClaimedJob, Error, Result, ok, err, lease_lost, ◌>>=◌, sql_str_eq,
}
use ovrly.Pipeline.Analysis.{record_terminal, resolve_due}

-- `JobQueue._owned`
unfoldable pub owned : Lease → Job → Bool
owned lease r =
    r.id == lease.job_id
    && (sql_str_eq r.lease_owner lease.worker_id
        && (r.fencing_token == lease.fencing_token && r.generation == lease.generation))

-- `JobQueue._cleared`
abbrev pub cleared : Clocks → Job → Job
cleared clocks r = record r { lease_owner = none; lease_expires_at = none; updated_at = clocks.now }

-- The values that expiry, release and retry share: a requested cancellation becomes effective.
abbrev pub give_back : Clocks → Job → Job
give_back clocks r = cleared clocks (record r {
  state = if r.cancel_requested then JobState.cancelled else JobState.queued;
  generation = r.generation + (if r.cancel_requested then 1 else 0);
})

abbrev pub overdue : Clocks → Job → Bool
overdue clocks r = in_leased_states r.state && sql_lt r.lease_expires_at clocks.now

abbrev pub expire_overdue : Clocks → List Job → List Job
expire_overdue clocks = update_where (overdue clocks) (give_back clocks)

-- `stage IN (…)`, state and availability of a claimable row; `locked` are the rows that another
-- transaction has locked, which `SKIP LOCKED` passes over.
abbrev pub claimable : Clocks → List String → (ℕ → Bool) → Job → Bool
claimable clocks stages locked r =
    any (str_eq r.key.stage) stages
    && (is_queued r.state && (leb r.available_at clocks.now && not (locked r.id)))

-- `ORDER BY available_at, created_at LIMIT 1`; of equal rows the first of the table.
abbrev pub before : Job → Job → Bool
before a b =
    ltb a.available_at b.available_at
    || (a.available_at == b.available_at && ltb a.created_at b.created_at)

abbrev pub earlier : Job → Option Job → Job
earlier r none = r
earlier r (some best) = if before best r then best else r

unfoldable pub earliest : List Job → Option Job
earliest [] = none
earliest (r ∷ rows) = some (earlier r (earliest rows))

unfoldable pub candidate : Clocks → List String → (ℕ → Bool) → List Job → Option Job
unfolding earliest
candidate clocks stages locked rows = earliest (select (claimable clocks stages locked) rows)

abbrev pub leased_to : Clocks → String → ℕ → Job → Job
leased_to clocks worker_id lease_time r = record r {
  state = JobState.leased;
  lease_owner = some worker_id;
  lease_expires_at = some (clocks.now + lease_time);
  fencing_token = r.fencing_token + 1;
  attempts = r.attempts + 1;
  updated_at = clocks.now;
}

abbrev pub claimed : Clocks → String → ℕ → Job → ClaimedJob
claimed clocks worker_id lease_time r = record {
  lease = record {
    job_id = r.id;
    worker_id = worker_id;
    fencing_token = r.fencing_token + 1;
    generation = r.generation;
    expires_at = clocks.now + lease_time;
  };
  key = r.key;
  payload = r.payload;
  attempts = r.attempts + 1;
  retry_counts = r.retry_counts;
  provider_request_id = r.provider_request_id;
  stage_data = r.stage_data;
}

-- The lease and the returned row, where the scalar subquery found a row.
abbrev pub lease_candidate :
    Clocks → String → ℕ → Option Job → Database → Option ClaimedJob × Database
lease_candidate clocks worker_id lease_time none db = (none, db)
lease_candidate clocks worker_id lease_time (some r) db = (
  some (claimed clocks worker_id lease_time r),
  record db {
    jobs = update_where (λ s. s.id == r.id) (leased_to clocks worker_id lease_time) db.jobs;
  },
)

abbrev pub is_empty : List String → Bool
is_empty [] = true
is_empty (_ ∷ _) = false

-- `JobQueue.claim`; `lease_time` is `lease_seconds` in microseconds.
unfoldable pub claim :
    Clocks → String → List String → ℕ → (ℕ → Bool) → Database → Option ClaimedJob × Database
claim clocks worker_id stages lease_time locked db =
    if is_empty stages
    then (none, db)
    else let resolved = resolve_due clocks db in
      let expired = record resolved { jobs = expire_overdue clocks resolved.jobs } in
      lease_candidate clocks worker_id lease_time (candidate clocks stages locked expired.jobs)
        expired

-- `UPDATE jobs … WHERE`, with whether one row was updated.
abbrev pub update_jobs : (Job → Bool) → (Job → Job) → Database → Bool × Database
update_jobs p f db = (count_where p db.jobs == 1, record db { jobs = update_where p f db.jobs })

abbrev pub owned_leased : Lease → Job → Bool
owned_leased lease r = owned lease r && in_leased_states r.state

abbrev pub startable : Lease → Job → Bool
startable lease r = owned lease r && (is_state_leased r.state && not r.cancel_requested)

-- The condition of every write of a running stage.
abbrev pub active : Clocks → Lease → Job → Bool
active clocks lease r =
    owned lease r
    && (is_running r.state
        && (not r.cancel_requested && sql_gt r.lease_expires_at clocks.clock_timestamp))

-- `JobQueue.start`
unfoldable pub start : Clocks → Lease → Database → Bool × Database
start clocks lease =
    update_jobs (startable lease)
      (λ r. record r { state = JobState.running; updated_at = clocks.now })

abbrev pub beating : Clocks → Lease → Job → Bool
beating clocks lease r =
    owned lease r && (in_leased_states r.state && sql_gt r.lease_expires_at clocks.clock_timestamp)

abbrev cancel_requested_of : Option Job → Database → Result (Bool × Database)
cancel_requested_of none db = err lease_lost
cancel_requested_of (some r) db = ok (r.cancel_requested, db)

-- `JobQueue.heartbeat`: whether cancellation is requested, or `LeaseLost`.
unfoldable pub heartbeat : Clocks → Lease → ℕ → Database → Result (Bool × Database)
heartbeat clocks lease lease_time db =
    cancel_requested_of (first_where (beating clocks lease) db.jobs) (record db {
      jobs =
          update_where (beating clocks lease)
            (λ r. record r {
              lease_expires_at = some (clocks.now + lease_time);
              updated_at = clocks.now;
            })
            db.jobs;
    })

-- `JobQueue.save_stage_data`, and `LeaseLost` where it updates no row.
unfoldable pub save_stage_data : Clocks → Lease → Document → Database → Result (Unit {0} × Database)
save_stage_data clocks lease document db =
    let (one, saved) =
      update_jobs (active clocks lease)
        (λ r. record r { stage_data = document; updated_at = clocks.now }) db in
    if one then ok (tt, saved) else err lease_lost

-- `JobQueue.lock_active`: it locks the row and changes nothing.
unfoldable pub lock_active : Clocks → Lease → Database → Result (Unit {0})
lock_active clocks lease db =
    if count_where (active clocks lease) db.jobs == 0 then err lease_lost else ok tt

-- `JobQueue.release`
unfoldable pub release : Clocks → Lease → Database → Bool × Database
release clocks lease = update_jobs (owned_leased lease) (give_back clocks)

-- `JobQueue.retry`; `delay` is `delay_seconds` in microseconds.
unfoldable pub retry : Clocks → Lease → RetryClass → ℕ → Database → Bool × Database
unfolding counted
retry clocks lease class delay = update_jobs (owned_leased lease) (λ r.
    let given = give_back clocks r in
    record given {
      available_at = clocks.now + delay;
      retry_class = some class;
      retry_counts = counted class r.retry_counts;
    })

-- `JobQueue.cancel`
unfoldable pub cancel : Clocks → Lease → Database → Bool × Database
cancel clocks lease = update_jobs (owned_leased lease) (λ r. cleared clocks (record r {
  state = JobState.cancelled;
  cancel_requested = true;
  generation = r.generation + 1;
}))

-- `JobQueue.record_request_id`, and `LeaseLost` where it updates no row.
unfoldable pub record_request_id : Clocks → Lease → String → Database → Result (Unit {0} × Database)
record_request_id clocks lease request_id db =
    let (one, recorded) =
      update_jobs (owned_leased lease)
        (λ r. record r { provider_request_id = some request_id; updated_at = clocks.now }) db in
    if one then ok (tt, recorded) else err lease_lost

abbrev pub failed_with : Clocks → String → Option RetryClass → Job → Job
failed_with clocks reason class r =
    cleared clocks
      (record r { state = JobState.failed; failure = some reason; retry_class = class })

-- `JobQueue.fail`: where the row is updated the terminal state is recorded in the transaction.
unfoldable pub fail :
    Codec → Clocks → Lease → String → Option RetryClass → Database → Result (Bool × Database)
fail codec clocks lease reason class db =
    let (one, updated) = update_jobs (owned_leased lease) (failed_with clocks reason class) db in
    if one
    then (do recorded ← record_terminal codec clocks lease.job_id none updated; ok (true, recorded))
    else ok (false, updated)
