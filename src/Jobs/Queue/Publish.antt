-- ===== src/Jobs/Queue/Publish.antt =====
-- backend/services/jobs/queue.py, `JobQueue.publish`: one transaction that publishes the row, stores
-- the result, enqueues the successors, records the terminal state and runs the caller's callback.
use ovrly.Prelude.{
  ℕ, not, ◌||◌, Option, none, some, List, [], ◌∷◌, ◌++◌, ◌==◌, if◌then◌else◌, update_where,
  first_where, any,
}
use ovrly.Json.{Document, Codec}
use ovrly.Jobs.States.{JobState, in_leased_states}
use ovrly.Jobs.Tables.{
  StageKey, Job, JobResult, Database, Clocks, Lease, PublishedResult, Reason, Result, ok, err,
  publish_rejected, integrity_error, ◌>>=◌, key_eq, sql_str_eq,
}
use ovrly.Jobs.Queue.{active, cleared}
use ovrly.Jobs.Queue.Owner.{enqueue, get_job}
use ovrly.Pipeline.Analysis.{record_terminal}

abbrev pub published_row : Clocks → Job → Job
published_row clocks r = cleared clocks (record r { state = JobState.published })

-- `job_results.insert()`; the primary key and the unique stage key raise `IntegrityError`.
abbrev pub insert_result : JobResult → Database → Result Database
insert_result row db =
    if any (λ r. r.job_id == row.job_id || key_eq r.key row.key) db.job_results
    then err integrity_error
    else ok (record db { job_results = db.job_results ++ row ∷ [] })

-- A successor with the id that `uuid4()` returns for it.
pub record Successor : Type 0 where
  pub id : ℕ
  pub key : StageKey
  pub payload : Document

unfoldable pub enqueue_all : Clocks → Option ℕ → List Successor → Database → Result Database
enqueue_all clocks owner_id [] db = ok db
enqueue_all clocks owner_id (s ∷ rest) db = do
  (_, db') ← enqueue clocks s.id s.key s.payload owner_id db
  enqueue_all clocks owner_id rest db'

abbrev pub result_row : Clocks → Lease → Document → Job → JobResult
result_row clocks lease result r = record {
  job_id = lease.job_id;
  key = r.key;
  fencing_token = lease.fencing_token;
  generation = lease.generation;
  result = result;
  published_at = clocks.now;
}

abbrev pub published_result : Lease → Document → Job → PublishedResult
published_result lease result r = record {
  job_id = lease.job_id;
  key = r.key;
  fencing_token = lease.fencing_token;
  generation = lease.generation;
  result = result;
}

-- The transaction after its update has returned the row.
unfoldable pub publish_row :
    Codec
    → Clocks
    → Lease
    → Document
    → List Successor
    → (Database → Result Database)
    → Job
    → Database
    → Result (PublishedResult × Database)
publish_row codec clocks lease result successors on_publish r db = do
  let updated = record db {
    jobs = update_where (active clocks lease) (published_row clocks) db.jobs;
  }
  stored ← insert_result (result_row clocks lease result r) updated
  handed ← enqueue_all clocks r.owner_id successors stored
  recorded ← record_terminal codec clocks lease.job_id (some result) handed
  final ← on_publish recorded
  ok (published_result lease result r, final)

-- `JobQueue._rejection_reason`
unfoldable pub rejection_reason : Lease → Database → Reason
rejection_reason lease db = elim (get_job lease.job_id db) [
  | none ↦ Reason.no_longer_exists
  | some r ↦
      if not (r.generation == lease.generation)
      then Reason.generation_changed r.state
      else if not (r.fencing_token == lease.fencing_token)
      then Reason.token_changed
      else if not (in_leased_states r.state)
      then Reason.job_is r.state
      else if not (sql_str_eq r.lease_owner lease.worker_id)
      then Reason.owner_changed
      else if r.cancel_requested
      then Reason.cancellation_requested
      else Reason.job_is r.state
]

-- `except IntegrityError`
abbrev pub catch_integrity :
    ℕ → Result (PublishedResult × Database) → Result (PublishedResult × Database)
catch_integrity job_id (err integrity_error) = err (publish_rejected job_id Reason.result_exists)
catch_integrity job_id r = r

abbrev pub publish_first :
    Codec
    → Clocks
    → Lease
    → Document
    → List Successor
    → (Database → Result Database)
    → (later : Database) → Database
    → Option Job
    → Result (PublishedResult × Database)
publish_first codec clocks lease result successors on_publish later db none =
    err (publish_rejected lease.job_id (rejection_reason lease later))
publish_first codec clocks lease result successors on_publish later db (some r) =
    catch_integrity lease.job_id (publish_row codec clocks lease result successors on_publish r db)

-- `JobQueue.publish`; a callback that is not given is `ok`. `later` are the tables that the fresh
-- connection of `_rejection_reason` reads after the transaction has rolled back.
unfoldable pub publish :
    Codec
    → Clocks
    → Lease
    → Document
    → List Successor
    → (Database → Result Database)
    → (later : Database) → Database
    → Result (PublishedResult × Database)
publish codec clocks lease result successors on_publish later db =
    publish_first codec clocks lease result successors on_publish later db
      (first_where (active clocks lease) db.jobs)
