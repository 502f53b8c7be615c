-- ===== src/Jobs/Queue/Owner.antt =====
-- backend/services/jobs/queue.py, the operations of a job's owner: enqueue, request_cancel, delete,
-- and the reads get and published. The parent file has the operations of a lease.
use ovrly.Prelude.{
  ℕ, ◌+◌, Bool, true, false, not, ◌&&◌, ◌||◌, Option, none, some, List, [], ◌∷◌, ◌++◌, str_eq, ◌==◌,
  opt_eq, sql_eq, if◌then◌else◌, update_where, first_where, count_where, any, select, map,
}
use ovrly.Json.{Document, empty, get_field, Codec, uuid_of}
use ovrly.Jobs.States.{JobState, is_queued, is_deleted, in_leased_states}
use ovrly.Jobs.Tables.{
  StageKey, Job, JobResult, UploadText, Investigation, Database, Clocks, Enqueued, PublishedResult,
  CancelOutcome, Result, ok, err, foreign_stage_key, integrity_error, key_eq,
}

-- A row that `insert(jobs)` makes: the values and the server defaults.
abbrev pub new_job : Clocks → ℕ → StageKey → Document → Option ℕ → Job
new_job clocks id key payload owner_id = record {
  id = id;
  owner_id = owner_id;
  key = key;
  state = JobState.queued;
  cancel_requested = false;
  fencing_token = 0;
  generation = 0;
  attempts = 0;
  lease_owner = none;
  lease_expires_at = none;
  available_at = clocks.now;
  payload = payload;
  stage_data = empty;
  failure = none;
  retry_class = none;
  retry_counts = [];
  provider_request_id = none;
  created_at = clocks.now;
  updated_at = clocks.now;
}

abbrev pub has_key : StageKey → Job → Bool
has_key key r = key_eq r.key key

abbrev pub existing_or_new :
    Clocks
    → ℕ
    → StageKey
    → Document
    → Option ℕ
    → Database
    → Option Job
    → Result (Enqueued × Database)
existing_or_new clocks id key payload owner_id db (some r) =
    if opt_eq r.owner_id owner_id
    then ok (record { job_id = r.id; created = false }, db)
    else err foreign_stage_key
existing_or_new clocks id key payload owner_id db none =
    if any (λ r. r.id == id) db.jobs
    then err integrity_error
    else ok (
      record { job_id = id; created = true },
      record db { jobs = db.jobs ++ new_job clocks id key payload owner_id ∷ [] },
    )

-- `JobQueue.enqueue`; `id` is what `uuid4()` returns. A stage key that exists inserts nothing
-- (`on_conflict_do_nothing`), and the primary key raises `IntegrityError`.
unfoldable pub enqueue :
    Clocks → ℕ → StageKey → Document → Option ℕ → Database → Result (Enqueued × Database)
enqueue clocks id key payload owner_id db =
    existing_or_new clocks id key payload owner_id db (first_where (has_key key) db.jobs)

-- The values of an effective cancellation of a queued job.
abbrev pub cancelled_row : Clocks → Job → Job
cancelled_row clocks r = record r {
  state = JobState.cancelled;
  cancel_requested = true;
  generation = r.generation + 1;
  lease_owner = none;
  lease_expires_at = none;
  updated_at = clocks.now;
}

abbrev pub request_cancel_of : Clocks → ℕ → Option Job → Database → CancelOutcome × Database
request_cancel_of clocks job_id none db = (CancelOutcome.not_cancellable, db)
request_cancel_of clocks job_id (some r) db =
    if is_queued r.state
    then (
      CancelOutcome.effective,
      record db { jobs = update_where (λ s. s.id == job_id) (cancelled_row clocks) db.jobs },
    )
    else if in_leased_states r.state
    then (
      CancelOutcome.requested,
      if r.cancel_requested then db else record db {
        jobs =
            update_where (λ s. s.id == job_id)
              (λ s. record s { cancel_requested = true; updated_at = clocks.now }) db.jobs;
      },
    )
    else (CancelOutcome.not_cancellable, db)

-- `JobQueue.request_cancel`
unfoldable pub request_cancel : Clocks → ℕ → Database → CancelOutcome × Database
request_cancel clocks job_id db =
    request_cancel_of clocks job_id (first_where (λ r. r.id == job_id) db.jobs) db

abbrev pub deletable : ℕ → Job → Bool
deletable job_id r = r.id == job_id && not (is_deleted r.state)

abbrev pub deleted_row : Clocks → Job → Job
deleted_row clocks r = record r {
  state = JobState.deleted;
  generation = r.generation + 1;
  payload = empty;
  stage_data = empty;
  lease_owner = none;
  lease_expires_at = none;
  updated_at = clocks.now;
}

-- The row whose payload may name an investigation, read before the payload is erased.
abbrev pub is_prerequisite : ℕ → Job → Bool
is_prerequisite job_id r =
    r.id == job_id
    && (str_eq r.key.stage "intake"
        || (str_eq r.key.stage "media_validation" || str_eq r.key.stage "upload_asr"))

abbrev pub is_source : ℕ → Option ℕ → Investigation → Bool
is_source identifier owner_id i =
    i.id == identifier && (sql_eq owner_id i.owner_id && str_eq i.source_kind "upload")

abbrev pub fenced_text : UploadText → UploadText
fenced_text t = record t { media_job_id = none; batches = []; completion = none }

abbrev pub fence_row : ℕ → UploadText
fence_row identifier = record {
  id = identifier;
  job_id = none;
  media_job_id = none;
  batches = [];
  completion = none;
}

-- `insert(upload_text).from_select(…).on_conflict_do_update(…)`
abbrev pub fence_source : Option ℕ → Option ℕ → Database → Database
fence_source none owner_id db = db
fence_source (some identifier) owner_id db =
    if any (is_source identifier owner_id) db.investigations
    then record db {
      upload_text =
          if any (λ t. t.id == identifier) db.upload_text
          then update_where (λ t. t.id == identifier) fenced_text db.upload_text
          else db.upload_text ++ fence_row identifier ∷ [];
    }
    else db

abbrev pub fence_prerequisite : Codec → Option Job → Database → Database
fence_prerequisite codec none db = db
fence_prerequisite codec (some r) db =
    fence_source (uuid_of codec (get_field "investigation_id" r.payload)) r.owner_id db

-- The rows of the other tables that hold content of the job.
abbrev pub erase_content : ℕ → Database → Database
erase_content job_id db = record db {
  job_results = select (λ r. not (r.job_id == job_id)) db.job_results;
  asr_requests =
      update_where (λ r. sql_eq r.job_id job_id) (λ r. record r { result = none }) db.asr_requests;
  upload_text =
      update_where (λ t. sql_eq t.job_id job_id || sql_eq t.media_job_id job_id)
        (λ t. record t { batches = []; completion = none }) db.upload_text;
}

-- `JobQueue.delete`
unfoldable pub delete : Codec → Clocks → ℕ → Database → Bool × Database
delete codec clocks job_id db =
    let prerequisite = first_where (is_prerequisite job_id) db.jobs in
    let tombstoned = record db {
      jobs = update_where (deletable job_id) (deleted_row clocks) db.jobs;
    } in
    if count_where (deletable job_id) db.jobs == 1
    then (true, fence_prerequisite codec prerequisite (erase_content job_id tombstoned))
    else (false, tombstoned)

-- `JobQueue.get`
abbrev pub get_job : ℕ → Database → Option Job
get_job job_id db = first_where (λ r. r.id == job_id) db.jobs

abbrev pub of_key : StageKey → JobResult → Bool
of_key key r = key_eq r.key key

abbrev pub as_published : JobResult → PublishedResult
as_published r = record {
  job_id = r.job_id;
  key = r.key;
  fencing_token = r.fencing_token;
  generation = r.generation;
  result = r.result;
}

-- `JobQueue.published`
unfoldable pub published : StageKey → Database → List PublishedResult
published key db = map as_published (select (of_key key) db.job_results)
