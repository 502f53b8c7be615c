-- ===== src/Jobs/Tables.antt =====
-- The rows that the job queue reads and writes: backend/services/jobs/models.py, the tables of
-- backend/services/models.py that a queue transaction touches, and the dataclasses of
-- backend/services/jobs/queue.py. UUIDs and timestamps (microseconds) are numbers.
use ovrly.Prelude.{
  Outcome, ℕ, Bool, false, ◌&&◌, Option, none, some, List, String, str_eq, ◌==◌, Dict,
}
pub use ovrly.Prelude.{ok, err, ◌>>=◌, >>=-eq-ok, ok_injective}
use ovrly.Json.{Document}
use ovrly.Jobs.States.{JobState, JobStatus}
use ovrly.Jobs.Retries.{RetryClass}

pub record StageKey : Type 0 where
  pub version : ℕ
  pub stage : String
  pub input_hash : String

-- A row of `jobs`; the three columns of the stage key are one field, and the columns that no
-- operation of the queue names (`cancel_outcome`) are left out.
pub record Job : Type 0 where
  pub id : ℕ
  pub owner_id : Option ℕ
  pub key : StageKey
  pub state : JobState
  pub cancel_requested : Bool
  pub fencing_token : ℕ
  pub generation : ℕ
  pub attempts : ℕ
  pub lease_owner : Option String
  pub lease_expires_at : Option ℕ
  pub available_at : ℕ
  pub payload : Document
  pub stage_data : Document
  pub failure : Option String
  pub retry_class : Option RetryClass
  pub retry_counts : Dict ℕ
  pub provider_request_id : Option String
  pub created_at : ℕ
  pub updated_at : ℕ

-- A row of `job_results`.
pub record JobResult : Type 0 where
  pub job_id : ℕ
  pub key : StageKey
  pub fencing_token : ℕ
  pub generation : ℕ
  pub result : Document
  pub published_at : ℕ

pub record AsrRequest : Type 0 where
  pub id : ℕ
  pub job_id : Option ℕ
  pub account_id : String
  pub model : String
  pub audio_seconds : ℕ
  pub created_at : ℕ
  pub outcome : String
  pub result : Option Document
  pub retry_index : ℕ
  pub retry_after : Option ℕ

pub record UploadText : Type 0 where
  pub id : ℕ
  pub job_id : Option ℕ
  pub media_job_id : Option ℕ
  pub batches : List Document
  pub completion : Option Document

-- The columns of `investigations` that the queue reads.
pub record Investigation : Type 0 where
  pub id : ℕ
  pub owner_id : ℕ
  pub source_kind : String

pub record MediaAnalysis : Type 0 where
  pub media_job_id : ℕ
  pub investigation_id : ℕ
  pub grace_seconds : ℕ
  pub text_deadline : Option ℕ
  pub text_expired : Bool

pub record Database : Type 0 where
  pub jobs : List Job
  pub job_results : List JobResult
  pub asr_requests : List AsrRequest
  pub upload_text : List UploadText
  pub investigations : List Investigation
  pub media_analysis : List MediaAnalysis

-- The clocks of one transaction: `func.now()` (its start), `func.clock_timestamp()`, and Python's
-- `datetime.now(UTC)`.
pub record Clocks : Type 0 where
  pub now : ℕ
  pub clock_timestamp : ℕ
  pub wall : ℕ

pub record Lease : Type 0 where
  pub job_id : ℕ
  pub worker_id : String
  pub fencing_token : ℕ
  pub generation : ℕ
  pub expires_at : ℕ

pub record ClaimedJob : Type 0 where
  pub lease : Lease
  pub key : StageKey
  pub payload : Document
  pub attempts : ℕ
  pub retry_counts : Dict ℕ
  pub provider_request_id : Option String
  pub stage_data : Document

pub record Enqueued : Type 0 where
  pub job_id : ℕ
  pub created : Bool

pub record PublishedResult : Type 0 where
  pub job_id : ℕ
  pub key : StageKey
  pub fencing_token : ℕ
  pub generation : ℕ
  pub result : Document

pub data CancelOutcome : Type 0 where
  effective requested not_cancellable : CancelOutcome

-- The messages of `_rejection_reason`, and that of the duplicate result.
pub data Reason : Type 0 where
  no_longer_exists token_changed owner_changed cancellation_requested result_exists : Reason
  generation_changed job_is : JobState → Reason

-- What a transaction raises, which rolls it back.
pub data Error : Type 0 where
  lease_lost : Error
  publish_rejected : ℕ → Reason → Error
  -- `ValueError("A stage key cannot be reused across job owners")`
  foreign_stage_key : Error
  -- `NoResultFound` of `.one()`
  no_result_found : Error
  -- `KeyError`, `ValueError` or `TypeError` on a stored document
  invalid_document : Error
  integrity_error : Error

abbrev pub Result {ℓ} : Type ℓ → Type ℓ
Result A = Outcome Error A

-- Equality of stage keys: the three columns compared by SQL.
abbrev pub key_eq : StageKey → StageKey → Bool
key_eq a b = a.version == b.version && str_eq a.stage b.stage && str_eq a.input_hash b.input_hash

abbrev pub sql_str_eq : Option String → String → Bool
sql_str_eq none _ = false
sql_str_eq (some a) b = str_eq a b

-- The status that a row stands for: `JobStatus(JobState(row.state), bool(row.cancel_requested))`.
abbrev pub status : Job → JobStatus
status r = record { state = r.state; cancel_requested = r.cancel_requested }
