-- ===== src/Asr/Reservations.antt =====
-- backend/services/asr/reservations.py: the ledger of speech requests, whose rows reserve quota in
-- rolling windows.
use ovrly.Prelude.{
  ℕ, ◌+◌, ◌*◌, Bool, true, false, not, ◌&&◌, ◌||◌, Option, none, some, List, [], ◌∷◌, ◌++◌, String,
  str_eq, ◌==◌, ltb, sql_eq, if◌then◌else◌, update_where, first_where, any, select, Dict, put,
  Outcome, ok, err, ◌>>=◌,
}
use ovrly.Json.{Document, Codec, get_field, number}
use ovrly.Jobs.Tables.{AsrRequest, Database, Clocks, ClaimedJob, Job, Error}
use ovrly.Jobs.Queue.{lock_active}
use ovrly.Asr.Failures.{
  AsrFailure, SpeechError, speech, queue, of_queue, CallError, hint_of, outcome_of,
}
use ovrly.Asr.Usage.{Settings, windows, fits, billable}

abbrev pub sum_values : Dict ℕ → ℕ
sum_values [] = 0
sum_values (e ∷ d) = e.1 + sum_values d

-- `int(payload.get("speech_retry", 0))`
abbrev pub speech_retry : Codec → Document → Outcome SpeechError ℕ
speech_retry codec payload = elim (get_field "speech_retry" payload) [
  | none ↦ ok 0
  | some (number n) ↦ ok n
  | some v ↦ elim (codec.int v) [ none ↦ err (queue Error.invalid_document) | some n ↦ ok n ]
]

abbrev pub payload_index : Codec → Document → Dict ℕ → Outcome SpeechError ℕ
payload_index codec payload counts =
    (speech_retry codec payload) >>= λ n. ok (n * 100 + sum_values counts)

abbrev pub retry_index : Codec → ClaimedJob → Outcome SpeechError ℕ
retry_index codec job = payload_index codec job.payload job.retry_counts

abbrev pub is_unsafe_to_resend : String → Bool
is_unsafe_to_resend outcome =
    str_eq outcome "reserved"
    || str_eq outcome "uncertain"
    || str_eq outcome "ASRUnknownOutcome"
    || str_eq outcome "completed"

-- `ORDER BY created_at, id`
abbrev pub request_before : AsrRequest → AsrRequest → Bool
request_before a b =
    ltb a.created_at b.created_at || (a.created_at == b.created_at && ltb a.id b.id)

unfoldable pub insert_sorted : AsrRequest → List AsrRequest → List AsrRequest
insert_sorted a [] = a ∷ []
insert_sorted a (b ∷ rows) =
    let rest = insert_sorted a rows in if request_before b a then b ∷ rest else a ∷ b ∷ rows

unfoldable pub sorted : List AsrRequest → List AsrRequest
sorted [] = []
sorted (a ∷ rows) = insert_sorted a (sorted rows)

-- `{row.model: row for row in rows if row.retry_index == index}`
unfoldable pub latest : ℕ → List AsrRequest → Dict AsrRequest → Dict AsrRequest
latest index [] ledger = ledger
latest index (r ∷ rows) ledger =
    latest index rows (if r.retry_index == index then put r.model r ledger else ledger)

abbrev pub is_empty_rows : List AsrRequest → Bool
is_empty_rows [] = true
is_empty_rows (_ ∷ _) = false

abbrev pub job_rows : ℕ → Database → List AsrRequest
job_rows job_id db = sorted (select (λ r. sql_eq r.job_id job_id) db.asr_requests)

abbrev pub is_recorded : Option String → Bool
is_recorded none = false
is_recorded (some _) = true

-- `attempts`
unfoldable pub attempts :
    Codec → Clocks → ClaimedJob → Database → Outcome SpeechError (Dict AsrRequest)
attempts codec clocks job db = do
  _ ← of_queue (lock_active clocks job.lease db)
  let rows = job_rows job.lease.job_id db
  index ←
      (if is_empty_rows rows && is_recorded job.provider_request_id
        then err (speech AsrFailure.unknown_outcome)
        else retry_index codec job)
  ok (latest index rows [])

-- What `reserve_in` is asked for; `id` is the id that `uuid4` returns.
pub record Reservation : Type 0 where
  pub id : ℕ
  pub job_id : ℕ
  pub duration : ℕ
  pub index : ℕ
  pub model : String
  pub timestamp : ℕ
  pub outcome : String

abbrev pub reserved_row : Settings → Reservation → AsrRequest
reserved_row settings q = record {
  id = q.id;
  job_id = some q.job_id;
  account_id = settings.groq_account_id;
  model = q.model;
  audio_seconds = billable settings q.duration;
  created_at = q.timestamp;
  outcome = q.outcome;
  result = none;
  retry_index = q.index;
  retry_after = none;
}

-- `reserve_in`; the advisory lock makes the reservations of one account and model take turns.
unfoldable pub reserve_in :
    Codec → Settings → Reservation → Database → Outcome SpeechError (ℕ × Database)
reserve_in codec settings q db =
    if fits settings (windows settings) (billable settings q.duration) q.timestamp q.model db
    then ok (
      q.id,
      record db {
        asr_requests = db.asr_requests ++ reserved_row settings q ∷ [];
        jobs =
            update_where (λ (r : Job). r.id == q.job_id)
              (λ r. record r { provider_request_id = some (codec.uuid_text q.id) }) db.jobs;
      },
    )
    else err (speech AsrFailure.quota_exhausted)

-- The row that an owner's retry has reserved.
abbrev pub is_reserved_for : ℕ → String → ℕ → AsrRequest → Bool
is_reserved_for job_id model index r =
    sql_eq r.job_id job_id
    && (str_eq r.model model && (r.retry_index == index && str_eq r.outcome "reserved"))

abbrev pub use_reserved : Settings → AsrRequest → Database → Outcome SpeechError (ℕ × Database)
use_reserved settings reserved db =
    if str_eq reserved.account_id settings.groq_account_id
    then ok (
      reserved.id,
      record db {
        asr_requests =
            update_where (λ r. r.id == reserved.id) (λ r. record r { outcome = "uncertain" })
              db.asr_requests;
      },
    )
    else err (speech AsrFailure.unavailable)

abbrev pub begin_with :
    Codec
    → Settings
    → Reservation
    → Option AsrRequest
    → Database
    → Outcome SpeechError (ℕ × Database)
begin_with codec settings q (some reserved) db = use_reserved settings reserved db
begin_with codec settings q none db = reserve_in codec settings q db

-- `begin`; `id` and `timestamp` are what `uuid4` and the clock return.
unfoldable pub begin :
    Codec
    → Settings
    → Clocks
    → ClaimedJob
    → String
    → (duration id timestamp : ℕ) → Database
    → Outcome SpeechError (ℕ × Database)
begin codec settings clocks job model duration id timestamp db = do
  _ ← of_queue (lock_active clocks job.lease db)
  index ← retry_index codec job
  let q : Reservation = record {
    id = id;
    job_id = job.lease.job_id;
    duration = duration;
    index = index;
    model = model;
    timestamp = timestamp;
    outcome = "uncertain";
  }
  begin_with codec settings q
      (first_where (is_reserved_for job.lease.job_id model index) db.asr_requests) db

-- `replay_safe`
unfoldable pub replay_safe : Codec → ℕ → Document → Dict ℕ → Database → Outcome SpeechError Bool
replay_safe codec job_id payload counts db = do
  index ← payload_index codec payload counts
  ok (
      not (
        any (λ r. is_unsafe_to_resend r.outcome)
          (select (λ r. sql_eq r.job_id job_id && r.retry_index == index) db.asr_requests)))

-- `complete`
unfoldable pub complete :
    Clocks
    → ClaimedJob
    → ℕ
    → Option Document
    → Option CallError
    → Database
    → Outcome SpeechError Database
complete clocks job request_id result error db = do
  _ ← of_queue (lock_active clocks job.lease db)
  ok (record db {
    asr_requests =
        update_where (λ r. r.id == request_id && sql_eq r.job_id job.lease.job_id)
          (λ r. record r {
            outcome = outcome_of error;
            result = result;
            retry_after = hint_of error;
          })
          db.asr_requests;
  })
