-- ===== src/Worker/Runtime.antt =====
-- backend/services/worker/runtime.py: what a worker does with one claimed job, and the publication of
-- backend/services/pipeline/publish.py. The transactions of an execution stand one after another,
-- and other processes may change the tables between any two.
use ovrly.Prelude.{
  ℕ, ◌+◌, Bool, true, false, not, ◌&&◌, ◌||◌, Option, none, some, List, [], ◌∷◌, String, str_eq,
  if◌then◌else◌, Outcome, ok, err, ◌>>=◌, is_some,
}
use ovrly.Json.{Document, Codec}
use ovrly.Jobs.Retries.{
  RetryableError, unknown_outcome_error, transient_error, rate_limited_error, provider_cooldown,
  non_retriable_input_error, invalid_model_schema_error, RetryPolicy, RetryDecision, decide,
}
use ovrly.Jobs.Retries.Duration.{Seconds}
use ovrly.Jobs.Tables.{
  Database, Clocks, ClaimedJob, Job, Lease, Error, publish_rejected, no_result_found,
  integrity_error, Result,
}
use ovrly.Jobs.Queue.{start, cancel, release, retry, fail}
use ovrly.Jobs.Queue.Owner.{get_job}
use ovrly.Jobs.Queue.Publish.{Successor, publish}

-- What `_execute` logs when it returns.
pub data Ending : Type 0 where
  cancelled_before_start lost_before_start cancelled_during lost_during : Ending
  retry_scheduled lost_before_retry exhausted released not_released unreleasable : Ending
  failed published cancelled_instead rejected : Ending

-- What leaves `_execute` as an exception and ends the worker's loop: an infrastructure error that
-- nothing catches, an error of a queue operation, or a `TypeError` of `publish_stage`.
pub data Escape : Type 0 where
  infrastructure type_error : Escape
  raised : Error → Escape

-- The result of a stage: its document, the callback of a `StageResult`, and the successors that the
-- handler staged.
pub record StageResult : Type 0 where
  pub result : Document
  pub on_publish : Option (Database → Result Database)
  pub successors : List Successor

module _ (S : Seconds) where
  open S use {Time}

  pub data Handled : Type 0 where
    returns : StageResult → Handled
    cancellation_requested lease_lost infrastructure_error : Handled
    retryable : RetryableError S → Handled
    -- any other exception, with `type(error).__name__`
    fails : String → Handled

  -- What is outside one execution: the clocks of its n-th transaction, what others have done to the
  -- tables before it, and whether the database fails it; the handler's outcome and the draw of the
  -- jitter; microseconds of a delay; and the publications of evidence and capture stages, which
  -- other files of the backend define (`false` where they return `None`).
  pub record World : Type 0 where
    pub clocks : ℕ → Clocks
    pub others : ℕ → Database → Database
    pub broken : ℕ → Bool
    pub handler : Handled
    pub jitter : Time
    pub microseconds_of : Time → ℕ
    pub publish_evidence : StageResult → Database → Outcome Error (Bool × Database)
    pub publish_capture : StageResult → Database → Outcome Error (Bool × Database)

  -- A queue operation as the n-th transaction.
  abbrev pub transact {ℓ} :
      {A : Type ℓ}
      → World
      → ℕ
      → (Clocks → Database → A × Database)
      → Database
      → Outcome Escape (A × Database)
  transact w n op db =
      if w.broken n then err infrastructure else ok (op (w.clocks n) (w.others n db))

  abbrev pub or_raised {ℓ} : {A : Type ℓ} → Result A → Outcome Escape A
  or_raised (err e) = err (raised e)
  or_raised (ok a) = ok a

  abbrev pub transact_result {ℓ} :
      {A : Type ℓ}
      → World
      → ℕ
      → (Clocks → Database → Result (A × Database))
      → Database
      → Outcome Escape (A × Database)
  transact_result w n op db =
      if w.broken n then err infrastructure else or_raised (op (w.clocks n) (w.others n db))

  -- `Worker._release`, which catches an infrastructure error.
  unfoldable pub release_lease : World → ℕ → Lease → Database → Ending × Database
  release_lease w n lease db =
      if w.broken n
      then (Ending.unreleasable, db)
      else let (one, after) = release (w.clocks n) lease (w.others n db) in
        (if one then Ending.released else Ending.not_released, after)

  abbrev is_unknown : RetryableError S → Bool
  is_unknown unknown_outcome_error = true
  is_unknown _ = false

  abbrev has_request_id : Option Job → Bool
  has_request_id none = false
  has_request_id (some r) = is_some r.provider_request_id

  -- `type(outcome).__name__`
  abbrev pub error_name : RetryableError S → String
  error_name transient_error = "Transient"
  error_name (rate_limited_error _) = "RateLimited"
  error_name (provider_cooldown _) = "ProviderCooldown"
  error_name non_retriable_input_error = "NonRetriableInput"
  error_name invalid_model_schema_error = "InvalidModelSchema"
  error_name unknown_outcome_error = "UnknownOutcome"

  -- Whether a request id is recorded: in the claim, or in the row that the n-th transaction reads.
  abbrev pub recorded_id :
      World → ℕ → ClaimedJob → RetryableError S → Database → Outcome Escape (Bool × Database)
  recorded_id w n job outcome db =
      if not (is_some job.provider_request_id) && is_unknown outcome
      then transact w n (λ c d. (has_request_id (get_job job.lease.job_id d), d)) db
      else ok (is_some job.provider_request_id, db)

  abbrev pub after_decision :
      Codec
      → World
      → ℕ
      → ClaimedJob
      → RetryableError S
      → RetryDecision S
      → Option Time
      → Database
      → Outcome Escape (Ending × Database)
  after_decision codec w n job outcome decision none db = do
    (_, after) ←
        transact_result w n
          (λ c. fail codec c job.lease (error_name outcome) (some decision.decided_class)) db
    ok (Ending.exhausted, after)
  after_decision codec w n job outcome decision (some delay) db = do
    (one, after) ←
        transact w n (λ c. retry c job.lease decision.decided_class (w.microseconds_of delay)) db
    ok (if one then Ending.retry_scheduled else Ending.lost_before_retry, after)

  -- `Worker._retry`
  unfoldable pub schedule_retry :
      Codec
      → RetryPolicy S
      → World
      → ℕ
      → ClaimedJob
      → RetryableError S
      → Database
      → Outcome Escape (Ending × Database)
  schedule_retry codec policy w n job outcome db = do
    (recorded, read) ← recorded_id w n job outcome db
    let decision = decide S policy w.jitter outcome job.retry_counts recorded
    after_decision codec w (n + 1) job outcome decision decision.delay_seconds read

  abbrev pub is_evidence_stage : String → Bool
  is_evidence_stage stage =
      str_eq stage "retrieval" || str_eq stage "assessment" || str_eq stage "reanalysis"

  abbrev pub or_nothing : Option (Database → Result Database) → Database → Result Database
  or_nothing none db = ok db
  or_nothing (some f) db = f db

  abbrev is_none_left : List Successor → Bool
  is_none_left [] = true
  is_none_left (_ ∷ _) = false

  abbrev published_some {ℓ} : {A : Type ℓ} → Result (A × Database) → Result (Bool × Database)
  published_some (err e) = err e
  published_some (ok (_, db)) = ok (true, db)

  -- `publish_stage`; `none` is the `TypeError`. A rejection's reason is read in the transaction after
  -- that of the publication.
  unfoldable pub publish_stage :
      Codec
      → Clocks
      → World
      → ClaimedJob
      → StageResult
      → (later : Database) → Database
      → Option (Result (Bool × Database))
  publish_stage codec clocks w job result later db =
      if is_evidence_stage job.key.stage
      then if is_some result.on_publish then none else some (w.publish_evidence result db)
      else if not (is_none_left result.successors)
      then some (
          published_some (
            publish codec clocks job.lease result.result result.successors
              (or_nothing result.on_publish) later db))
      else some (w.publish_capture result db)

  abbrev pub after_publish :
      World
      → ℕ
      → ClaimedJob
      → Database
      → Option (Result (Bool × Database))
      → Outcome Escape (Ending × Database)
  after_publish w n job before none = err type_error
  after_publish w n job before (some (ok (true, db))) = ok (Ending.published, db)
  after_publish w n job before (some (ok (false, db))) =
      if w.broken n
      then ok (release_lease w (n + 1) job.lease db)
      else ok (Ending.cancelled_instead, (cancel (w.clocks n) job.lease (w.others n db)).1)
  after_publish w n job before (some (err (publish_rejected _ _))) = ok (Ending.rejected, before)
  -- `NoResultFound` and `IntegrityError` are errors of SQLAlchemy.
  after_publish w n job before (some (err no_result_found)) =
      ok (release_lease w n job.lease before)
  after_publish w n job before (some (err integrity_error)) =
      ok (release_lease w n job.lease before)
  after_publish w n job before (some (err e)) = err (raised e)

  -- The end of `_execute`, from the publication on.
  abbrev pub publish_result :
      Codec → World → ℕ → ClaimedJob → StageResult → Database → Outcome Escape (Ending × Database)
  publish_result codec w n job result db =
      if w.broken n
      then ok (release_lease w (n + 1) job.lease (w.others n db))
      else let before = w.others n db in
        after_publish w (n + 1) job before
          (publish_stage codec (w.clocks n) w job result (w.others (n + 1) before) before)

  unfoldable pub after_handler :
      Codec
      → RetryPolicy S
      → World
      → ℕ
      → ClaimedJob
      → Handled
      → Database
      → Outcome Escape (Ending × Database)
  after_handler codec policy w n job (returns result) db = publish_result codec w n job result db
  after_handler codec policy w n job cancellation_requested db = do
    (_, after) ← transact w n (λ c. cancel c job.lease) db
    ok (Ending.cancelled_during, after)
  after_handler codec policy w n job lease_lost db = ok (Ending.lost_during, db)
  after_handler codec policy w n job (retryable outcome) db =
      schedule_retry codec policy w n job outcome db
  after_handler codec policy w n job infrastructure_error db = ok (release_lease w n job.lease db)
  after_handler codec policy w n job (fails reason) db = do
    (_, after) ← transact_result w n (λ c. fail codec c job.lease reason none) db
    ok (Ending.failed, after)

  -- The first `if` of `_execute`.
  abbrev pub after_start :
      Codec
      → RetryPolicy S
      → World
      → ClaimedJob
      → Bool
      → Database
      → Outcome Escape (Ending × Database)
  after_start codec policy w job true db = after_handler codec policy w 1 job w.handler db
  after_start codec policy w job false db = do
    (one, after) ← transact w 1 (λ c. cancel c job.lease) db
    ok (if one then Ending.cancelled_before_start else Ending.lost_before_start, after)

  -- `Worker._execute`, without the cancellation of its task at a forced shutdown.
  unfoldable pub execute :
      Codec → RetryPolicy S → World → ClaimedJob → Database → Outcome Escape (Ending × Database)
  execute codec policy w job db = do
    (started, after) ← transact w 0 (λ c. start c job.lease) db
    after_start codec policy w job started after
