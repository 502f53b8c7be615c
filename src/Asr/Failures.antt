-- ===== src/Asr/Failures.antt =====
-- What a speech call and a ledger transaction raise: the exceptions and failure names of
-- backend/services/asr/groq.py and the outcomes that `complete` of backend/services/asr/reservations.py records.
use ovrly.Prelude.{[], ◌∷◌, Dict, get, ℕ, Option, none, some, String, Outcome, ok, err}
use ovrly.Jobs.Tables.{Error}

-- The exception classes of backend/services/asr/groq.py.
pub data AsrFailure : Type 0 where
  unavailable invalid_response unknown_outcome quota_exhausted offline : AsrFailure
  missing_audio chunk_too_large model_unavailable : AsrFailure

-- What a ledger transaction raises: a speech failure, or an error of the queue.
pub data SpeechError : Type 0 where
  speech : AsrFailure → SpeechError
  queue : Error → SpeechError

abbrev pub of_queue {ℓ} : {A : Type ℓ} → Outcome Error A → Outcome SpeechError A
of_queue (err e) = err (queue e)
of_queue (ok a) = ok a

-- What a provider call raises; a rate limit carries `math.ceil` of its hint.
pub data CallError : Type 0 where
  failure : AsrFailure → CallError
  transient non_retriable_input invalid_model_schema call_unknown_outcome : CallError
  rate_limited provider_cooldown : Option ℕ → CallError

-- `type(error).__name__` of a speech failure.
abbrev pub failure_name : AsrFailure → String
failure_name AsrFailure.unavailable = "ASRUnavailable"
failure_name AsrFailure.invalid_response = "ASRInvalidResponse"
failure_name AsrFailure.unknown_outcome = "ASRUnknownOutcome"
failure_name AsrFailure.quota_exhausted = "ASRQuotaExhausted"
failure_name AsrFailure.offline = "ASROffline"
failure_name AsrFailure.missing_audio = "ASRMissingAudio"
failure_name AsrFailure.chunk_too_large = "ASRChunkTooLarge"
failure_name AsrFailure.model_unavailable = "ASRModelUnavailable"

abbrev pub call_error_name : CallError → String
call_error_name (failure f) = failure_name f
call_error_name CallError.transient = "Transient"
call_error_name CallError.non_retriable_input = "NonRetriableInput"
call_error_name CallError.invalid_model_schema = "InvalidModelSchema"
call_error_name CallError.call_unknown_outcome = "UnknownOutcome"
call_error_name (CallError.rate_limited _) = "RateLimited"
call_error_name (CallError.provider_cooldown _) = "ProviderCooldown"

abbrev pub hint_of : Option CallError → Option ℕ
hint_of (some (CallError.rate_limited hint)) = hint
hint_of (some (CallError.provider_cooldown hint)) = hint
hint_of _ = none

abbrev pub outcome_of : Option CallError → String
outcome_of none = "completed"
outcome_of (some e) = call_error_name e

abbrev pub reason_by_failure : Dict String
reason_by_failure =
    ("ASRQuotaExhausted", "quota_exhausted")
    ∷ ("RateLimited", "quota_exhausted")
    ∷ ("ASRUnknownOutcome", "unknown_outcome")
    ∷ ("uncertain", "unknown_outcome")
    ∷ ("ASROffline", "offline")
    ∷ ("ASRInvalidResponse", "invalid_response")
    ∷ ("ASRMissingAudio", "missing_audio")
    ∷ ("ASRChunkTooLarge", "chunk_exceeds_file_cap")
    ∷ ("ASRModelUnavailable", "model_unavailable")
    ∷ ("Transient", "provider_unavailable")
    ∷ ("ASRUnavailable", "provider_unavailable")
    ∷ []

abbrev pub failure_by_reason : Dict AsrFailure
failure_by_reason =
    ("quota_exhausted", AsrFailure.quota_exhausted)
    ∷ ("unknown_outcome", AsrFailure.unknown_outcome)
    ∷ ("offline", AsrFailure.offline)
    ∷ ("invalid_response", AsrFailure.invalid_response)
    ∷ ("missing_audio", AsrFailure.missing_audio)
    ∷ ("chunk_exceeds_file_cap", AsrFailure.chunk_too_large)
    ∷ ("model_unavailable", AsrFailure.model_unavailable)
    ∷ ("provider_unavailable", AsrFailure.unavailable)
    ∷ []

abbrev or_unavailable : Option String → String
or_unavailable none = "provider_unavailable"
or_unavailable (some reason) = reason

unfoldable pub failure_reason : String → String
failure_reason name = or_unavailable (get name reason_by_failure)
