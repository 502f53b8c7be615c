-- ===== src/Asr/Tests.antt =====
-- Concrete runs of the speech ledger and of the fallback from one model to the other.
use ovrly.Prelude.{
  ◌≤◌, ◌≡◌, ◌≢◌, refl, ap, false≢true, false, [], ◌∷◌, arith, ok, str_eq, if◌then◌else◌,
}
use ovrly.Json.{empty, field, text}
use ovrly.Jobs.Tables.{Database}
use ovrly.Jobs.Queue.{lock_active, owned, heartbeat}
use ovrly.Jobs.Fixtures.{at, codec, running_row, first_claim, tables, one_queued}
use ovrly.Asr.Failures.{CallError}
use ovrly.Asr.Usage.{usage, fits}
use ovrly.Asr.Reservations.{
  Reservation, reserve_in, begin, attempts, latest, sorted, insert_sorted, complete,
}
use ovrly.Asr.Windows.{AllWithin, reserve_each, reserve, reserve_each-AllWithin, reserved_db}
use ovrly.Asr.Failures.{failure_reason}
use ovrly.Asr.Fallback.{World, call_raises, segments, transcribe, over_models, call_model}
use ovrly.Asr.Resend.{times_in, mentions, permitted, transcribe_once}
use ovrly.Asr.Crash.{crash_safe}
use ovrly.Asr.Fixtures.{speech_settings, reservation}

-- The third request of a minute is refused.
third_refused :
    reserve codec speech_settings
      (reservation 3)
      (reserve_each codec speech_settings (reservation 1 ∷ reservation 2 ∷ []) one_queued)
    ≡ reserve_each codec speech_settings (reservation 1 ∷ reservation 2 ∷ []) one_queued
unfolding reserve reserve_each reserve_in fits usage
third_refused = refl

none_used : AllWithin speech_settings 0 "turbo" one_queued
unfolding usage
none_used = (omega arith, (omega arith, (omega arith, (omega arith, tt))))

reserve_each-AllWithin_example :
    AllWithin speech_settings 9 "turbo"
      (reserve_each codec speech_settings (reservation 1 ∷ reservation 2 ∷ []) one_queued)
reserve_each-AllWithin_example =
    reserve_each-AllWithin codec speech_settings (reservation 1 ∷ reservation 2 ∷ []) one_queued 0 9
      "turbo" (omega arith, (omega arith, omega arith)) none_used

-- The first model answers 503 and the second with segments.
abbrev world : World
world = record {
  clocks = λ n. at 120;
  others = λ n db. db;
  new_id = λ n. n;
  timestamp = λ n. n;
  load = ok 30;
  answer =
      λ model. if str_eq model "turbo" then call_raises CallError.transient else segments empty;
  build = λ model found. field "model" (text model) empty;
  lease_time = 50;
}

abbrev running_job : Database
running_job = tables (running_row ∷ [])

transcribe_test :
    (transcribe codec speech_settings world first_claim running_job).calls ≡ "turbo" ∷ "large" ∷ []
unfolding transcribe attempts lock_active owned latest sorted over_models call_model begin
    reserve_in fits usage heartbeat complete failure_reason
transcribe_test = refl

different_models : speech_settings.groq_model ≢ speech_settings.groq_fallback_model
different_models e = false≢true (ap (λ s. str_eq s "large") e)

transcribe_once_example :
    times_in "turbo" (transcribe codec speech_settings world first_claim running_job).calls
    ≤ permitted speech_settings (attempts codec (world.clocks 0) first_claim running_job) "turbo"
transcribe_once_example =
    transcribe_once codec speech_settings world first_claim running_job "turbo" different_models

-- The worker crashes after the reservation for the first model; the job is claimed again.
abbrev uncertain_row : Reservation
uncertain_row = record (reservation 1) { outcome = "uncertain" }

abbrev begun : Database
begun = reserved_db codec speech_settings uncertain_row running_job

begun_test :
    begin codec speech_settings (at 120) first_claim "turbo" 30 1 1 running_job ≡ ok (1, begun)
unfolding begin lock_active owned reserve_in fits usage
begun_test = refl

crash_safe_example :
    mentions "turbo" (transcribe codec speech_settings world first_claim begun).calls ≡ false
crash_safe_example =
    crash_safe codec speech_settings (at 120) world first_claim first_claim "turbo" 30 1 1 0
      running_job begun refl refl refl (omega arith) begun_test refl

-- So the second run sends the fallback model only.
second_run_test : (transcribe codec speech_settings world first_claim begun).calls ≡ "large" ∷ []
unfolding transcribe attempts lock_active owned latest sorted over_models call_model begin
    reserve_in fits usage heartbeat complete failure_reason insert_sorted
second_run_test = refl
