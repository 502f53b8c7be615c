-- ===== src/Asr/Usage.antt =====
-- The rolling windows of backend/services/asr/reservations.py and their use by the ledger's rows. A
-- duration stands as the whole seconds that `math.ceil` makes of it.
use ovrly.Prelude.{
  ℕ, ◌+◌, max, Bool, true, false, ◌&&◌, Option, none, some, List, [], ◌∷◌, String, str_eq, ltb, leb,
  if◌then◌else◌,
}
use ovrly.Jobs.Tables.{AsrRequest, Database}
use ovrly.Pipeline.Analysis.{microseconds}

-- The settings that speech reads.
pub record Settings : Type 0 where
  pub groq_account_id : String
  pub groq_model : String
  pub groq_fallback_model : String
  pub asr_requests_per_minute : Option ℕ
  pub asr_requests_per_day : Option ℕ
  pub asr_audio_seconds_per_hour : Option ℕ
  pub asr_audio_seconds_per_day : Option ℕ
  pub asr_minimum_billable_seconds : Option ℕ

-- A window of `windows`: its seconds, its limit, and whether it counts audio seconds.
pub record Window : Type 0 where
  pub seconds : ℕ
  pub limit : Option ℕ
  pub audio : Bool

abbrev pub windows : Settings → List Window
windows settings =
    record { seconds = 60; limit = settings.asr_requests_per_minute; audio = false }
    ∷ record { seconds = 86400; limit = settings.asr_requests_per_day; audio = false }
    ∷ record { seconds = 3600; limit = settings.asr_audio_seconds_per_hour; audio = true }
    ∷ record { seconds = 86400; limit = settings.asr_audio_seconds_per_day; audio = true }
    ∷ []

-- `window_filter`: `created_at > timestamp - timedelta(seconds)`, written without the subtraction.
abbrev pub window_filter : Settings → ℕ → ℕ → String → AsrRequest → Bool
window_filter settings seconds timestamp model r =
    str_eq r.account_id settings.groq_account_id
    && (str_eq r.model model && ltb timestamp (r.created_at + microseconds seconds))

abbrev pub units : Bool → AsrRequest → ℕ
units audio r = if audio then r.audio_seconds else 1

unfoldable pub usage : Settings → ℕ → Bool → ℕ → String → List AsrRequest → ℕ
usage settings seconds audio timestamp model [] = 0
usage settings seconds audio timestamp model (r ∷ rows) =
    (if window_filter settings seconds timestamp model r then units audio r else 0)
    + usage settings seconds audio timestamp model rows

abbrev pub window_usage : Settings → ℕ → Bool → ℕ → String → Database → ℕ
window_usage settings seconds audio timestamp model db =
    usage settings seconds audio timestamp model db.asr_requests

abbrev pub has_room : Option ℕ → ℕ → Bool
has_room none _ = false
has_room (some limit) needed = leb needed limit

-- The loop over the windows in `reserve_in`.
unfoldable pub fits : Settings → List Window → ℕ → ℕ → String → Database → Bool
fits settings [] seconds timestamp model db = true
fits settings (w ∷ ws) seconds timestamp model db =
    has_room w.limit (
      window_usage settings w.seconds w.audio timestamp model db + (if w.audio then seconds else 1))
    && fits settings ws seconds timestamp model db

abbrev pub or_one : Option ℕ → ℕ
or_one none = 1
or_one (some ℕ.zero) = 1
or_one (some n) = n

-- `max(math.ceil(duration_seconds), settings.asr_minimum_billable_seconds or 1)`
abbrev pub billable : Settings → ℕ → ℕ
billable settings duration = max duration (or_one settings.asr_minimum_billable_seconds)
