-- ===== src/Providers/Speech.antt =====
-- backend/services/provider_budgets.py, the status of hosted speech: `_window`, `_asr_hold` and the speech
-- part of `provider_statuses`, over the ledger of backend/services/asr/reservations.py. Times and
-- delays are microseconds.
use ovrly.Prelude.{
  ℕ, ◌+◌, ◌-◌, ◌*◌, ◌/◌, max, Bool, true, false, not, ◌&&◌, Option, none, some, List, [], ◌∷◌,
  str_eq, ltb, leb, if◌then◌else◌, select, is_some,
}
use ovrly.Jobs.Tables.{AsrRequest, Database}
use ovrly.Pipeline.Analysis.{microseconds}
use ovrly.Asr.Usage.{Settings, Window, windows, window_filter, units, window_usage}
use ovrly.Admission.Quotas.{ProviderStatus}

-- `quota_provider_reserve_fraction` as a fraction, exact where the source has a float.
pub record Fraction : Type 0 where
  pub num : ℕ
  pub den : ℕ

-- The whole units up to `limit - reserve`: usage and releases are whole, so that comparing them with
-- `limit - reserve` is comparing them with its floor.
abbrev pub allowed : Fraction → ℕ → ℕ
allowed fraction limit = limit * (fraction.den - fraction.num) / fraction.den

-- `ORDER BY created_at`
unfoldable pub insert_by_time : AsrRequest → List AsrRequest → List AsrRequest
insert_by_time a [] = a ∷ []
insert_by_time a (b ∷ rows) =
    let rest = insert_by_time a rows in
    if ltb b.created_at a.created_at then b ∷ rest else a ∷ b ∷ rows

unfoldable pub by_time : List AsrRequest → List AsrRequest
by_time [] = []
by_time (a ∷ rows) = insert_by_time a (by_time rows)

-- The loop over the oldest reservations, with what is released so far; a loop that ends without a
-- `break` leaves 0.
unfoldable pub recover_from :
    (seconds : ℕ) (audio : Bool) (now used free : ℕ) → List AsrRequest → ℕ → ℕ
recover_from seconds audio now used free [] released = 0
recover_from seconds audio now used free (r ∷ rows) released =
    let rest = recover_from seconds audio now used free rows (released + units audio r) in
    if leb used (released + units audio r + free)
    then (r.created_at + microseconds seconds) - now
    else rest

-- The recovery of `_window` for the primary model.
unfoldable pub window_recover : Settings → Fraction → Window → (limit now : ℕ) → Database → ℕ
window_recover settings fraction w limit now db =
    let used = window_usage settings w.seconds w.audio now settings.groq_model db in
    let free = allowed fraction limit in
    if ltb free used
    then recover_from w.seconds w.audio now used free
        (by_time
          (select (window_filter settings w.seconds now settings.groq_model) db.asr_requests))
        0
    else 0

abbrev pub is_rate_limited : Settings → ℕ → AsrRequest → Bool
is_rate_limited settings now r =
    window_filter settings 86400 now settings.groq_model r
    && (str_eq r.outcome "RateLimited" && is_some r.retry_after)

abbrev pub hold_left : ℕ → AsrRequest → Option ℕ → ℕ
hold_left now r none = 0
hold_left now r (some wait) = (r.created_at + microseconds wait) - now

unfoldable pub longest_hold : Settings → ℕ → List AsrRequest → ℕ
longest_hold settings now [] = 0
longest_hold settings now (r ∷ rows) =
    if is_rate_limited settings now r
    then max (hold_left now r r.retry_after) (longest_hold settings now rows)
    else longest_hold settings now rows

-- `_asr_hold`
abbrev pub asr_hold : Settings → ℕ → Database → ℕ
asr_hold settings now db = longest_hold settings now db.asr_requests

-- The recoveries of the windows that have a limit.
unfoldable pub recovers_of : Settings → Fraction → List Window → ℕ → Database → List ℕ
recovers_of settings fraction [] now db = []
recovers_of settings fraction (w ∷ ws) now db =
    let rest = recovers_of settings fraction ws now db in
    elim w.limit [
      | none ↦ rest
      | some limit ↦ window_recover settings fraction w limit now db ∷ rest
    ]

abbrev pub is_empty_list : List ℕ → Bool
is_empty_list [] = true
is_empty_list (_ ∷ _) = false

-- The `groq_asr` status of `provider_statuses`.
unfoldable pub asr_status : Settings → Fraction → Bool → ℕ → Database → ProviderStatus
asr_status settings fraction asr_enabled now db =
    let speech = recovers_of settings fraction (windows settings) now db in
    record {
      configured = asr_enabled && not (is_empty_list speech);
      hold = if is_empty_list speech then 0 else asr_hold settings now db;
      recovers = speech;
    }
