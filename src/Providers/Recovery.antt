-- ===== src/Providers/Recovery.antt =====
-- The delay that backend/services/provider_budgets.py reports for hosted speech is long enough.
use ovrly.Prelude.{
  ℕ, ◌+◌, ◌≤◌, ◌≡◌, refl, inl, inr, Bool, true, false, Bool-cases, Option-cases, Option, none, some,
  List, [], ◌∷◌, arith, if◌then◌else◌, ltb, select, max,
}
use ovrly.Jobs.Tables.{AsrRequest, Database}
use ovrly.Asr.Usage.{Settings, Window, windows, window_filter, usage, window_usage}
use ovrly.Asr.Windows.{usage_later}
use ovrly.Admission.Quotas.{largest, retry_after, near_exhaustion}
use ovrly.Providers.Speech.{
  Fraction, allowed, by_time, window_recover, is_rate_limited, hold_left, longest_hold, asr_hold,
  recovers_of, asr_status, is_empty_list,
}
use ovrly.Providers.Expiry.{
  total, counts_at, left, total-by_time, left-by_time, From, InTime-by_time, recover-left,
}

module _ (settings : Settings) (seconds : ℕ) (audio : Bool) (now : ℕ) where
  abbrev counted : List AsrRequest → List AsrRequest
  counted = select (window_filter settings seconds now settings.groq_model)

  more_left :
      (b : Bool) (t : ℕ) (r : AsrRequest) (rows : List AsrRequest)
      → left seconds audio t rows ≤ left seconds audio t (if b then r ∷ rows else rows)
  more_left true t r rows = omega arith
  more_left false t r rows = omega arith

  usage-total :
      (rows : List AsrRequest)
      → usage settings seconds audio now settings.groq_model rows
        ≡ total seconds audio (counted rows)
  unfolding usage
  usage-total [] = refl
  usage-total (r ∷ rows) =
      elim (Bool-cases (window_filter settings seconds now settings.groq_model r)) [
        | inl counts ↦ rw counts (omega (arith, usage-total rows))
        | inr other ↦ rw other (omega (arith, usage-total rows))
      ]

  usage-left :
      (t : ℕ) (rows : List AsrRequest)
      → now ≤ t
      → usage settings seconds audio t settings.groq_model rows
        ≤ left seconds audio t (counted rows)
  unfolding usage
  usage-left t [] h = omega arith
  usage-left t (r ∷ rows) h =
      elim (Bool-cases (window_filter settings seconds t settings.groq_model r)) [
        | inl counts ↦
            let before : window_filter settings seconds now settings.groq_model r ≡ true =
              ground arith in
            let still : counts_at seconds audio t r ≡ true = ground arith in
            rw (counts, before) (rw still (omega (arith, usage-left t rows h)))
        | inr other ↦ rw other (
            omega (
              arith,
              usage-left t rows h,
              more_left (window_filter settings seconds now settings.groq_model r) t r
                  (counted rows),
            ))
      ]

From-zero : (rows : List AsrRequest) → From 0 rows
From-zero [] = tt
From-zero (r ∷ rows) = (omega arith, From-zero rows)

at_most : (free used : ℕ) → ltb free used ≡ false → used ≤ free
at_most free used h = ground arith

not_over : (free used x : ℕ) → used ≤ free → (if ltb free used then x else 0) ≡ 0
not_over free used x h = ground arith

-- After its recovery a window is no longer over its reserve, if nothing is reserved meanwhile.
window-recovers :
    (settings : Settings) (fraction : Fraction) (w : Window) (limit now t : ℕ) (db : Database)
    → now ≤ t
    → now + window_recover settings fraction w limit now db ≤ t
    → window_recover settings fraction w limit t db ≡ 0
unfolding window_recover
window-recovers settings fraction w limit now t db h k =
    let free = allowed fraction limit in
    let used = window_usage settings w.seconds w.audio now settings.groq_model db in
    let rows = counted settings w.seconds w.audio now db.asr_requests in
    let later =
      usage_later settings w.seconds w.audio now t settings.groq_model db.asr_requests h in
    elim (Bool-cases (ltb free used)) [
      | inl over ↦
          let total_used = usage-total settings w.seconds w.audio now db.asr_requests in
          let sum : total w.seconds w.audio (by_time rows) ≡ used =
            omega (arith, total_used, total-by_time w.seconds w.audio rows) in
          let (past, fits) =
            recover-left w.seconds w.audio now used free t 0 (by_time rows) 0 (InTime-by_time rows)
              (From-zero (by_time rows)) (omega (arith, sum)) (ground arith) (rw over at k) h in
          let now_free : window_usage settings w.seconds w.audio t settings.groq_model db ≤ free =
            omega (
              arith,
              fits,
              sum,
              left-by_time w.seconds w.audio t rows,
              usage-left settings w.seconds w.audio now t db.asr_requests h,
            ) in
          not_over free _ _ now_free
      | inr under ↦ not_over free _ _ (omega (arith, later, (at_most free used under)))
    ]

hold_over :
    (settings : Settings) (now t : ℕ) (rows : List AsrRequest)
    → now ≤ t
    → now + longest_hold settings now rows ≤ t
    → longest_hold settings t rows ≡ 0
unfolding longest_hold
hold_over settings now t [] h k = refl
hold_over settings now t (r ∷ rows) h k = elim (Bool-cases (is_rate_limited settings t r)) [
  | inl later ↦
      let before : is_rate_limited settings now r ≡ true = ground arith in
      let k' : now + max (hold_left now r r.retry_after) (longest_hold settings now rows) ≤ t =
        rw before at k in
      rw later (
        omega (
          arith,
          hold_over settings now t rows h (omega (arith, k')),
          hold_left_over now t r r.retry_after (omega (arith, k')),
        ))
  | inr other ↦ rw other (hold_over settings now t rows h (omega (arith, k, (rest_hold r rows))))
]
  where
    rest_hold :
        (r : AsrRequest) (rows : List AsrRequest)
        → longest_hold settings now rows ≤ longest_hold settings now (r ∷ rows)
    rest_hold r rows = ground arith

    hold_left_over :
        (now t : ℕ) (r : AsrRequest) (o : Option ℕ)
        → now + hold_left now r o ≤ t
        → hold_left t r o ≡ 0
    hold_left_over now t r none h = refl
    hold_left_over now t r (some wait) h = omega arith

largest-le : (n : ℕ) (xs : List ℕ) → n ≤ largest n xs
largest-le n [] = omega arith
largest-le n (x ∷ xs) = omega (arith, largest-le (max n x) xs)

module _ (settings : Settings) (fraction : Fraction) (now t : ℕ) (db : Database) (h : now ≤ t) where
  recovers_over :
      (ws : List Window) (n : ℕ)
      → now + largest n (recovers_of settings fraction ws now db) ≤ t
      → largest 0 (recovers_of settings fraction ws t db) ≡ 0
  unfolding recovers_of
  recovers_over [] n k = refl
  recovers_over (w ∷ ws) n k = elim (Option-cases w.limit) [
    | inl none_set ↦ rw none_set (recovers_over ws n (rw none_set at k))
    | inr (limit, set) ↦
        let x = window_recover settings fraction w limit now db in
        let k' : now + largest (max n x) (recovers_of settings fraction ws now db) ≤ t =
          rw set at k in
        let own : now + x ≤ t =
          omega (arith, k', largest-le (max n x) (recovers_of settings fraction ws now db)) in
        rw (set, window-recovers settings fraction w limit now t db h own)
          (recovers_over ws (max n x) k')
  ]

  recovers-empty :
      (ws : List Window)
      → is_empty_list (recovers_of settings fraction ws t db)
        ≡ is_empty_list (recovers_of settings fraction ws now db)
  unfolding recovers_of
  recovers-empty [] = refl
  recovers-empty (w ∷ ws) = elim (Option-cases w.limit) [
    | inl none_set ↦ rw none_set (recovers-empty ws)
    | inr (limit, set) ↦ rw set refl
  ]

-- The delay that the status of hosted speech reports is long enough: at any time that is at least
-- the delay later, with the ledger unchanged, the status is not near exhaustion any more; every
-- window is back within its reserve and every Retry-After is over.
pub asr_status-recovers :
    (settings : Settings) (fraction : Fraction) (asr_enabled : Bool) (now t : ℕ) (db : Database)
    → now + retry_after (asr_status settings fraction asr_enabled now db) ≤ t
    → near_exhaustion (asr_status settings fraction asr_enabled t db) ≡ false
unfolding asr_status
asr_status-recovers settings fraction asr_enabled now t db h =
    let ws = windows settings in
    let speech = recovers_of settings fraction ws now db in
    let hold = if is_empty_list speech then 0 else asr_hold settings now db in
    let h' : now + largest hold speech ≤ t = h in
    let le : now ≤ t = omega (arith, h') in
    let no_recovery = recovers_over settings fraction now t db le ws hold h' in
    let no_hold : (if is_empty_list speech then 0 else asr_hold settings t db) ≡ 0 =
      elim (Bool-cases (is_empty_list speech)) [
        | inl empty ↦ rw empty refl
        | inr other ↦
            let k : now + largest (asr_hold settings now db) speech ≤ t = rw other at h' in
            rw other (
              hold_over settings now t db.asr_requests le
                (omega (arith, k, largest-le (asr_hold settings now db) speech)))
      ] in
    rw (recovers-empty settings fraction now t db le ws, no_hold, no_recovery) refl
