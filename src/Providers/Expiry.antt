-- ===== src/Providers/Expiry.antt =====
-- When rows leave a rolling window of backend/services/provider_budgets.py.
use ovrly.Prelude.{
  ℕ, ◌+◌, ◌-◌, ◌≤◌, ◌≡◌, refl, inl, inr, Bool, false, Bool-cases, List, [], ◌∷◌, All, arith,
  if◌then◌else◌, ltb, leb,
}
use ovrly.Jobs.Tables.{AsrRequest}
use ovrly.Pipeline.Analysis.{microseconds}
use ovrly.Asr.Usage.{units}
use ovrly.Providers.Speech.{insert_by_time, by_time, recover_from}

module _ (seconds : ℕ) (audio : Bool) where
  -- All the units of some rows, and those that a window still counts at a time.
  abbrev pub total : List AsrRequest → ℕ
  total [] = 0
  total (r ∷ rows) = units audio r + total rows

  abbrev pub counts_at : ℕ → AsrRequest → Bool
  counts_at t r = ltb t (r.created_at + microseconds seconds)

  abbrev pub left : ℕ → List AsrRequest → ℕ
  left t [] = 0
  left t (r ∷ rows) = (if counts_at t r then units audio r else 0) + left t rows

  left-le-total : (t : ℕ) (rows : List AsrRequest) → left t rows ≤ total rows
  left-le-total t [] = omega arith
  left-le-total t (r ∷ rows) = ground (arith, left-le-total t rows)

  total-insert_by_time :
      (a : AsrRequest) (rows : List AsrRequest) → total (insert_by_time a rows) ≡ total (a ∷ rows)
  unfolding insert_by_time
  total-insert_by_time a [] = refl
  total-insert_by_time a (b ∷ rows) = ground (arith, total-insert_by_time a rows)

  left-insert_by_time :
      (t : ℕ) (a : AsrRequest) (rows : List AsrRequest)
      → left t (insert_by_time a rows) ≡ left t (a ∷ rows)
  unfolding insert_by_time
  left-insert_by_time t a [] = refl
  left-insert_by_time t a (b ∷ rows) = ground (arith, left-insert_by_time t a rows)

  pub total-by_time : (rows : List AsrRequest) → total (by_time rows) ≡ total rows
  unfolding by_time
  total-by_time [] = refl
  total-by_time (a ∷ rows) =
      omega (arith, total-insert_by_time a (by_time rows), total-by_time rows)

  pub left-by_time : (t : ℕ) (rows : List AsrRequest) → left t (by_time rows) ≡ left t rows
  unfolding by_time
  left-by_time t [] = refl
  left-by_time t (a ∷ rows) =
      omega (arith, left-insert_by_time t a (by_time rows), left-by_time t rows)

-- No row is older than a time.
abbrev pub From : ℕ → List AsrRequest → Type 0
From b = All (λ r. b ≤ r.created_at)

abbrev InTime : List AsrRequest → Type 0
InTime [] = Unit
InTime (r ∷ rows) = From r.created_at rows × InTime rows

From-le : (b c : ℕ) (rows : List AsrRequest) → c ≤ b → From b rows → From c rows
From-le b c [] h f = tt
From-le b c (r ∷ rows) h f = (omega (arith, f.0), From-le b c rows h f.1)

From-insert_by_time :
    (b : ℕ) (a : AsrRequest) (rows : List AsrRequest)
    → b ≤ a.created_at
    → From b rows
    → From b (insert_by_time a rows)
unfolding insert_by_time
From-insert_by_time b a [] h f = (h, tt)
From-insert_by_time b a (r ∷ rows) h f = elim (Bool-cases (ltb r.created_at a.created_at)) [
  | inl older ↦ rw older (f.0, From-insert_by_time b a rows h f.1)
  | inr other ↦ rw other (h, (f.0, f.1))
]

InTime-insert_by_time :
    (a : AsrRequest) (rows : List AsrRequest) → InTime rows → InTime (insert_by_time a rows)
unfolding insert_by_time
InTime-insert_by_time a [] s = (tt, tt)
InTime-insert_by_time a (r ∷ rows) s = elim (Bool-cases (ltb r.created_at a.created_at)) [
  | inl older ↦
      rw older (
        From-insert_by_time r.created_at a rows (ground arith) s.0,
        InTime-insert_by_time a rows s.1,
      )
  | inr other ↦
      let le : a.created_at ≤ r.created_at = ground arith in
      rw other ((le, From-le r.created_at a.created_at rows le s.0), s)
]

pub InTime-by_time : (rows : List AsrRequest) → InTime (by_time rows)
unfolding by_time
InTime-by_time [] = tt
InTime-by_time (a ∷ rows) = InTime-insert_by_time a (by_time rows) (InTime-by_time rows)

-- After the recovery, what the window still counts of the rows and what is released by then fit.
pub recover-left :
    (seconds : ℕ) (audio : Bool) (now used free t b : ℕ) (rows : List AsrRequest) (released : ℕ)
    → InTime rows
    → From b rows
    → used ≤ released + total seconds audio rows
    → leb used (released + free) ≡ false
    → now + recover_from seconds audio now used free rows released ≤ t
    → now ≤ t
    → (b + microseconds seconds ≤ t)
      × (used + left seconds audio t rows ≤ released + total seconds audio rows + free)
unfolding recover_from
recover-left seconds audio now used free t b [] released s f u e k m = absurd (ground arith)
recover-left seconds audio now used free t b (r ∷ rows) released s f u e k m =
    elim (Bool-cases (leb used (released + units audio r + free))) [
      | inl enough ↦
          let over : now + ((r.created_at + microseconds seconds) - now) ≤ t = rw enough at k in
          let gone : counts_at seconds audio t r ≡ false = ground arith in
          let fit : used ≤ released + units audio r + free = ground arith in
          (
            omega (arith, over, f.0),
            rw gone (omega (arith, left-le-total seconds audio t rows, fit)),
          )
      | inr short ↦
          let (later, fits) =
            recover-left seconds audio now used free t r.created_at rows (released + units audio r)
              s.1 s.0 (omega (arith, u)) short (rw short at k) m in
          let gone : counts_at seconds audio t r ≡ false = ground (arith, later) in
          (omega (arith, later, f.0), rw gone (omega (arith, fits)))
    ]
