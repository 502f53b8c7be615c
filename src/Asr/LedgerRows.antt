-- ===== src/Asr/LedgerRows.antt =====
-- The rows of the speech ledger under sorting, selection and updates
-- (backend/services/asr/reservations.py).
use ovrly.Prelude.{
  ℕ, suc, ||-inr, ◌≤◌, ◌≡◌, refl, ◌⊎◌, inl, inr, Bool, true, false, ◌&&◌, ◌||◌, ||-right,
  Bool-cases, some, List, [], ◌∷◌, ◌++◌, String, str_eq, arith, if◌then◌else◌, any, Dict, get-put,
  first_where, update_where, count_where, select, ◌==◌,
}
use ovrly.Jobs.Tables.{AsrRequest}
use ovrly.Asr.Reservations.{latest, sorted, insert_sorted}
use ovrly.Asr.Resend.{sendable}

-- A row of one model and retry index.
abbrev pub matches : String → ℕ → AsrRequest → Bool
matches model index r = str_eq r.model model && r.retry_index == index

abbrev pub is_reserved : AsrRequest → Bool
is_reserved r = str_eq r.outcome "reserved"

any-insert_sorted :
    (p : AsrRequest → Bool) (a : AsrRequest) (rows : List AsrRequest)
    → any p (insert_sorted a rows) ≡ (p a || any p rows)
unfolding insert_sorted
any-insert_sorted p a [] = refl
any-insert_sorted p a (b ∷ rows) = ground (arith, any-insert_sorted p a rows)

pub any-sorted : (p : AsrRequest → Bool) (rows : List AsrRequest) → any p (sorted rows) ≡ any p rows
unfolding sorted
any-sorted p [] = refl
any-sorted p (a ∷ rows) = rw (any-insert_sorted p a (sorted rows), any-sorted p rows) refl

pub any-select :
    (p s : AsrRequest → Bool) (rows : List AsrRequest)
    → any p (select s rows) ≡ any (λ r. s r && p r) rows
any-select p s [] = refl
any-select p s (a ∷ rows) = ground (arith, any-select p s rows)

-- A ledger with a row of the model that is not reserved keeps one, and gets one from such rows.
pub latest-sendable :
    (model : String) (index : ℕ) (rows : List AsrRequest) (ledger : Dict AsrRequest)
    → any (λ r. matches model index r && is_reserved r) rows ≡ false
    → (any (matches model index) rows ≡ true) ⊎ (sendable ledger model ≡ false)
    → sendable (latest index rows ledger) model ≡ false
unfolding latest
latest-sendable model index [] ledger h (inl e) = cc
latest-sendable model index [] ledger h (inr e) = e
latest-sendable model index (r ∷ rows) ledger h k = elim (Bool-cases (matches model index r)) [
  | inl match ↦
      latest-sendable model index rows _ (||-right _ _ h)
        (inr (ground (arith, get-put model r.model r ledger)))
  | inr other ↦
      latest-sendable model index rows _ (||-right _ _ h)
        (ground (arith, get-put model r.model r ledger))
]

module _ (p : AsrRequest → Bool) (f : AsrRequest → AsrRequest)
    (spent : (s : AsrRequest) → p (f s) ≡ false) where
  spent_or :
      (b : Bool) (x : AsrRequest) → (b ≡ true) ⊎ (p x ≡ false) → p (if b then f x else x) ≡ false
  spent_or true x h = spent x
  spent_or false x (inl e) = cc
  spent_or false x (inr e) = e

  unfit-none :
      (q : AsrRequest → Bool) (rows : List AsrRequest)
      → count_where p rows ≡ 0
      → any p (update_where q f rows) ≡ false
  unfit-none q [] h = refl
  unfit-none q (x ∷ rows) h = elim (Bool-cases (p x)) [
    | inl fits ↦ absurd (some_fits (rw fits at h))
    | inr other ↦ rw (spent_or (q x) x (inr other)) (unfit-none q rows (rw other at h))
  ]
    where
      some_fits : {n : ℕ} → suc n ≡ 0 → ⊥
      some_fits e = omega (arith, e)

  -- Using up the one reserved row leaves none.
  pub used-none :
      (r : AsrRequest) (rows : List AsrRequest)
      → first_where p rows ≡ some r
      → count_where p rows ≤ 1
      → any p (update_where (λ s. s.id == r.id) f rows) ≡ false
  used-none r [] h k = refl
  used-none r (x ∷ rows) h k = elim (Bool-cases (p x)) [
    | inl fits ↦
        let e : some x ≡ some r = rw fits at h in
        let none_left : count_where p rows ≡ 0 = omega (arith, (rw fits at k)) in
        let same : (x.id == r.id) ≡ true = ground arith in
        rw (spent_or (x.id == r.id) x (inl same)) (unfit-none (λ s. s.id == r.id) rows none_left)
    | inr other ↦
        rw (spent_or (x.id == r.id) x (inr other))
          (used-none r rows (rw other at h) (rw other at k))
  ]

pub any-first :
    (p q : AsrRequest → Bool) (rows : List AsrRequest) {r : AsrRequest}
    → ((s : AsrRequest) → p s ≡ true → q s ≡ true)
    → first_where p rows ≡ some r
    → any q rows ≡ true
any-first p q [] h k = cc
any-first p q (x ∷ rows) h k = elim (Bool-cases (p x)) [
  | inl fits ↦ rw (h x fits) refl
  | inr other ↦ ||-inr _ _ (any-first p q rows h (rw other at k))
]

pub any-update_where :
    (p q : AsrRequest → Bool) (f : AsrRequest → AsrRequest) (rows : List AsrRequest)
    → ((s : AsrRequest) → p (f s) ≡ p s)
    → any p (update_where q f rows) ≡ any p rows
any-update_where p q f [] h = refl
any-update_where p q f (x ∷ rows) h = rw (either (q x) x, any-update_where p q f rows h) refl
  where
    either : (b : Bool) (x : AsrRequest) → p (if b then f x else x) ≡ p x
    either true x = h x
    either false x = refl

pub any-append :
    (p : AsrRequest → Bool) (rows : List AsrRequest) (x : AsrRequest)
    → any p (rows ++ x ∷ []) ≡ (any p rows || p x)
any-append p [] x = ground arith
any-append p (y ∷ rows) x = ground (arith, any-append p rows x)
