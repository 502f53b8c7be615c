-- ===== src/Admission/Ledger.antt =====
-- The daily budgets of backend/services/quotas.py add up, and are never exceeded.
use ovrly.Prelude.{
  ℕ, ◌+◌, ◌≤◌, ◌≡◌, ◌∙◌, refl, sym, inl, inr, Bool, true, false, not, Bool-cases, Option, none,
  some, List, [], ◌∷◌, ◌++◌, All, ◌==◌, ==_iff, arith, if◌then◌else◌, any, first_where,
  update_where, Outcome, ok, err, >>=-eq-ok,
}
use ovrly.Admission.Quotas.{
  Texts, Config, QuotaUsage, Charge, Refusal, charge, charge_used, charged_row, check_gate, upsert,
  of_owner, checks_on, bytes_on, day_of,
}

first-update :
    (row : QuotaUsage) (rows : List QuotaUsage)
    → any (of_owner row.owner_id) rows ≡ true
    → first_where (of_owner row.owner_id) (update_where (of_owner row.owner_id) (λ _. row) rows)
      ≡ some row
first-update row [] h = cc
first-update row (r ∷ rows) h = ground (arith, first-update row rows)

first-update_other :
    (row : QuotaUsage) (o : ℕ) (rows : List QuotaUsage)
    → (row.owner_id == o) ≡ false
    → first_where (of_owner o) (update_where (of_owner row.owner_id) (λ _. row) rows)
      ≡ first_where (of_owner o) rows
first-update_other row o [] h = refl
first-update_other row o (r ∷ rows) h = ground (arith, first-update_other row o rows)

first-append :
    (o : ℕ) (rows : List QuotaUsage) (row : QuotaUsage)
    → any (of_owner o) rows ≡ false
    → first_where (of_owner o) (rows ++ row ∷ []) ≡ (if row.owner_id == o then some row else none)
first-append o [] row h = refl
first-append o (r ∷ rows) row h = ground (arith, first-append o rows row)

first-append_other :
    (o : ℕ) (rows : List QuotaUsage) (row : QuotaUsage)
    → (row.owner_id == o) ≡ false
    → first_where (of_owner o) (rows ++ row ∷ []) ≡ first_where (of_owner o) rows
first-append_other o [] row h = ground arith
first-append_other o (r ∷ rows) row h = ground (arith, first-append_other o rows row)

first-upsert :
    (row : QuotaUsage) (rows : List QuotaUsage)
    → first_where (of_owner row.owner_id) (upsert row rows) ≡ some row
first-upsert row rows = ground (arith, first-update row rows, first-append row.owner_id rows row)

first-upsert_other :
    (row : QuotaUsage) (o : ℕ) (rows : List QuotaUsage)
    → (row.owner_id == o) ≡ false
    → first_where (of_owner o) (upsert row rows) ≡ first_where (of_owner o) rows
first-upsert_other row o rows h =
    ground (arith, first-update_other row o rows, first-append_other o rows row)

if_enabled {ℓ} : {A : Type ℓ} (b : Bool) (x y : A) → b ≡ true → (if not b then x else y) ≡ y
if_enabled true x y h = refl
if_enabled false x y h = cc

-- What an owner has used of a day's budgets.
abbrev pub used_checks : ℕ → ℕ → List QuotaUsage → ℕ
used_checks o day rows = checks_on day (first_where (of_owner o) rows)

abbrev pub used_bytes : ℕ → ℕ → List QuotaUsage → ℕ
used_bytes o day rows = bytes_on day (first_where (of_owner o) rows)

-- A charge that is refused leaves the budgets as they were: its transaction is rolled back.
abbrev pub or_refused : Outcome Refusal (List QuotaUsage) → List QuotaUsage → List QuotaUsage
or_refused (err _) rows = rows
or_refused (ok after) rows = after

abbrev pub is_accepted : Outcome Refusal (List QuotaUsage) → Bool
is_accepted (err _) = false
is_accepted (ok _) = true

module _ (texts : Texts) (config : Config) where
  unfoldable pub charge_each : List Charge → List QuotaUsage → List QuotaUsage
  charge_each [] rows = rows
  charge_each (q ∷ qs) rows = charge_each qs (or_refused (charge texts config q rows) rows)

  -- The checks and the bytes of the owner's charges that are accepted.
  unfoldable pub accepted : (Charge → ℕ) → ℕ → List Charge → List QuotaUsage → ℕ
  accepted amount o [] rows = 0
  accepted amount o (q ∷ qs) rows =
      let r = charge texts config q rows in
      (if is_accepted r then (if q.owner_id == o then amount q else 0) else 0)
      + accepted amount o qs (or_refused r rows)

  charge_used-ok :
      (q : Charge) (used : Option QuotaUsage) (rows : List QuotaUsage) {after : List QuotaUsage}
      → charge_used config q used rows ≡ ok after
      → (after ≡ upsert (charged_row q used) rows)
        × ((charged_row q used).checks ≤ config.quota_daily_checks)
        × ((charged_row q used).upload_bytes ≤ config.quota_daily_upload_bytes)
  charge_used-ok q used rows h = (ground arith, ground arith, ground arith)

  accepted_row :
      (q : Charge) (rows : List QuotaUsage) {after : List QuotaUsage}
      → config.quotas_enabled ≡ true
      → charge texts config q rows ≡ ok after
      → let row = charged_row q (first_where (of_owner q.owner_id) rows) in
        (after ≡ upsert row rows)
        × (row.checks ≤ config.quota_daily_checks)
        × (row.upload_bytes ≤ config.quota_daily_upload_bytes)
  unfolding charge
  accepted_row q rows enabled h =
      let used = first_where (of_owner q.owner_id) rows in
      let gated = if_enabled config.quotas_enabled (ok rows) _ enabled in
      let (unit, passed, later) =
        >>=-eq-ok (check_gate texts config q) (λ _. charge_used config q used rows)
          (sym gated ∙ h) in
      charge_used-ok q used rows later

  step_own :
      (q : Charge) (rows : List QuotaUsage) {after : List QuotaUsage}
      → after ≡ upsert (charged_row q (first_where (of_owner q.owner_id) rows)) rows
      → (used_checks q.owner_id (day_of q.now) after
          ≡ used_checks q.owner_id (day_of q.now) rows + q.checks)
        × (used_bytes q.owner_id (day_of q.now) after
            ≡ used_bytes q.owner_id (day_of q.now) rows + q.upload_bytes)
  step_own q rows {after} h =
      let row = charged_row q (first_where (of_owner q.owner_id) rows) in
      let found : first_where (of_owner q.owner_id) after ≡ some row =
        rw h (first-upsert row rows) in
      let today : (day_of q.now == day_of q.now) ≡ true =
        (==_iff (day_of q.now) (day_of q.now)).1 refl in
      (rw (found, today) refl, rw (found, today) refl)

  step_used :
      (q : Charge) (rows : List QuotaUsage) (o day : ℕ) (r : Outcome Refusal (List QuotaUsage))
      → config.quotas_enabled ≡ true
      → day_of q.now ≡ day
      → charge texts config q rows ≡ r
      → (used_checks o day (or_refused r rows)
          ≡ used_checks o day rows
            + (if is_accepted r then (if q.owner_id == o then q.checks else 0) else 0))
        × (used_bytes o day (or_refused r rows)
            ≡ used_bytes o day rows
              + (if is_accepted r then (if q.owner_id == o then q.upload_bytes else 0) else 0))
  step_used q rows o day (err x) enabled d h = (omega arith, omega arith)
  step_used q rows o day (ok after) enabled d h =
      let (upserted, checks, bytes) = accepted_row q rows enabled h in
      elim (Bool-cases (q.owner_id == o)) [
        | inl own ↦
            let (same_checks, same_bytes) = step_own q rows upserted in
            let o_eq = (==_iff q.owner_id o).0 own in
            (rw own (rw (← o_eq, ← d) same_checks), rw own (rw (← o_eq, ← d) same_bytes))
        | inr other ↦
            let row = charged_row q (first_where (of_owner q.owner_id) rows) in
            let found : first_where (of_owner o) after ≡ first_where (of_owner o) rows =
              rw upserted (first-upsert_other row o rows other) in
            (rw (other, found) (omega arith), rw (other, found) (omega arith))
      ]

  step_within :
      (q : Charge) (rows : List QuotaUsage) (o day : ℕ) (r : Outcome Refusal (List QuotaUsage))
      → config.quotas_enabled ≡ true
      → day_of q.now ≡ day
      → charge texts config q rows ≡ r
      → used_checks o day rows ≤ config.quota_daily_checks
      → used_bytes o day rows ≤ config.quota_daily_upload_bytes
      → (used_checks o day (or_refused r rows) ≤ config.quota_daily_checks)
        × (used_bytes o day (or_refused r rows) ≤ config.quota_daily_upload_bytes)
  step_within q rows o day (err x) enabled d h c b = (c, b)
  step_within q rows o day (ok after) enabled d h c b =
      let (upserted, checks, bytes) = accepted_row q rows enabled h in
      let row = charged_row q (first_where (of_owner q.owner_id) rows) in
      elim (Bool-cases (q.owner_id == o)) [
        | inl own ↦
            let (same_checks, same_bytes) = step_own q rows upserted in
            let o_eq = (==_iff q.owner_id o).0 own in
            (rw (← o_eq, ← d, same_checks) checks, rw (← o_eq, ← d, same_bytes) bytes)
        | inr other ↦
            let found : first_where (of_owner o) after ≡ first_where (of_owner o) rows =
              rw upserted (first-upsert_other row o rows other) in
            (rw found c, rw found b)
      ]

  -- With quotas enabled, whatever requests of any owners are charged on one day, an owner's checks
  -- and bytes of the day grow by exactly those of the owner's accepted requests, and stay within
  -- the daily budgets, where they were so at the start.
  pub charge_each-used :
      (qs : List Charge) (rows : List QuotaUsage) (o day : ℕ)
      → config.quotas_enabled ≡ true
      → All (λ q. day_of q.now ≡ day) qs
      → used_checks o day rows ≤ config.quota_daily_checks
      → used_bytes o day rows ≤ config.quota_daily_upload_bytes
      → let final = charge_each qs rows in
        (used_checks o day final ≡ used_checks o day rows + accepted (λ q. q.checks) o qs rows)
        × (used_bytes o day final
            ≡ used_bytes o day rows + accepted (λ q. q.upload_bytes) o qs rows)
        × (used_checks o day final ≤ config.quota_daily_checks)
        × (used_bytes o day final ≤ config.quota_daily_upload_bytes)
  unfolding charge_each accepted
  charge_each-used [] rows o day enabled d c b = (omega arith, omega arith, c, b)
  charge_each-used (q ∷ qs) rows o day enabled d c b =
      let r = charge texts config q rows in
      let (checks, bytes) = step_used q rows o day r enabled d.0 refl in
      let (c', b') = step_within q rows o day r enabled d.0 refl c b in
      let (checks', bytes', c'', b'') =
        charge_each-used qs (or_refused r rows) o day enabled d.1 c' b' in
      (omega (arith, checks, checks'), omega (arith, bytes, bytes'), c'', b'')
