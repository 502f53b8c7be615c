-- ===== src/Providers/Capacity.antt =====
-- What processes do with the slots of a bucket of backend/services/providers/budget.py, one after another, and how many
-- rows that leaves.
use ovrly.Prelude.{
  ℕ, zero, suc, ◌+◌, ◌≤◌, ◌≡◌, refl, subst, inl, inr, Bool, false, ◌&&◌, &&-left, &&-right, ==_iff,
  Bool-cases, List, [], ◌∷◌, String, str_eq, eq_iff, arith, ltb, any, count_where,
}
use ovrly.Providers.Slots.{Slot, Bucket, of_slot, acquire_slot, release_slot}
use ovrly.Providers.SlotTables.{IsTable, IsTable-select, find_slot-IsTable}

-- What processes do with the slots of a bucket, in the order in which they commit.
pub data SlotOp : Type 0 where
  acquire : ℕ → (ℕ → ℕ) → SlotOp
  release : ℕ → ℕ → SlotOp

unfoldable pub slot_step : Bucket → SlotOp → List Slot → List Slot
slot_step bucket (acquire lease_id now) rows = (acquire_slot bucket lease_id now rows).1
slot_step bucket (release n lease_id) rows = release_slot bucket n lease_id rows

unfoldable pub slots_after : Bucket → List SlotOp → List Slot → List Slot
slots_after bucket [] rows = rows
slots_after bucket (op ∷ ops) rows = slots_after bucket ops (slot_step bucket op rows)

slots_after-IsTable :
    (bucket : Bucket) (ops : List SlotOp) (rows : List Slot)
    → IsTable bucket rows
    → IsTable bucket (slots_after bucket ops rows)
unfolding slots_after slot_step acquire_slot release_slot
slots_after-IsTable bucket [] rows t = t
slots_after-IsTable bucket (acquire lease_id now ∷ ops) rows t =
    slots_after-IsTable bucket ops _
      (find_slot-IsTable bucket lease_id now 0 bucket.concurrency rows (omega arith) t)
slots_after-IsTable bucket (release n lease_id ∷ ops) rows t =
    slots_after-IsTable bucket ops _ (IsTable-select bucket _ rows t)

abbrev below : String → ℕ → Slot → Bool
below name c r = str_eq r.provider name && ltb r.slot c

abbrev pub of_bucket : Bucket → Slot → Bool
of_bucket bucket r = str_eq r.provider bucket.name

count-none : (p : Slot → Bool) (rows : List Slot) → any p rows ≡ false → count_where p rows ≡ 0
count-none p [] h = refl
count-none p (r ∷ rows) h = ground (arith, count-none p rows)

pub count-slot :
    (bucket : Bucket) (n : ℕ) (rows : List Slot)
    → IsTable bucket rows
    → count_where (of_slot bucket.name n) rows ≤ 1
count-slot bucket n [] t = omega arith
count-slot bucket n (r ∷ rows) t = elim (Bool-cases (of_slot bucket.name n r)) [
  | inl own ↦
      let keys : (r.provider ≡ bucket.name) × (r.slot ≡ n) = (
        (eq_iff r.provider bucket.name).0 (&&-left _ _ own),
        (==_iff r.slot n).0 (&&-right _ _ own),
      ) in
      let none_left : any (of_slot bucket.name n) rows ≡ false =
        subst (λ m. any (of_slot bucket.name m) rows ≡ false) keys.1
          (subst (λ s. any (of_slot s r.slot) rows ≡ false) keys.0 t.0) in
      rw own (omega (arith, count-none (of_slot bucket.name n) rows none_left))
  | inr other ↦ rw other (count-slot bucket n rows t.2)
]

count-below :
    (name : String) (c : ℕ) (rows : List Slot)
    → count_where (below name (suc c)) rows
      ≤ count_where (below name c) rows + count_where (of_slot name c) rows
count-below name c [] = omega arith
count-below name c (r ∷ rows) = ground (arith, count-below name c rows)

below-none : (name : String) (rows : List Slot) → count_where (below name 0) rows ≡ 0
below-none name [] = refl
below-none name (r ∷ rows) = ground (arith, below-none name rows)

below_bound :
    (bucket : Bucket) (c : ℕ) (rows : List Slot)
    → IsTable bucket rows
    → count_where (below bucket.name c) rows ≤ c
below_bound bucket zero rows t = omega (arith, below-none bucket.name rows)
below_bound bucket (suc c) rows t =
    omega (
      arith,
      below_bound bucket c rows t,
      count-below bucket.name c rows,
      count-slot bucket c rows t,
    )

count-of_bucket :
    (bucket : Bucket) (rows : List Slot)
    → IsTable bucket rows
    → count_where (of_bucket bucket) rows ≤ count_where (below bucket.name bucket.concurrency) rows
count-of_bucket bucket [] t = omega arith
count-of_bucket bucket (r ∷ rows) t = ground (arith, count-of_bucket bucket rows t.2, t.1)

-- The rows of a bucket, whatever operations have left them, are no more than its concurrency.
pub slots-le-concurrency :
    (bucket : Bucket) (ops : List SlotOp) (rows : List Slot)
    → IsTable bucket rows
    → count_where (of_bucket bucket) (slots_after bucket ops rows) ≤ bucket.concurrency
slots-le-concurrency bucket ops rows t =
    let after = slots_after bucket ops rows in
    let t' = slots_after-IsTable bucket ops rows t in
    omega (arith, count-of_bucket bucket after t', below_bound bucket bucket.concurrency after t')
