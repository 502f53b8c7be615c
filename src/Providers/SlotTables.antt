-- ===== src/Providers/SlotTables.antt =====
-- The keys of the slot rows of backend/services/providers/budget.py.
use ovrly.Prelude.{
  ℕ, zero, suc, ◌+◌, ◌≤◌, ◌<◌, ◌≡◌, ◌∙◌, refl, sym, ap, subst, inl, inr, Bool, false, ◌&&◌, ◌||◌,
  ||-left, ||-right, Bool-cases, Option-cases, Option, none, some, List, [], ◌∷◌, ◌++◌, str_eq,
  eq_iff, arith, leb, any, select, first_where, update_where, any_of_first_none,
}
use ovrly.Providers.Slots.{Slot, Bucket, of_slot, lease_end, take_slot, taken_or, find_slot}

-- `(provider, slot)` is the primary key, and the slots of the bucket are below its concurrency.
abbrev pub IsTable : Bucket → List Slot → Type 0
IsTable bucket [] = Unit
IsTable bucket (r ∷ rows) =
    (any (of_slot r.provider r.slot) rows ≡ false)
    × ((str_eq r.provider bucket.name && leb bucket.concurrency r.slot) ≡ false)
    × IsTable bucket rows

any-update_key :
    (p q : Slot → Bool) (f : Slot → Slot) (rows : List Slot)
    → ((r : Slot) → p (f r) ≡ p r)
    → any p (update_where q f rows) ≡ any p rows
any-update_key p q f [] h = refl
any-update_key p q f (r ∷ rows) h = elim (Bool-cases (q r)) [
  | inl fits ↦ rw (fits, h r, any-update_key p q f rows h) refl
  | inr other ↦ rw (other, any-update_key p q f rows h) refl
]

IsTable-update_where :
    (bucket : Bucket) (q : Slot → Bool) (lease_id expires_at : ℕ) (rows : List Slot)
    → IsTable bucket rows
    → IsTable bucket
        (update_where q (λ r. record r { lease_id = lease_id; expires_at = expires_at }) rows)
IsTable-update_where bucket q lease_id expires_at [] t = tt
IsTable-update_where bucket q lease_id expires_at (r ∷ rows) t =
    let f : Slot → Slot = λ r. record r { lease_id = lease_id; expires_at = expires_at } in
    let keys = any-update_key (of_slot r.provider r.slot) q f rows (λ s. refl) in
    elim (Bool-cases (q r)) [
      | inl fits ↦
          rw fits (keys ∙ t.0, t.1, IsTable-update_where bucket q lease_id expires_at rows t.2)
      | inr other ↦
          rw other (keys ∙ t.0, t.1, IsTable-update_where bucket q lease_id expires_at rows t.2)
    ]

any-append_key :
    (p : Slot → Bool) (rows : List Slot) (x : Slot) → any p (rows ++ x ∷ []) ≡ (any p rows || p x)
any-append_key p [] x = ground arith
any-append_key p (r ∷ rows) x = ground (arith, any-append_key p rows x)

IsTable-append :
    (bucket : Bucket) (x : Slot) (rows : List Slot)
    → any (of_slot x.provider x.slot) rows ≡ false
    → (str_eq x.provider bucket.name && leb bucket.concurrency x.slot) ≡ false
    → IsTable bucket rows
    → IsTable bucket (rows ++ x ∷ [])
IsTable-append bucket x [] h k t = (refl, k, tt)
IsTable-append bucket x (r ∷ rows) h k t =
    let other : of_slot r.provider r.slot x ≡ false = ground (
      arith,
      eq_iff x.provider r.provider,
      eq_iff r.provider x.provider,
      ||-left (of_slot x.provider x.slot r) (any (of_slot x.provider x.slot) rows) h,
    ) in
    (
      any-append_key (of_slot r.provider r.slot) rows x ∙ (rw (t.0, other) refl),
      t.1,
      IsTable-append bucket x rows (||-right _ _ h) k t.2,
    )

any-select_key :
    (p q : Slot → Bool) (rows : List Slot) → any p rows ≡ false → any p (select q rows) ≡ false
any-select_key p q [] h = refl
any-select_key p q (r ∷ rows) h = ground (arith, any-select_key p q rows)

pub IsTable-select :
    (bucket : Bucket) (q : Slot → Bool) (rows : List Slot)
    → IsTable bucket rows
    → IsTable bucket (select q rows)
IsTable-select bucket q [] t = tt
IsTable-select bucket q (r ∷ rows) t = elim (Bool-cases (q r)) [
  | inl kept ↦ rw kept (any-select_key _ q rows t.0, t.1, IsTable-select bucket q rows t.2)
  | inr gone ↦ rw gone (IsTable-select bucket q rows t.2)
]

take_slot-IsTable :
    (bucket : Bucket) (lease_id now n : ℕ) (rows : List Slot) {taken : List Slot}
    → n < bucket.concurrency
    → IsTable bucket rows
    → take_slot bucket lease_id now n rows ≡ some taken
    → IsTable bucket taken
take_slot-IsTable bucket lease_id now n rows {taken} h t e =
    elim (Option-cases (first_where (of_slot bucket.name n) rows)) [
      | inl free ↦
          let x : Slot = record {
            provider = bucket.name;
            slot = n;
            lease_id = lease_id;
            expires_at = lease_end bucket now;
          } in
          let same : rows ++ x ∷ [] ≡ taken = ground arith in
          subst (IsTable bucket) same (
            IsTable-append bucket x rows (any_of_first_none (of_slot bucket.name n) rows free)
              (ground arith) t)
      | inr (r, held) ↦ elim (Bool-cases (leb r.expires_at now)) [
        | inl over ↦
            let same : update_where (of_slot bucket.name n)
                  (λ r. record r { lease_id = lease_id; expires_at = lease_end bucket now }) rows
                ≡ taken =
              ground arith in
            subst (IsTable bucket) same (
              IsTable-update_where bucket (of_slot bucket.name n) lease_id (lease_end bucket now)
                rows t)
        | inr live ↦ absurd (ground arith)
      ]
    ]

pub find_slot-busy :
    (bucket : Bucket) (lease_id : ℕ) (now : ℕ → ℕ) (n left : ℕ) (rows : List Slot)
    → take_slot bucket lease_id (now n) n rows ≡ none
    → (find_slot bucket lease_id now n (suc left) rows).1
      ≡ (find_slot bucket lease_id now (n + 1) left rows).1
unfolding find_slot
find_slot-busy bucket lease_id now n left rows h =
    ap (λ o. (taken_or n o (find_slot bucket lease_id now (n + 1) left rows)).1) h

pub find_slot-taken :
    (bucket : Bucket) (lease_id : ℕ) (now : ℕ → ℕ) (n left : ℕ) (rows : List Slot)
    {taken : List Slot}
    → take_slot bucket lease_id (now n) n rows ≡ some taken
    → find_slot bucket lease_id now n (suc left) rows ≡ (some n, taken)
unfolding find_slot
find_slot-taken bucket lease_id now n left rows h =
    ap (λ o. taken_or n o (find_slot bucket lease_id now (n + 1) left rows)) h

pub find_slot-IsTable :
    (bucket : Bucket) (lease_id : ℕ) (now : ℕ → ℕ) (n left : ℕ) (rows : List Slot)
    → n + left ≤ bucket.concurrency
    → IsTable bucket rows
    → IsTable bucket (find_slot bucket lease_id now n left rows).1
unfolding find_slot
find_slot-IsTable bucket lease_id now n zero rows h t = t
find_slot-IsTable bucket lease_id now n (suc left) rows h t =
    elim (Option-cases (take_slot bucket lease_id (now n) n rows)) [
      | inl busy ↦
          subst (IsTable bucket) (sym (find_slot-busy bucket lease_id now n left rows busy))
            (find_slot-IsTable bucket lease_id now (n + 1) left rows (omega (arith, h)) t)
      | inr (taken, e) ↦
          subst (IsTable bucket)
            (sym (
              ap (λ (x : Option ℕ × List Slot). x.1)
                (find_slot-taken bucket lease_id now n left rows e)))
            (take_slot-IsTable bucket lease_id (now n) n rows (omega (arith, h)) t e)
    ]
