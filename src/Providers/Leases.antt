-- ===== src/Providers/Leases.antt =====
-- A live request slot of backend/services/providers/budget.py is taken from nobody.
use ovrly.Prelude.{
  ℕ, zero, suc, ◌+◌, ◌<◌, ◌≡◌, ◌≢◌, refl, sym, ap, subst, inl, inr, Bool, true, false, not, ◌&&◌,
  ==_iff, Bool-cases, Option-cases, Option, some, List, [], ◌∷◌, ◌++◌, All, arith, leb, ◌==◌,
  select, first_where, update_where,
}
use ovrly.Providers.Slots.{
  Slot, Bucket, of_slot, lease_end, take_slot, find_slot, acquire_slot, release_slot,
}
use ovrly.Providers.SlotTables.{find_slot-busy, find_slot-taken}
use ovrly.Providers.Capacity.{SlotOp, acquire, release, slot_step, slots_after}

first-append :
    (p : Slot → Bool) (rows : List Slot) (x : Slot) {r : Slot}
    → first_where p rows ≡ some r
    → first_where p (rows ++ x ∷ []) ≡ some r
first-append p [] x h = cc
first-append p (y ∷ rows) x h = elim (Bool-cases (p y)) [
  | inl fits ↦ rw fits (rw fits at h)
  | inr unfit ↦ rw unfit (first-append p rows x (rw unfit at h))
]

first-update_other :
    (p q : Slot → Bool) (f : Slot → Slot) (rows : List Slot) {r : Slot}
    → ((s : Slot) → q s ≡ true → p s ≡ false)
    → ((s : Slot) → p (f s) ≡ p s)
    → first_where p rows ≡ some r
    → first_where p (update_where q f rows) ≡ some r
first-update_other p q f [] h k e = cc
first-update_other p q f (y ∷ rows) h k e = elim (Bool-cases (q y)) [
  | inl changed ↦
      rw (changed, k y, h y changed) (first-update_other p q f rows h k (rw (h y changed) at e))
  | inr other ↦ elim (Bool-cases (p y)) [
    | inl fits ↦ rw (other, fits) (rw fits at e)
    | inr unfit ↦ rw (other, unfit) (first-update_other p q f rows h k (rw unfit at e))
  ]
]

first-select :
    (p q : Slot → Bool) (rows : List Slot) {r : Slot}
    → q r ≡ true
    → first_where p rows ≡ some r
    → first_where p (select q rows) ≡ some r
first-select p q [] h e = cc
first-select p q (y ∷ rows) {r} h e = elim (Bool-cases (p y)) [
  | inl fits ↦
      let same : some y ≡ some r = rw fits at e in
      let kept : q y ≡ true = ground arith in rw (kept, fits) same
  | inr unfit ↦ elim (Bool-cases (q y)) [
    | inl kept ↦ rw (kept, unfit) (first-select p q rows h (rw unfit at e))
    | inr gone ↦ rw gone (first-select p q rows h (rw unfit at e))
  ]
]

-- The row of a slot of the bucket.
abbrev pub slot_row : Bucket → ℕ → List Slot → Option Slot
slot_row bucket n = first_where (of_slot bucket.name n)

take_slot-live :
    (bucket : Bucket) (lease_id now n m : ℕ) (rows : List Slot) (r : Slot) {taken : List Slot}
    → now < r.expires_at
    → slot_row bucket n rows ≡ some r
    → take_slot bucket lease_id now m rows ≡ some taken
    → slot_row bucket n taken ≡ some r
take_slot-live bucket lease_id now n m rows r {taken} live h e = elim (Bool-cases (m == n)) [
  | inl same ↦
      let m_eq = (==_iff m n).0 same in
      let h' : first_where (of_slot bucket.name m) rows ≡ some r = rw m_eq h in
      absurd (ground arith)
  | inr other ↦ elim (Option-cases (first_where (of_slot bucket.name m) rows)) [
    | inl free ↦
        let x : Slot = record {
          provider = bucket.name;
          slot = m;
          lease_id = lease_id;
          expires_at = lease_end bucket now;
        } in
        let same : rows ++ x ∷ [] ≡ taken = ground arith in
        subst (λ t. slot_row bucket n t ≡ some r) same
          (first-append (of_slot bucket.name n) rows x h)
    | inr (s, held) ↦ elim (Bool-cases (leb s.expires_at now)) [
      | inl over ↦
          let same : update_where (of_slot bucket.name m)
                (λ r. record r { lease_id = lease_id; expires_at = lease_end bucket now }) rows
              ≡ taken =
            ground arith in
          subst (λ t. slot_row bucket n t ≡ some r) same
            (first-update_other (of_slot bucket.name n) (of_slot bucket.name m) _ rows
              (λ s fits. ground arith) (λ s. refl) h)
      | inr busy ↦ absurd (ground arith)
    ]
  ]
]

find_slot-live :
    (bucket : Bucket) (lease_id : ℕ) (now : ℕ → ℕ) (n m left : ℕ) (rows : List Slot) (r : Slot)
    → ((k : ℕ) → now k < r.expires_at)
    → slot_row bucket n rows ≡ some r
    → slot_row bucket n (find_slot bucket lease_id now m left rows).1 ≡ some r
unfolding find_slot
find_slot-live bucket lease_id now n m zero rows r live h = h
find_slot-live bucket lease_id now n m (suc left) rows r live h =
    elim (Option-cases (take_slot bucket lease_id (now m) m rows)) [
      | inl busy ↦
          subst (λ t. slot_row bucket n t ≡ some r)
            (sym (find_slot-busy bucket lease_id now m left rows busy))
            (find_slot-live bucket lease_id now n (m + 1) left rows r live h)
      | inr (taken, e) ↦
          subst (λ t. slot_row bucket n t ≡ some r)
            (sym (
              ap (λ (x : Option ℕ × List Slot). x.1)
                (find_slot-taken bucket lease_id now m left rows e)))
            (take_slot-live bucket lease_id (now m) n m rows r (live m) h e)
    ]

-- Operations of others while a lease is live: they take slots before it expires, and release their
-- own leases.
abbrev pub Respects : Slot → SlotOp → Type 0
Respects r (acquire lease_id now) = (k : ℕ) → now k < r.expires_at
Respects r (release n lease_id) = lease_id ≢ r.lease_id

-- While a slot's lease is live it stays its holder's: acquisitions of any process before its
-- expiry and releases under other leases leave its row as it was.
pub live_slot_kept :
    (bucket : Bucket) (n : ℕ) (r : Slot) (ops : List SlotOp) (rows : List Slot)
    → All (Respects r) ops
    → slot_row bucket n rows ≡ some r
    → slot_row bucket n (slots_after bucket ops rows) ≡ some r
unfolding slots_after slot_step acquire_slot release_slot
live_slot_kept bucket n r [] rows a h = h
live_slot_kept bucket n r (acquire lease_id now ∷ ops) rows a h =
    live_slot_kept bucket n r ops _ a.1
      (find_slot-live bucket lease_id now n 0 bucket.concurrency rows r a.0 h)
live_slot_kept bucket n r (release m lease_id ∷ ops) rows a h =
    live_slot_kept bucket n r ops _ a.1
      (first-select (of_slot bucket.name n) _ rows (others r a.0) h)
  where
    others :
        (r : Slot)
        → lease_id ≢ r.lease_id
        → not (of_slot bucket.name m r && r.lease_id == lease_id) ≡ true
    others r ne = ground arith
