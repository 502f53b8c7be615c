-- ===== src/Providers/Running.antt =====
-- The calls that hold a slot of a bucket of backend/services/providers/budget.py: each was given its slot by
-- `TokenBucket._slot` and has not come to the `finally` of `TokenBucket.request`.
use ovrly.Prelude.{ℕ, ◌≤◌, Bool, ◌&&◌, Option, none, some, List, [], ◌∷◌, ltb, count_where}
use ovrly.Providers.Slots.{Slot, Bucket, lease_end, acquire_slot, release_slot}
use ovrly.Providers.Capacity.{SlotOp, acquire, release, of_bucket}

-- The table and the leases of the calls that run.
pub record Calls : Type 0 where
  pub rows : List Slot
  pub running : List Slot

-- The lease that a call holds after it was given the slot `n`.
abbrev pub lease_at : Bucket → ℕ → ℕ → ℕ → Slot
lease_at bucket lease_id now n = record {
  provider = bucket.name;
  slot = n;
  lease_id = lease_id;
  expires_at = lease_end bucket now;
}

abbrev pub with_lease : Bucket → ℕ → (ℕ → ℕ) → Option ℕ → List Slot → List Slot
with_lease bucket lease_id now none running = running
with_lease bucket lease_id now (some n) running = lease_at bucket lease_id (now n) n ∷ running

-- A call that gets a slot starts, and one that releases its slot has ended.
unfoldable pub call_step : Bucket → SlotOp → Calls → Calls
call_step bucket (acquire lease_id now) s =
    let taken = acquire_slot bucket lease_id now s.rows in
    record { rows = taken.1; running = with_lease bucket lease_id now taken.0 s.running }
call_step bucket (release n lease_id) s = record {
  rows = release_slot bucket n lease_id s.rows;
  running = release_slot bucket n lease_id s.running;
}

unfoldable pub calls_after : Bucket → List SlotOp → Calls → Calls
calls_after bucket [] s = s
calls_after bucket (op ∷ ops) s = calls_after bucket ops (call_step bucket op s)

-- A lease of the bucket that has not expired at a time.
abbrev pub is_live : Bucket → ℕ → Slot → Bool
is_live bucket t r = of_bucket bucket r && ltb t r.expires_at

-- Every statement of an acquisition reads the clock no later than a time.
abbrev pub IsUntil : ℕ → SlotOp → Type 0
IsUntil t (acquire lease_id now) = (k : ℕ) → now k ≤ t
IsUntil t (release n lease_id) = Unit

-- What is live of the running calls is in the table, with the same lease.
AreRowed : ℕ → List Slot → List Slot → Type 0
AreRowed t running rows =
    (p : Slot → Bool)
    → count_where (λ r. p r && ltb t r.expires_at) running
      ≤ count_where (λ r. p r && ltb t r.expires_at) rows
