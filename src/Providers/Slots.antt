-- ===== src/Providers/Slots.antt =====
-- backend/services/providers/budget.py, the request slots of a bucket: `TokenBucket._slot` and the release
-- at the end of `TokenBucket.request`. Times are microseconds.
use ovrly.Prelude.{
  ℕ, zero, suc, ◌+◌, Bool, not, ◌&&◌, Option, none, some, List, [], ◌∷◌, ◌++◌, String, str_eq, ◌==◌,
  leb, if◌then◌else◌, first_where, update_where, select,
}

-- A row of `provider_slots`.
pub record Slot : Type 0 where
  pub provider : String
  pub slot : ℕ
  pub lease_id : ℕ
  pub expires_at : ℕ

-- The fields of `TokenBucket` that the slots use.
pub record Bucket : Type 0 where
  pub name : String
  pub concurrency : ℕ
  pub request_timeout : ℕ

abbrev pub of_slot : String → ℕ → Slot → Bool
of_slot provider n r = str_eq r.provider provider && r.slot == n

-- `timedelta(seconds=self.request_timeout_seconds + 5)` from now
abbrev pub lease_end : Bucket → ℕ → ℕ
lease_end bucket now = now + bucket.request_timeout + 5000000

-- `insert(provider_slots)…on_conflict_do_update(where=expires_at <= now)…returning(slot)`
abbrev pub take_slot : Bucket → ℕ → ℕ → ℕ → List Slot → Option (List Slot)
take_slot bucket lease_id now n rows = elim (first_where (of_slot bucket.name n) rows) [
  | none ↦ some (
      rows
      ++ record {
        provider = bucket.name;
        slot = n;
        lease_id = lease_id;
        expires_at = lease_end bucket now;
      }
        ∷ [])
  | some r ↦
      if leb r.expires_at now
      then some (
          update_where (of_slot bucket.name n)
            (λ r. record r { lease_id = lease_id; expires_at = lease_end bucket now }) rows)
      else none
]

-- The slot `n` where it was taken, and the later slots where it was not.
abbrev pub taken_or : ℕ → Option (List Slot) → Option ℕ × List Slot → Option ℕ × List Slot
taken_or n none rest = rest
taken_or n (some taken) rest = (some n, taken)

-- The loop over the slots from `n` on; `now` is the clock of each statement.
unfoldable pub find_slot : Bucket → ℕ → (ℕ → ℕ) → (n left : ℕ) → List Slot → Option ℕ × List Slot
find_slot bucket lease_id now n zero rows = (none, rows)
find_slot bucket lease_id now n (suc left) rows =
    let rest = find_slot bucket lease_id now (n + 1) left rows in
    taken_or n (take_slot bucket lease_id (now n) n rows) rest

-- `TokenBucket._slot`
unfoldable pub acquire_slot : Bucket → ℕ → (ℕ → ℕ) → List Slot → Option ℕ × List Slot
acquire_slot bucket lease_id now rows = find_slot bucket lease_id now 0 bucket.concurrency rows

-- The `finally` of `TokenBucket.request`.
unfoldable pub release_slot : Bucket → ℕ → ℕ → List Slot → List Slot
release_slot bucket n lease_id rows =
    select (λ r. not (of_slot bucket.name n r && r.lease_id == lease_id)) rows
