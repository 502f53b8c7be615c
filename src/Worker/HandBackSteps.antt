-- ===== src/Worker/HandBackSteps.antt =====
-- What the operations of backend/services/jobs/queue.py that end an execution leave of its lease.
use ovrly.Prelude.{
  ℕ, ◌≡◌, ◌∙◌, refl, sym, ap, Bool, true, false, Bool-cases, none, List, [], ◌∷◌, String, arith, ok,
  >>=-eq-ok, ok_injective, any, update_where, Option, inl, inr,
}
use ovrly.Json.{Codec}
use ovrly.Jobs.Retries.{RetryClass}
use ovrly.Jobs.Tables.{Database, Clocks, Job, Lease, Error}
use ovrly.Pipeline.Analysis.{record_terminal}
use ovrly.Jobs.Queue.{owned, owned_leased, failed_with, update_jobs, cancel, release, retry, fail}
use ovrly.Jobs.Queue.Publication.{recorded-jobs_of}
use ovrly.Worker.Runtime.{Ending}

-- No row of the table is leased or running under the lease.
abbrev pub HoldsNothing : Lease → Database → Type 0
HoldsNothing lease db = any (owned_leased lease) db.jobs ≡ false

-- The endings after which the lease is handed back; after the others the job is published, or its
-- lease was lost, or it waits for its expiry.
abbrev pub hands_back : Ending → Bool
hands_back Ending.published = false
hands_back Ending.rejected = false
hands_back Ending.lost_during = false
hands_back Ending.unreleasable = false
hands_back _ = true

ownerless : (lease : Lease) (r : Job) → r.lease_owner ≡ none → owned lease r ≡ false
unfolding owned
ownerless lease r h = rw h (ground arith)

update-HoldsNothing :
    (lease : Lease) (f : Job → Job) (rows : List Job)
    → ((r : Job) → (f r).lease_owner ≡ none)
    → any (owned_leased lease) (update_where (owned_leased lease) f rows) ≡ false
update-HoldsNothing lease f [] h = refl
update-HoldsNothing lease f (r ∷ rows) h = elim (Bool-cases (owned_leased lease r)) [
  | inl fits ↦ rw (fits, ownerless lease (f r) (h r)) (update-HoldsNothing lease f rows h)
  | inr other ↦ rw (other, other) (update-HoldsNothing lease f rows h)
]

pub cancel-HoldsNothing :
    (clocks : Clocks) (lease : Lease) (db : Database)
    → HoldsNothing lease (cancel clocks lease db).1
unfolding cancel
cancel-HoldsNothing clocks lease db = update-HoldsNothing lease _ db.jobs (λ r. refl)

pub release-HoldsNothing :
    (clocks : Clocks) (lease : Lease) (db : Database)
    → HoldsNothing lease (release clocks lease db).1
unfolding release
release-HoldsNothing clocks lease db = update-HoldsNothing lease _ db.jobs (λ r. refl)

pub retry-HoldsNothing :
    (clocks : Clocks) (lease : Lease) (class : RetryClass) (delay : ℕ) (db : Database)
    → HoldsNothing lease (retry clocks lease class delay db).1
unfolding retry
retry-HoldsNothing clocks lease class delay db = update-HoldsNothing lease _ db.jobs (λ r. refl)

fail-jobs :
    (codec : Codec) (clocks : Clocks) (lease : Lease) (reason : String) (class : Option RetryClass)
    (db : Database) {b : Bool} {after : Database}
    → fail codec clocks lease reason class db ≡ ok (b, after)
    → after.jobs ≡ update_where (owned_leased lease) (failed_with clocks reason class) db.jobs
unfolding fail
fail-jobs codec clocks lease reason class db h =
    let (one, updated) = update_jobs (owned_leased lease) (failed_with clocks reason class) db in
    elim (Bool-cases one) [
      | inl marked ↦
          let (recorded, records, last) =
            >>=-eq-ok (record_terminal codec clocks lease.job_id none updated) _ (rw marked at h) in
          ap (λ (x : Bool × Database). x.1.jobs) (sym (ok_injective Error last))
          ∙ recorded-jobs_of codec clocks lease.job_id none updated recorded records
      | inr other ↦
          ap (λ (x : Bool × Database). x.1.jobs) (sym (ok_injective Error (rw other at h)))
    ]

pub fail-HoldsNothing :
    (codec : Codec) (clocks : Clocks) (lease : Lease) (reason : String) (class : Option RetryClass)
    (db : Database) {b : Bool} {after : Database}
    → fail codec clocks lease reason class db ≡ ok (b, after)
    → HoldsNothing lease after
fail-HoldsNothing codec clocks lease reason class db h =
    rw (fail-jobs codec clocks lease reason class db h)
      (update-HoldsNothing lease (failed_with clocks reason class) db.jobs (λ r. refl))
