-- ===== src/Jobs/Queue/History.antt =====
-- Any interleaving of the transactions of backend/services/jobs/queue.py, as the sequence in which
-- they commit; workers, owners and clocks are whatever the sequence says.
use ovrly.Prelude.{ℕ, ◌≡◌, refl, Bool, true, Option, List, [], ◌∷◌, String, All}
use ovrly.Json.{Document, Codec}
use ovrly.Jobs.States.{JobEvent}
use ovrly.Jobs.Retries.{RetryClass}
use ovrly.Jobs.Tables.{Database, Clocks, Lease, StageKey, Result, ok, err}
use ovrly.Jobs.Spec.{only, quiet}
use ovrly.Jobs.Spec.Rows.{Table}
use ovrly.Jobs.Spec.Unique.{UniqueRows}
use ovrly.Jobs.Spec.Evolution.{Evolution, Evolution-refl, Evolution-trans, Evolution-mono}
use ovrly.Jobs.Queue.{
  claim, start, heartbeat, save_stage_data, release, retry, cancel, record_request_id, fail,
}
use ovrly.Jobs.Queue.Owner.{enqueue, request_cancel, delete}
use ovrly.Jobs.Queue.Publish.{Successor, publish}
use ovrly.Jobs.Queue.Refines.{
  start-Evolution, release-Evolution, retry-Evolution, cancel-Evolution, fail-Evolution,
  heartbeat-Evolution, save_stage_data-Evolution, record_request_id-Evolution,
}
use ovrly.Jobs.Queue.Transitions.{
  claim_or_expire, claim-Evolution, enqueue-Evolution, request_cancel-Evolution, delete-Evolution,
}
use ovrly.Jobs.Queue.Publication.{publish-Evolution}

pub data Transaction : Type 0 where
  claim_job : Clocks → String → List String → ℕ → (ℕ → Bool) → Transaction
  start_job : Clocks → Lease → Transaction
  beat : Clocks → Lease → ℕ → Transaction
  save_data : Clocks → Lease → Document → Transaction
  release_job : Clocks → Lease → Transaction
  retry_job : Clocks → Lease → RetryClass → ℕ → Transaction
  cancel_job : Clocks → Lease → Transaction
  record_id : Clocks → Lease → String → Transaction
  fail_job : Codec → Clocks → Lease → String → Option RetryClass → Transaction
  publish_job :
      Codec
      → Clocks
      → Lease
      → Document
      → List Successor
      → (Database → Result Database)
      → (later : Database) → Transaction
  enqueue_job : Clocks → ℕ → StageKey → Document → Option ℕ → Transaction
  request_cancel_job : Clocks → ℕ → Transaction
  delete_job : Codec → Clocks → ℕ → Transaction

-- The tables after a transaction: as they were where it raised.
abbrev pub commit {ℓ} : {A : Type ℓ} → Result (A × Database) → Database → Database
commit (ok (_, after)) before = after
commit (err _) before = before

unfoldable pub step : Transaction → Database → Database
step (claim_job c w stages t locked) db = (claim c w stages t locked db).1
step (start_job c l) db = (start c l db).1
step (beat c l t) db = commit (heartbeat c l t db) db
step (save_data c l d) db = commit (save_stage_data c l d db) db
step (release_job c l) db = (release c l db).1
step (retry_job c l class delay) db = (retry c l class delay db).1
step (cancel_job c l) db = (cancel c l db).1
step (record_id c l id) db = commit (record_request_id c l id db) db
step (fail_job codec c l reason class) db = commit (fail codec c l reason class db) db
step (publish_job codec c l result successors on_publish later) db =
    commit (publish codec c l result successors on_publish later db) db
step (enqueue_job c id key payload owner) db = commit (enqueue c id key payload owner db) db
step (request_cancel_job c id) db = (request_cancel c id db).1
step (delete_job codec c id) db = (delete codec c id db).1

unfoldable pub after : List Transaction → Database → Database
unfolding step
after [] db = db
after (t ∷ ts) db = after ts (step t db)

-- What a publication's callback may do to the jobs: enqueue more, and no transition. It leaves the
-- published results alone.
abbrev pub IsQuietCallback : (Database → Result Database) → Type 0
IsQuietCallback f =
    (d d' : Database)
    → f d ≡ ok d'
    → Evolution quiet d.jobs d'.jobs × (d'.job_results ≡ d.job_results)

abbrev pub HasQuietCallback : Transaction → Type 0
HasQuietCallback (publish_job codec c l result successors on_publish later) =
    IsQuietCallback on_publish
HasQuietCallback _ = Unit

-- The events that a transaction may make.
abbrev pub events_of : Transaction → JobEvent → Bool
events_of (claim_job _ _ _ _ _) = claim_or_expire
events_of (start_job _ _) = only JobEvent.start
events_of (release_job _ _) = only JobEvent.release
events_of (retry_job _ _ _ _) = only JobEvent.retry
events_of (cancel_job _ _) = only JobEvent.cancel
events_of (fail_job _ _ _ _ _) = only JobEvent.fail
events_of (publish_job _ _ _ _ _ _ _) = only JobEvent.publish
events_of (request_cancel_job _ _) = only JobEvent.request_cancel
events_of (delete_job _ _ _) = only JobEvent.delete
events_of _ = quiet

commit-Evolution :
    {A : Type 0} (allowed : JobEvent → Bool) (r : Result (A × Database)) (db : Database)
    → ((a : A) (db' : Database) → r ≡ ok (a, db') → Evolution allowed db.jobs db'.jobs)
    → Evolution allowed db.jobs (commit r db).jobs
commit-Evolution allowed (ok (a, db')) db h = h a db' refl
commit-Evolution allowed (err _) db h = Evolution-refl allowed db.jobs

pub step-Evolution :
    (t : Transaction) (db : Database)
    → UniqueRows db.jobs
    → HasQuietCallback t
    → Evolution (events_of t) db.jobs (step t db).jobs
unfolding step
step-Evolution (claim_job c w stages time locked) db u q =
    claim-Evolution c w stages time locked db u
step-Evolution (start_job c l) db u q = start-Evolution c l db
step-Evolution (beat c l time) db u q =
    commit-Evolution quiet (heartbeat c l time db) db (λ a d h. heartbeat-Evolution c l db time h)
step-Evolution (save_data c l document) db u q =
    commit-Evolution quiet (save_stage_data c l document db) db
      (λ a d h. save_stage_data-Evolution c l db document h)
step-Evolution (release_job c l) db u q = release-Evolution c l db
step-Evolution (retry_job c l class delay) db u q = retry-Evolution c l db class delay
step-Evolution (cancel_job c l) db u q = cancel-Evolution c l db
step-Evolution (record_id c l id) db u q =
    commit-Evolution quiet (record_request_id c l id db) db
      (λ a d h. record_request_id-Evolution c l db id h)
step-Evolution (fail_job codec c l reason class) db u q =
    commit-Evolution (only JobEvent.fail) (fail codec c l reason class db) db
      (λ a d h. fail-Evolution c l db codec reason class h)
step-Evolution (publish_job codec c l result successors on_publish later) db u q =
    commit-Evolution (only JobEvent.publish)
      (publish codec c l result successors on_publish later db) db
      (λ a d h.
        publish-Evolution codec c l result successors on_publish later db a d
          (λ d d' h. (q d d' h).0) h)
step-Evolution (enqueue_job c id key payload owner) db u q =
    commit-Evolution quiet (enqueue c id key payload owner db) db
      (λ a d h. enqueue-Evolution c id key payload owner db h)
step-Evolution (request_cancel_job c id) db u q = request_cancel-Evolution c id db u
step-Evolution (delete_job codec c id) db u q = delete-Evolution codec c id db

-- Every transaction of the queue implements the specification: on a table whose ids are unique
-- each row stays as it was or makes legal transitions of the transaction's own events, with the
-- fencing token and the generation that the specification counts; no row disappears, new rows are
-- queued and fresh, and the ids stay unique. A publication's callback is assumed to enqueue at
-- most.
pub step_refines :
    (t : Transaction) (db : Database)
    → UniqueRows db.jobs
    → HasQuietCallback t
    → Table (events_of t) db.jobs (step t db).jobs × UniqueRows (step t db).jobs
step_refines t db u q = let (table, keeps) = step-Evolution t db u q in (table, keeps u)

abbrev pub any_event : JobEvent → Bool
any_event _ = true

-- So does every sequence of transactions.
pub after-Evolution :
    (ts : List Transaction) (db : Database)
    → UniqueRows db.jobs
    → All HasQuietCallback ts
    → Evolution any_event db.jobs (after ts db).jobs
unfolding after
after-Evolution [] db u q = Evolution-refl any_event db.jobs
after-Evolution (t ∷ ts) db u q =
    let first = step-Evolution t db u q.0 in
    Evolution-trans any_event db.jobs (step t db).jobs (after ts (step t db)).jobs
      (Evolution-mono (events_of t) any_event db.jobs (step t db).jobs (λ e h. refl) first)
      (after-Evolution ts (step t db) (first.1 u) q.1)
