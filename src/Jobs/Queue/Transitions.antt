-- ===== src/Jobs/Queue/Transitions.antt =====
-- The operations of backend/services/jobs/queue.py that are not a lease-holder's: claims, the
-- owner's enqueue, request_cancel and delete, and publication, as transitions of the table.
use ovrly.Prelude.{
  any_of_first_none, ℕ, ◌≡◌, ◌∙◌, ==_iff, ◌⊎◌, &&-left, &&-right, refl, inl, inr, Bool, true, false,
  not, ◌||◌, Option, none, some, List, [], ◌∷◌, ◌++◌, String, arith, ◌==◌, Bool-cases, Option-cases,
  update_where, any, first_where, count_where,
}
use ovrly.Json.{Document, Codec}
use ovrly.Jobs.States.{JobEvent, in_leased_states, is_queued, is_deleted}
use ovrly.Jobs.Tables.{Job, Database, Clocks, StageKey, Enqueued, ok}
use ovrly.Jobs.Spec.{view, advance, only, quiet, Evolves, Evolves-one}
use ovrly.Jobs.Spec.Unique.{UniqueRows, UniqueRows-update_where, In, In-first_where, In-select}
use ovrly.Jobs.Spec.Evolution.{
  Evolution, Evolution-refl, Evolution-append, Evolution-mono, Evolution-trans, Evolution-update_id,
}
use ovrly.Pipeline.Analysis.{resolve_due, resolve_due-jobs}
use ovrly.Jobs.Queue.{
  give_back, overdue, expire_overdue, claimable, candidate, earliest, before, claim, leased_to,
  lease_candidate, is_empty,
}
use ovrly.Jobs.Queue.Owner.{
  has_key, request_cancel_of, is_prerequisite, erase_content, new_job, fence_prerequisite, enqueue,
  request_cancel, cancelled_row, delete, deletable, deleted_row,
}
use ovrly.Jobs.Queue.Refines.{Evolution-by_event, give_back_row}

In-earliest : (rows : List Job) {r : Job} → earliest rows ≡ some r → In r rows
unfolding earliest
In-earliest [] h = cc
In-earliest (x ∷ xs) {r} h = elim (Option-cases (earliest xs)) [
  | inl empty ↦ inl (ground arith)
  | inr (best, e) ↦ elim (Bool-cases (before best x)) [
    | inl less ↦ inr (In-earliest xs (e ∙ (ground arith)))
    | inr not_less ↦ inl (ground arith)
  ]
]

-- The events of a claim: overdue leases expire, then one row is claimed.
abbrev pub claim_or_expire : JobEvent → Bool
claim_or_expire e = only JobEvent.claim e || only JobEvent.expire e

claim_row :
    (clocks : Clocks) (worker_id : String) (lease_time : ℕ) (r : Job)
    → is_queued r.state ≡ true
    → Evolves (only JobEvent.claim) r (leased_to clocks worker_id lease_time r)
unfolding advance
claim_row clocks worker_id lease_time r h =
    Evolves-one JobEvent.claim r (leased_to clocks worker_id lease_time r) (ground arith) refl refl
      refl

pub expired-Evolution :
    (clocks : Clocks) (rows : List Job)
    → Evolution (only JobEvent.expire) rows (expire_overdue clocks rows)
expired-Evolution clocks rows =
    Evolution-by_event JobEvent.expire (overdue clocks) (give_back clocks) rows
      (λ r h. give_back_row clocks JobEvent.expire r (inr (inr refl)) (&&-left _ _ h))
      (λ r. (refl, refl, refl))

lease_candidate-Evolution :
    (clocks : Clocks) (worker_id : String) (lease_time : ℕ) (o : Option Job) (db : Database)
    → UniqueRows db.jobs
    → ((r : Job) → o ≡ some r → In r db.jobs × (is_queued r.state ≡ true))
    → Evolution
        (only JobEvent.claim)
        db.jobs
        (lease_candidate clocks worker_id lease_time o db).1.jobs
lease_candidate-Evolution clocks worker_id lease_time none db u h =
    Evolution-refl (only JobEvent.claim) db.jobs
lease_candidate-Evolution clocks worker_id lease_time (some r) db u h =
    Evolution-update_id (only JobEvent.claim) (leased_to clocks worker_id lease_time) r db.jobs u
      (h r refl).0 (claim_row clocks worker_id lease_time r (h r refl).1) (λ s. (refl, refl))

pub candidate-queued :
    (clocks : Clocks) (stages : List String) (locked : ℕ → Bool) (rows : List Job) (r : Job)
    → candidate clocks stages locked rows ≡ some r
    → In r rows × (is_queued r.state ≡ true)
unfolding candidate
candidate-queued clocks stages locked rows r h =
    let (i, fits) = In-select (claimable clocks stages locked) rows r (In-earliest _ h) in
    (i, ground arith)

claim_expired :
    (clocks : Clocks) (worker_id : String) (stages : List String) (lease_time : ℕ)
    (locked : ℕ → Bool) (resolved : Database) (rows : List Job)
    → resolved.jobs ≡ rows
    → UniqueRows rows
    → Evolution claim_or_expire rows
        (lease_candidate clocks worker_id lease_time
          (candidate clocks stages locked (expire_overdue clocks resolved.jobs))
          (record resolved { jobs = expire_overdue clocks resolved.jobs })).1.jobs
claim_expired clocks worker_id stages lease_time locked resolved rows same u = rw same (
    let later = expire_overdue clocks rows in
    Evolution-trans claim_or_expire rows later _
      (Evolution-mono (only JobEvent.expire) claim_or_expire rows later (λ e h. ground arith)
        (expired-Evolution clocks rows))
      (Evolution-mono (only JobEvent.claim) claim_or_expire later _ (λ e h. ground arith)
        (lease_candidate-Evolution clocks worker_id lease_time
          (candidate clocks stages locked later) (record resolved { jobs = later })
          (UniqueRows-update_where (overdue clocks) (give_back clocks) rows (λ r. (refl, refl)) u)
          (candidate-queued clocks stages locked later))))

-- On a table whose ids are unique a claim makes EXPIRE and CLAIM transitions only.
pub claim-Evolution :
    (clocks : Clocks) (worker_id : String) (stages : List String) (lease_time : ℕ)
    (locked : ℕ → Bool) (db : Database)
    → UniqueRows db.jobs
    → Evolution claim_or_expire db.jobs (claim clocks worker_id stages lease_time locked db).1.jobs
unfolding claim
claim-Evolution clocks worker_id stages lease_time locked db u =
    elim (Bool-cases (is_empty stages)) [
      | inl empty ↦ rw empty (Evolution-refl claim_or_expire db.jobs)
      | inr some_stage ↦ rw some_stage (
          claim_expired clocks worker_id stages lease_time locked (resolve_due clocks db) db.jobs
            (resolve_due-jobs clocks db) u)
    ]

pub enqueue-jobs :
    (clocks : Clocks) (id : ℕ) (key : StageKey) (payload : Document) (owner_id : Option ℕ)
    (db : Database) {e : Enqueued} {db' : Database}
    → enqueue clocks id key payload owner_id db ≡ ok (e, db')
    → (db'.jobs ≡ db.jobs)
      ⊎ ((db'.jobs ≡ db.jobs ++ new_job clocks id key payload owner_id ∷ [])
          × (any (λ s. s.id == id) db.jobs ≡ false)
          × (any (has_key key) db.jobs ≡ false))
unfolding enqueue
enqueue-jobs clocks id key payload owner_id db h =
    ground (arith, any_of_first_none (has_key key) db.jobs)

-- Enqueueing leaves every row as it was and appends at most one new row.
pub enqueue-Evolution :
    (clocks : Clocks) (id : ℕ) (key : StageKey) (payload : Document) (owner_id : Option ℕ)
    (db : Database) {e : Enqueued} {db' : Database}
    → enqueue clocks id key payload owner_id db ≡ ok (e, db')
    → Evolution quiet db.jobs db'.jobs
unfolding enqueue
enqueue-Evolution clocks id key payload owner_id db {db' = db'} h =
    elim (enqueue-jobs clocks id key payload owner_id db h) [
      | inl same ↦ rw same (Evolution-refl quiet db.jobs)
      | inr (grown, fresh, new) ↦
          rw grown
            (Evolution-append quiet db.jobs (new_job clocks id key payload owner_id) refl fresh new)
    ]

abbrev flagged : Clocks → Job → Job
flagged clocks r = record r { cancel_requested = true; updated_at = clocks.now }

cancel_queued :
    (clocks : Clocks) (r : Job)
    → is_queued r.state ≡ true
    → Evolves (only JobEvent.request_cancel) r (cancelled_row clocks r)
unfolding advance
cancel_queued clocks r h =
    Evolves-one JobEvent.request_cancel r (cancelled_row clocks r) (ground arith) refl refl refl

flag_leased :
    (clocks : Clocks) (r : Job)
    → is_queued r.state ≡ false
    → in_leased_states r.state ≡ true
    → Evolves (only JobEvent.request_cancel) r (flagged clocks r)
unfolding advance
flag_leased clocks r q h =
    Evolves-one JobEvent.request_cancel r (flagged clocks r) (ground arith) refl refl refl

request_cancel_found :
    (clocks : Clocks) (job_id : ℕ) (r : Job) (db : Database)
    → r.id ≡ job_id
    → UniqueRows db.jobs
    → In r db.jobs
    → Evolution
        (only JobEvent.request_cancel)
        db.jobs
        (request_cancel_of clocks job_id (some r) db).1.jobs
request_cancel_found clocks job_id r db same u i =
    rw (← same) (elim (Bool-cases (is_queued r.state)) [
      | inl q ↦ rw q (
          Evolution-update_id (only JobEvent.request_cancel) (cancelled_row clocks) r db.jobs u i
            (cancel_queued clocks r q) (λ s. (refl, refl)))
      | inr not_queued ↦ rw not_queued (elim (Bool-cases (in_leased_states r.state)) [
        | inl l ↦ rw l (elim (Bool-cases r.cancel_requested) [
          | inl already ↦ rw already (Evolution-refl (only JobEvent.request_cancel) db.jobs)
          | inr fresh ↦ rw fresh (
              Evolution-update_id (only JobEvent.request_cancel) (flagged clocks) r db.jobs u i
                (flag_leased clocks r not_queued l) (λ s. (refl, refl)))
        ])
        | inr other ↦ rw other (Evolution-refl (only JobEvent.request_cancel) db.jobs)
      ])
    ])

-- On a table whose ids are unique a request makes REQUEST_CANCEL transitions only.
pub request_cancel-Evolution :
    (clocks : Clocks) (job_id : ℕ) (db : Database)
    → UniqueRows db.jobs
    → Evolution (only JobEvent.request_cancel) db.jobs (request_cancel clocks job_id db).1.jobs
unfolding request_cancel
request_cancel-Evolution clocks job_id db u =
    elim (Option-cases (first_where (λ r. r.id == job_id) db.jobs)) [
      | inl missing ↦ rw missing (Evolution-refl (only JobEvent.request_cancel) db.jobs)
      | inr (r, e) ↦ rw e (
          let (i, same) = In-first_where (λ s. s.id == job_id) db.jobs e in
          request_cancel_found clocks job_id r db ((==_iff r.id job_id).0 same) u i)
    ]

fence_prerequisite-jobs :
    (codec : Codec) (o : Option Job) (db : Database)
    → (fence_prerequisite codec o db).jobs ≡ db.jobs
fence_prerequisite-jobs codec o db = ground arith

pub delete-jobs :
    (codec : Codec) (clocks : Clocks) (job_id : ℕ) (db : Database)
    → (delete codec clocks job_id db).1.jobs
      ≡ update_where (deletable job_id) (deleted_row clocks) db.jobs
unfolding delete
delete-jobs codec clocks job_id db =
    elim (Bool-cases (count_where (deletable job_id) db.jobs == 1)) [
      | inl one ↦ rw one (
          let tombstoned = record db {
            jobs = update_where (deletable job_id) (deleted_row clocks) db.jobs;
          } in
          fence_prerequisite-jobs codec (first_where (is_prerequisite job_id) db.jobs)
            (erase_content job_id tombstoned))
      | inr other ↦ rw other
    ]

delete_row :
    (clocks : Clocks) (r : Job)
    → not (is_deleted r.state) ≡ true
    → advance (view r) JobEvent.delete ≡ some (view (deleted_row clocks r))
unfolding advance
delete_row clocks r h = ground arith

-- A deletion makes DELETE transitions only.
pub delete-Evolution :
    (codec : Codec) (clocks : Clocks) (job_id : ℕ) (db : Database)
    → Evolution (only JobEvent.delete) db.jobs (delete codec clocks job_id db).1.jobs
unfolding delete
delete-Evolution codec clocks job_id db = rw (delete-jobs codec clocks job_id db) (
    Evolution-by_event JobEvent.delete (deletable job_id) (deleted_row clocks) db.jobs
      (λ r h. delete_row clocks r (&&-right (r.id == job_id) _ h)) (λ r. (refl, refl, refl)))
