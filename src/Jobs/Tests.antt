-- ===== src/Jobs/Tests.antt =====
-- Concrete runs of the job queue: what its theorems say of two workers on one job.
use ovrly.Prelude.{◌≡◌, ◌≢◌, ◌<◌, refl, true, false, none, some, List, [], ◌∷◌, subst, first_where}
use ovrly.Json.{Json, Document, empty, field}
use ovrly.Jobs.States.{JobState, check_invariants}
use ovrly.Jobs.Tables.{
  Job, Database, ClaimedJob, ok as done, err, lease_lost, publish_rejected, status, Reason, Error,
  ok_injective,
}
use ovrly.Jobs.Spec.{quiet}
use ovrly.Jobs.Spec.Evolution.{Evolution, Evolution-refl}
use ovrly.Jobs.Retries.{RetryClass}
use ovrly.Jobs.Spec.Unique.{UniqueRows}
use ovrly.Jobs.Spec.Rows.{Table}
use ovrly.Jobs.Queue.{
  owned, candidate, claim, retry, cancel, fail, save_stage_data, record_request_id, lock_active,
  claimed, leased_to, start, active, heartbeat, release,
}
use ovrly.Pipeline.Analysis.{resolve_due, record_terminal}
use ovrly.Jobs.Queue.Owner.{get_job}
use ovrly.Jobs.Queue.Publish.{publish, rejection_reason, published_result}
use ovrly.Jobs.Queue.History.{
  Transaction, step, after, start_job, publish_job, claim_job, delete_job, IsQuietCallback,
  events_of, step_refines,
}
use ovrly.Jobs.Queue.Exclusion.{claims_exclude}
use ovrly.Jobs.Queue.Fencing.{OwnsNothing, stale_lease_inert}
use ovrly.Jobs.Queue.Lifetimes.{requested_never_published, after-IsLawful, IsLawful}
use ovrly.Jobs.Queue.Consistency.{IsConsistent}
use ovrly.Jobs.Queue.ResultsPublish.{publish-active, stored_db}
use ovrly.Jobs.Queue.HistoryConsistent.{after-IsConsistent}
use ovrly.Jobs.Fixtures.{
  at, codec, queued_row, tables, stages, unlocked, one_queued, first_claim, first_lease, one_leased,
  running_row,
}

-- A worker claims the job, and the tables and the lease are these.
first_claim_test : claim (at 100) "a" stages 50 unlocked one_queued ≡ (some first_claim, one_leased)
unfolding claim candidate resolve_due
first_claim_test = refl

-- The lease runs out at 150, and another worker claims the job.
abbrev expired_row : Job
expired_row = record (leased_to (at 100) "a" 50 queued_row) {
  state = JobState.queued;
  lease_owner = none;
  lease_expires_at = none;
  updated_at = 200;
}

abbrev second_claim : ClaimedJob
second_claim = claimed (at 200) "b" 50 expired_row

abbrev claimed_twice : Database
claimed_twice = tables (leased_to (at 200) "b" 50 expired_row ∷ [])

abbrev started : List Transaction
started = start_job (at 110) first_lease ∷ []

abbrev stale_publication : Transaction
stale_publication = publish_job codec (at 210) first_lease empty [] (λ d. done d) one_queued

second_claim_test :
    claim (at 200) "b" stages 50 unlocked (after started one_leased)
    ≡ (some second_claim, claimed_twice)
unfolding claim candidate resolve_due after start owned
second_claim_test = refl

unique_row : (r : Job) → UniqueRows (r ∷ [])
unique_row r = (refl, refl, tt)

quiet_callback : IsQuietCallback (λ d. done d)
quiet_callback d d' h =
    let same : d ≡ d' = ok_injective Error h in
    subst (λ (x : Database). Evolution quiet d.jobs x.jobs × (x.job_results ≡ d.job_results)) same
      (Evolution-refl quiet d.jobs, refl)

claims_exclude_example :
    (first_lease.fencing_token < second_claim.lease.fencing_token)
    × OwnsNothing first_lease (after (stale_publication ∷ []) claimed_twice)
claims_exclude_example =
    claims_exclude (at 100) (at 200) "a" "b" stages stages 50 50 unlocked unlocked started
      (stale_publication ∷ []) one_queued one_leased claimed_twice first_claim second_claim
      (unique_row queued_row) (tt, tt) (quiet_callback, tt) first_claim_test second_claim_test refl

IsConsistent-row : (r : Job) → r.state ≢ JobState.published → IsConsistent (tables (r ∷ []))
IsConsistent-row r h = record {
  unique = unique_row r;
  results_have_rows = tt;
  rows_have_results = ((λ p. absurd (h p)), tt);
}

queued_unpublished : JobState.queued ≢ JobState.published
queued_unpublished e = cc

after-IsConsistent_example :
    IsConsistent
      (after (start_job (at 110) first_lease ∷ delete_job codec (at 120) 1 ∷ []) one_queued)
after-IsConsistent_example =
    after-IsConsistent (start_job (at 110) first_lease ∷ delete_job codec (at 120) 1 ∷ [])
      one_queued (tt, (tt, tt)) (IsConsistent-row queued_row queued_unpublished)

abbrev a_claim : Transaction
a_claim = claim_job (at 100) "a" stages 50 unlocked

step_refines_example :
    Table (events_of a_claim) (queued_row ∷ []) (step a_claim one_queued).jobs
    × UniqueRows (step a_claim one_queued).jobs
step_refines_example = step_refines a_claim one_queued (unique_row queued_row) tt

-- The owner asks to cancel while the job is running; the worker then tries to publish.
abbrev requested_row : Job
requested_row = record running_row { cancel_requested = true }

requested_is_lawful : check_invariants (status requested_row) ≡ none
unfolding check_invariants
requested_is_lawful = refl

requested_never_published_example :
    (s : Job) × (get_job 1 (after (stale_publication ∷ []) (tables (requested_row ∷ []))) ≡ some s)
    × (s.cancel_requested ≡ true)
    × (s.state ≢ JobState.published)
requested_never_published_example =
    requested_never_published (stale_publication ∷ []) (tables (requested_row ∷ [])) 1 requested_row
      (unique_row requested_row) (quiet_callback, tt) refl requested_is_lawful refl

running_unpublished : JobState.running ≢ JobState.published
running_unpublished e = cc

abbrev result_document : Document
result_document = field "ready" (Json.boolean true) empty

running_is_active : first_where (active (at 120) first_lease) (running_row ∷ []) ≡ some running_row
unfolding owned
running_is_active = refl

abbrev published_tables : Database
published_tables =
    stored_db (at 120) first_lease result_document running_row (tables (running_row ∷ []))

recorded_test :
    record_terminal codec (at 120) 1 (some result_document) published_tables ≡ done published_tables
unfolding record_terminal owned
recorded_test = refl

publish-active_example :
    publish codec
      (at 120)
      first_lease
      result_document
      []
      (λ d. done d)
      one_queued
      (tables (running_row ∷ []))
    ≡ done (published_result first_lease result_document running_row, published_tables)
publish-active_example =
    publish-active codec (at 120) first_lease result_document (λ d. done d) one_queued
      (tables (running_row ∷ [])) running_row published_tables published_tables
      (IsConsistent-row running_row running_unpublished) running_is_active recorded_test refl

owns_nothing : OwnsNothing first_lease claimed_twice
unfolding owned
owns_nothing = refl

stale_lease_inert_example :
    (start (at 210) first_lease claimed_twice ≡ (false, claimed_twice))
    × (release (at 210) first_lease claimed_twice ≡ (false, claimed_twice))
    × (retry (at 210) first_lease RetryClass.transient 40 claimed_twice ≡ (false, claimed_twice))
    × (cancel (at 210) first_lease claimed_twice ≡ (false, claimed_twice))
    × (fail codec (at 210) first_lease "KeyError" none claimed_twice ≡ done (false, claimed_twice))
    × (heartbeat (at 210) first_lease 40 claimed_twice ≡ err lease_lost)
    × (save_stage_data (at 210) first_lease empty claimed_twice ≡ err lease_lost)
    × (record_request_id (at 210) first_lease "KeyError" claimed_twice ≡ err lease_lost)
    × (lock_active (at 210) first_lease claimed_twice ≡ err lease_lost)
stale_lease_inert_example =
    stale_lease_inert (at 210) first_lease claimed_twice owns_nothing codec RetryClass.transient
      none "KeyError" empty 40

-- Its publication is rejected; the reason is read when another worker has claimed the job again.
stale_publication_test :
    publish codec (at 210) first_lease result_document [] (λ d. done d) claimed_twice claimed_twice
    ≡ err (publish_rejected 1 Reason.token_changed)
unfolding publish owned rejection_reason
stale_publication_test = refl

leased-IsLawful : IsLawful one_leased.jobs
unfolding check_invariants
leased-IsLawful = (refl, tt)

after-IsLawful_example : IsLawful (after started one_leased).jobs
after-IsLawful_example =
    after-IsLawful started one_leased (unique_row (leased_to (at 100) "a" 50 queued_row)) (tt, tt)
      leased-IsLawful

abbrev cancelled_row : Job
cancelled_row = record requested_row { state = JobState.cancelled; lease_owner = none }
