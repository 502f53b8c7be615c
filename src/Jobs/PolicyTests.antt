-- ===== src/Jobs/PolicyTests.antt =====
-- Concrete runs of the retry policy and of the state machine of backend/services/jobs/.
use ovrly.Prelude.{
  ℕ, ◌≡◌, ◌≢◌, ◌≤◌, ◌<◌, ◌+◌, refl, ◌↔◌, ◌⊎◌, true, false, none, some, List, [], ◌∷◌, arith, Dict,
}
use ovrly.Jobs.States.{
  JobState, JobEvent, JobStatus, apply, ok, illegal_transition, check_invariants, is_legal,
}
use ovrly.Jobs.States.Invariants.{
  apply-check_invariants, apply-published, apply_terminal, is_legal-apply,
}
use ovrly.Jobs.States.Runs.{run, run_requested_unpublished, run_publishes_once, publications}
use ovrly.Jobs.Retries.{
  RetryClass, RetryableError, rate_limited_error, transient_error, unknown_outcome_error, decide,
  backoff, scheduled_delay,
}
use ovrly.Jobs.Retries.Duration.{IsJitter}
use ovrly.Jobs.Retries.Bounds.{decide_bounds, decide_exhausted, IsBounded}
use ovrly.Jobs.Retries.Caps.{Attempt, scheduled, scheduled-le-cap}
use ovrly.Jobs.Milliseconds.{whole, policy}

half : IsJitter whole 50
half = record { shrinks = λ a h. ground arith; keeps_sign = λ a h. ground arith }

-- The third backoff is half of four seconds.
backoff_test : backoff whole policy 50 3 ≡ 2000
unfolding backoff
backoff_test = refl

abbrev too_many : RetryableError whole
too_many = rate_limited_error (some 90000)

abbrev no_counts : Dict ℕ
no_counts = []

decide_test : (decide whole policy 50 too_many no_counts false).delay_seconds ≡ some 60000
unfolding decide scheduled_delay
decide_test = refl

decide_bounds_example : IsBounded whole policy 60000
decide_bounds_example =
    decide_bounds whole policy 50 half refl refl too_many no_counts false tt decide_test

decide_exhausted_example :
    let d = decide whole policy 50 unknown_outcome_error no_counts false in
    ((d.delay_seconds ≡ none) ↔ (
      (1 < d.count)
      ⊎ ((RetryClass.unknown_outcome ≡ RetryClass.unknown_outcome) × (false ≡ false))))
    × (d.decided_class ≡ RetryClass.unknown_outcome)
    × (d.count ≡ 1)
decide_exhausted_example = decide_exhausted whole policy 50 unknown_outcome_error no_counts false

abbrev twice_transient : List (Attempt whole)
twice_transient = attempt ∷ attempt ∷ attempt ∷ []
  where
    attempt : Attempt whole
    attempt = record { error = transient_error; jitter = 50; recorded = false }

scheduled-le-cap_example :
    scheduled whole policy RetryClass.transient no_counts twice_transient + 0 ≤ 2
scheduled-le-cap_example =
    scheduled-le-cap whole policy RetryClass.transient no_counts twice_transient (omega arith)

abbrev running_status : JobStatus
running_status = record { state = JobState.running; cancel_requested = false }

abbrev requested_status : JobStatus
requested_status = record { state = JobState.running; cancel_requested = true }

abbrev published_status : JobStatus
published_status = record { state = JobState.published; cancel_requested = false }

publishes_test : apply running_status JobEvent.publish ≡ ok published_status
unfolding apply
publishes_test = refl

running_test : check_invariants running_status ≡ none
unfolding check_invariants
running_test = refl

requested_test : check_invariants requested_status ≡ none
unfolding check_invariants
requested_test = refl

apply-check_invariants_example : check_invariants published_status ≡ none
apply-check_invariants_example =
    apply-check_invariants running_status published_status JobEvent.publish running_test
      publishes_test

apply-published_example :
    (JobEvent.publish ≡ JobEvent.publish) × (JobState.running ≡ JobState.running) × (false ≡ false)
apply-published_example =
    apply-published running_status published_status JobEvent.publish publishes_test refl

apply_terminal_example :
    ((apply published_status JobEvent.start
        ≡ ok (record published_status { state = JobState.deleted }))
      × (JobEvent.start ≡ JobEvent.delete)
      × (JobState.published ≢ JobState.deleted))
    ⊎ ((apply published_status JobEvent.start ≡ illegal_transition published_status JobEvent.start)
        × ((JobEvent.start ≢ JobEvent.delete) ⊎ (JobState.published ≡ JobState.deleted)))
apply_terminal_example = apply_terminal published_status JobEvent.start refl

is_legal-apply_example :
    ((is_legal running_status JobEvent.claim ≡ true)
      × (t : JobStatus) × (apply running_status JobEvent.claim ≡ ok t))
    ⊎ ((is_legal running_status JobEvent.claim ≡ false)
        × (apply running_status JobEvent.claim ≡ illegal_transition running_status JobEvent.claim))
is_legal-apply_example = is_legal-apply running_status JobEvent.claim

abbrev cancelled_status : JobStatus
cancelled_status = record { state = JobState.cancelled; cancel_requested = true }

released_test : run requested_status (JobEvent.release ∷ []) ≡ ok cancelled_status
unfolding run apply
released_test = refl

run_requested_unpublished_example : (JobState.cancelled ≢ JobState.published) × (true ≡ true)
run_requested_unpublished_example =
    run_requested_unpublished requested_status cancelled_status (JobEvent.release ∷ [])
      requested_test refl released_test

run_publishes_once_example : publications (JobEvent.release ∷ []) ≤ 1
run_publishes_once_example =
    run_publishes_once requested_status cancelled_status (JobEvent.release ∷ []) released_test
