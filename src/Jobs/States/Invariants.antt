-- ===== src/Jobs/States/Invariants.antt =====
-- What the transitions of backend/services/jobs/states.py keep and forbid.
use ovrly.Prelude.{◌≡◌, ◌≢◌, true, false, none, ◌⊎◌, arith}
use ovrly.Jobs.States.{
  JobState, JobEvent, JobStatus, ok, illegal_transition, apply, is_legal, check_invariants,
  in_terminal,
}

-- A status that passes check_invariants passes it again after every legal event.
pub apply-check_invariants :
    (s t : JobStatus) (e : JobEvent)
    → check_invariants s ≡ none
    → apply s e ≡ ok t
    → check_invariants t ≡ none
unfolding apply check_invariants
apply-check_invariants s t e h k = ground arith

-- From a terminal status the one legal event is the deletion of a job that is not yet deleted, it
-- leaves the flag alone, and every other event raises IllegalTransition with that status and
-- event.
pub apply_terminal :
    (s : JobStatus) (e : JobEvent)
    → in_terminal s.state ≡ true
    → ((apply s e ≡ ok (record s { state = JobState.deleted }))
        × (e ≡ JobEvent.delete)
        × (s.state ≢ JobState.deleted))
      ⊎ ((apply s e ≡ illegal_transition s e)
          × ((e ≢ JobEvent.delete) ⊎ (s.state ≡ JobState.deleted)))
unfolding apply
apply_terminal s e h = ground arith

-- An event is illegal exactly when `apply` raises, and what it raises names the status and the
-- event that it was given.
pub is_legal-apply :
    (s : JobStatus) (e : JobEvent)
    → ((is_legal s e ≡ true) × (t : JobStatus) × (apply s e ≡ ok t))
      ⊎ ((is_legal s e ≡ false) × (apply s e ≡ illegal_transition s e))
unfolding apply is_legal
is_legal-apply s JobEvent.claim = ground arith
is_legal-apply s e = ground arith

-- A job is published only from RUNNING, with no cancellation requested, by PUBLISH.
pub apply-published :
    (s t : JobStatus) (e : JobEvent)
    → apply s e ≡ ok t
    → t.state ≡ JobState.published
    → (e ≡ JobEvent.publish) × (s.state ≡ JobState.running) × (s.cancel_requested ≡ false)
unfolding apply
apply-published s t e h k = ground arith

-- A request for cancellation is never withdrawn.
pub apply-cancel_requested :
    (s t : JobStatus) (e : JobEvent)
    → apply s e ≡ ok t
    → s.cancel_requested ≡ true
    → t.cancel_requested ≡ true
unfolding apply
apply-cancel_requested s t e h k = ground arith
