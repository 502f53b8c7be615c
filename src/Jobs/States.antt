-- ===== src/Jobs/States.antt =====
-- backend/services/jobs/states.py: the job state machine.
pub mod Invariants
pub mod Runs
use ovrly.Prelude.{
  ◌≡◌, refl, ◌⊎◌, inl, inr, Bool, true, false, not, ◌&&◌, Option, none, some, if◌then◌else◌,
}

pub data JobState : Type 0 where
  queued leased running published cancelled deleted failed : JobState

pub data JobEvent : Type 0 where
  claim start publish fail release retry expire request_cancel cancel delete : JobEvent

pub record JobStatus : Type 0 where
  pub state : JobState
  pub cancel_requested : Bool

-- A call that returns, or that raises `IllegalTransition(status, event)`.
pub data Transition : Type 0 where
  ok : JobStatus → Transition
  illegal_transition : JobStatus → JobEvent → Transition

pub Transition-cases :
    (r : Transition)
    → ((t : JobStatus) × (r ≡ ok t))
      ⊎ ((s : JobStatus) × (e : JobEvent) × (r ≡ illegal_transition s e))
Transition-cases (ok t) = inl (t, refl)
Transition-cases (illegal_transition s e) = inr (s, e, refl)

abbrev pub is_queued : JobState → Bool
is_queued JobState.queued = true
is_queued _ = false

abbrev pub is_state_leased : JobState → Bool
is_state_leased JobState.leased = true
is_state_leased _ = false

abbrev pub is_running : JobState → Bool
is_running JobState.running = true
is_running _ = false

abbrev pub is_deleted : JobState → Bool
is_deleted JobState.deleted = true
is_deleted _ = false

-- `state in LEASED_STATES`
abbrev pub in_leased_states : JobState → Bool
in_leased_states JobState.leased = true
in_leased_states JobState.running = true
in_leased_states _ = false

-- `state in ACTIVE`
abbrev pub in_active : JobState → Bool
in_active JobState.queued = true
in_active s = in_leased_states s

-- `state in TERMINAL`
abbrev pub in_terminal : JobState → Bool
in_terminal JobState.published = true
in_terminal JobState.cancelled = true
in_terminal JobState.deleted = true
in_terminal JobState.failed = true
in_terminal _ = false

-- The shared case of RELEASE, RETRY and EXPIRE.
abbrev give_back : JobStatus → JobStatus
give_back s =
    if s.cancel_requested
    then record s { state = JobState.cancelled }
    else record s { state = JobState.queued }

abbrev when : Bool → JobStatus → JobStatus → JobEvent → Transition
when guard t s e = if guard then ok t else illegal_transition s e

unfoldable pub apply : JobStatus → JobEvent → Transition
apply s JobEvent.claim =
    when (is_queued s.state) (record s { state = JobState.leased }) s JobEvent.claim
apply s JobEvent.start =
    when (is_state_leased s.state && not s.cancel_requested) (record s { state = JobState.running })
      s JobEvent.start
apply s JobEvent.publish =
    when (is_running s.state && not s.cancel_requested) (record s { state = JobState.published }) s
      JobEvent.publish
apply s JobEvent.fail =
    when (in_leased_states s.state) (record s { state = JobState.failed }) s JobEvent.fail
apply s JobEvent.release = when (in_leased_states s.state) (give_back s) s JobEvent.release
apply s JobEvent.retry = when (in_leased_states s.state) (give_back s) s JobEvent.retry
apply s JobEvent.expire = when (in_leased_states s.state) (give_back s) s JobEvent.expire
apply s JobEvent.request_cancel =
    if is_queued s.state
    then ok (record { state = JobState.cancelled; cancel_requested = true })
    else when (in_leased_states s.state) (record s { cancel_requested = true }) s
        JobEvent.request_cancel
apply s JobEvent.cancel =
    when (in_active s.state) (record { state = JobState.cancelled; cancel_requested = true }) s
      JobEvent.cancel
apply s JobEvent.delete =
    when (not (is_deleted s.state)) (record s { state = JobState.deleted }) s JobEvent.delete

abbrev returned : Transition → Bool
returned (ok _) = true
returned (illegal_transition _ _) = false

unfoldable pub is_legal : JobStatus → JobEvent → Bool
unfolding apply
is_legal s e = returned (apply s e)

-- The three messages of `check_invariants`.
pub data Violation : Type 0 where
  published_with_request queued_with_request cancelled_without_request : Violation

abbrev is_published : JobState → Bool
is_published JobState.published = true
is_published _ = false

abbrev is_cancelled : JobState → Bool
is_cancelled JobState.cancelled = true
is_cancelled _ = false

-- `none` where the function returns, and the assertion that it raises otherwise.
unfoldable pub check_invariants : JobStatus → Option Violation
check_invariants s =
    if is_published s.state && s.cancel_requested
    then some published_with_request
    else if is_queued s.state && s.cancel_requested
    then some queued_with_request
    else if is_cancelled s.state && not s.cancel_requested
    then some cancelled_without_request
    else none

-- A new row: `state="queued"` and the server default of `cancel_requested`.
abbrev pub new_status : JobStatus
new_status = record { state = JobState.queued; cancel_requested = false }
