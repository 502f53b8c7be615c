-- ===== src/Jobs/States/Runs.antt =====
-- Sequences of events over backend/services/jobs/states.py, as the property-based tests make them.
use ovrly.Prelude.{ℕ, suc, ◌+◌, ◌≤◌, ◌≡◌, ◌≢◌, inl, inr, true, none, List, [], ◌∷◌, ◌++◌, arith}
use ovrly.Jobs.States.{
  JobState, JobEvent, JobStatus, Transition, ok, illegal_transition, Transition-cases, apply,
  check_invariants,
}
use ovrly.Jobs.States.Invariants.{apply-check_invariants, apply-cancel_requested}

abbrev then_run : Transition → (JobStatus → Transition) → Transition
then_run (ok s) f = f s
then_run (illegal_transition s e) f = illegal_transition s e

-- `for event in events: status = apply(status, event)`
unfoldable pub run : JobStatus → List JobEvent → Transition
run s [] = ok s
run s (e ∷ es) = then_run (apply s e) (λ t. run t es)

-- The first event of a run that returns is legal, and the rest runs from where it leads.
pub run-cons :
    (s t : JobStatus) (e : JobEvent) (es : List JobEvent)
    → run s (e ∷ es) ≡ ok t
    → (u : JobStatus) × (apply s e ≡ ok u) × (run u es ≡ ok t)
unfolding run
run-cons s t e es h = elim (Transition-cases (apply s e)) [
  | inl (u, legal) ↦ (u, legal, ground arith)
  | inr (u, d, raised) ↦ ground arith
]

pub run-append :
    (s t : JobStatus) (es ds : List JobEvent) → run s es ≡ ok t → run s (es ++ ds) ≡ run t ds
unfolding run
run-append s t [] ds h = ground arith
run-append s t (e ∷ es) ds h =
    let (u, legal, rest) = run-cons s t e es h in rw legal (run-append u t es ds rest)

-- A status that passes `check_invariants` passes it after every sequence of legal events.
pub run-check_invariants :
    (s t : JobStatus) (es : List JobEvent)
    → check_invariants s ≡ none
    → run s es ≡ ok t
    → check_invariants t ≡ none
unfolding run
run-check_invariants s t [] h k = ground arith
run-check_invariants s t (e ∷ es) h k =
    let (u, legal, rest) = run-cons s t e es k in
    run-check_invariants u t es (apply-check_invariants s u e h legal) rest

run_requested :
    (s t : JobStatus) (es : List JobEvent)
    → run s es ≡ ok t
    → s.cancel_requested ≡ true
    → t.cancel_requested ≡ true
unfolding run
run_requested s t [] h k = ground arith
run_requested s t (e ∷ es) h k =
    let (u, legal, rest) = run-cons s t e es h in
    run_requested u t es rest (apply-cancel_requested s u e legal k)

-- Once cancellation is requested of a status that passes `check_invariants`, no sequence of legal
-- events publishes the job, and the request stands after each.
pub run_requested_unpublished :
    (s t : JobStatus) (es : List JobEvent)
    → check_invariants s ≡ none
    → s.cancel_requested ≡ true
    → run s es ≡ ok t
    → (t.state ≢ JobState.published) × (t.cancel_requested ≡ true)
unfolding check_invariants
run_requested_unpublished s t es h k r =
    let kept = run_requested s t es r k in
    let valid = run-check_invariants s t es h r in (ground arith, kept)

abbrev pub publications : List JobEvent → ℕ
publications [] = 0
publications (JobEvent.publish ∷ es) = suc (publications es)
publications (e ∷ es) = publications es

abbrev is_done : JobState → ℕ
is_done JobState.published = 1
is_done JobState.deleted = 1
is_done JobState.failed = 1
is_done JobState.cancelled = 1
is_done _ = 0

apply-publications :
    (s u : JobStatus) (e : JobEvent) (es : List JobEvent)
    → apply s e ≡ ok u
    → publications (e ∷ es) + is_done s.state ≤ publications es + is_done u.state
unfolding apply
apply-publications s u JobEvent.publish es h = ground arith
apply-publications s u e es h = ground arith

run-publications :
    (s t : JobStatus) (es : List JobEvent)
    → run s es ≡ ok t
    → publications es + is_done s.state ≤ is_done t.state
unfolding run
run-publications s t [] h = ground arith
run-publications s t (e ∷ es) h =
    let (u, legal, rest) = run-cons s t e es h in
    omega (arith, apply-publications s u e es legal, run-publications u t es rest)

is_done-le : (s : JobState) → is_done s ≤ 1
is_done-le JobState.queued = omega arith
is_done-le s = omega arith

-- A sequence of legal events publishes a job at most once.
pub run_publishes_once :
    (s t : JobStatus) (es : List JobEvent) → run s es ≡ ok t → publications es ≤ 1
run_publishes_once s t es h = omega (arith, run-publications s t es h, is_done-le t.state)
