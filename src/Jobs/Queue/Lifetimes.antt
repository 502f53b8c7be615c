-- ===== src/Jobs/Queue/Lifetimes.antt =====
-- The life of a job under any interleaving of the transactions of backend/services/jobs/queue.py.
use ovrly.Prelude.{ℕ, ◌≡◌, ◌≢◌, refl, inl, inr, Bool, true, none, some, List, [], ◌∷◌, All, arith}
use ovrly.Jobs.States.{
  JobState, JobEvent, ok, Transition-cases, apply, check_invariants, new_status,
}
use ovrly.Jobs.States.Runs.{run, run-check_invariants, run_requested_unpublished}
use ovrly.Jobs.Tables.{Job, Database, status}
use ovrly.Jobs.Spec.{View, view, advance, replay, replay-cons, new_view}
use ovrly.Jobs.Spec.Rows.{Table, Table-find}
use ovrly.Jobs.Spec.Unique.{UniqueRows}
use ovrly.Jobs.Queue.Owner.{get_job}
use ovrly.Jobs.Queue.History.{Transaction, HasQuietCallback, after, after-Evolution, any_event}

advance-apply : (v w : View) (e : JobEvent) → advance v e ≡ some w → apply v.of e ≡ ok w.of
unfolding advance
advance-apply v w e h = elim (Transition-cases (apply v.of e)) [
  | inl (t, legal) ↦ ground arith
  | inr (s, d, raised) ↦ ground arith
]

-- The specification's replay is a run of the state machine.
pub replay-run : (v w : View) (es : List JobEvent) → replay v es ≡ some w → run v.of es ≡ ok w.of
unfolding replay run
replay-run v w [] h = ground arith
replay-run v w (e ∷ es) h =
    let (u, first, rest) = replay-cons v w e es h in
    rw (advance-apply v u e first) (replay-run u w es rest)

-- Every row passes `check_invariants`.
abbrev pub IsLawful : List Job → Type 0
IsLawful = All (λ r. check_invariants (status r) ≡ none)

new_status_lawful : check_invariants new_status ≡ none
unfolding check_invariants
new_status_lawful = refl

Table-IsLawful :
    (allowed : JobEvent → Bool) (xs ys : List Job) → Table allowed xs ys → IsLawful xs → IsLawful ys
Table-IsLawful allowed [] [] t h = tt
Table-IsLawful allowed [] (y ∷ ys) t h = (
  run-check_invariants new_status (status y) t.0.events new_status_lawful
      (replay-run new_view (view y) t.0.events t.0.replayed),
  Table-IsLawful allowed [] ys t.1 tt,
)
Table-IsLawful allowed (x ∷ xs) [] t h = absurd t
Table-IsLawful allowed (x ∷ xs) (y ∷ ys) t h = (
  run-check_invariants (status x) (status y) t.0.events h.0
      (replay-run (view x) (view y) t.0.events t.0.replayed),
  Table-IsLawful allowed xs ys t.1 h.1,
)

-- Where every row of the table passes check_invariants, every row does after any transactions, the
-- rows enqueued meanwhile included, where the ids are unique and the callbacks of publications
-- enqueue at most.
pub after-IsLawful :
    (ts : List Transaction) (db : Database)
    → UniqueRows db.jobs
    → All HasQuietCallback ts
    → IsLawful db.jobs
    → IsLawful (after ts db).jobs
after-IsLawful ts db u q h =
    Table-IsLawful any_event db.jobs (after ts db).jobs (after-Evolution ts db u q).0 h

-- A job whose cancellation is requested, in a state that passes check_invariants, is still in the
-- table after any transactions, still carries the request, and is never published, where the ids
-- are unique and the callbacks of publications enqueue at most.
pub requested_never_published :
    (ts : List Transaction) (db : Database) (n : ℕ) (r : Job)
    → UniqueRows db.jobs
    → All HasQuietCallback ts
    → get_job n db ≡ some r
    → check_invariants (status r) ≡ none
    → r.cancel_requested ≡ true
    → (s : Job) × (get_job n (after ts db) ≡ some s)
      × (s.cancel_requested ≡ true)
      × (s.state ≢ JobState.published)
requested_never_published ts db n r u q found lawful requested =
    let (s, found', v) =
      Table-find any_event n db.jobs (after ts db).jobs (after-Evolution ts db u q).0 found in
    let (unpublished, kept) =
      run_requested_unpublished (status r) (status s) v.events lawful requested
        (replay-run (view r) (view s) v.events v.replayed) in
    (s, found', kept, unpublished)
