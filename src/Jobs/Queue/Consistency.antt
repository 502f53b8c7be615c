-- ===== src/Jobs/Queue/Consistency.antt =====
-- Published results and the rows of `jobs`: backend/services/jobs/queue.py keeps a result for each
-- published job and for no other.
use ovrly.Prelude.{
  ◌≡◌, ◌∙◌, subst, refl, inl, inr, Bool, true, false, List, [], ◌∷◌, All, arith, ◌==◌, any,
}
use ovrly.Jobs.States.{JobState, JobEvent, JobStatus, ok, new_status}
use ovrly.Jobs.States.Invariants.{apply_terminal, apply-published}
use ovrly.Jobs.States.Runs.{run, run-cons}
use ovrly.Jobs.Tables.{Job, JobResult, Database, status}
use ovrly.Jobs.Spec.{view, Evolves, AllowedIn, new_view}
use ovrly.Jobs.Spec.Rows.{Table}
use ovrly.Jobs.Spec.Unique.{UniqueRows, In}
use ovrly.Jobs.Queue.Lifetimes.{replay-run}

-- A result belongs to a published row of its id and key.
abbrev pub HasRow : List Job → JobResult → Type 0
HasRow rows res =
    (r : Job) × In r rows × (r.id ≡ res.job_id) × (r.key ≡ res.key) × (r.state ≡ JobState.published)

-- A row that is published has a result.
abbrev pub HasResult : List JobResult → Job → Type 0
HasResult results r = r.state ≡ JobState.published → any (λ s. s.job_id == r.id) results ≡ true

-- The constraints of `jobs` hold, and a job is published exactly where it has a result.
pub record IsConsistent (db : Database) : Type 0 where
  pub unique : UniqueRows db.jobs
  pub results_have_rows : All (HasRow db.jobs) db.job_results
  pub rows_have_results : All (HasResult db.job_results) db.jobs

run_stays_published :
    (allowed : JobEvent → Bool) (s t : JobStatus) (es : List JobEvent)
    → allowed JobEvent.delete ≡ false
    → AllowedIn allowed es
    → s.state ≡ JobState.published
    → run s es ≡ ok t
    → t.state ≡ JobState.published
unfolding run
run_stays_published allowed s t [] no_delete w h k = ground arith
run_stays_published allowed s t (e ∷ es) no_delete w h k =
    let (u, legal, rest) = run-cons s t e es k in
    elim (apply_terminal s e (ground arith)) [
      | inl (_, deleting, _) ↦ absurd (ground arith)
      | inr (raised, _) ↦ absurd (ground arith)
    ]

run_not_published :
    (allowed : JobEvent → Bool) (s t : JobStatus) (es : List JobEvent)
    → allowed JobEvent.publish ≡ false
    → AllowedIn allowed es
    → run s es ≡ ok t
    → t.state ≡ JobState.published
    → s.state ≡ JobState.published
unfolding run
run_not_published allowed s t [] no_publish w k h = ground arith
run_not_published allowed s t (e ∷ es) no_publish w k h =
    let (u, legal, rest) = run-cons s t e es k in
    let before = run_not_published allowed u t es no_publish w.1 rest h in
    let (publishing, _, _) = apply-published s u e legal before in absurd (ground arith)

In-Table :
    (allowed : JobEvent → Bool) (xs ys : List Job) (r : Job)
    → Table allowed xs ys
    → In r xs
    → (s : Job) × In s ys × Evolves allowed r s
In-Table allowed [] ys r t i = absurd i
In-Table allowed (x ∷ xs) [] r t i = absurd t
In-Table allowed (x ∷ xs) (y ∷ ys) r t (inl e) =
    (y, inl refl, subst (λ (z : Job). Evolves allowed z y) e t.0)
In-Table allowed (x ∷ xs) (y ∷ ys) r t (inr i) =
    let (s, j, v) = In-Table allowed xs ys r t.1 i in (s, inr j, v)

-- Without a deletion a result keeps its row.
pub Table-HasRow :
    (allowed : JobEvent → Bool) (xs ys : List Job) (results : List JobResult)
    → allowed JobEvent.delete ≡ false
    → Table allowed xs ys
    → All (HasRow xs) results
    → All (HasRow ys) results
Table-HasRow allowed xs ys [] no_delete t h = tt
Table-HasRow allowed xs ys (res ∷ results) no_delete t h =
    let (r, i, id, key, state) = h.0 in
    let (s, j, v) = In-Table allowed xs ys r t i in
    (
      (
        s,
        j,
        v.same_id ∙ id,
        v.same_key ∙ key,
        run_stays_published allowed (status r) (status s) v.events no_delete v.within state
            (replay-run (view r) (view s) v.events v.replayed),
      ),
      Table-HasRow allowed xs ys results no_delete t h.1,
    )

-- Without a publication no row needs a new result.
pub Table-HasResult :
    (allowed : JobEvent → Bool) (xs ys : List Job) (results : List JobResult)
    → allowed JobEvent.publish ≡ false
    → Table allowed xs ys
    → All (HasResult results) xs
    → All (HasResult results) ys
Table-HasResult allowed [] [] results no_publish t h = tt
Table-HasResult allowed [] (y ∷ ys) results no_publish t h = (
  λ p. absurd (
      fresh (
        run_not_published allowed new_status (status y) t.0.events no_publish t.0.within
          (replay-run new_view (view y) t.0.events t.0.replayed) p)),
  Table-HasResult allowed [] ys results no_publish t.1 tt,
)
  where
    fresh : JobState.queued ≡ JobState.published → ⊥
    fresh e = cc
Table-HasResult allowed (x ∷ xs) [] results no_publish t h = absurd t
Table-HasResult allowed (x ∷ xs) (y ∷ ys) results no_publish t h = (
  λ p. rw t.0.same_id (
      h.0 (
        run_not_published allowed (status x) (status y) t.0.events no_publish t.0.within
          (replay-run (view x) (view y) t.0.events t.0.replayed) p)),
  Table-HasResult allowed xs ys results no_publish t.1 h.1,
)
