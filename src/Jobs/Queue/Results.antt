-- ===== src/Jobs/Queue/Results.antt =====
-- Every transaction of backend/services/jobs/queue.py keeps the published results and the rows of
-- `jobs` consistent.
use ovrly.Prelude.{
  ℕ, ◌≤◌, ◌≡◌, ◌≢◌, ◌∙◌, sym, subst, refl, inl, inr, Bool, true, false, not, ||-right, Option, List,
  [], ◌∷◌, All, arith, if◌then◌else◌, ◌==◌, Bool-cases, any, first_where, update_where,
  update_where_none, count_where, select,
}
use ovrly.Json.{Codec}
use ovrly.Jobs.States.{JobState, JobEvent}
use ovrly.Jobs.Tables.{Job, JobResult, Database, Clocks}
use ovrly.Jobs.Spec.Unique.{UniqueRows, UniqueRows-update_where, In}
use ovrly.Jobs.Spec.Evolution.{Evolution}
use ovrly.Jobs.Queue.Owner.{
  delete, deletable, deleted_row, fence_prerequisite, is_prerequisite, erase_content,
}
use ovrly.Jobs.Queue.Transitions.{delete-jobs}
use ovrly.Jobs.Queue.Consistency.{IsConsistent, HasRow, HasResult, Table-HasRow, Table-HasResult}

pub All-update_where {ℓ} :
    (P : Job → Type ℓ) (Q : Job → Type ℓ) (p : Job → Bool) (f : Job → Job) (rows : List Job)
    → ((r : Job) → p r ≡ true → P r → Q (f r))
    → ((r : Job) → p r ≡ false → P r → Q r)
    → All P rows
    → All Q (update_where p f rows)
All-update_where P Q p f [] h k a = tt
All-update_where P Q p f (r ∷ rows) h k a = elim (Bool-cases (p r)) [
  | inl fits ↦ (rw fits (h r fits a.0), All-update_where P Q p f rows h k a.1)
  | inr other ↦ (rw other (k r other a.0), All-update_where P Q p f rows h k a.1)
]

pub In-update_where_fit :
    (p : Job → Bool) (f : Job → Job) (r : Job) (rows : List Job)
    → p r ≡ true
    → In r rows
    → In (f r) (update_where p f rows)
In-update_where_fit p f r [] fits i = absurd i
In-update_where_fit p f r (x ∷ xs) fits (inl e) =
    inl (subst (λ (y : Job). (if p y then f y else y) ≡ f r) (sym e) (rw fits))
In-update_where_fit p f r (x ∷ xs) fits (inr i) = inr (In-update_where_fit p f r xs fits i)

In-update_where_other :
    (p : Job → Bool) (f : Job → Job) (r : Job) (rows : List Job)
    → p r ≡ false
    → In r rows
    → In r (update_where p f rows)
In-update_where_other p f r [] other i = absurd i
In-update_where_other p f r (x ∷ xs) other (inl e) =
    inl (subst (λ (y : Job). (if p y then f y else y) ≡ r) (sym e) (rw other))
In-update_where_other p f r (x ∷ xs) other (inr i) = inr (In-update_where_other p f r xs other i)

-- A transaction that neither publishes nor deletes, and leaves the results alone.
pub keep-IsConsistent :
    (allowed : JobEvent → Bool) (db db' : Database)
    → allowed JobEvent.publish ≡ false
    → allowed JobEvent.delete ≡ false
    → Evolution allowed db.jobs db'.jobs
    → db'.job_results ≡ db.job_results
    → IsConsistent db
    → IsConsistent db'
keep-IsConsistent allowed db db' no_publish no_delete v same c = record {
  unique = v.1 c.unique;
  results_have_rows =
      rw same
        (Table-HasRow allowed db.jobs db'.jobs db.job_results no_delete v.0 c.results_have_rows);
  rows_have_results =
      rw same (
        Table-HasResult allowed db.jobs db'.jobs db.job_results no_publish v.0 c.rows_have_results);
}

count_id :
    (n : ℕ) (p : Job → Bool) (rows : List Job)
    → ((r : Job) → p r ≡ true → r.id ≡ n)
    → any (λ s. s.id == n) rows ≡ false
    → count_where p rows ≡ 0
count_id n p [] h k = refl
count_id n p (x ∷ xs) h k = elim (Bool-cases (p x)) [
  | inl fits ↦ absurd (ground (arith, h x fits))
  | inr other ↦ rw other (count_id n p xs h (||-right _ _ k))
]

count-le-one :
    (n : ℕ) (p : Job → Bool) (rows : List Job)
    → ((r : Job) → p r ≡ true → r.id ≡ n)
    → UniqueRows rows
    → count_where p rows ≤ 1
count-le-one n p [] h u = omega arith
count-le-one n p (x ∷ xs) h u = elim (Bool-cases (p x)) [
  | inl fits ↦ rw fits (
      let alone = subst (λ (m : ℕ). any (λ s. s.id == m) xs ≡ false) (h x fits) u.0 in
      omega (arith, count_id n p xs h alone))
  | inr other ↦ rw other (count-le-one n p xs h u.2)
]

any_kept :
    (n m : ℕ) (results : List JobResult)
    → (n == m) ≡ false
    → any (λ s. s.job_id == n) results ≡ true
    → any (λ s. s.job_id == n) (select (λ s. not (s.job_id == m)) results) ≡ true
any_kept n m [] h k = cc
any_kept n m (x ∷ xs) h k = ground (arith, any_kept n m xs h)

select-HasRow :
    (n : ℕ) (p : Job → Bool) (f : Job → Job) (rows : List Job) (results : List JobResult)
    → ((r : Job) → r.id ≢ n → p r ≡ false)
    → All (HasRow rows) results
    → All (HasRow (update_where p f rows)) (select (λ s. not (s.job_id == n)) results)
select-HasRow n p f rows [] h a = tt
select-HasRow n p f rows (res ∷ results) h a = elim (Bool-cases (res.job_id == n)) [
  | inl same ↦ rw same (select-HasRow n p f rows results h a.1)
  | inr other ↦ rw other (
      let (r, i, id, key, state) = a.0 in
      (
        (r, In-update_where_other p f r rows (h r (ground arith)) i, id, key, state),
        select-HasRow n p f rows results h a.1,
      ))
]

deletable-id : (n : ℕ) (r : Job) → deletable n r ≡ true → r.id ≡ n
deletable-id n r h = ground arith

fence_prerequisite-results :
    (codec : Codec) (o : Option Job) (db : Database)
    → (fence_prerequisite codec o db).job_results ≡ db.job_results
fence_prerequisite-results codec o db = ground arith

-- What a deletion leaves of the results.
delete-results :
    (codec : Codec) (clocks : Clocks) (n : ℕ) (db : Database)
    → (delete codec clocks n db).1.job_results ≡ (
        if count_where (deletable n) db.jobs == 1
        then select (λ s. not (s.job_id == n)) db.job_results
        else db.job_results)
unfolding delete
delete-results codec clocks n db = elim (Bool-cases (count_where (deletable n) db.jobs == 1)) [
  | inl one ↦ rw one (
      let tombstoned = record db {
        jobs = update_where (deletable n) (deleted_row clocks) db.jobs;
      } in
      fence_prerequisite-results codec (first_where (is_prerequisite n) db.jobs)
        (erase_content n tombstoned))
  | inr other ↦ rw other
]

module _ (codec : Codec) (clocks : Clocks) (n : ℕ) (db : Database) (c : IsConsistent db) where
  deleted_HasResult :
      All
        (HasResult (select (λ s. not (s.job_id == n)) db.job_results))
        (update_where (deletable n) (deleted_row clocks) db.jobs)
  deleted_HasResult =
      All-update_where (HasResult db.job_results)
        (HasResult (select (λ s. not (s.job_id == n)) db.job_results)) (deletable n)
        (deleted_row clocks) db.jobs (λ r fits has p. absurd (tombstone p))
        (λ r other has p. any_kept r.id n db.job_results (kept r other p) (has p))
        c.rows_have_results
    where
      tombstone : JobState.deleted ≡ JobState.published → ⊥
      tombstone e = cc

      kept : (r : Job) → deletable n r ≡ false → r.state ≡ JobState.published → (r.id == n) ≡ false
      kept r other p = ground arith

  -- A deletion keeps the tables consistent.
  pub delete-IsConsistent : IsConsistent (delete codec clocks n db).1
  delete-IsConsistent = elim (Bool-cases (count_where (deletable n) db.jobs == 1)) [
    | inl one ↦
        let results : (delete codec clocks n db).1.job_results
            ≡ select (λ s. not (s.job_id == n)) db.job_results =
          ground (arith, delete-results codec clocks n db) in
        record {
          unique = rw jobs unique;
          results_have_rows =
              rw (jobs, results)
                (select-HasRow n (deletable n) (deleted_row clocks) db.jobs db.job_results
                  (λ r ne. ground arith) c.results_have_rows);
          rows_have_results = rw (jobs, results) deleted_HasResult;
        }
    | inr other ↦
        let zero_rows : count_where (deletable n) db.jobs ≡ 0 =
          ground (arith, count-le-one n (deletable n) db.jobs (deletable-id n) c.unique) in
        let same : (delete codec clocks n db).1.jobs ≡ db.jobs =
          jobs ∙ update_where_none (deletable n) (deleted_row clocks) db.jobs zero_rows in
        let results : (delete codec clocks n db).1.job_results ≡ db.job_results =
          ground (arith, delete-results codec clocks n db) in
        record {
          unique = rw same c.unique;
          results_have_rows = rw (same, results) c.results_have_rows;
          rows_have_results = rw (same, results) c.rows_have_results;
        }
  ]
    where
      jobs :
          (delete codec clocks n db).1.jobs
          ≡ update_where (deletable n) (deleted_row clocks) db.jobs
      jobs = delete-jobs codec clocks n db

      unique : UniqueRows (update_where (deletable n) (deleted_row clocks) db.jobs)
      unique =
          UniqueRows-update_where (deletable n) (deleted_row clocks) db.jobs (λ r. (refl, refl))
            c.unique
