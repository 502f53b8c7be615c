-- ===== src/Jobs/Queue/Exclusion.antt =====
-- Mutual exclusion of the workers of backend/services/jobs/queue.py: a later claim of a job shuts out
-- every lease that was issued before, for good.
use ovrly.Prelude.{
  ℕ, ◌<◌, ◌≡◌, ◌∙◌, sym, subst, refl, ◌⊎◌, inl, inr, Bool, false, Option, some, List, [], ◌∷◌,
  String, All, arith, ◌==◌, ==_iff, Bool-cases, Option-cases, any, first_where, update_where,
}
use ovrly.Jobs.States.{JobEvent}
use ovrly.Jobs.Tables.{Job, Database, Clocks, Lease, ClaimedJob}
use ovrly.Jobs.Spec.{only}
use ovrly.Jobs.Spec.Rows.{Table-find}
use ovrly.Jobs.Spec.Unique.{UniqueRows, UniqueRows-update_where}
use ovrly.Jobs.Spec.Counters.{Evolves-counters, first_where-update_id, first_where-In}
use ovrly.Pipeline.Analysis.{resolve_due, resolve_due-jobs}
use ovrly.Jobs.Queue.{
  owned, claim, expire_overdue, overdue, give_back, candidate, leased_to, claimed, lease_candidate,
  is_empty,
}
use ovrly.Jobs.Queue.Owner.{get_job}
use ovrly.Jobs.Queue.Transitions.{claim-Evolution, candidate-queued, expired-Evolution}
use ovrly.Jobs.Queue.History.{Transaction, HasQuietCallback, after, after-Evolution, any_event}
use ovrly.Jobs.Queue.Fencing.{OwnsNothing}

-- The row of a lease's job has moved on since the lease was issued.
abbrev pub IsPast : Lease → Job → Type 0
IsPast lease r = (lease.fencing_token < r.fencing_token) ⊎ (lease.generation < r.generation)

owned-IsPast : (lease : Lease) (r : Job) → IsPast lease r → owned lease r ≡ false
unfolding owned
owned-IsPast lease r h = ground arith

owned_other : (lease : Lease) (r : Job) → (r.id == lease.job_id) ≡ false → owned lease r ≡ false
unfolding owned
owned_other lease r h = rw h

any-owned :
    (lease : Lease) (rows : List Job)
    → any (λ s. s.id == lease.job_id) rows ≡ false
    → any (owned lease) rows ≡ false
any-owned lease [] h = refl
any-owned lease (x ∷ rows) h = ground (arith, owned_other lease x, any-owned lease rows)

owned_none :
    (lease : Lease) (rows : List Job) (r : Job)
    → UniqueRows rows
    → first_where (λ s. s.id == lease.job_id) rows ≡ some r
    → IsPast lease r
    → any (owned lease) rows ≡ false
owned_none lease [] r u h p = cc
owned_none lease (x ∷ xs) r u h p = elim (Bool-cases (x.id == lease.job_id)) [
  | inl same ↦
      let e : some x ≡ some r = rw same at h in
      let none_owned : owned lease x ≡ false = ground (arith, owned-IsPast lease r p) in
      let others : any (λ s. s.id == lease.job_id) xs ≡ false =
        rw (← (==_iff x.id lease.job_id).0 same) u.0 in
      rw none_owned (any-owned lease xs others)
  | inr other ↦ rw (owned_other lease x other) (owned_none lease xs r u.2 (rw other at h) p)
]

-- A lease that is past owns nothing, after any further transactions either.
pub IsPast-after :
    (lease : Lease) (ts : List Transaction) (db : Database) {r : Job}
    → UniqueRows db.jobs
    → All HasQuietCallback ts
    → get_job lease.job_id db ≡ some r
    → IsPast lease r
    → OwnsNothing lease (after ts db)
IsPast-after lease ts db {r} u q found p =
    let (table, keeps) = after-Evolution ts db u q in
    let (r', found', v) =
      Table-find any_event lease.job_id db.jobs (after ts db).jobs table found in
    let grown = Evolves-counters any_event r r' v in
    owned_none lease (after ts db).jobs r' (keeps u) found' (ground arith)

-- What a claim that returns a job has done to the job's row.
record Claims (clocks : Clocks) (worker_id : String) (lease_time : ℕ) (db db' : Database)
    (j : ClaimedJob) : Type 0 where
  row : Job
  present : first_where (λ s. s.id == row.id) (expire_overdue clocks db.jobs) ≡ some row
  returned : j ≡ claimed clocks worker_id lease_time row
  leased :
      first_where (λ s. s.id == row.id) db'.jobs ≡ some (leased_to clocks worker_id lease_time row)

claim_candidate :
    (clocks : Clocks) (worker_id : String) (stages : List String) (lease_time : ℕ)
    (locked : ℕ → Bool) (db resolved : Database) {j : ClaimedJob} {db' : Database}
    → UniqueRows db.jobs
    → (resolved.jobs ≡ db.jobs)
    → lease_candidate clocks worker_id lease_time
        (candidate clocks stages locked (expire_overdue clocks resolved.jobs))
        (record resolved { jobs = expire_overdue clocks resolved.jobs })
      ≡ (some j, db')
    → Claims clocks worker_id lease_time db db' j
claim_candidate clocks worker_id stages lease_time locked db resolved {j} {db'} u same h =
    elim (Option-cases (candidate clocks stages locked (expire_overdue clocks resolved.jobs))) [
      | inl empty ↦ ground arith
      | inr (r, e) ↦
          let rows = expire_overdue clocks db.jobs in
          let unique =
            UniqueRows-update_where (overdue clocks) (give_back clocks) db.jobs (λ s. (refl, refl))
              u in
          let e' : candidate clocks stages locked rows ≡ some r = rw same at e in
          let i = (candidate-queued clocks stages locked rows r e').0 in
          let jobs : db'.jobs
              ≡ update_where (λ s. s.id == r.id) (leased_to clocks worker_id lease_time) rows =
            ground arith in
          record {
            row = r;
            present = first_where-In r rows unique i;
            returned = ground arith;
            leased = rw jobs (
                first_where-update_id (leased_to clocks worker_id lease_time) r rows unique i
                  (λ s. refl));
          }
    ]

claim-Claims :
    (clocks : Clocks) (worker_id : String) (stages : List String) (lease_time : ℕ)
    (locked : ℕ → Bool) (db : Database) {j : ClaimedJob} {db' : Database}
    → UniqueRows db.jobs
    → claim clocks worker_id stages lease_time locked db ≡ (some j, db')
    → Claims clocks worker_id lease_time db db' j
unfolding claim
claim-Claims clocks worker_id stages lease_time locked db u h =
    elim (Bool-cases (is_empty stages)) [
      | inl empty ↦ ground arith
      | inr some_stage ↦
          claim_candidate clocks worker_id stages lease_time locked db (resolve_due clocks db) u
            (resolve_due-jobs clocks db) (rw some_stage at h)
    ]

-- A claim raises the fencing token of its job past the one that the job's row had.
claim_raises :
    (clocks : Clocks) (worker_id : String) (lease_time : ℕ) (db db' : Database) (j : ClaimedJob)
    (n : ℕ) (r : Job)
    → Claims clocks worker_id lease_time db db' j
    → j.lease.job_id ≡ n
    → get_job n db ≡ some r
    → (r.fencing_token < j.lease.fencing_token)
      × (s : Job) × (get_job n db' ≡ some s)
      × (s.fencing_token ≡ j.lease.fencing_token)
claim_raises clocks worker_id lease_time db db' j n r c same found =
    let (r', found', v) =
      Table-find (only JobEvent.expire) n db.jobs (expire_overdue clocks db.jobs)
        (expired-Evolution clocks db.jobs).0 found in
    let grown = Evolves-counters (only JobEvent.expire) r r' v in
    let id : c.row.id ≡ n = ground (arith, c.returned) in
    let present : first_where (λ s. s.id == n) (expire_overdue clocks db.jobs) ≡ some c.row =
      rw (← id) c.present in
    let equal : some r' ≡ some c.row = sym found' ∙ present in
    (
      ground (arith, c.returned),
      leased_to clocks worker_id lease_time c.row,
      rw (← id) c.leased,
      ground (arith, c.returned),
    )

-- Of two claims of one job, whatever transactions stand between them, the later has the larger
-- fencing token, and the earlier lease owns no row from then on, whatever transactions follow. The
-- ids are unique at the start, and the callbacks of publications enqueue at most.
pub claims_exclude :
    (c₁ c₂ : Clocks) (w₁ w₂ : String) (stages₁ stages₂ : List String) (time₁ time₂ : ℕ)
    (locked₁ locked₂ : ℕ → Bool) (ts us : List Transaction) (db₀ db₁ db₂ : Database)
    (j₁ j₂ : ClaimedJob)
    → UniqueRows db₀.jobs
    → All HasQuietCallback ts
    → All HasQuietCallback us
    → claim c₁ w₁ stages₁ time₁ locked₁ db₀ ≡ (some j₁, db₁)
    → claim c₂ w₂ stages₂ time₂ locked₂ (after ts db₁) ≡ (some j₂, db₂)
    → j₂.lease.job_id ≡ j₁.lease.job_id
    → (j₁.lease.fencing_token < j₂.lease.fencing_token) × OwnsNothing j₁.lease (after us db₂)
claims_exclude c₁ c₂ w₁ w₂ stages₁ stages₂ time₁ time₂ locked₁ locked₂ ts us db₀ db₁ db₂ j₁ j₂ u q p
      h₁ h₂ same =
    let first = claim-Claims c₁ w₁ stages₁ time₁ locked₁ db₀ u h₁ in
    let unique₁ : UniqueRows db₁.jobs =
      subst (λ (x : Option ClaimedJob × Database). UniqueRows x.1.jobs) h₁
        ((claim-Evolution c₁ w₁ stages₁ time₁ locked₁ db₀ u).1 u) in
    let (table, keeps) = after-Evolution ts db₁ unique₁ q in
    let unique = keeps unique₁ in
    let id₁ : first.row.id ≡ j₁.lease.job_id = ground (arith, first.returned) in
    let leased₁ : get_job j₁.lease.job_id db₁ ≡ some (leased_to c₁ w₁ time₁ first.row) =
      rw (← id₁) first.leased in
    let (r, found, v) =
      Table-find any_event j₁.lease.job_id db₁.jobs (after ts db₁).jobs table leased₁ in
    let grown = Evolves-counters any_event (leased_to c₁ w₁ time₁ first.row) r v in
    let second = claim-Claims c₂ w₂ stages₂ time₂ locked₂ (after ts db₁) unique h₂ in
    let (raised, s, found₂, token) =
      claim_raises c₂ w₂ time₂ (after ts db₁) db₂ j₂ j₁.lease.job_id r second same found in
    let unique₂ : UniqueRows db₂.jobs =
      subst (λ (x : Option ClaimedJob × Database). UniqueRows x.1.jobs) h₂
        ((claim-Evolution c₂ w₂ stages₂ time₂ locked₂ (after ts db₁) unique).1 unique) in
    let less : j₁.lease.fencing_token < j₂.lease.fencing_token = ground (arith, first.returned) in
    (less, IsPast-after j₁.lease us db₂ unique₂ p found₂ (inl (ground arith)))
