-- ===== src/Worker/HandBack.antt =====
-- What an execution of backend/services/worker/runtime.py leaves of its lease.
use ovrly.Prelude.{
  ℕ, ◌+◌, ◌≡◌, ◌∙◌, refl, sym, ap, subst, Bool, true, false, Bool-cases, none, some, String,
  if◌then◌else◌, Outcome, ok, err, >>=-eq-ok, ok_injective, Option, inl, inr, ◌>>=◌, false≢true,
}
use ovrly.Json.{Codec}
use ovrly.Jobs.Retries.{RetryClass, RetryableError, RetryPolicy, RetryDecision, decide}
use ovrly.Jobs.Retries.Duration.{Seconds}
use ovrly.Jobs.Tables.{
  Database, Clocks, ClaimedJob, Result, publish_rejected, no_result_found, integrity_error,
}
use ovrly.Jobs.Queue.{start, cancel, retry, fail}
use ovrly.Worker.Runtime.{
  returns, cancellation_requested, lease_lost, retryable, infrastructure_error, fails,
  publish_stage, after_publish, Ending, Escape, Handled, World, or_raised, transact,
  transact_result, release_lease, schedule_retry, after_decision, recorded_id, after_handler,
  after_start, execute,
}
use ovrly.Worker.HandBackSteps.{
  HoldsNothing, hands_back, cancel-HoldsNothing, release-HoldsNothing, retry-HoldsNothing,
  fail-HoldsNothing,
}

abbrev returns_value : (E : Type 0) {A : Type 0} → Outcome E A → Bool
returns_value E (err e) = false
returns_value E (ok a) = true

abbrev ended : Ending → Database → Outcome Escape (Ending × Database)
ended e db = ok (e, db)

module _ (S : Seconds) (codec : Codec) (policy : RetryPolicy S) (w : World S)
    (job : ClaimedJob) where
  transacted :
      {A : Type 0} (n : ℕ) (op : Clocks → Database → A × Database) (db : Database)
      {r : A × Database}
      → transact S w n op db ≡ ok r
      → op (w.clocks n) (w.others n db) ≡ r
  transacted n op db h = elim (Bool-cases (w.broken n)) [
    | inl failed ↦ absurd (false≢true (ap (returns_value Escape) (rw failed at h)))
    | inr fine ↦ ok_injective Escape (rw fine at h)
  ]

  -- A transaction that holds nothing afterwards, and the ending that follows from it.
  settled :
      (op : Clocks → Database → Bool × Database) (n : ℕ) (db : Database) (k : Bool → Ending)
      {e : Ending} {final : Database}
      → ((c : Clocks) (d : Database) → HoldsNothing job.lease (op c d).1)
      → (transact S w n op db >>= λ r. ended (k r.0) r.1) ≡ ok (e, final)
      → HoldsNothing job.lease final
  settled op n db k {final = final} holds h =
      let (r, ran, last) = >>=-eq-ok (transact S w n op db) _ h in
      let same : r.1 ≡ final = ap (λ (x : Ending × Database). x.1) (ok_injective Escape last) in
      subst (HoldsNothing job.lease)
        (ap (λ (x : Bool × Database). x.1) (transacted n op db ran) ∙ same)
        (holds (w.clocks n) (w.others n db))

  settled_failure :
      (reason : String) (class : Option RetryClass) (n : ℕ) (db : Database) (k : Ending)
      {e : Ending} {final : Database}
      → (transact_result S w n (λ c. fail codec c job.lease reason class) db >>= λ r. ended k r.1)
        ≡ ok (e, final)
      → HoldsNothing job.lease final
  settled_failure reason class n db k {final = final} h =
      let (r, ran, last) =
        >>=-eq-ok (transact_result S w n (λ c. fail codec c job.lease reason class) db) _ h in
      let same : r.1 ≡ final = ap (λ (x : Ending × Database). x.1) (ok_injective Escape last) in
      subst (HoldsNothing job.lease) same (elim (Bool-cases (w.broken n)) [
        | inl failed ↦ absurd (false≢true (ap (returns_value Escape) (rw failed at ran)))
        | inr fine ↦ fail-HoldsNothing codec (w.clocks n) job.lease reason class (w.others n db) (
            or_raised-ok (fail codec (w.clocks n) job.lease reason class (w.others n db))
              (rw fine at ran))
      ])
    where
      or_raised-ok : {A : Type 0} (m : Result A) {a : A} → or_raised S m ≡ ok a → m ≡ ok a
      or_raised-ok (ok a) h = ap ok (ok_injective Escape h)
      or_raised-ok (err e) h = absurd (false≢true (ap (returns_value Escape) h))

  settled_release :
      (n : ℕ) (db : Database) {e : Ending} {final : Database}
      → release_lease S w n job.lease db ≡ (e, final)
      → hands_back e ≡ true
      → HoldsNothing job.lease final
  unfolding release_lease
  settled_release n db {e = e} {final = final} h k = elim (Bool-cases (w.broken n)) [
    | inl failed ↦
        absurd
          (false≢true (ap hands_back (ap (λ (x : Ending × Database). x.0) (rw failed at h)) ∙ k))
    | inr fine ↦
        subst (HoldsNothing job.lease) (ap (λ (x : Ending × Database). x.1) (rw fine at h))
          (release-HoldsNothing (w.clocks n) job.lease (w.others n db))
  ]

  settled_retry :
      (n : ℕ) (outcome : RetryableError S) (decision : RetryDecision S) (delay : Option S.Time)
      (db : Database) {e : Ending} {final : Database}
      → after_decision S codec w n job outcome decision delay db ≡ ok (e, final)
      → HoldsNothing job.lease final
  settled_retry n outcome decision none db h = settled_failure _ _ n db Ending.exhausted h
  settled_retry n outcome decision (some delay) db h =
      settled (λ c. retry c job.lease decision.decided_class (w.microseconds_of delay)) n db
        (λ one. if one then Ending.retry_scheduled else Ending.lost_before_retry)
        (λ c d. retry-HoldsNothing c job.lease decision.decided_class (w.microseconds_of delay) d) h

  unsettled :
      {a e : Ending} (before : Database) {final : Database}
      → hands_back a ≡ false
      → Path (Outcome Escape (Ending × Database)) (ok (a, before)) (ok (e, final))
      → hands_back e ≡ true
      → HoldsNothing job.lease final
  unsettled before kept h k =
      let same = ap (λ (x : Ending × Database). hands_back x.0) (ok_injective Escape h) in
      absurd (false≢true (sym kept ∙ same ∙ k))

  settled_publish :
      (n : ℕ) (before : Database) (o : Option (Result (Bool × Database))) {e : Ending}
      {final : Database}
      → after_publish S w n job before o ≡ ok (e, final)
      → hands_back e ≡ true
      → HoldsNothing job.lease final
  settled_publish n before none h k = absurd (false≢true (ap (returns_value Escape) h))
  settled_publish n before (some (ok (true, db))) h k = unsettled db refl h k
  settled_publish n before (some (ok (false, db))) h k = elim (Bool-cases (w.broken n)) [
    | inl failed ↦ settled_release (n + 1) db (ok_injective Escape (rw failed at h)) k
    | inr fine ↦
        subst (HoldsNothing job.lease)
          (ap (λ (x : Ending × Database). x.1) (ok_injective Escape (rw fine at h)))
          (cancel-HoldsNothing (w.clocks n) job.lease (w.others n db))
  ]
  settled_publish n before (some (err (publish_rejected i r))) h k = unsettled before refl h k
  settled_publish n before (some (err no_result_found)) h k =
      settled_release n before (ok_injective Escape h) k
  settled_publish n before (some (err integrity_error)) h k =
      settled_release n before (ok_injective Escape h) k
  settled_publish n before (some (err x)) h k = absurd (false≢true (ap (returns_value Escape) h))

  settled_handler :
      (n : ℕ) (handled : Handled S) (db : Database) {e : Ending} {final : Database}
      → after_handler S codec policy w n job handled db ≡ ok (e, final)
      → hands_back e ≡ true
      → HoldsNothing job.lease final
  unfolding after_handler schedule_retry
  settled_handler n (returns result) db {e} {final} h k = elim (Bool-cases (w.broken n)) [
    | inl failed ↦ settled_release (n + 1) (w.others n db) (ok_injective Escape (rw failed at h)) k
    | inr fine ↦
        settled_publish (n + 1) (w.others n db)
          (publish_stage S codec (w.clocks n) w job result (w.others (n + 1) (w.others n db))
            (w.others n db))
          (rw fine at h) k
  ]
  settled_handler n cancellation_requested db h k =
      settled (λ c. cancel c job.lease) n db (λ _. Ending.cancelled_during)
        (λ c d. cancel-HoldsNothing c job.lease d) h
  settled_handler n lease_lost db h k = unsettled db refl h k
  settled_handler n (retryable outcome) db h k =
      let (r, read, later) = >>=-eq-ok (recorded_id S w n job outcome db) _ h in
      let decision = decide S policy w.jitter outcome job.retry_counts r.0 in
      settled_retry (n + 1) outcome decision decision.delay_seconds r.1 later
  settled_handler n infrastructure_error db h k = settled_release n db (ok_injective Escape h) k
  settled_handler n (fails reason) db h k = settled_failure reason none n db Ending.failed h

  settled_start :
      (started : Bool) (db : Database) {e : Ending} {final : Database}
      → after_start S codec policy w job started db ≡ ok (e, final)
      → hands_back e ≡ true
      → HoldsNothing job.lease final
  settled_start true db h k = settled_handler 1 w.handler db h k
  settled_start false db h k =
      settled (λ c. cancel c job.lease) 1 db
        (λ one. if one then Ending.cancelled_before_start else Ending.lost_before_start)
        (λ c d. cancel-HoldsNothing c job.lease d) h

-- An execution that returns hands its lease back: no row is leased or running under the lease at
-- its end, whatever the handler did and others did meanwhile, unless the job was published or its
-- publication rejected, the lease was lost during the stage, or the database failed the release.
pub execute-HoldsNothing :
    (S : Seconds) (codec : Codec) (policy : RetryPolicy S) (w : World S) (job : ClaimedJob)
    (db : Database) {e : Ending} {final : Database}
    → execute S codec policy w job db ≡ ok (e, final)
    → hands_back e ≡ true
    → HoldsNothing job.lease final
unfolding execute
execute-HoldsNothing S codec policy w job db h k =
    let (r, ran, later) = >>=-eq-ok (transact S w 0 (λ c. start c job.lease) db) _ h in
    settled_start S codec policy w job r.0 r.1 later k
