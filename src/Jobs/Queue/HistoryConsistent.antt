-- ===== src/Jobs/Queue/HistoryConsistent.antt =====
-- Every transaction of backend/services/jobs/queue.py, and every sequence of them, keeps the published
-- results and the rows of `jobs` consistent.
use ovrly.Prelude.{
  ◌≡◌, refl, ◌∙◌, sym, ap, inl, inr, Bool, false, Option, none, some, List, [], String, ◌∷◌, All,
  arith, Bool-cases, ℕ,
}
use ovrly.Json.{Document, Codec}
use ovrly.Jobs.States.{JobEvent}
use ovrly.Jobs.Retries.{RetryClass}
use ovrly.Jobs.Tables.{
  Database, Clocks, Lease, Result, ok, err, Job, Error, >>=-eq-ok, ok_injective,
}
use ovrly.Jobs.Queue.{
  claim, start, heartbeat, save_stage_data, release, retry, cancel, record_request_id, fail,
  lease_candidate, update_jobs, owned_leased, failed_with,
}
use ovrly.Pipeline.Analysis.{record_terminal, resolve_due}
use ovrly.Jobs.Queue.Owner.{enqueue, request_cancel}
use ovrly.Jobs.Queue.Publish.{publish}
use ovrly.Jobs.Queue.Consistency.{IsConsistent}
use ovrly.Jobs.Queue.Results.{keep-IsConsistent, delete-IsConsistent}
use ovrly.Jobs.Queue.ResultsPublish.{publish-IsConsistent, enqueue-results, recorded_results}
use ovrly.Jobs.Queue.History.{
  Transaction, claim_job, start_job, beat, save_data, release_job, retry_job, cancel_job, record_id,
  fail_job, publish_job, enqueue_job, request_cancel_job, delete_job, step, after, commit,
  HasQuietCallback, events_of, step-Evolution,
}

-- What no transaction but a publication or a deletion touches.
abbrev LeavesResults : Transaction → Type 0
LeavesResults (publish_job codec c l result successors on_publish later) = ⊥
LeavesResults (delete_job codec c id) = ⊥
LeavesResults _ = Unit

lease_candidate-results :
    (c : Clocks) (w : String) (time : ℕ) (o : Option Job) (db : Database)
    → (lease_candidate c w time o db).1.job_results ≡ db.job_results
lease_candidate-results c w time none db = refl
lease_candidate-results c w time (some r) db = refl

claim-results :
    (c : Clocks) (w : String) (stages : List String) (time : ℕ) (locked : ℕ → Bool) (db : Database)
    → (claim c w stages time locked db).1.job_results ≡ db.job_results
unfolding claim resolve_due
claim-results c w [] time locked db = refl
claim-results c w (s ∷ ss) time locked db = lease_candidate-results c w time _ _

commit-results {ℓ} :
    {A : Type ℓ} (r : Result (A × Database)) (db : Database)
    → ((a : A) (d : Database) → r ≡ ok (a, d) → d.job_results ≡ db.job_results)
    → (commit r db).job_results ≡ db.job_results
commit-results (ok (a, d)) db h = h a d refl
commit-results (err x) db h = refl

fail-results :
    (codec : Codec) (c : Clocks) (l : Lease) (reason : String) (class : Option RetryClass)
    (db : Database) {b : Bool} {d : Database}
    → fail codec c l reason class db ≡ ok (b, d)
    → d.job_results ≡ db.job_results
unfolding fail
fail-results codec c l reason class db h =
    let updated = (update_jobs (owned_leased l) (failed_with c reason class) db).1 in
    elim (Bool-cases ((update_jobs (owned_leased l) (failed_with c reason class) db).0)) [
      | inl one ↦
          let (recorded, records, last) =
            >>=-eq-ok (record_terminal codec c l.job_id none updated) _ (rw one at h) in
          ap (λ (x : Bool × Database). x.1.job_results) (sym (ok_injective Error last))
          ∙ recorded_results codec c l.job_id none updated recorded records
      | inr other ↦
          ap (λ (x : Bool × Database). x.1.job_results) (sym (ok_injective Error (rw other at h)))
    ]

heartbeat-results :
    (c : Clocks) (l : Lease) (time : ℕ) (db : Database) {b : Bool} {d : Database}
    → heartbeat c l time db ≡ ok (b, d)
    → d.job_results ≡ db.job_results
unfolding heartbeat
heartbeat-results c l time db h = ground arith

save_stage_data-results :
    (c : Clocks) (l : Lease) (document : Document) (db : Database) {d : Database}
    → save_stage_data c l document db ≡ ok (tt, d)
    → d.job_results ≡ db.job_results
unfolding save_stage_data
save_stage_data-results c l document db h = ground arith

record_request_id-results :
    (c : Clocks) (l : Lease) (id : String) (db : Database) {d : Database}
    → record_request_id c l id db ≡ ok (tt, d)
    → d.job_results ≡ db.job_results
unfolding record_request_id
record_request_id-results c l id db h = ground arith

request_cancel-results :
    (c : Clocks) (id : ℕ) (db : Database) → (request_cancel c id db).1.job_results ≡ db.job_results
unfolding request_cancel
request_cancel-results c id db = ground arith

step-results :
    (t : Transaction) (db : Database) → LeavesResults t → (step t db).job_results ≡ db.job_results
unfolding step
step-results (claim_job c w stages time locked) db p = claim-results c w stages time locked db
step-results (start_job c l) db p = unfold start in refl
step-results (beat c l time) db p =
    commit-results (heartbeat c l time db) db (λ a d h. heartbeat-results c l time db h)
step-results (save_data c l document) db p =
    commit-results (save_stage_data c l document db) db
      (λ a d h. save_stage_data-results c l document db h)
step-results (release_job c l) db p = unfold release in refl
step-results (retry_job c l class delay) db p = unfold retry in refl
step-results (cancel_job c l) db p = unfold cancel in refl
step-results (record_id c l id) db p =
    commit-results (record_request_id c l id db) db (λ a d h. record_request_id-results c l id db h)
step-results (fail_job codec c l reason class) db p =
    commit-results (fail codec c l reason class db) db
      (λ a d h. fail-results codec c l reason class db h)
step-results (publish_job codec c l result successors on_publish later) db p = absurd p
step-results (enqueue_job c id key payload owner) db p =
    commit-results (enqueue c id key payload owner db) db
      (λ a d h. enqueue-results c id key payload owner db h)
step-results (request_cancel_job c id) db p = request_cancel-results c id db
step-results (delete_job codec c id) db p = absurd p

plain-IsConsistent :
    (t : Transaction) (db : Database)
    → LeavesResults t
    → HasQuietCallback t
    → events_of t JobEvent.publish ≡ false
    → events_of t JobEvent.delete ≡ false
    → IsConsistent db
    → IsConsistent (step t db)
plain-IsConsistent t db p q no_publish no_delete c =
    keep-IsConsistent (events_of t) db (step t db) no_publish no_delete
      (step-Evolution t db c.unique q) (step-results t db p) c

commit-IsConsistent {ℓ} :
    {A : Type ℓ} (r : Result (A × Database)) (db : Database)
    → ((a : A) (d : Database) → r ≡ ok (a, d) → IsConsistent d)
    → IsConsistent db
    → IsConsistent (commit r db)
commit-IsConsistent (ok (a, d)) db h c = h a d refl
commit-IsConsistent (err x) db h c = c

step-IsConsistent :
    (t : Transaction) (db : Database)
    → HasQuietCallback t
    → IsConsistent db
    → IsConsistent (step t db)
step-IsConsistent (publish_job codec c l result successors on_publish later) db q k =
    unfold step in
    commit-IsConsistent (publish codec c l result successors on_publish later db) db
      (λ p d h. publish-IsConsistent codec c l result successors on_publish later db p d q k h) k
step-IsConsistent (delete_job codec c id) db q k =
    unfold step in delete-IsConsistent codec c id db k
step-IsConsistent (claim_job c w stages time locked) db q k =
    plain-IsConsistent (claim_job c w stages time locked) db tt tt refl refl k
step-IsConsistent (start_job c l) db q k = plain-IsConsistent (start_job c l) db tt tt refl refl k
step-IsConsistent (beat c l time) db q k = plain-IsConsistent (beat c l time) db tt tt refl refl k
step-IsConsistent (save_data c l d) db q k =
    plain-IsConsistent (save_data c l d) db tt tt refl refl k
step-IsConsistent (release_job c l) db q k =
    plain-IsConsistent (release_job c l) db tt tt refl refl k
step-IsConsistent (retry_job c l class delay) db q k =
    plain-IsConsistent (retry_job c l class delay) db tt tt refl refl k
step-IsConsistent (cancel_job c l) db q k = plain-IsConsistent (cancel_job c l) db tt tt refl refl k
step-IsConsistent (record_id c l id) db q k =
    plain-IsConsistent (record_id c l id) db tt tt refl refl k
step-IsConsistent (fail_job codec c l reason class) db q k =
    plain-IsConsistent (fail_job codec c l reason class) db tt tt refl refl k
step-IsConsistent (enqueue_job c id key payload owner) db q k =
    plain-IsConsistent (enqueue_job c id key payload owner) db tt tt refl refl k
step-IsConsistent (request_cancel_job c id) db q k =
    plain-IsConsistent (request_cancel_job c id) db tt tt refl refl k

-- However the transactions of workers and owners interleave, the constraints of jobs hold, and a
-- job is published exactly where it has a result, if that was so at the start. The callbacks of
-- publications are assumed to enqueue at most and to leave the results alone.
pub after-IsConsistent :
    (ts : List Transaction) (db : Database)
    → All HasQuietCallback ts
    → IsConsistent db
    → IsConsistent (after ts db)
unfolding after
after-IsConsistent [] db q c = c
after-IsConsistent (t ∷ ts) db q c =
    after-IsConsistent ts (step t db) q.1 (step-IsConsistent t db q.0 c)
