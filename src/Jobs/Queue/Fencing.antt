-- ===== src/Jobs/Queue/Fencing.antt =====
-- Fencing: the operations of backend/services/jobs/queue.py, publication apart, under a lease that owns no row.
use ovrly.Prelude.{
  ℕ, ◌≡◌, refl, Bool, false, not, ◌&&◌, Option, none, List, [], ◌∷◌, String, arith, any,
  first_where, count_where, update_where, update_where_none, sql_gt,
}
use ovrly.Json.{Document, Codec}
use ovrly.Jobs.States.{in_leased_states, is_state_leased, is_running}
use ovrly.Jobs.Retries.{RetryClass}
use ovrly.Jobs.Tables.{Job, Database, Clocks, Lease, ok, err, lease_lost}
use ovrly.Jobs.Queue.{
  update_jobs, failed_with, owned, start, heartbeat, save_stage_data, lock_active, release, retry,
  cancel, record_request_id, fail,
}

-- No row of the table is owned by a lease.
abbrev pub OwnsNothing : Lease → Database → Type 0
OwnsNothing lease db = any (owned lease) db.jobs ≡ false

count_owned :
    (lease : Lease) (rest : Job → Bool) (rows : List Job)
    → any (owned lease) rows ≡ false
    → count_where (λ r. owned lease r && rest r) rows ≡ 0
count_owned lease rest [] h = refl
count_owned lease rest (x ∷ rows) h = ground (arith, count_owned lease rest rows)

first_owned :
    (lease : Lease) (rest : Job → Bool) (rows : List Job)
    → any (owned lease) rows ≡ false
    → first_where (λ r. owned lease r && rest r) rows ≡ none
first_owned lease rest [] h = refl
first_owned lease rest (x ∷ rows) h = ground (arith, first_owned lease rest rows)

update_owned :
    (lease : Lease) (rest : Job → Bool) (f : Job → Job) (rows : List Job)
    → any (owned lease) rows ≡ false
    → update_where (λ r. owned lease r && rest r) f rows ≡ rows
update_owned lease rest f rows h = update_where_none _ f rows (count_owned lease rest rows h)

-- An update of owned rows, where none is owned.
update_jobs_stale :
    (lease : Lease) (rest : Job → Bool) (f : Job → Job) (db : Database)
    → OwnsNothing lease db
    → update_jobs (λ r. owned lease r && rest r) f db ≡ (false, db)
update_jobs_stale lease rest f db h =
    rw (count_owned lease rest db.jobs h, update_owned lease rest f db.jobs h)

module _ (clocks : Clocks) (lease : Lease) (db : Database) (stale : OwnsNothing lease db) where
  stale_fail :
      (codec : Codec) (reason : String) (class : Option RetryClass)
      → fail codec clocks lease reason class db ≡ ok (false, db)
  unfolding fail
  stale_fail codec reason class = ground (
    arith,
    update_jobs_stale lease (λ r. in_leased_states r.state) (failed_with clocks reason class) db
        stale,
  )

  stale_heartbeat : (time : ℕ) → heartbeat clocks lease time db ≡ err lease_lost
  unfolding heartbeat
  stale_heartbeat time = rw (
      first_owned lease
        (λ r. in_leased_states r.state && sql_gt r.lease_expires_at clocks.clock_timestamp) db.jobs
        stale)

  -- A lease that owns no row starts, releases, retries, cancels and fails nothing and leaves the
  -- tables as they were; its heartbeat, its writes and its fence raise LeaseLost.
  pub stale_lease_inert :
      (codec : Codec) (class : RetryClass) (failed : Option RetryClass) (text : String)
      (document : Document) (time : ℕ)
      → (start clocks lease db ≡ (false, db))
        × (release clocks lease db ≡ (false, db))
        × (retry clocks lease class time db ≡ (false, db))
        × (cancel clocks lease db ≡ (false, db))
        × (fail codec clocks lease text failed db ≡ ok (false, db))
        × (heartbeat clocks lease time db ≡ err lease_lost)
        × (save_stage_data clocks lease document db ≡ err lease_lost)
        × (record_request_id clocks lease text db ≡ err lease_lost)
        × (lock_active clocks lease db ≡ err lease_lost)
  unfolding start release retry cancel save_stage_data record_request_id lock_active
  stale_lease_inert codec class failed text document time = (
    update_jobs_stale lease (λ r. is_state_leased r.state && not r.cancel_requested) _ db stale,
    update_jobs_stale lease (λ r. in_leased_states r.state) _ db stale,
    update_jobs_stale lease (λ r. in_leased_states r.state) _ db stale,
    update_jobs_stale lease (λ r. in_leased_states r.state) _ db stale,
    stale_fail codec text failed,
    stale_heartbeat time,
    rw (
        count_owned lease
          (λ r.
            is_running r.state
            && (not r.cancel_requested && sql_gt r.lease_expires_at clocks.clock_timestamp))
          db.jobs stale),
    rw (count_owned lease (λ r. in_leased_states r.state) db.jobs stale),
    rw (
        count_owned lease
          (λ r.
            is_running r.state
            && (not r.cancel_requested && sql_gt r.lease_expires_at clocks.clock_timestamp))
          db.jobs stale),
  )
