-- ===== src/Asr/Crash.antt =====
-- After a crash: a speech model whose request may have reached the provider is not called again in the
-- same run (backend/services/asr/reservations.py and fallback.py).
use ovrly.Prelude.{
  ℕ, ||-inr, ◌≤◌, ◌≡◌, ◌∙◌, refl, sym, inl, inr, Bool, true, false, ◌&&◌, Bool-cases, Option-cases,
  none, some, List, [], ◌∷◌, ◌++◌, String, eq_iff, arith, if◌then◌else◌, any, Dict, Outcome, ok,
  >>=-eq-ok, ok_injective, err, first_where, update_where, count_where, select, ◌==◌, sql_eq,
  any_of_first_none,
}
use ovrly.Json.{Codec}
use ovrly.Jobs.Tables.{AsrRequest, Database, Clocks, ClaimedJob}
use ovrly.Jobs.Queue.{lock_active}
use ovrly.Asr.Failures.{AsrFailure, speech, SpeechError, of_queue}
use ovrly.Asr.Usage.{Settings}
use ovrly.Asr.Reservations.{
  is_empty_rows, is_recorded, attempts, begin, retry_index, latest, job_rows, is_reserved_for,
  Reservation, reserve_in, reserved_row, use_reserved,
}
use ovrly.Asr.Fallback.{World, transcribe}
use ovrly.Asr.Resend.{sendable, mentions, transcribe-calls}
use ovrly.Asr.LedgerRows.{
  matches, is_reserved, any-sorted, any-select, latest-sendable, used-none, any-first,
  any-update_where, any-append,
}

-- A row of the job, the model and the retry index.
abbrev belongs : ℕ → String → ℕ → AsrRequest → Bool
belongs job_id model index r = sql_eq r.job_id job_id && matches model index r

-- No row of the run is reserved for the model, and there is one.
abbrev IsBlocked : ℕ → String → ℕ → List AsrRequest → Type 0
IsBlocked job_id model index rows =
    (any (is_reserved_for job_id model index) rows ≡ false)
    × (any (belongs job_id model index) rows ≡ true)

use_reserved-IsBlocked :
    (settings : Settings) (r : AsrRequest) (db : Database) (job_id : ℕ) (model : String) (index : ℕ)
    {id : ℕ} {db' : Database}
    → first_where (is_reserved_for job_id model index) db.asr_requests ≡ some r
    → count_where (is_reserved_for job_id model index) db.asr_requests ≤ 1
    → use_reserved settings r db ≡ ok (id, db')
    → IsBlocked job_id model index db'.asr_requests
use_reserved-IsBlocked settings r db job_id model index {id} {db'} h k e =
    let rows : db'.asr_requests
        ≡ update_where (λ s. s.id == r.id) (λ s. record s { outcome = "uncertain" })
            db.asr_requests =
      ground arith in
    rw rows (
      used-none (is_reserved_for job_id model index) (λ s. record s { outcome = "uncertain" })
          (λ s. ground arith) r db.asr_requests h k,
      any-update_where (belongs job_id model index) _ (λ s. record s { outcome = "uncertain" })
            db.asr_requests (λ s. refl)
          ∙ any-first (is_reserved_for job_id model index) (belongs job_id model index)
              db.asr_requests (λ s fits. ground arith) h,
    )

reserve_in-IsBlocked :
    (codec : Codec) (settings : Settings) (q : Reservation) (db : Database) {id : ℕ}
    {db' : Database}
    → q.outcome ≡ "uncertain"
    → first_where (is_reserved_for q.job_id q.model q.index) db.asr_requests ≡ none
    → reserve_in codec settings q db ≡ ok (id, db')
    → IsBlocked q.job_id q.model q.index db'.asr_requests
unfolding reserve_in
reserve_in-IsBlocked codec settings q db {id} {db'} uncertain h e =
    let rows : db'.asr_requests ≡ db.asr_requests ++ reserved_row settings q ∷ [] = ground arith in
    let fresh : is_reserved_for q.job_id q.model q.index (reserved_row settings q) ≡ false =
      rw uncertain (ground arith) in
    let own : belongs q.job_id q.model q.index (reserved_row settings q) ≡ true =
      ground (arith, eq_iff q.model q.model) in
    rw rows (
      any-append (is_reserved_for q.job_id q.model q.index) db.asr_requests
            (reserved_row settings q)
          ∙ (rw (any_of_first_none (is_reserved_for q.job_id q.model q.index) db.asr_requests h)
              fresh),
      any-append (belongs q.job_id q.model q.index) db.asr_requests (reserved_row settings q)
          ∙ ||-inr _ _ own,
    )

begin-IsBlocked :
    (codec : Codec) (settings : Settings) (clocks : Clocks) (job : ClaimedJob) (model : String)
    (duration id t index : ℕ) (db : Database) {request_id : ℕ} {db' : Database}
    → retry_index codec job ≡ ok index
    → count_where (is_reserved_for job.lease.job_id model index) db.asr_requests ≤ 1
    → begin codec settings clocks job model duration id t db ≡ ok (request_id, db')
    → IsBlocked job.lease.job_id model index db'.asr_requests
unfolding begin
begin-IsBlocked codec settings clocks job model duration id t index db {request_id} {db'} i k e =
    let (unit, active, e₁) = >>=-eq-ok (of_queue (lock_active clocks job.lease db)) _ e in
    let q : Reservation = record {
      id = id;
      job_id = job.lease.job_id;
      duration = duration;
      index = index;
      model = model;
      timestamp = t;
      outcome = "uncertain";
    } in
    elim (Option-cases
      (first_where (is_reserved_for job.lease.job_id model index) db.asr_requests)) [
        | inl missing ↦
            reserve_in-IsBlocked codec settings q db refl missing (rw (i, missing) at e₁)
        | inr (r, found) ↦
            use_reserved-IsBlocked settings r db job.lease.job_id model index found k
              (rw (i, found) at e₁)
      ]

any-ext :
    (p q : AsrRequest → Bool) (rows : List AsrRequest)
    → ((r : AsrRequest) → p r ≡ q r)
    → any p rows ≡ any q rows
any-ext p q [] h = refl
any-ext p q (x ∷ rows) h = rw (h x, any-ext p q rows h) refl

blocked-sendable :
    (codec : Codec) (clocks : Clocks) (job : ClaimedJob) (model : String) (index : ℕ)
    (db : Database) (ledger : Dict AsrRequest)
    → retry_index codec job ≡ ok index
    → IsBlocked job.lease.job_id model index db.asr_requests
    → attempts codec clocks job db ≡ ok ledger
    → sendable ledger model ≡ false
unfolding attempts
blocked-sendable codec clocks job model index db ledger i (free, own) e =
    let (unit, active, e₁) = >>=-eq-ok (of_queue (lock_active clocks job.lease db)) _ e in
    let rows = job_rows job.lease.job_id db in
    let (index', read, e₂) =
      >>=-eq-ok
        (if is_empty_rows rows && is_recorded job.provider_request_id
          then err (speech AsrFailure.unknown_outcome)
          else retry_index codec job)
        _ e₁ in
    let same : index' ≡ index = same_index _ (retry_index codec job) read i in
    let result : latest index' rows [] ≡ ledger = ok_injective SpeechError e₂ in
    let own_rows = select (λ r. sql_eq r.job_id job.lease.job_id) db.asr_requests in
    let none_reserved : any (λ r. matches model index r && is_reserved r) rows ≡ false =
      any-sorted _ own_rows
      ∙ any-select _ (λ r. sql_eq r.job_id job.lease.job_id) db.asr_requests
      ∙ any-ext _ (is_reserved_for job.lease.job_id model index) db.asr_requests (λ r. ground arith)
      ∙ free in
    let one : any (matches model index) rows ≡ true =
      any-sorted (matches model index) own_rows
      ∙ any-select (matches model index) (λ r. sql_eq r.job_id job.lease.job_id) db.asr_requests
      ∙ own in
    rw (← result, same) (latest-sendable model index rows [] none_reserved (inl one))
  where
    same_index :
        (b : Bool) (o : Outcome SpeechError ℕ) {m n : ℕ}
        → (if b then err (speech AsrFailure.unknown_outcome) else o) ≡ ok m
        → o ≡ ok n
        → m ≡ n
    same_index true o h k = cc
    same_index false o h k = ok_injective SpeechError (sym h ∙ k)

-- Once begin has returned for a model, a later run of the same job and retry index that reads the
-- ledger as begin left it does not send that model again, where at most one row of the job, model
-- and index was reserved; so a crash during the call never repeats it.
pub crash_safe :
    (codec : Codec) (settings : Settings) (clocks : Clocks) (w : World) (job again : ClaimedJob)
    (model : String) (duration id t index : ℕ) (db later : Database) {request_id : ℕ}
    {db' : Database}
    → retry_index codec job ≡ ok index
    → retry_index codec again ≡ ok index
    → again.lease.job_id ≡ job.lease.job_id
    → count_where (is_reserved_for job.lease.job_id model index) db.asr_requests ≤ 1
    → begin codec settings clocks job model duration id t db ≡ ok (request_id, db')
    → (w.others 0 later).asr_requests ≡ db'.asr_requests
    → mentions model (transcribe codec settings w again later).calls ≡ false
crash_safe codec settings clocks w job again model duration id t index db later i j same k e kept =
    let blocked = begin-IsBlocked codec settings clocks job model duration id t index db i k e in
    elim (Bool-cases (mentions model (transcribe codec settings w again later).calls)) [
      | inl sent ↦
          let (ledger, read, allowed) = transcribe-calls codec settings w again later model sent in
          absurd (
            both (
              sym allowed
              ∙ blocked-sendable codec (w.clocks 0) again model index (w.others 0 later) ledger j
                  (rw (same, kept) blocked) read))
      | inr unsent ↦ unsent
    ]
  where
    both : true ≡ false → ⊥
    both h = cc
