-- ===== src/Asr/Resend.antt =====
-- What backend/services/asr/fallback.py sends to the provider: no model twice in one run, and none
-- that the ledger closes.
use ovrly.Prelude.{
  ℕ, ◌+◌, ◌≤◌, ◌≡◌, ◌≢◌, ◌∙◌, refl, sym, subst, inl, inr, Bool, true, false, not, ◌&&◌, ◌||◌,
  &&-left, &&-right, Bool-cases, Option, none, some, List, [], ◌∷◌, ◌++◌, String, str_eq, eq_iff,
  arith, any, Dict, get, Outcome, ok, err, is_some, count_where, if◌then◌else◌,
}
use ovrly.Json.{Codec, Document}
use ovrly.Jobs.Tables.{AsrRequest, Database, ClaimedJob, Error}
use ovrly.Asr.Failures.{AsrFailure, SpeechError, speech}
use ovrly.Asr.Usage.{Settings}
use ovrly.Asr.Reservations.{attempts}
use ovrly.Asr.Fallback.{
  World, or_stored, after_attempts, Run, take_turn, over_models, transcribe, models, then_continue,
  moved_on, returned, stopped, Verdict, stored_result, call_model, after_begin, after_heartbeat,
  after_call, completed, segments, call_raises, call_stops, Answer,
}

-- A model that the run may send: it has no row in the ledger, or a reserved one.
abbrev pub sendable : Dict AsrRequest → String → Bool
sendable ledger model = elim (get model ledger) [
  | none ↦ true
  | some row ↦ str_eq row.outcome "reserved"
]

abbrev pub mentions : String → List String → Bool
mentions model = any (str_eq model)

abbrev pub times_in : String → List String → ℕ
times_in m = count_where (str_eq m)

-- A model's row allows its call: it is reserved, or it is missing and no later model has one.
abbrev pub is_open : Option AsrRequest → Bool → Bool
is_open none later = not later
is_open (some row) later = str_eq row.outcome "reserved"

-- The models of an order whose rows allow a call.
abbrev pub is_allowed : Dict AsrRequest → List String → String → Bool
is_allowed ledger [] m = false
is_allowed ledger (model ∷ order) m =
    (str_eq m model && is_open (get model ledger) (any (λ later. is_some (get later ledger)) order))
    || is_allowed ledger order m

abbrev one_if : Bool → ℕ
one_if b = if b then 1 else 0

-- How often a run may send a model, by what reading the ledger gave: never without a ledger or with
-- a completed result in it, otherwise once where the model's row allows it.
abbrev pub permitted : Settings → Outcome SpeechError (Dict AsrRequest) → String → ℕ
permitted settings (err e) m = 0
permitted settings (ok ledger) m =
    if not (is_some (stored_result ledger)) && is_allowed ledger (models settings) m then 1 else 0

-- How many of the rows of an order allow a call of a model
allowed_times : Dict AsrRequest → List String → String → ℕ
allowed_times ledger [] m = 0
allowed_times ledger (model ∷ order) m =
    one_if (
      str_eq m model
      && is_open (get model ledger) (any (λ later. is_some (get later ledger)) order))
    + allowed_times ledger order m

times-append :
    (m : String) (xs ys : List String) → times_in m (xs ++ ys) ≡ times_in m xs + times_in m ys
times-append m [] ys = omega arith
times-append m (x ∷ xs) ys = ground (arith, times-append m xs ys)

times_of_mentioned : (m : String) (xs : List String) → mentions m xs ≡ true → 1 ≤ times_in m xs
times_of_mentioned m [] h = cc
times_of_mentioned m (x ∷ xs) h = ground (arith, h, times_of_mentioned m xs)

module _ (codec : Codec) (settings : Settings) (w : World) (job : ClaimedJob) (duration : ℕ) where
  completed-times :
      (model m : String) (v : Verdict) (before : Database) (o : Outcome SpeechError Database)
      → times_in m (completed model v before o).calls ≤ one_if (str_eq m model)
  completed-times model m v before (err e) = ground arith
  completed-times model m v before (ok after) = ground arith

  after_call-times :
      (n id : ℕ) (model m : String) (db : Database) (a : Answer)
      → times_in m (after_call w job n model id db a).calls ≤ one_if (str_eq m model)
  after_call-times n id model m db (segments found) = completed-times model m _ _ _
  after_call-times n id model m db (call_raises error) = completed-times model m _ _ _
  after_call-times n id model m db (call_stops stop) = ground arith

  after_heartbeat-times :
      (n id : ℕ) (model m : String) (before : Database) (o : Outcome Error (Bool × Database))
      → times_in m (after_heartbeat w job n model id before o).calls ≤ one_if (str_eq m model)
  after_heartbeat-times n id model m before (err e) = ground arith
  after_heartbeat-times n id model m before (ok (true, db)) = ground arith
  after_heartbeat-times n id model m before (ok (false, db)) =
      after_call-times n id model m db (w.answer model)

  unsent : (model m : String) → times_in m [] ≤ one_if (str_eq m model)
  unsent model m = ground arith

  after_begin-times :
      (n : ℕ) (model m : String) (before : Database) (o : Outcome SpeechError (ℕ × Database))
      → times_in m (after_begin w job n model before o).calls ≤ one_if (str_eq m model)
  after_begin-times n model m before (err (speech AsrFailure.quota_exhausted)) = unsent model m
  after_begin-times n model m before (err e) = unsent model m
  after_begin-times n model m before (ok (id, db)) =
      after_heartbeat-times (n + 2) id model m (w.others (n + 1) db) _

  call_model-times :
      (n : ℕ) (model m : String) (db : Database)
      → times_in m (call_model codec settings w job duration n model db).calls
        ≤ one_if (str_eq m model)
  unfolding call_model
  call_model-times n model m db = after_begin-times n model m (w.others n db) _

  take_turn-times :
      (n : ℕ) (model m : String) (o : Option AsrRequest) (later : Bool) (db : Database)
      → times_in m (take_turn codec settings w job duration n model o later db).calls
        ≤ one_if (str_eq m model && is_open o later)
  take_turn-times n model m none true db = ground arith
  take_turn-times n model m none false db = ground (arith, call_model-times n model m db)
  take_turn-times n model m (some row) later db =
      elim (Bool-cases (str_eq row.outcome "reserved")) [
        | inl reserved ↦ rw reserved (ground (arith, call_model-times n model m db))
        | inr other ↦ rw other (ground arith)
      ]

  -- What follows a turn adds its own calls, and no others.
  then_continue-times :
      (m : String) (calls : List String) (v : Verdict) (after : Database)
      (next : String → Database → Run) (own later : ℕ)
      → times_in m calls ≤ own
      → ((reason : String) (db : Database) → times_in m (next reason db).calls ≤ later)
      → times_in m (then_continue (record { calls = calls; verdict = v; db = after }) next).calls
        ≤ own + later
  then_continue-times m calls (moved_on reason) after next own later h k =
      omega (arith, h, k reason after, times-append m calls (next reason after).calls)
  then_continue-times m calls (returned result) after next own later h k = omega (arith, h)
  then_continue-times m calls (stopped stop) after next own later h k = omega (arith, h)

  over_models-times :
      (ledger : Dict AsrRequest) (n : ℕ) (order : List String) (reason : String) (db : Database)
      (m : String)
      → times_in m (over_models codec settings w job duration ledger n order reason db).calls
        ≤ allowed_times ledger order m
  unfolding over_models allowed_times
  over_models-times ledger n [] reason db m = omega arith
  over_models-times ledger n (model ∷ order) reason db m =
      let later = any (λ later. is_some (get later ledger)) order in
      let t = take_turn codec settings w job duration n model (get model ledger) later db in
      then_continue-times m t.calls t.verdict t.db
        (λ reason' db'. over_models codec settings w job duration ledger (n + 3) order reason' db')
        _ _ (take_turn-times n model m (get model ledger) later db)
        (λ reason' db'. over_models-times ledger (n + 3) order reason' db' m)

once_allowed :
    (ledger : Dict AsrRequest) (a b m : String)
    → a ≢ b
    → allowed_times ledger (a ∷ b ∷ []) m ≤ one_if (is_allowed ledger (a ∷ b ∷ []) m)
unfolding allowed_times
once_allowed ledger a b m different = elim (Bool-cases (str_eq m a)) [
  | inl first ↦ elim (Bool-cases (str_eq m b)) [
    | inl second ↦ absurd (different (sym ((eq_iff m a).0 first) ∙ (eq_iff m b).0 second))
    | inr other ↦ rw (first, other) (ground arith)
  ]
  | inr other ↦ rw other (ground arith)
]

-- A model that is allowed a call has no row, or a reserved one.
allowed-sendable :
    (ledger : Dict AsrRequest) (order : List String) (m : String)
    → 1 ≤ allowed_times ledger order m
    → sendable ledger m ≡ true
unfolding allowed_times
allowed-sendable ledger [] m h = absurd (omega (arith, h))
allowed-sendable ledger (model ∷ order) m h =
    elim (Bool-cases (
      str_eq m model
      && is_open (get model ledger) (any (λ later. is_some (get later ledger)) order))) [
        | inl own ↦
            subst (λ k. sendable ledger k ≡ true) (sym ((eq_iff m model).0 (&&-left _ _ own)))
              (open_row (get model ledger) _ (&&-right (str_eq m model) _ own))
        | inr other ↦ allowed-sendable ledger order m (omega (arith, rw other at h))
      ]
  where
    open_row :
        (o : Option AsrRequest) (later : Bool)
        → is_open o later ≡ true
        → (elim o [ none ↦ true | some row ↦ str_eq row.outcome "reserved" ]) ≡ true
    open_row none later h = refl
    open_row (some row) later h = h

-- The calls that the ledger's rows allow a model, however often the settings name it.
granted : Settings → Outcome SpeechError (Dict AsrRequest) → String → ℕ
granted settings (err e) m = 0
granted settings (ok ledger) m =
    if is_some (stored_result ledger) then 0 else allowed_times ledger (models settings) m

granted-permitted :
    (settings : Settings) (o : Outcome SpeechError (Dict AsrRequest)) (m : String)
    → settings.groq_model ≢ settings.groq_fallback_model
    → granted settings o m ≤ permitted settings o m
unfolding granted
granted-permitted settings (err e) m different = omega arith
granted-permitted settings (ok ledger) m different =
    ground (arith, once_allowed ledger settings.groq_model settings.groq_fallback_model m different)

granted-sendable :
    (settings : Settings) (o : Outcome SpeechError (Dict AsrRequest)) (m : String)
    → 1 ≤ granted settings o m
    → (ledger : Dict AsrRequest) × (o ≡ ok ledger) × (sendable ledger m ≡ true)
unfolding granted
granted-sendable settings (err e) m h = absurd (omega (arith, h))
granted-sendable settings (ok ledger) m h =
    (ledger, refl, allowed-sendable ledger (models settings) m (ground (arith, h)))

module _ (codec : Codec) (settings : Settings) (w : World) (job : ClaimedJob) where
  attempted-times :
      (db : Database) (o : Outcome SpeechError (Dict AsrRequest)) (m : String)
      → times_in m (after_attempts codec settings w job db o).calls ≤ granted settings o m
  unfolding granted
  attempted-times db (err e) m = omega arith
  attempted-times db (ok ledger) m = by_stored (stored_result ledger) w.load
    where
      by_stored :
          (stored : Option (Option Document)) (audio : Outcome AsrFailure ℕ)
          → times_in m (or_stored codec settings w job ledger db stored audio).calls
            ≤ (if is_some stored then 0 else allowed_times ledger (models settings) m)
      by_stored (some result) audio = omega arith
      by_stored none (err f) = omega arith
      by_stored none (ok duration) =
          over_models-times codec settings w job duration ledger 1 (models settings) "" db m

  transcribe-granted :
      (db : Database) (m : String)
      → times_in m (transcribe codec settings w job db).calls
        ≤ granted settings (attempts codec (w.clocks 0) job (w.others 0 db)) m
  unfolding transcribe
  transcribe-granted db m =
      attempted-times (w.others 0 db) (attempts codec (w.clocks 0) job (w.others 0 db)) m

  -- A run sends a model to the provider at most once, counting every call, and never where the
  -- ledger that it read closes the model: not where the ledger could not be read or has a
  -- completed result, and a model with a row only where that is reserved, one without a row only
  -- where no later model has one. Others may do anything between its transactions; the two models
  -- of the settings differ.
  pub transcribe_once :
      (db : Database) (m : String)
      → settings.groq_model ≢ settings.groq_fallback_model
      → times_in m (transcribe codec settings w job db).calls
        ≤ permitted settings (attempts codec (w.clocks 0) job (w.others 0 db)) m
  transcribe_once db m different = omega (
    arith,
    transcribe-granted db m,
    granted-permitted settings (attempts codec (w.clocks 0) job (w.others 0 db)) m different,
  )

  -- What a run sends has no row in the ledger that it read, or a reserved one.
  pub transcribe-calls :
      (db : Database) (m : String)
      → mentions m (transcribe codec settings w job db).calls ≡ true
      → (ledger : Dict AsrRequest) × (attempts codec (w.clocks 0) job (w.others 0 db) ≡ ok ledger)
        × (sendable ledger m ≡ true)
  transcribe-calls db m h =
      granted-sendable settings (attempts codec (w.clocks 0) job (w.others 0 db)) m (
        omega (
          arith,
          times_of_mentioned m (transcribe codec settings w job db).calls h,
          transcribe-granted db m,
        ))
