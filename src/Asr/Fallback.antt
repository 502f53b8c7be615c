-- ===== src/Asr/Fallback.antt =====
-- backend/services/asr/fallback.py: the primary speech model, then the fallback once. The transactions of a run stand one after another, and
-- other processes may change the tables between any two.
use ovrly.Prelude.{
  ℕ, ◌+◌, Bool, true, false, not, Option, none, some, List, [], ◌∷◌, ◌++◌, String, str_eq,
  if◌then◌else◌, any, Dict, get, Outcome, ok, err, is_some,
}
use ovrly.Json.{Document, Codec}
use ovrly.Jobs.Tables.{AsrRequest, Database, Clocks, ClaimedJob, Error}
use ovrly.Jobs.Queue.{heartbeat}
use ovrly.Asr.Failures.{
  AsrFailure, SpeechError, speech, queue, CallError, call_error_name, failure_by_reason,
  failure_reason,
}
use ovrly.Asr.Usage.{Settings}
use ovrly.Asr.Reservations.{attempts, begin, complete}

-- What ends a run that returns no result: an error of the ledger or the audio, a requested
-- cancellation, or a `KeyError` of `FAILURE_BY_REASON[reasons[-1]]`.
pub data Stop : Type 0 where
  speech_error : SpeechError → Stop
  cancellation_requested key_error : Stop

-- What the provider call and the heartbeats beside it come to.
pub data Answer : Type 0 where
  segments : Document → Answer
  call_raises : CallError → Answer
  call_stops : Stop → Answer

-- Everything outside the run: the clocks of its n-th transaction, what others have done to the tables
-- before it, new ids, the speech clock, the audio's seconds, and the provider. Checkpoints do
-- nothing outside tests.
pub record World : Type 0 where
  pub clocks : ℕ → Clocks
  pub others : ℕ → Database → Database
  pub new_id : ℕ → ℕ
  pub timestamp : ℕ → ℕ
  pub load : Outcome AsrFailure ℕ
  pub answer : String → Answer
  pub build : String → Document → Document
  pub lease_time : ℕ

pub data Verdict : Type 0 where
  moved_on : String → Verdict
  returned : Document → Verdict
  stopped : Stop → Verdict

-- One model's turn: the models that it sent to the provider, one for each call, the verdict, and the tables.
pub record Turn : Type 0 where
  pub calls : List String
  pub verdict : Verdict
  pub db : Database

abbrev pub completed : String → Verdict → Database → Outcome SpeechError Database → Turn
completed model verdict before (err e) = record {
  calls = model ∷ [];
  verdict = stopped (speech_error e);
  db = before;
}
completed model verdict before (ok after) = record {
  calls = model ∷ [];
  verdict = verdict;
  db = after;
}

-- After the reservation and the heartbeat: the call and its record.
abbrev pub after_call : World → ClaimedJob → ℕ → String → ℕ → Database → Answer → Turn
after_call w job n model id db (segments found) =
    let result = w.build model found in
    completed model (returned result) (w.others n db)
      (complete (w.clocks n) job id (some result) none (w.others n db))
after_call w job n model id db (call_raises error) =
    completed model (moved_on (failure_reason (call_error_name error))) (w.others n db)
      (complete (w.clocks n) job id none (some error) (w.others n db))
after_call w job n model id db (call_stops stop) = record {
  calls = model ∷ [];
  verdict = stopped stop;
  db = db;
}

abbrev pub after_heartbeat :
    World → ClaimedJob → ℕ → String → ℕ → Database → Outcome Error (Bool × Database) → Turn
after_heartbeat w job n model id before (err e) = record {
  calls = [];
  verdict = stopped (speech_error (queue e));
  db = before;
}
after_heartbeat w job n model id before (ok (true, db)) = record {
  calls = [];
  verdict = stopped cancellation_requested;
  db = db;
}
after_heartbeat w job n model id before (ok (false, db)) =
    after_call w job n model id db (w.answer model)

abbrev pub after_begin :
    World → ClaimedJob → ℕ → String → Database → Outcome SpeechError (ℕ × Database) → Turn
after_begin w job n model before (err (speech AsrFailure.quota_exhausted)) = record {
  calls = [];
  verdict = moved_on "quota_exhausted";
  db = before;
}
after_begin w job n model before (err e) = record {
  calls = [];
  verdict = stopped (speech_error e);
  db = before;
}
after_begin w job n model before (ok (id, db)) =
    after_heartbeat w job (n + 2) model id (w.others (n + 1) db)
      (heartbeat (w.clocks (n + 1)) job.lease w.lease_time (w.others (n + 1) db))

unfoldable pub call_model : Codec → Settings → World → ClaimedJob → ℕ → ℕ → String → Database → Turn
call_model codec settings w job duration n model db = after_begin w job n model (w.others n db) (
    begin codec settings (w.clocks n) job model duration (w.new_id n) (w.timestamp n)
      (w.others n db))

-- The turn of a model with its ledger row: `later` says whether a model after it has a row.
abbrev pub take_turn :
    Codec
    → Settings
    → World
    → ClaimedJob
    → ℕ
    → ℕ
    → String
    → Option AsrRequest
    → Bool
    → Database
    → Turn
take_turn codec settings w job duration n model none later db =
    if later
    then record { calls = []; verdict = moved_on "quota_exhausted"; db = db }
    else call_model codec settings w job duration n model db
take_turn codec settings w job duration n model (some row) later db =
    if not (str_eq row.outcome "reserved")
    then record { calls = []; verdict = moved_on (failure_reason row.outcome); db = db }
    else call_model codec settings w job duration n model db

-- The models that were sent to the provider, one for each call in their order, the result, and the tables.
pub record Run : Type 0 where
  pub calls : List String
  pub result : Outcome Stop (Option Document)
  pub final : Database

abbrev pub then_continue : Turn → (String → Database → Run) → Run
then_continue t next = elim t.verdict [
  | moved_on reason ↦ let rest = next reason t.db in record rest { calls = t.calls ++ rest.calls }
  | returned result ↦ record { calls = t.calls; result = ok (some result); final = t.db }
  | stopped stop ↦ record { calls = t.calls; result = err stop; final = t.db }
]

abbrev last_failure : Option AsrFailure → Stop
last_failure none = key_error
last_failure (some f) = speech_error (speech f)

-- The loop of `transcribe`, with the last reason so far; each turn has three transactions.
unfoldable pub over_models :
    Codec
    → Settings
    → World
    → ClaimedJob
    → ℕ
    → Dict AsrRequest
    → ℕ
    → List String
    → String
    → Database
    → Run
over_models codec settings w job duration ledger n [] reason db = record {
  calls = [];
  result = err (last_failure (get reason failure_by_reason));
  final = db;
}
over_models codec settings w job duration ledger n (model ∷ order) reason db =
    then_continue
      (take_turn codec settings w job duration n model (get model ledger)
        (any (λ later. is_some (get later ledger)) order) db)
      (λ reason' db'. over_models codec settings w job duration ledger (n + 3) order reason' db')

abbrev pub models : Settings → List String
models settings = settings.groq_model ∷ settings.groq_fallback_model ∷ []

-- `for recorded in ledger.values(): if recorded.outcome == "completed"`
abbrev pub stored_result : Dict AsrRequest → Option (Option Document)
stored_result [] = none
stored_result (e ∷ ledger) =
    if str_eq e.1.outcome "completed" then some e.1.result else stored_result ledger

-- A stored result is returned as it stands, a null one too; otherwise `load` gives the audio.
abbrev pub or_stored :
    Codec
    → Settings
    → World
    → ClaimedJob
    → Dict AsrRequest
    → Database
    → Option (Option Document)
    → Outcome AsrFailure ℕ
    → Run
or_stored codec settings w job ledger db (some result) audio = record {
  calls = [];
  result = ok result;
  final = db;
}
or_stored codec settings w job ledger db none (err f) = record {
  calls = [];
  result = err (speech_error (speech f));
  final = db;
}
or_stored codec settings w job ledger db none (ok duration) =
    over_models codec settings w job duration ledger 1 (models settings) "" db

abbrev pub after_attempts :
    Codec → Settings → World → ClaimedJob → Database → Outcome SpeechError (Dict AsrRequest) → Run
after_attempts codec settings w job db (err e) = record {
  calls = [];
  result = err (speech_error e);
  final = db;
}
after_attempts codec settings w job db (ok ledger) =
    or_stored codec settings w job ledger db (stored_result ledger) w.load

-- `transcribe`
unfoldable pub transcribe : Codec → Settings → World → ClaimedJob → Database → Run
transcribe codec settings w job db =
    after_attempts codec settings w job (w.others 0 db)
      (attempts codec (w.clocks 0) job (w.others 0 db))
