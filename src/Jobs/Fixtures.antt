-- ===== src/Jobs/Fixtures.antt =====
-- Tables, clocks and leases for concrete runs of the backend's services.
use ovrly.Prelude.{ℕ, Bool, false, none, some, List, [], ◌∷◌, String, str_eq, if◌then◌else◌}
use ovrly.Json.{empty, field, text, Codec}
use ovrly.Jobs.States.{JobState}
use ovrly.Jobs.Tables.{Job, StageKey, Database, Clocks, Lease, ClaimedJob}
use ovrly.Jobs.Queue.{claimed, leased_to}

abbrev pub at : ℕ → Clocks
at t = record { now = t; clock_timestamp = t; wall = t }

abbrev pub codec : Codec
codec = record {
  uuid = λ s. if str_eq s "7" then some 7 else none;
  str = λ v. "None";
  int = λ v. none;
  uuid_text = λ n. "7";
}

abbrev pub intake : StageKey
intake = record { version = 1; stage = "intake"; input_hash = "a1" }

abbrev pub queued_row : Job
queued_row = record {
  id = 1;
  owner_id = some 9;
  key = intake;
  state = JobState.queued;
  cancel_requested = false;
  fencing_token = 0;
  generation = 0;
  attempts = 0;
  lease_owner = none;
  lease_expires_at = none;
  available_at = 5;
  payload = field "investigation_id" (text "7") empty;
  stage_data = empty;
  failure = none;
  retry_class = none;
  retry_counts = [];
  provider_request_id = none;
  created_at = 5;
  updated_at = 5;
}

abbrev pub tables : List Job → Database
tables rows = record {
  jobs = rows;
  job_results = [];
  asr_requests = [];
  upload_text = [];
  investigations = [];
  media_analysis = [];
}

abbrev pub stages : List String
stages = "intake" ∷ []

abbrev pub unlocked : ℕ → Bool
unlocked _ = false

abbrev pub one_queued : Database
one_queued = tables (queued_row ∷ [])

abbrev pub first_claim : ClaimedJob
first_claim = claimed (at 100) "a" 50 queued_row

abbrev pub first_lease : Lease
first_lease = first_claim.lease

abbrev pub one_leased : Database
one_leased = tables (leased_to (at 100) "a" 50 queued_row ∷ [])

abbrev pub running_row : Job
running_row = record (leased_to (at 100) "a" 50 queued_row) { state = JobState.running }
