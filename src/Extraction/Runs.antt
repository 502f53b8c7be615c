-- ===== src/Extraction/Runs.antt =====
-- The stored run of an incremental extraction: its policy, its observations and its windows
-- (backend/services/pipeline/incremental.py and extraction.py), and `record_request`.
use Prim.Native.String as String
use ovrly.Prelude.{
  ℕ, ◌+◌, ◌-◌, ◌≤◌, ◌<◌, Bool, true, false, ◌||◌, Option, List, String, ltb, if◌then◌else◌, Outcome,
  ok, err,
}
use ovrly.Json.{Document}

pub record Policy : Type 0 where
  pub max_requests : ℕ
  pub max_tokens : ℕ
  pub reconciliation_requests : ℕ
  pub reconciliation_tokens : ℕ
  pub batch_observations : ℕ
  pub overlap_observations : ℕ
  pub max_observations : ℕ

-- The bounds of the fields and `reserves`.
pub record IsPolicy (p : Policy) : Type 0 where
  pub some_requests : p.reconciliation_requests < p.max_requests
  pub some_tokens : p.reconciliation_tokens < p.max_tokens
  pub some_batch : 1 ≤ p.batch_observations
  pub batch_bound : p.batch_observations ≤ 64
  pub some_overlap : 1 ≤ p.overlap_observations
  pub overlap_bound : p.overlap_observations ≤ 32

pub data Role : Type 0 where
  target context : Role

pub record Observation : Type 0 where
  pub id : String
  pub role : Role
  pub text : String
  pub modality : String
  pub timebase : String
  pub start_ms : ℕ
  pub end_ms : ℕ
  pub speaker_id : Option String

-- An entry of `data["observations"]`.
pub record Item : Type 0 where
  pub source : Observation
  pub job_id : Option String
  pub window_ids : List String
  pub reason : Option String

pub record Unadmitted : Type 0 where
  pub id : String
  pub start_ms : ℕ
  pub end_ms : ℕ
  pub timebase : String
  pub reason : String

-- `data` of `extraction_runs`
pub record Run : Type 0 where
  pub policy : Policy
  pub hosted_processing_approved : Bool
  pub groq_processing_approved : Bool
  pub producer : Option Document
  pub closed : Bool
  pub observations : List Item
  pub windows : List String
  pub unadmitted : List Unadmitted
  pub requests_used : ℕ
  pub tokens_reserved : ℕ

abbrev pub size : Observation → ℕ
size o = String.count o.text

abbrev pub is_target : Observation → Bool
is_target o = elim o.role [ target ↦ true | context ↦ false ]

abbrev pub framing_tokens : ℕ
framing_tokens = 256

-- `ExtractionBudgetExceeded`
pub data BudgetError : Type 0 where
  budget_exceeded : BudgetError

abbrev pub reserve : Bool → ℕ → ℕ
reserve reconciliation n = if reconciliation then 0 else n

abbrev pub request_tokens : ℕ → ℕ → ℕ
request_tokens input_bytes output_tokens = input_bytes + output_tokens + framing_tokens

-- The condition of `record_request`; `max - reserve` is not negative in a policy.
abbrev pub is_exhausted : Run → ℕ → Bool → Bool
is_exhausted run tokens reconciliation =
    ltb (run.policy.max_requests - reserve reconciliation run.policy.reconciliation_requests)
      (run.requests_used + 1)
    || ltb (run.policy.max_tokens - reserve reconciliation run.policy.reconciliation_tokens)
        (run.tokens_reserved + tokens)

abbrev pub spend : Run → ℕ → Run
spend run tokens = record run {
  requests_used = run.requests_used + 1;
  tokens_reserved = run.tokens_reserved + tokens;
}

unfoldable pub record_request :
    Run → (input_bytes output_tokens : ℕ) → Bool → Outcome BudgetError Run
record_request run input_bytes output_tokens reconciliation =
    let tokens = request_tokens input_bytes output_tokens in
    if is_exhausted run tokens reconciliation then err budget_exceeded else ok (spend run tokens)
