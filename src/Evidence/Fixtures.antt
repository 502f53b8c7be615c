-- ===== src/Evidence/Fixtures.antt =====
-- Small reports, retrievals and routers for runs of the evidence stages (backend/services/evidence/).
use ovrly.Prelude.{
  true, false, Option, none, some, [], ◌∷◌, String, str_eq, if◌then◌else◌, Outcome, ok, err,
}
use ovrly.Json.{empty}
use ovrly.Evidence.Records.{
  support, supported, EvidenceSource, Assessment, Claim, ReportVersion, Passage, ClaimRetrieval,
  ClaimOutcome,
}
use ovrly.Evidence.Replies.{supports}
use ovrly.Evidence.Assessor.{Wording, Router, to_evidence}
use ovrly.Evidence.Stage.{StagePayload, ReportTables, StageWorld, StageOutcome, StageError}
use ovrly.Reports.Versions.{VersionRow}

abbrev pub paper : EvidenceSource
paper = record { id = "s1"; title = "A study"; publisher = "J"; url = none; published_at = none }

abbrev pub passage : String → Passage
passage status = record {
  passage_id = "p1";
  evidence_id = "e1";
  origin = "doi:1";
  source = paper;
  source_type = "peer_reviewed";
  inspection_level = "full_text";
  retrieval_relevance = "high";
  retraction_status = status;
  excerpt = none;
  retrieved_at = 5;
}

abbrev pub retrieval : ClaimRetrieval
retrieval = record {
  claim_id = "c1";
  retrieved = true;
  reason = none;
  llm_calls_used = 1;
  failed_queries = 0;
  unknown_sources = [];
  federated_unavailable = false;
  passages = passage "none" ∷ [];
}

abbrev pub wording : Wording
wording = record {
  note = λ s. s;
  describe = λ _. "problem";
  relation_system = "judge";
  relation_prompt = λ claim _. claim;
  render = λ _. "summary";
  assessment_id = λ claim _. claim;
}

-- A router that supports the one passage.
abbrev pub agreeing : Router
agreeing = record {
  send = λ _ _. ok (record {
    status = 200;
    retry_after = none;
    body = some (record { content = "{}"; decision_id = none });
  });
  read = λ _. ok (record { passage_id = "p1"; relation = supports; rationale = "it says so" } ∷ []);
}

abbrev pub outcome : ClaimOutcome
outcome = record {
  claim_id = "c1";
  assessment = some (record {
    id = "c1";
    claim_id = "c1";
    version = 2;
    relations = record { evidence_id = "e1"; relation = support; note = some "it says so" } ∷ [];
    overall = supported;
    provisional = false;
    summary = "summary";
  });
  evidence =
      record {
        id = "e1";
        claim_id = "c1";
        source = paper;
        source_type = "peer_reviewed";
        inspection_level = "full_text";
        retrieval_relevance = "high";
        retraction_status = "none";
        excerpt = none;
        retrieved_at = 5;
      }
      ∷ [];
  reason = none;
}

abbrev pub assessed : Assessment
assessed = record {
  id = "c1";
  claim_id = "c1";
  version = 2;
  relations = record { evidence_id = "e1"; relation = support; note = some "it says so" } ∷ [];
  overall = supported;
  provisional = false;
  summary = "summary";
}

abbrev pub claim : String → Claim
claim id = record {
  id = id;
  occurrence_id = id;
  proposition = "it works";
  superseded_by_occurrence_id = none;
  details = empty;
}

-- A first version with two claims, of which the second is assessed.
abbrev pub first_report : ReportVersion
first_report = record {
  id = "7";
  investigation_id = 4;
  version = 1;
  created_at = 10;
  provisional = true;
  change_summary = "first";
  supersedes = none;
  claims = claim "c1" ∷ claim "c2" ∷ [];
  evidence = record (to_evidence "c2" (passage "none")) { id = "e2" } ∷ [];
  assessments =
      record assessed {
        claim_id = "c2";
        version = 1;
        relations = record { evidence_id = "e2"; relation = support; note = some "so" } ∷ [];
      }
      ∷ [];
  fixture = false;
  processing_attempts = none;
  reconciliation = none;
}

abbrev pub first_row : VersionRow
first_row = record {
  id = 1;
  investigation_id = 4;
  owner_id = 9;
  version = 1;
  change_summary = "first";
  fixture = false;
  payload = first_report;
  created_at = 10;
}

abbrev pub report_tables : ReportTables
report_tables = record {
  investigations = record { id = 4; owner_id = 9; source_kind = "upload" } ∷ [];
  report_versions = first_row ∷ [];
  reanalysis_requests = [];
  capture_open = λ _. false;
}

abbrev pub payload : StagePayload
payload = record {
  investigation_id = 4;
  owner_id = 9;
  base_version = 1;
  claim_ids = none;
  deeper = false;
  reanalysis_request_id = none;
  retrieval_job_id = some 3;
}

abbrev pub stage_world : StageWorld
stage_world = record {
  wording = wording;
  describe = λ _. "second";
  routers = λ _. agreeing;
  others = λ _ t. t;
  id = 2;
  now = 20;
  artifact = some (record {
    investigation_id = 4;
    base_version = 1;
    claims = retrieval ∷ [];
    superseded = false;
  });
}

abbrev pub stage_outcome : Outcome StageError (StageOutcome × ReportTables) → Option StageOutcome
stage_outcome (ok (o, _)) = some o
stage_outcome (err _) = none

abbrev pub owner : String → String
owner id = if str_eq id "e1" then "c1" else "c2"
