-- ===== src/Evidence/Records.antt =====
-- Reports, claims, evidence and assessments, as backend/services/api/schemas.py and
-- backend/services/evidence/ have them. The closed vocabularies that no test here reads are texts.
use ovrly.Prelude.{ℕ, Bool, Option, List, String, ◌==◌}
use ovrly.Json.{Document}

pub data Relation : Type 0 where
  support challenge qualify mixed insufficient : Relation

pub data OverallAssessment : Type 0 where
  supported challenged qualified mixed_evidence insufficient_evidence : OverallAssessment

abbrev pub relation_code : Relation → ℕ
relation_code support = 0
relation_code challenge = 1
relation_code qualify = 2
relation_code mixed = 3
relation_code insufficient = 4

unfoldable pub relation_eq : Relation → Relation → Bool
relation_eq a b = relation_code a == relation_code b

pub record EvidenceSource : Type 0 where
  pub id : String
  pub title : String
  pub publisher : String
  pub url : Option String
  pub published_at : Option ℕ

pub record Evidence : Type 0 where
  pub id : String
  pub claim_id : String
  pub source : EvidenceSource
  pub source_type : String
  pub inspection_level : String
  pub retrieval_relevance : String
  pub retraction_status : String
  pub excerpt : Option String
  pub retrieved_at : ℕ

pub record EvidenceRelation : Type 0 where
  pub evidence_id : String
  pub relation : Relation
  pub note : Option String

pub record Assessment : Type 0 where
  pub id : String
  pub claim_id : String
  pub version : ℕ
  pub relations : List EvidenceRelation
  pub overall : OverallAssessment
  pub provisional : Bool
  pub summary : String

-- A claim; the fields that the code here copies and does not read are one document.
pub record Claim : Type 0 where
  pub id : String
  pub occurrence_id : String
  pub proposition : String
  pub superseded_by_occurrence_id : Option String
  pub details : Document

pub record ReportVersion : Type 0 where
  pub id : String
  pub investigation_id : ℕ
  pub version : ℕ
  pub created_at : ℕ
  pub provisional : Bool
  pub change_summary : String
  pub supersedes : Option String
  pub claims : List Claim
  pub evidence : List Evidence
  pub assessments : List Assessment
  pub fixture : Bool
  pub processing_attempts : Option Document
  pub reconciliation : Option Document

-- `Passage` of backend/services/evidence/retrieval.py
pub record Passage : Type 0 where
  pub passage_id : String
  pub evidence_id : String
  pub origin : String
  pub source : EvidenceSource
  pub source_type : String
  pub inspection_level : String
  pub retrieval_relevance : String
  pub retraction_status : String
  pub excerpt : Option String
  pub retrieved_at : ℕ

-- `ClaimRetrieval`; `retrieved` is its status.
pub record ClaimRetrieval : Type 0 where
  pub claim_id : String
  pub retrieved : Bool
  pub reason : Option String
  pub llm_calls_used : ℕ
  pub failed_queries : ℕ
  pub unknown_sources : List String
  pub federated_unavailable : Bool
  pub passages : List Passage

-- `ClaimOutcome` of backend/services/evidence/assessment.py
pub record ClaimOutcome : Type 0 where
  pub claim_id : String
  pub assessment : Option Assessment
  pub evidence : List Evidence
  pub reason : Option String
