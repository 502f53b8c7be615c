-- ===== src/Evidence/Citations.antt =====
-- `validate_citations` of backend/services/evidence/assessment.py, and what a version that passes it
-- looks like.
use ovrly.Prelude.{
  ℕ, Bool, true, false, not, ◌&&◌, ◌||◌, Option, none, some, List, [], ◌∷◌, String, str_eq, ◌==◌,
  is_in, add_to_set, length, map, Dict, get, put, Outcome, ok, err, ◌>>=◌,
}
use ovrly.Evidence.Records.{EvidenceRelation, Evidence, Assessment, Claim, ReportVersion}
use ovrly.Evidence.Assessor.{abstains}

-- The messages of `CitationInvalid`.
pub data CitationInvalid : Type 0 where
  duplicate_evidence evidence_outside unknown_or_repeated_claim version_differs : CitationInvalid
  missing_or_foreign must_abstain : CitationInvalid

abbrev pub Checked : Type 0
Checked = Outcome CitationInvalid (Unit {0})

abbrev pub guard : Bool → CitationInvalid → Checked
guard true e = ok tt
guard false e = err e

abbrev pub claim_ids : List Claim → List String
claim_ids = map (λ (c : Claim). c.id)

-- `{item.id: item for item in report.evidence}`
unfoldable pub by_id : List Evidence → Dict Evidence → Dict Evidence
by_id [] found = found
by_id (e ∷ evidence) found = by_id evidence (put e.id e found)

unfoldable pub check_evidence : List String → List Evidence → Checked
check_evidence claims [] = ok tt
check_evidence claims (e ∷ evidence) = do
  _ ← guard (is_in e.claim_id claims) evidence_outside
  check_evidence claims evidence

abbrev pub is_of_claim : String → Option Evidence → Bool
is_of_claim claim_id none = false
is_of_claim claim_id (some cited) = str_eq cited.claim_id claim_id

unfoldable pub check_relations : Dict Evidence → String → List EvidenceRelation → Checked
check_relations evidence claim_id [] = ok tt
check_relations evidence claim_id (r ∷ relations) = do
  _ ← guard (is_of_claim claim_id (get r.evidence_id evidence)) missing_or_foreign
  check_relations evidence claim_id relations

abbrev pub has_relations : List EvidenceRelation → Bool
has_relations [] = false
has_relations (_ ∷ _) = true

-- The loop over the assessments, with the claims that are assessed so far.
unfoldable pub check_assessments :
    List String → Dict Evidence → ℕ → List String → List Assessment → Checked
check_assessments claims evidence version assessed [] = ok tt
check_assessments claims evidence version assessed (a ∷ assessments) = do
  _ ← guard (is_in a.claim_id claims && not (is_in a.claim_id assessed)) unknown_or_repeated_claim
  _ ← guard (a.version == version) version_differs
  _ ← check_relations evidence a.claim_id a.relations
  _ ← guard (has_relations a.relations || abstains a.overall) must_abstain
  check_assessments claims evidence version (add_to_set a.claim_id assessed) assessments

-- `validate_citations`
unfoldable pub validate_citations : ReportVersion → Checked
validate_citations report = do
  let evidence = by_id report.evidence []
  _ ← guard (length evidence == length report.evidence) duplicate_evidence
  _ ← check_evidence (claim_ids report.claims) report.evidence
  check_assessments (claim_ids report.claims) evidence report.version [] report.assessments
