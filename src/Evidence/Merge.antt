-- ===== src/Evidence/Merge.antt =====
-- `merged_version` of backend/services/evidence/stages.py: the next version of a report from the outcomes of
-- an assessment run. The text of its change summary is an argument.
pub mod Fresh
pub mod Brought
pub mod Kept
pub mod Accepted
use ovrly.Prelude.{
  ℕ, ◌+◌, Bool, true, false, not, ◌&&◌, ◌||◌, Option, none, some, List, [], ◌∷◌, ◌++◌, String,
  str_eq, ◌==◌, if◌then◌else◌, any, select, map, count_where, length, Dict, get, put, is_in,
  is_some, Outcome, ok, err, ◌>>=◌,
}
use ovrly.Json.{Codec}
use ovrly.Evidence.Records.{Evidence, Assessment, Claim, ClaimOutcome, ReportVersion}
use ovrly.Evidence.Citations.{CitationInvalid, validate_citations}
use ovrly.Reports.Versions.{NextVersion}

-- What the change summary tells of a run.
pub record Progress : Type 0 where
  pub deeper : Bool
  pub done : ℕ
  pub total : ℕ
  pub unassessed : Dict ℕ
  pub provisional : Bool

abbrev pub restamp : ℕ → Bool → Assessment → Assessment
restamp version provisional a = record a { version = version; provisional = provisional }

-- The claims that a run has assessed: `scope` of `_assessment`.
abbrev pub scope_with : ClaimOutcome → Option Assessment → List String → List String
scope_with o none scope = scope
scope_with o (some _) scope = o.claim_id ∷ scope

unfoldable pub scope_of : List ClaimOutcome → List String
scope_of [] = []
scope_of (o ∷ outcomes) = scope_with o o.assessment (scope_of outcomes)

-- What the loop over the outcomes appends to the assessments.
abbrev pub append_assessment : ℕ → Bool → Option Assessment → List Assessment → List Assessment
append_assessment version provisional none rest = rest
append_assessment version provisional (some a) rest = restamp version provisional a ∷ rest

unfoldable pub new_assessments : ℕ → Bool → List ClaimOutcome → List Assessment
new_assessments version provisional [] = []
new_assessments version provisional (o ∷ outcomes) =
    append_assessment version provisional o.assessment
      (new_assessments version provisional outcomes)

-- What it appends to the evidence.
abbrev pub append_evidence : ClaimOutcome → Option Assessment → List Evidence → List Evidence
append_evidence o none rest = rest
append_evidence o (some _) rest = o.evidence ++ rest

unfoldable pub new_evidence : List ClaimOutcome → List Evidence
new_evidence [] = []
new_evidence (o ∷ outcomes) = append_evidence o o.assessment (new_evidence outcomes)

-- `outcome.reason or "unknown"`
abbrev pub reason_of : Option String → String
reason_of none = "unknown"
reason_of (some reason) = if str_eq reason "" then "unknown" else reason

abbrev pub or_zero : Option ℕ → ℕ
or_zero none = 0
or_zero (some n) = n

abbrev pub count_reason : ClaimOutcome → Option Assessment → Dict ℕ → Dict ℕ
count_reason o none counts =
    put (reason_of o.reason) (or_zero (get (reason_of o.reason) counts) + 1) counts
count_reason o (some _) counts = counts

unfoldable pub unassessed_reasons : List ClaimOutcome → Dict ℕ → Dict ℕ
unassessed_reasons [] counts = counts
unassessed_reasons (o ∷ outcomes) counts =
    unassessed_reasons outcomes (count_reason o o.assessment counts)

-- A claim that still waits for a run.
abbrev pub is_waiting : Bool → List String → List String → Claim → Bool
is_waiting provisional assessed attempted c =
    not (is_some c.superseded_by_occurrence_id)
    && (not (is_in c.id assessed) && (not (is_in c.id attempted) && provisional))

abbrev pub outside : List String → String → Bool
outside scope claim_id = not (is_in claim_id scope)

abbrev pub kept_assessments : ReportVersion → List String → List Assessment
kept_assessments base scope = select (λ (a : Assessment). outside scope a.claim_id) base.assessments

abbrev pub kept_evidence : ReportVersion → List String → List Evidence
kept_evidence base scope = select (λ (e : Evidence). outside scope e.claim_id) base.evidence

abbrev pub merged_assessments :
    ReportVersion → List ClaimOutcome → List String → Bool → ℕ → List Assessment
merged_assessments base outcomes scope capture_open version =
    map (restamp version capture_open) (kept_assessments base scope)
    ++ new_assessments version capture_open outcomes

abbrev pub stays_provisional : ReportVersion → List ClaimOutcome → Bool → List Assessment → Bool
stays_provisional base outcomes capture_open assessments =
    capture_open
    || any
        (is_waiting base.provisional (map (λ (a : Assessment). a.claim_id) assessments)
          (map (λ (o : ClaimOutcome). o.claim_id) outcomes))
        base.claims

-- The report that `build` makes, before its citations are checked.
abbrev pub merged_report :
    Codec
    → (Progress → String)
    → ReportVersion
    → List ClaimOutcome
    → List String
    → (capture_open deeper : Bool) → NextVersion
    → ReportVersion
merged_report codec describe base outcomes scope capture_open deeper n =
    let assessments = merged_assessments base outcomes scope capture_open n.version in
    let provisional = stays_provisional base outcomes capture_open assessments in
    record base {
      id = codec.uuid_text n.id;
      version = n.version;
      created_at = n.created_at;
      provisional = provisional;
      change_summary = describe (record {
        deeper = deeper;
        done = count_where (λ (o : ClaimOutcome). is_some o.assessment) outcomes;
        total = length outcomes;
        unassessed = unassessed_reasons outcomes [];
        provisional = provisional;
      });
      supersedes = n.supersedes;
      evidence = kept_evidence base scope ++ new_evidence outcomes;
      assessments = assessments;
    }

-- `merged_version`
unfoldable pub merged_version :
    Codec
    → (Progress → String)
    → ReportVersion
    → List ClaimOutcome
    → List String
    → (capture_open deeper : Bool) → NextVersion
    → Outcome CitationInvalid ReportVersion
merged_version codec describe base outcomes scope capture_open deeper n =
    let report = merged_report codec describe base outcomes scope capture_open deeper n in
    (validate_citations report) >>= λ _. ok report
