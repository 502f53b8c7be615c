-- ===== src/Evidence/Stage.antt =====
-- `_assessment` of backend/services/evidence/stages.py: the assessment of a version's claims, published as its
-- next version. Other processes may change the tables before each of its transactions.
pub mod Outcomes
pub mod Builders
pub mod Published
use ovrly.Prelude.{
  ℕ, suc, ◌+◌, Bool, true, false, not, ◌&&◌, ◌||◌, Option, none, some, List, [], ◌∷◌, String,
  str_eq, ◌==◌, if◌then◌else◌, any, map, count_where, update_where, Dict, get, put, is_some,
  Outcome, ok, err, ◌>>=◌,
}
use ovrly.Json.{Codec}
use ovrly.Jobs.Tables.{Investigation}
use ovrly.Evidence.Records.{Claim, ClaimRetrieval, ClaimOutcome, ReportVersion}
use ovrly.Evidence.Assessor.{Wording, Router, AssessError, assess}
use ovrly.Evidence.Citations.{CitationInvalid}
use ovrly.Evidence.Merge.{Progress, scope_of, merged_version}
use ovrly.Reports.Versions.{
  VersionRow, NextVersion, PublishError, investigation_missing, wrong_identity, build_error, latest,
  publish_report_version,
}

pub record StagePayload : Type 0 where
  pub investigation_id : ℕ
  pub owner_id : ℕ
  pub base_version : ℕ
  pub claim_ids : Option (List String)
  pub deeper : Bool
  pub reanalysis_request_id : Option ℕ
  pub retrieval_job_id : Option ℕ

pub record RetrievalArtifact : Type 0 where
  pub investigation_id : ℕ
  pub base_version : ℕ
  pub claims : List ClaimRetrieval
  pub superseded : Bool

pub record ReanalysisRequest : Type 0 where
  pub id : ℕ
  pub result_version : Option ℕ

-- The tables that the stage reads and writes; a capture session is open or not.
pub record ReportTables : Type 0 where
  pub investigations : List Investigation
  pub report_versions : List VersionRow
  pub reanalysis_requests : List ReanalysisRequest
  pub capture_open : ℕ → Bool

-- What is outside a run: the router for each claim, the texts, what others do before the n-th transaction, the
-- id and the time of the new version, and the retrieval's result, where it is there to be read.
pub record StageWorld : Type 0 where
  pub wording : Wording
  pub describe : Progress → String
  pub routers : ℕ → Router
  pub others : ℕ → ReportTables → ReportTables
  pub id : ℕ
  pub now : ℕ
  pub artifact : Option RetrievalArtifact

pub data StageOutcome : Type 0 where
  retrieval_unavailable superseded investigation_gone : StageOutcome
  published : (version assessed : ℕ) → StageOutcome

-- What a run raises: an error of the assessor, `NonRetriableInput` for a refused version, and the `LookupError` or
-- `ValueError` of the publication.
pub data StageError : Type 0 where
  assessor : AssessError → StageError
  citations_refused not_found bad_identity : StageError

-- `{claim.id: claim.proposition for claim in base.claims}`
unfoldable pub propositions : List Claim → Dict String → Dict String
propositions [] found = found
propositions (c ∷ claims) found = propositions claims (put c.id c.proposition found)

abbrev pub of_assess : {A : Type 0} → Outcome AssessError A → Outcome StageError A
of_assess (err e) = err (assessor e)
of_assess (ok a) = ok a

abbrev pub assess_known :
    StageWorld
    → ℕ
    → (max_llm_calls version : ℕ) → Bool
    → ClaimRetrieval
    → Option String
    → Outcome StageError (List ClaimOutcome)
    → Outcome StageError (List ClaimOutcome)
assess_known w n max_llm_calls version provisional r none rest = rest
assess_known w n max_llm_calls version provisional r (some proposition) rest = do
  outcome ←
      of_assess (assess w.wording (w.routers n) max_llm_calls proposition r version provisional)
  outcomes ← rest
  ok (outcome ∷ outcomes)

-- The loop over the retrieved claims; the n-th one has the n-th router.
unfoldable pub assess_each :
    StageWorld
    → Dict String
    → ℕ
    → (max_llm_calls version : ℕ) → Bool
    → List ClaimRetrieval
    → Outcome StageError (List ClaimOutcome)
assess_each w known n max_llm_calls version provisional [] = ok []
assess_each w known n max_llm_calls version provisional (r ∷ rs) =
    assess_known w n max_llm_calls version provisional r (get r.claim_id known)
      (assess_each w known (suc n) max_llm_calls version provisional rs)

-- `_owned`
abbrev pub is_owned : StagePayload → ReportTables → Bool
is_owned p t =
    any (λ (i : Investigation). i.id == p.investigation_id && i.owner_id == p.owner_id)
      t.investigations

-- `report_from_row`
abbrev pub report_from_row : VersionRow → ReportVersion
report_from_row r = record r.payload { fixture = r.fixture }

abbrev pub of_publish :
    {A : Type 0} → Outcome (PublishError CitationInvalid) A → Outcome StageError A
of_publish (err investigation_missing) = err not_found
of_publish (err wrong_identity) = err bad_identity
of_publish (err (build_error _)) = err citations_refused
of_publish (ok a) = ok a

abbrev pub set_result : Option ℕ → ℕ → List ReanalysisRequest → List ReanalysisRequest
set_result none version requests = requests
set_result (some id) version requests =
    update_where (λ (r : ReanalysisRequest). r.id == id)
      (λ r. record r { result_version = some version }) requests

abbrev pub assessed_count : List ClaimOutcome → ℕ
assessed_count = count_where (λ (o : ClaimOutcome). is_some o.assessment)

abbrev pub publish_current :
    Codec
    → StageWorld
    → StagePayload
    → ReportVersion
    → List ClaimOutcome
    → Bool
    → ReportTables
    → Option VersionRow
    → Outcome StageError (StageOutcome × ReportTables)
publish_current codec w p base outcomes capture_open t none = ok (superseded, t)
publish_current codec w p base outcomes capture_open t (some current) =
    if current.version == p.base_version
    then (do
      (report, rows) ← of_publish (
          publish_report_version codec w.id w.now p.investigation_id current.fixture
            (merged_version codec w.describe base outcomes (scope_of outcomes) capture_open
              p.deeper)
            t.investigations t.report_versions)
      ok (
        published report.version (assessed_count outcomes),
        record t {
          report_versions = rows;
          reanalysis_requests =
              set_result p.reanalysis_request_id report.version t.reanalysis_requests;
        },
      ))
    else ok (superseded, t)

-- The last transaction of the run.
unfoldable pub publish_outcomes :
    Codec
    → StageWorld
    → StagePayload
    → ReportVersion
    → List ClaimOutcome
    → Bool
    → ReportTables
    → Outcome StageError (StageOutcome × ReportTables)
publish_outcomes codec w p base outcomes capture_open t =
    if is_owned p t
    then publish_current codec w p base outcomes capture_open t
        (latest p.investigation_id t.report_versions)
    else ok (investigation_gone, t)

-- The claims are assessed, and then others may change the tables before the last transaction.
abbrev pub assess_base :
    Codec
    → StageWorld
    → StagePayload
    → (max_llm_calls : ℕ) → List ClaimRetrieval
    → ReportTables
    → Option VersionRow
    → Outcome StageError (StageOutcome × ReportTables)
assess_base codec w p max_llm_calls claims t none = ok (superseded, t)
assess_base codec w p max_llm_calls claims t (some row) =
    if row.version == p.base_version
    then (do
      let base = report_from_row row
      let capture_open = t.capture_open p.investigation_id
      outcomes ←
          assess_each w (propositions base.claims []) 0 max_llm_calls (p.base_version + 1)
            capture_open claims
      publish_outcomes codec w p base outcomes capture_open (w.others 1 t))
    else ok (superseded, t)

abbrev pub assess_artifact :
    Codec
    → StageWorld
    → StagePayload
    → (max_llm_calls : ℕ) → ReportTables
    → Option RetrievalArtifact
    → Outcome StageError (StageOutcome × ReportTables)
assess_artifact codec w p max_llm_calls t none = ok (retrieval_unavailable, t)
assess_artifact codec w p max_llm_calls t (some artifact) =
    if artifact.superseded
    then ok (superseded, t)
    else assess_base codec w p max_llm_calls artifact.claims t
        (latest p.investigation_id t.report_versions)

-- `_assessment`
unfoldable pub assessment :
    Codec
    → StageWorld
    → StagePayload
    → (max_llm_calls : ℕ) → ReportTables
    → Outcome StageError (StageOutcome × ReportTables)
assessment codec w p max_llm_calls t =
    assess_artifact codec w p max_llm_calls (w.others 0 t) w.artifact
