-- ===== src/Evidence/Stage/Published.antt =====
-- A run of `_assessment` of backend/services/evidence/stages.py is never refused for its citations.
use ovrly.Prelude.{
  ℕ, ◌+◌, ◌≡◌, ◌≢◌, refl, ◌∙◌, Bool, true, Bool-cases, inl, inr, &&-left, &&-right, ◌&&◌, Option,
  none, some, List, String, str_eq, ◌==◌, all, all-select, select, distinct, Outcome, ok, err,
  ◌>>=◌,
}
use ovrly.Json.{Codec}
use ovrly.Evidence.Records.{Evidence, ClaimRetrieval, ClaimOutcome, ReportVersion}
use ovrly.Evidence.CitationRules.{is_in_order}
use ovrly.Evidence.Merge.{scope_of, merged_report, merged_version}
use ovrly.Evidence.Merge.Fresh.{AreOutcomesOf, retrieval_claims, is_ready}
use ovrly.Evidence.Merge.Kept.{distinct-select}
use ovrly.Evidence.Merge.Accepted.{merged_version-in_order}
use ovrly.Evidence.Stage.{
  StagePayload, RetrievalArtifact, ReportTables, StageWorld, StageOutcome, StageError,
  citations_refused, propositions, assess_each, is_owned, report_from_row, publish_current,
  publish_outcomes, assess_base, assess_artifact, assessment,
}
use ovrly.Reports.Versions.{VersionRow, NextVersion, latest, is_version_of}
use ovrly.Evidence.Stage.Outcomes.{
  is_known, assess_each-AreOutcomesOf, no_propositions, select-known,
}
use ovrly.Evidence.Stage.Builders.{publish-built, assess_each-accepted, newest-all}

-- A version whose citations are in order, with evidence ids that name their claims.
abbrev pub is_orderly : (String → String) → VersionRow → Bool
is_orderly owner r =
    is_in_order r.payload
    && all (λ (e : Evidence). str_eq (owner e.id) e.claim_id) r.payload.evidence

-- What a retrieval's result promises: each claim once, and evidence ids that name their claims.
abbrev pub IsReady : (String → String) → Option RetrievalArtifact → Type 0
IsReady owner none = Unit
IsReady owner (some artifact) =
    (all (is_ready owner) artifact.claims ≡ true)
    × (distinct (retrieval_claims artifact.claims) ≡ true)

module _ (owner : String → String) (codec : Codec) (w : StageWorld) (p : StagePayload)
    (max_llm_calls : ℕ) where
  built :
      (row : VersionRow) (claims : List ClaimRetrieval) (capture_open : Bool)
      (outcomes : List ClaimOutcome) (n : NextVersion)
      → is_orderly owner row ≡ true
      → all (is_ready owner) claims ≡ true
      → distinct (retrieval_claims claims) ≡ true
      → AreOutcomesOf
          (select (is_known (propositions row.payload.claims no_propositions)) claims)
          outcomes
      → (report : ReportVersion) × (merged_version codec w.describe
            (report_from_row row)
            outcomes
            (scope_of outcomes)
            capture_open
            p.deeper
            n
          ≡ ok report)
  built row claims capture_open outcomes n orderly ready once paired =
      let known = is_known (propositions row.payload.claims no_propositions) in
      (
        merged_report codec w.describe (report_from_row row) outcomes (scope_of outcomes)
            capture_open p.deeper n,
        merged_version-in_order owner (report_from_row row) (select known claims) outcomes paired
            (all-select (is_ready owner) known claims ready)
            (distinct-select (λ (r : ClaimRetrieval). r.claim_id) known claims once)
            (select-known row.payload.claims claims) (&&-right (is_in_order row.payload) _ orderly)
            (&&-left _ _ orderly) codec w.describe capture_open p.deeper n,
      )

  publish_current-accepted :
      (base : ReportVersion) (outcomes : List ClaimOutcome) (capture_open : Bool) (t : ReportTables)
      (current : Option VersionRow)
      → ((n : NextVersion)
          → (report : ReportVersion) × (merged_version codec w.describe base outcomes
                (scope_of outcomes)
                capture_open
                p.deeper
                n
              ≡ ok report))
      → publish_current codec w p base outcomes capture_open t current ≢ err citations_refused
  publish_current-accepted base outcomes capture_open t none builds h = cc
  publish_current-accepted base outcomes capture_open t (some current) builds h =
      elim (Bool-cases (current.version == p.base_version)) [
        | inl same ↦
            unraised _ _
              (publish-built codec w.id w.now p.investigation_id current.fixture
                (merged_version codec w.describe base outcomes (scope_of outcomes) capture_open
                  p.deeper)
                t.investigations t.report_versions builds)
              (rw same at h)
        | inr other ↦ absurd (clash (rw other at h))
      ]
    where
      unraised :
          {A B : Type 0} (m : Outcome StageError A) (f : A → B)
          → m ≢ err citations_refused
          → (m >>= λ a. ok (f a)) ≢ err citations_refused
      unraised (ok a) f ne e = cc
      unraised (err x) f ne e = ne (cc e)

      clash :
          {x : StageOutcome × ReportTables}
          → Path (Outcome StageError (StageOutcome × ReportTables)) (ok x) (err citations_refused)
          → ⊥
      clash e = cc

  publish_outcomes-accepted :
      (base : ReportVersion) (outcomes : List ClaimOutcome) (capture_open : Bool) (t : ReportTables)
      → ((n : NextVersion)
          → (report : ReportVersion) × (merged_version codec w.describe base outcomes
                (scope_of outcomes)
                capture_open
                p.deeper
                n
              ≡ ok report))
      → publish_outcomes codec w p base outcomes capture_open t ≢ err citations_refused
  unfolding publish_outcomes
  publish_outcomes-accepted base outcomes capture_open t builds h =
      elim (Bool-cases (is_owned p t)) [
        | inl mine ↦
            publish_current-accepted base outcomes capture_open t
              (latest p.investigation_id t.report_versions) builds (rw mine at h)
        | inr gone ↦ absurd (clash (rw gone at h))
      ]
    where
      clash :
          {x : StageOutcome × ReportTables}
          → Path (Outcome StageError (StageOutcome × ReportTables)) (ok x) (err citations_refused)
          → ⊥
      clash e = cc

  assess_base-accepted :
      (claims : List ClaimRetrieval) (t : ReportTables) (row : Option VersionRow)
      → ((r : VersionRow) → row ≡ some r → is_orderly owner r ≡ true)
      → all (is_ready owner) claims ≡ true
      → distinct (retrieval_claims claims) ≡ true
      → assess_base codec w p max_llm_calls claims t row ≢ err citations_refused
  assess_base-accepted claims t none orderly ready once h = cc
  assess_base-accepted claims t (some row) orderly ready once h =
      elim (Bool-cases (row.version == p.base_version)) [
        | inl same ↦ by_outcomes _ refl (rw same at h)
        | inr other ↦ absurd (clash (rw other at h))
      ]
    where
      clash :
          {x : StageOutcome × ReportTables}
          → Path (Outcome StageError (StageOutcome × ReportTables)) (ok x) (err citations_refused)
          → ⊥
      clash e = cc

      by_outcomes :
          (m : Outcome StageError (List ClaimOutcome))
          → assess_each w
              (propositions row.payload.claims no_propositions)
              0
              max_llm_calls
              (p.base_version + 1)
              (t.capture_open p.investigation_id)
              claims
            ≡ m
          → (m >>= λ outcomes.
              publish_outcomes codec w p
                (report_from_row row)
                outcomes
                (t.capture_open p.investigation_id)
                (w.others 1 t))
            ≢ err citations_refused
      by_outcomes (err e) given h =
          assess_each-accepted w (propositions row.payload.claims no_propositions) 0 max_llm_calls
            (p.base_version + 1) (t.capture_open p.investigation_id) claims (given ∙ (cc h))
      by_outcomes (ok outcomes) given h =
          publish_outcomes-accepted (report_from_row row) outcomes
            (t.capture_open p.investigation_id) (w.others 1 t)
            (λ n.
              built row claims (t.capture_open p.investigation_id) outcomes n (orderly row refl)
                ready once
                (assess_each-AreOutcomesOf w (propositions row.payload.claims no_propositions) 0
                  max_llm_calls (p.base_version + 1) (t.capture_open p.investigation_id) claims
                  outcomes given))
            h

  -- A run of the assessment stage is never refused for its citations, whatever the router answers
  -- and others do to the tables meanwhile, where the versions that the run reads have their
  -- citations in order and evidence ids that name their claims, and the retrieval's result has
  -- each claim once and, for each claim, passages with evidence ids that name the claim, each
  -- once.
  pub assessment-accepted :
      (t : ReportTables)
      → all (is_orderly owner) (w.others 0 t).report_versions ≡ true
      → IsReady owner w.artifact
      → assessment codec w p max_llm_calls t ≢ err citations_refused
  unfolding assessment
  assessment-accepted t orderly ready h = by_artifact w.artifact ready h
    where
      clash :
          {x : StageOutcome × ReportTables}
          → Path (Outcome StageError (StageOutcome × ReportTables)) (ok x) (err citations_refused)
          → ⊥
      clash e = cc

      by_artifact :
          (artifact : Option RetrievalArtifact)
          → IsReady owner artifact
          → assess_artifact codec w p max_llm_calls (w.others 0 t) artifact ≢ err citations_refused
      by_artifact none ready h = cc
      by_artifact (some artifact) (ready, once) h = elim (Bool-cases artifact.superseded) [
        | inl gone ↦ absurd (clash (rw gone at h))
        | inr current ↦
            assess_base-accepted artifact.claims (w.others 0 t)
              (latest p.investigation_id (w.others 0 t).report_versions)
              (λ r e.
                newest-all (is_orderly owner)
                  (select (is_version_of p.investigation_id) (w.others 0 t).report_versions) r
                  (all-select (is_orderly owner) (is_version_of p.investigation_id)
                    (w.others 0 t).report_versions orderly)
                  e)
              ready once (rw current at h)
      ]
