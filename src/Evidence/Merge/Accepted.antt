-- ===== src/Evidence/Merge/Accepted.antt =====
-- The next version of a report is always one that may be published
-- (backend/services/evidence/stages.py and assessment.py).
use ovrly.Prelude.{
  ℕ, ◌≡◌, refl, ◌∙◌, Bool, true, &&-intro, &&-left, &&-right, ◌&&◌, List, ◌++◌, String, str_eq,
  ◌==◌, all, all-append, all-select, any-append, is_in, distinct, distinct-append, map, ok, err,
  ◌>>=◌, arith,
}
use ovrly.Json.{Codec}
use ovrly.Evidence.Records.{Evidence, Assessment, ClaimRetrieval, ClaimOutcome, ReportVersion}
use ovrly.Evidence.Assessor.Soundness.{evidence_ids}
use ovrly.Evidence.Citations.{Checked, claim_ids, validate_citations}
use ovrly.Evidence.CitationRules.{
  accepts, is_in_order, is_grounded, assessed_claims, validate_citations-in_order,
}
use ovrly.Evidence.Merge.{
  Progress, restamp, outside, scope_of, new_assessments, new_evidence, kept_assessments,
  kept_evidence, merged_assessments, merged_report, merged_version,
}
use ovrly.Evidence.Merge.Fresh.{
  AreOutcomesOf, retrieval_claims, is_ready, evidence_ids-append, scope_of-distinct,
}
use ovrly.Evidence.Merge.Brought.{
  assessed_claims-new, new_evidence-claims, new_evidence-owned, is_disjoint-owners,
  new_evidence-distinct, Covers, new-is_sound,
}
use ovrly.Evidence.Merge.Kept.{
  distinct-select, kept-owners, kept-outside, assessed_claims-restamp, assessed_claims-append,
  kept-is_sound,
}
use ovrly.Reports.Versions.{NextVersion}

module _ (owner : String → String) (base : ReportVersion) (rs : List ClaimRetrieval)
    (outcomes : List ClaimOutcome) (paired : AreOutcomesOf rs outcomes)
    (ready : all (is_ready owner) rs ≡ true) (once : distinct (retrieval_claims rs) ≡ true)
    (known : all (λ (r : ClaimRetrieval). is_in r.claim_id (claim_ids base.claims)) rs ≡ true)
    (owned : all (λ (e : Evidence). str_eq (owner e.id) e.claim_id) base.evidence ≡ true)
    (in_order : is_in_order base ≡ true) where
  abbrev scope : List String
  scope = scope_of outcomes

  abbrev merged_evidence : List Evidence
  merged_evidence = kept_evidence base scope ++ new_evidence outcomes

  abbrev is_sound_in : ℕ → List Evidence → Assessment → Bool
  is_sound_in version evidence a =
      is_in a.claim_id (claim_ids base.claims) && (a.version == version && is_grounded evidence a)

  base_parts :
      (distinct (evidence_ids base.evidence) ≡ true)
      × (all (λ (e : Evidence). is_in e.claim_id (claim_ids base.claims)) base.evidence ≡ true)
      × (distinct (assessed_claims base.assessments) ≡ true)
      × (all (is_sound_in base.version base.evidence) base.assessments ≡ true)
  base_parts =
      let rest = &&-right (distinct (evidence_ids base.evidence)) _ in_order in
      let last =
        &&-right (all (λ (e : Evidence). is_in e.claim_id (claim_ids base.claims)) base.evidence) _
          rest in
      (
        &&-left _ _ in_order,
        &&-left _ _ rest,
        &&-left _ _ last,
        &&-right (distinct (assessed_claims base.assessments)) _ last,
      )

  merged-evidence_ids : distinct (evidence_ids merged_evidence) ≡ true
  merged-evidence_ids =
      rw
        (
          evidence_ids-append (kept_evidence base scope) (new_evidence outcomes),
          distinct-append (evidence_ids (kept_evidence base scope))
              (evidence_ids (new_evidence outcomes)),
          distinct-select (λ (e : Evidence). e.id) (λ (e : Evidence). outside scope e.claim_id)
              base.evidence base_parts.0,
          new_evidence-distinct owner rs outcomes paired ready once,
        )
        (is_disjoint-owners owner scope (evidence_ids (kept_evidence base scope))
          (evidence_ids (new_evidence outcomes)) (kept-owners owner scope base.evidence owned)
          (new_evidence-owned owner rs outcomes paired ready))

  merged-claims :
      all (λ (e : Evidence). is_in e.claim_id (claim_ids base.claims)) merged_evidence ≡ true
  merged-claims =
      all-append (λ (e : Evidence). is_in e.claim_id (claim_ids base.claims))
        (kept_evidence base scope) (new_evidence outcomes)
      ∙ &&-intro _ _
          (all-select (λ (e : Evidence). is_in e.claim_id (claim_ids base.claims))
            (λ (e : Evidence). outside scope e.claim_id) base.evidence base_parts.1)
          (new_evidence-claims (claim_ids base.claims) rs outcomes paired known)

  merged-assessed :
      (capture_open : Bool) (version : ℕ)
      → distinct (assessed_claims (merged_assessments base outcomes scope capture_open version))
        ≡ true
  merged-assessed capture_open version =
      let old = kept_assessments base scope in
      rw
        (
          assessed_claims-append (map (restamp version capture_open) old)
              (new_assessments version capture_open outcomes),
          assessed_claims-restamp version capture_open old,
          assessed_claims-new version capture_open rs outcomes paired,
          distinct-append (assessed_claims old) scope,
          distinct-select (λ (a : Assessment). a.claim_id)
              (λ (a : Assessment). outside scope a.claim_id) base.assessments base_parts.2,
          scope_of-distinct rs outcomes paired once,
        )
        (kept-outside scope base.assessments)

  Covers-kept : Covers merged_evidence (kept_evidence base scope)
  Covers-kept p h =
      any-append p (kept_evidence base scope) (new_evidence outcomes) ∙ ground (arith, h)

  Covers-new : Covers merged_evidence (new_evidence outcomes)
  Covers-new p h =
      any-append p (kept_evidence base scope) (new_evidence outcomes) ∙ ground (arith, h)

  merged-is_sound :
      (capture_open : Bool) (version : ℕ)
      → all
          (is_sound_in version merged_evidence)
          (merged_assessments base outcomes scope capture_open version)
        ≡ true
  merged-is_sound capture_open version =
      all-append (is_sound_in version merged_evidence)
        (map (restamp version capture_open) (kept_assessments base scope))
        (new_assessments version capture_open outcomes)
      ∙ &&-intro _ _
          (kept-is_sound (claim_ids base.claims) scope base.version version capture_open
            base.evidence merged_evidence base.assessments Covers-kept base_parts.3)
          (new-is_sound (claim_ids base.claims) version capture_open merged_evidence rs outcomes
            paired known Covers-new)

  -- The version that a run builds passes the citation check, so that it is never refused.
  pub merged_version-in_order :
      (codec : Codec) (describe : Progress → String) (capture_open deeper : Bool) (n : NextVersion)
      → merged_version codec describe base outcomes (scope_of outcomes) capture_open deeper n
        ≡ ok (merged_report codec describe base outcomes (scope_of outcomes) capture_open deeper n)
  unfolding merged_version
  merged_version-in_order codec describe capture_open deeper n =
      accepted (validate_citations report) (validate_citations-in_order report ∙ good)
    where
      report : ReportVersion
      report = merged_report codec describe base outcomes (scope_of outcomes) capture_open deeper n

      good : is_in_order report ≡ true
      good = &&-intro _ _ merged-evidence_ids (
          &&-intro _ _ merged-claims (
            &&-intro _ _ (merged-assessed capture_open n.version)
              (merged-is_sound capture_open n.version)))

      accepted : (c : Checked) → accepts c ≡ true → (c >>= λ _. ok report) ≡ ok report
      accepted (ok _) h = refl
      accepted (err e) h = cc
