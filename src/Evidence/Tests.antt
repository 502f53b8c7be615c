-- ===== src/Evidence/Tests.antt =====
-- Runs of the evidence stages on small reports (backend/services/evidence/).
use ovrly.Prelude.{
  ◌≡◌, ◌≢◌, ◌||◌, ◌↔◌, refl, true, false, none, some, List, [], ◌∷◌, String, to_set, any, ok, err,
}
use ovrly.Jobs.Fixtures.{codec}
use ovrly.Evidence.Records.{
  Relation, relation_eq, support, insufficient, qualified, insufficient_evidence,
}
use ovrly.Evidence.Overall.{overall, collect, is_verdict, overall-verdict}
use ovrly.Evidence.Router.{structured, attempt_reply, complete, try_send}
use ovrly.Evidence.Replies.{check_reply, labelled}
use ovrly.Evidence.Assessor.{assess, key_error, relate, to_evidence, abstains}
use ovrly.Evidence.Assessor.Retracted.{assess-counts, is_neutral, counted_of, is_settling}
use ovrly.Evidence.Assessor.Labels.{assess-labelled}
use ovrly.Evidence.Stage.{
  published, citations_refused, assessment, assess_each, propositions, publish_outcomes,
}
use ovrly.Evidence.Stage.Published.{assessment-accepted}
use ovrly.Evidence.CitationRules.{accepts, is_in_order, validate_citations-in_order}
use ovrly.Evidence.Citations.{
  validate_citations, by_id, check_evidence, check_relations, check_assessments,
}
use ovrly.Evidence.Merge.{
  merged_version, scope_of, new_assessments, new_evidence, unassessed_reasons,
}
use ovrly.Reports.Versions.{publish_report_version, newest}
use ovrly.Evidence.Fixtures.{
  passage, retrieval, wording, agreeing, outcome, assessed, first_report, report_tables, payload,
  stage_world, stage_outcome, owner,
}

assess_test : assess wording agreeing 3 "it works" retrieval 2 false ≡ ok outcome
unfolding assess structured attempt_reply complete try_send check_reply to_set labelled relate
    overall collect relation_eq
assess_test = refl

-- A retracted source settles nothing.
assess_retracted :
    assess wording agreeing 3 "it works"
      (record retrieval { passages = passage "retracted" ∷ [] })
      2
      false
    ≡ ok (record {
      claim_id = "c1";
      assessment = some (record {
        id = "c1";
        claim_id = "c1";
        version = 2;
        relations =
            record {
              evidence_id = "e1";
              relation = insufficient;
              note = some "Not counted: the source is retracted. it says so";
            }
            ∷ [];
        overall = insufficient_evidence;
        provisional = false;
        summary = "summary";
      });
      evidence = to_evidence "c1" (passage "retracted") ∷ [];
      reason = none;
    })
unfolding assess structured attempt_reply complete try_send check_reply to_set labelled relate
    overall collect relation_eq
assess_retracted = refl

assess-counts_example :
    (is_neutral retrieval.passages assessed.relations ≡ true)
    × (assessed.overall ≡ overall (counted_of retrieval.passages assessed.relations))
    × ((any is_settling (counted_of retrieval.passages assessed.relations)
          || abstains assessed.overall)
        ≡ true)
assess-counts_example =
    assess-counts wording agreeing 3 "it works" retrieval 2 false outcome assessed assess_test refl

assess-labelled_example : assess wording agreeing 3 "it works" retrieval 2 false ≢ err key_error
assess-labelled_example = assess-labelled wording agreeing 3 "it works" retrieval 2 false

assessment_test :
    stage_outcome (assessment codec stage_world payload 3 report_tables) ≡ some (published 2 1)
unfolding assessment assess_each propositions assess structured attempt_reply complete try_send
    check_reply to_set labelled relate overall collect relation_eq publish_outcomes
    publish_report_version merged_version scope_of new_assessments new_evidence unassessed_reasons
    validate_citations by_id check_evidence check_relations check_assessments newest
assessment_test = refl

assessment-accepted_example :
    assessment codec stage_world payload 3 report_tables ≢ err citations_refused
assessment-accepted_example =
    assessment-accepted owner codec stage_world payload 3 report_tables refl (refl, refl)

validate_citations-in_order_example :
    accepts (validate_citations first_report) ≡ is_in_order first_report
validate_citations-in_order_example = validate_citations-in_order first_report

abbrev pairs : List (Relation × String)
pairs = (support, "doi:1") ∷ (support, "doi:1") ∷ (Relation.qualify, "doi:2") ∷ []

overall-verdict_example : (overall pairs ≡ qualified) ↔ (is_verdict pairs qualified ≡ true)
overall-verdict_example = overall-verdict pairs qualified
