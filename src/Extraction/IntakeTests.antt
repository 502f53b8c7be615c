-- ===== src/Extraction/IntakeTests.antt =====
-- Submissions of backend/services/pipeline/incremental.py, the last of a run and one that repeats it.
use ovrly.Extraction.Upstream.{take_in-upstream}
use ovrly.Json.{empty}
use ovrly.Prelude.{
  ◌⊎◌, arith, err, ◌≡◌, refl, true, false, none, some, List, [], ◌∷◌, String, to_set, ok,
}
use ovrly.Extraction.Runs.{Observation, Run}
use ovrly.Extraction.Fixtures.{small_policy, small_policy-IsPolicy, spoken}
use ovrly.Extraction.Windows.{
  Window, plan_submission, plan_windows, trim, drop, before, fill, take, index_of_target,
  characters, update_items,
}
use ovrly.Extraction.Equality.{observation_eq}
use ovrly.Extraction.Intake.{
  Intake, Admitted, new_item, admit_each, intake_run, take_in, reused_identifier, mixed_timebases,
  submit_observations,
}
use ovrly.Extraction.Sorts.{insert_item, sort_items, sort_unadmitted, insert_unadmitted}
use ovrly.Extraction.Stored.{IsStored}
use ovrly.Extraction.Submissions.{submit_observations-returns, submit_observations-IsStored}
use ovrly.Extraction.Replays.{admit_each-replayed}

abbrev two_observations : List Observation
two_observations = spoken "b" 10 ∷ spoken "a" 0 ∷ []

abbrev only_submission : Intake
only_submission = record {
  policy = small_policy;
  observations = two_observations;
  closed = true;
  hosted_processing_approved = true;
  groq_processing_approved = false;
  producer = none;
  may_continue = true;
  owned = true;
  finalized = false;
  stored = none;
  same_producer = λ a b. true;
}

abbrev empty_admitted : Admitted
empty_admitted = record { existing = []; unadmitted = [] }

abbrev both_admitted : Admitted
both_admitted = record {
  existing = new_item (spoken "b" 10) ∷ new_item (spoken "a" 0) ∷ [];
  unadmitted = [];
}

abbrev the_job : Window → String
the_job window = "job"

abbrev taken_run : Run
taken_run = record {
  policy = small_policy;
  hosted_processing_approved = true;
  groq_processing_approved = false;
  producer = none;
  closed = true;
  observations = new_item (spoken "a" 0) ∷ new_item (spoken "b" 10) ∷ [];
  windows = [];
  unadmitted = [];
  requests_used = 0;
  tokens_reserved = 0;
}

abbrev submitted_run : Run
submitted_run = record taken_run {
  observations =
      (record (new_item (spoken "a" 0)) { job_id = some "job"; window_ids = "job" ∷ [] })
      ∷ (record (new_item (spoken "b" 10)) { job_id = some "job"; window_ids = "job" ∷ [] })
      ∷ [];
  windows = "job" ∷ [];
}

abbrev the_window : Window
the_window = record {
  number = 1;
  hosted_processing_approved = true;
  groq_processing_approved = false;
  observations = spoken "a" 0 ∷ spoken "b" 10 ∷ [];
}

admitted_both : admit_each false only_submission two_observations empty_admitted ≡ ok both_admitted
unfolding admit_each
admitted_both = refl

taken : intake_run only_submission ≡ ok taken_run
unfolding intake_run admit_each insert_item sort_items sort_unadmitted to_set
taken = refl

submitted : submit_observations only_submission the_job ≡ some (ok (submitted_run, the_window ∷ []))
unfolding submit_observations intake_run admit_each insert_item sort_items sort_unadmitted
    plan_submission plan_windows trim drop before fill take index_of_target characters to_set
    update_items
submitted = refl

first_of_run : (old : Run) → only_submission.stored ≡ some old → IsStored old
first_of_run old e = cc

-- Again with the input closed
admit_each-replayed_example :
    admit_each true only_submission two_observations both_admitted ≡ ok both_admitted
admit_each-replayed_example =
    admit_each-replayed false true only_submission only_submission two_observations empty_admitted
      both_admitted admitted_both

submit_observations-returns_example :
    (next : Run × List Window) × (submit_observations only_submission the_job ≡ some (ok next))
submit_observations-returns_example =
    submit_observations-returns only_submission the_job taken_run small_policy-IsPolicy refl
      first_of_run taken

submit_observations-IsStored_example : IsStored submitted_run
submit_observations-IsStored_example =
    submit_observations-IsStored only_submission the_job submitted_run (the_window ∷ [])
      small_policy-IsPolicy refl first_of_run submitted

-- A late observation of a producer, and one that changes the text of a known id
abbrev late_submission : Intake
late_submission = record only_submission {
  producer = some empty;
  observations = spoken "c" 20 ∷ (record (spoken "a" 0) { text = "another claim" }) ∷ [];
}

changed_text : take_in late_submission taken_run ≡ err reused_identifier
unfolding admit_each observation_eq
changed_text = refl

take_in-upstream_example :
    (reused_identifier ≡ reused_identifier) ⊎ (reused_identifier ≡ mixed_timebases)
take_in-upstream_example =
    take_in-upstream late_submission taken_run reused_identifier refl (omega arith) changed_text

abbrev only_late : Intake
only_late = record late_submission { observations = spoken "c" 20 ∷ [] }

late_is_unadmitted :
    take_in only_late taken_run
    ≡ ok (record taken_run {
      unadmitted =
          (record {
            id = "c";
            start_ms = 20;
            end_ms = 30;
            timebase = "capture";
            reason = "input_closed";
          })
          ∷ [];
    })
unfolding admit_each insert_item sort_items insert_unadmitted sort_unadmitted to_set
late_is_unadmitted = refl
