-- ===== src/Extraction/Tests.antt =====
-- Runs of backend/services/pipeline/incremental.py on two observations.
use ovrly.Prelude.{
  ℕ, ◌≡◌, refl, ◌==◌, if◌then◌else◌, arith, true, false, none, some, List, [], ◌∷◌, all, to_set, ok,
}
use ovrly.Extraction.Runs.{Observation, Item, Run, record_request, request_tokens, spend}
use ovrly.Extraction.Budget.{
  Request, IsWithinMaxima, after_requests, after_requests-IsWithinMaxima, reconciliation-accepted,
}
use ovrly.Extraction.Fixtures.{small_policy, small_policy-IsPolicy, spoken}
use ovrly.Extraction.Windows.{
  Window, Submission, Planning, plan_submission, plan_windows, trim, drop, before, fill, take,
  index_of_target, characters, update_items,
}
use ovrly.Extraction.Windows.Rounds.{is_settled}
use ovrly.Extraction.Windows.Total.{IsSubmittable, plan_submission-ends, plan_submission-settled}

abbrev fresh : Observation → Item
fresh o = record { source = o; job_id = none; window_ids = []; reason = none }

abbrev three_items : List Item
three_items = fresh (spoken "a" 0) ∷ fresh (spoken "b" 10) ∷ fresh (spoken "c" 20) ∷ []

abbrev last_submission : Submission
last_submission = record {
  policy = small_policy;
  hosted_processing_approved = true;
  groq_processing_approved = false;
  requests_used = 0;
  tokens_reserved = 0;
  closed = true;
  job_of = λ window. if window.number == 1 then "first" else "second";
}

abbrev empty_run : Run
empty_run = record {
  policy = small_policy;
  hosted_processing_approved = true;
  groq_processing_approved = false;
  producer = none;
  closed = false;
  observations = [];
  windows = [];
  unadmitted = [];
  requests_used = 0;
  tokens_reserved = 0;
}

abbrev two_requests : List Request
two_requests =
    record { input_bytes = 100; output_tokens = 200; reconciliation = false }
    ∷ record { input_bytes = 900; output_tokens = 100; reconciliation = false }
    ∷ []

three_items-IsSubmittable : IsSubmittable last_submission "capture" three_items
three_items-IsSubmittable = record {
  bounds = small_policy-IsPolicy;
  distinct_ids = refl;
  short_texts = refl;
  one_timebase = refl;
}

-- The second window repeats the last observation of the first one.
abbrev planned_items : List Item
planned_items =
    record {
      source = spoken "a" 0;
      job_id = some "first";
      window_ids = "first" ∷ [];
      reason = none;
    }
    ∷ record {
      source = spoken "b" 10;
      job_id = some "first";
      window_ids = "first" ∷ "second" ∷ [];
      reason = none;
    }
    ∷ record {
      source = spoken "c" 20;
      job_id = some "second";
      window_ids = "second" ∷ [];
      reason = none;
    }
    ∷ []

abbrev a_window : ℕ → List Observation → Window
a_window number observations = record {
  number = number;
  hosted_processing_approved = true;
  groq_processing_approved = false;
  observations = observations;
}

abbrev planned : Planning
planned = record {
  ordered = planned_items;
  windows = "first" ∷ "second" ∷ [];
  queued =
      a_window 1 (spoken "a" 0 ∷ spoken "b" 10 ∷ [])
      ∷ a_window 2 (spoken "b" 10 ∷ spoken "c" 20 ∷ [])
      ∷ [];
}

two_windows : plan_submission last_submission three_items [] ≡ some (ok planned)
unfolding plan_submission plan_windows trim drop before fill take index_of_target characters to_set
    update_items
two_windows = refl

plan_submission-ends_example :
    (plan : Planning) × (plan_submission last_submission three_items [] ≡ some (ok plan))
plan_submission-ends_example =
    plan_submission-ends last_submission "capture" three_items [] three_items-IsSubmittable

plan_submission-settled_example : all is_settled planned.ordered ≡ true
plan_submission-settled_example =
    plan_submission-settled last_submission "capture" three_items [] planned
      three_items-IsSubmittable refl two_windows

after_requests-IsWithinMaxima_example :
    IsWithinMaxima small_policy (after_requests empty_run two_requests)
after_requests-IsWithinMaxima_example =
    after_requests-IsWithinMaxima small_policy empty_run two_requests
      (record { its_policy = refl; requests_bound = omega arith; tokens_bound = omega arith })

reconciliation-accepted_example :
    record_request (after_requests empty_run two_requests) 100 200 true
    ≡ ok (spend (after_requests empty_run two_requests) (request_tokens 100 200))
reconciliation-accepted_example =
    reconciliation-accepted small_policy empty_run two_requests 100 200 refl
      (record { its_policy = refl; requests_left = omega arith; tokens_left = omega arith })
      (omega arith) (omega arith)
