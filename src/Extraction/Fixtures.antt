-- ===== src/Extraction/Fixtures.antt =====
-- A policy and observations for the tests of the extraction.
use ovrly.Prelude.{ℕ, ◌+◌, String, none, arith}
use ovrly.Extraction.Runs.{Policy, IsPolicy, Observation, target}

abbrev pub small_policy : Policy
small_policy = record {
  max_requests = 4;
  max_tokens = 2000;
  reconciliation_requests = 1;
  reconciliation_tokens = 600;
  batch_observations = 2;
  overlap_observations = 1;
  max_observations = 10;
}

abbrev pub spoken : String → ℕ → Observation
spoken id start = record {
  id = id;
  role = target;
  text = "a claim";
  modality = "speech";
  timebase = "capture";
  start_ms = start;
  end_ms = start + 10;
  speaker_id = none;
}

pub small_policy-IsPolicy : IsPolicy small_policy
small_policy-IsPolicy = record {
  some_requests = omega arith;
  some_tokens = omega arith;
  some_batch = omega arith;
  batch_bound = omega arith;
  some_overlap = omega arith;
  overlap_bound = omega arith;
}
