-- ===== src/Worker/Tests.antt =====
-- A concrete execution: a stage that is rate limited.
use ovrly.Prelude.{◌≡◌, refl, true, false, none, some, [], ◌∷◌, ok}
use ovrly.Jobs.States.{JobState}
use ovrly.Jobs.Retries.{RetryClass, rate_limited_error, decide, scheduled_delay}
use ovrly.Jobs.Retries.Caps.{counted}
use ovrly.Jobs.Tables.{Job}
use ovrly.Jobs.Queue.{owned, start, retry}
use ovrly.Jobs.Fixtures.{at, codec, first_claim, first_lease, one_leased, running_row, tables}
use ovrly.Jobs.Milliseconds.{whole, policy}
use ovrly.Worker.Runtime.{World, Ending, retryable, execute, after_handler, schedule_retry}
use ovrly.Worker.HandBackSteps.{HoldsNothing}
use ovrly.Worker.HandBack.{execute-HoldsNothing}

-- The provider asks for two seconds; the times of the policy are milliseconds.
abbrev world : World whole
world = record {
  clocks = λ n. at 120;
  others = λ n db. db;
  broken = λ n. false;
  handler = retryable (rate_limited_error (some 2000));
  jitter = 50;
  microseconds_of = λ t. t;
  publish_evidence = λ result db. ok (true, db);
  publish_capture = λ result db. ok (true, db);
}

abbrev waiting_row : Job
waiting_row = record running_row {
  state = JobState.queued;
  lease_owner = none;
  lease_expires_at = none;
  updated_at = 120;
  available_at = 2120;
  retry_class = some RetryClass.rate_limited;
  retry_counts = counted RetryClass.rate_limited [];
}

-- The job goes back to the queue for later.
rate_limited_test :
    execute whole codec policy world first_claim one_leased
    ≡ ok (Ending.retry_scheduled, tables (waiting_row ∷ []))
unfolding execute start owned after_handler schedule_retry decide scheduled_delay retry
rate_limited_test = refl

execute-HoldsNothing_example : HoldsNothing first_lease (tables (waiting_row ∷ []))
execute-HoldsNothing_example =
    execute-HoldsNothing whole codec policy world first_claim one_leased rate_limited_test refl
