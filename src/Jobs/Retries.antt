-- ===== src/Jobs/Retries.antt =====
-- backend/services/jobs/retries.py: retry classes and the policy that schedules them. The type of a
-- delay (a Python float) and the jitter source are parameters; counts are Python integers.
pub mod Duration
pub mod Bounds
pub mod Caps
use ovrly.Prelude.{
  ℕ, ◌+◌, ◌-◌, ◌≡◌, Bool, true, false, not, ◌&&◌, Option, none, some, String, ltb, if◌then◌else◌,
  Dict, get,
}
use Duration.{Seconds}

pub data RetryClass : Type 0 where
  transient rate_limited non_retriable_input invalid_model_schema unknown_outcome : RetryClass

-- The text that `RetryClass.X.value` stands for, which keys `jobs.retry_counts`.
abbrev pub value : RetryClass → String
value RetryClass.transient = "transient"
value RetryClass.rate_limited = "rate_limited"
value RetryClass.non_retriable_input = "non_retriable_input"
value RetryClass.invalid_model_schema = "invalid_model_schema"
value RetryClass.unknown_outcome = "unknown_outcome"

abbrev is_unknown_outcome : RetryClass → Bool
is_unknown_outcome RetryClass.unknown_outcome = true
is_unknown_outcome _ = false

-- `counts.get(key, 0)`
abbrev pub or_zero : Option ℕ → ℕ
or_zero none = 0
or_zero (some n) = n

module _ (S : Seconds) where
  open S use {Time, zero_seconds, lt, times_power, times}

  -- The exception classes; the two that carry `retry_after_seconds` have it as an argument.
  pub data RetryableError : Type 0 where
    transient_error : RetryableError
    rate_limited_error : Option Time → RetryableError
    provider_cooldown : Option Time → RetryableError
    non_retriable_input_error : RetryableError
    invalid_model_schema_error : RetryableError
    unknown_outcome_error : RetryableError

  abbrev pub retry_class : RetryableError → RetryClass
  retry_class transient_error = RetryClass.transient
  retry_class (rate_limited_error _) = RetryClass.rate_limited
  retry_class (provider_cooldown _) = RetryClass.rate_limited
  retry_class non_retriable_input_error = RetryClass.non_retriable_input
  retry_class invalid_model_schema_error = RetryClass.invalid_model_schema
  retry_class unknown_outcome_error = RetryClass.unknown_outcome

  pub record RetryDecision : Type 0 where
    pub decided_class : RetryClass
    pub count : ℕ
    pub delay_seconds : Option Time

  pub record RetryPolicy : Type 0 where
    pub transient_attempts : ℕ
    pub rate_limited_attempts : ℕ
    pub schema_repair_attempts : ℕ
    pub unknown_outcome_attempts : ℕ
    pub backoff_seconds : Time
    pub max_backoff_seconds : Time

  -- `RetryPolicy.cap`
  abbrev pub cap : RetryPolicy → RetryClass → ℕ
  cap p RetryClass.transient = p.transient_attempts
  cap p RetryClass.rate_limited = p.rate_limited_attempts
  cap p RetryClass.invalid_model_schema = p.schema_repair_attempts
  cap p RetryClass.unknown_outcome = p.unknown_outcome_attempts
  cap p RetryClass.non_retriable_input = 0

  -- Python's `min(a, b)` and `max(a, b)`, which keep the first of two equal values.
  abbrev pub min_time : Time → Time → Time
  min_time a b = if lt b a then b else a

  abbrev pub max_time : Time → Time → Time
  max_time a b = if lt a b then b else a

  -- `RetryPolicy.backoff`; `jitter` is the value that `self.jitter()` returns in this call.
  unfoldable pub backoff : RetryPolicy → Time → ℕ → Time
  backoff p jitter count =
      times (min_time p.max_backoff_seconds (times_power p.backoff_seconds (count - 1))) jitter

  -- The delay of an attempt that is scheduled: the last lines of `decide`.
  unfoldable pub scheduled_delay : RetryPolicy → Time → RetryableError → ℕ → Time
  unfolding backoff
  scheduled_delay p jitter (provider_cooldown (some hint)) count = hint
  scheduled_delay p jitter (rate_limited_error (some hint)) count =
      min_time (max_time hint zero_seconds) p.max_backoff_seconds
  scheduled_delay p jitter error count = backoff p jitter count

  -- `RetryPolicy.decide`
  unfoldable pub decide : RetryPolicy → Time → RetryableError → Dict ℕ → Bool → RetryDecision
  decide p jitter error retry_counts request_id_recorded =
      let class = retry_class error in
      let count = or_zero (get (value class) retry_counts) + 1 in
      record {
        decided_class = class;
        count = count;
        delay_seconds =
            if ltb (cap p class) count
            then none
            else if is_unknown_outcome class && not request_id_recorded
            then none
            else some (scheduled_delay p jitter error count);
      }
