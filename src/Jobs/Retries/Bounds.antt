-- ===== src/Jobs/Retries/Bounds.antt =====
-- How long `RetryPolicy.decide` of backend/services/jobs/retries.py may postpone an attempt.
use ovrly.Prelude.{
  ℕ, ◌+◌, ◌-◌, ◌<◌, ◌≤◌, ◌≡◌, ◌⊎◌, ◌↔◌, inl, inr, Bool, false, none, some, Dict, get, arith,
  Bool-cases,
}
use ovrly.Jobs.Retries.Duration.{Seconds, IsJitter}
use ovrly.Jobs.Retries.{
  RetryClass, value, RetryableError, RetryPolicy, rate_limited_error, provider_cooldown, cap,
  retry_class, min_time, max_time, backoff, scheduled_delay, decide, or_zero,
}

-- What a decision that schedules an attempt has found.
pub decide-scheduled :
    (S : Seconds) (p : RetryPolicy S) (jitter : S.Time) (error : RetryableError S) (counts : Dict ℕ)
    (recorded : Bool) {d : S.Time}
    → (decide S p jitter error counts recorded).delay_seconds ≡ some d
    → (d ≡ scheduled_delay S p jitter error (decide S p jitter error counts recorded).count)
      × ((decide S p jitter error counts recorded).count ≤ cap S p (retry_class S error))
unfolding decide
decide-scheduled S p jitter error counts recorded h = ground arith

-- A decision is exhausted exactly when the count of its class would pass the cap of the class, or
-- when the outcome is unknown and no request id was recorded; the count is one more than the
-- recorded count of the error's own class.
pub decide_exhausted :
    (S : Seconds) (p : RetryPolicy S) (jitter : S.Time) (error : RetryableError S) (counts : Dict ℕ)
    (recorded : Bool)
    → let d = decide S p jitter error counts recorded in
      ((d.delay_seconds ≡ none) ↔ (
        (cap S p (retry_class S error) < d.count)
        ⊎ ((retry_class S error ≡ RetryClass.unknown_outcome) × (recorded ≡ false))))
      × (d.decided_class ≡ retry_class S error)
      × (d.count ≡ or_zero (get (value (retry_class S error)) counts) + 1)
unfolding decide
decide_exhausted S p jitter error counts recorded = ground arith

module _ (S : Seconds) where
  open S use {Time, zero_seconds, lt, lt_irrefl, lt_asym, le_trans, times_power_nonneg, times_power}

  -- `a` is at most `b`.
  abbrev pub AtMost : Time → Time → Type 0
  AtMost a b = lt b a ≡ false

  min_time-left : (a b : Time) → AtMost (min_time S a b) a
  min_time-left a b = elim (Bool-cases (lt b a)) [
    | inl less ↦ rw less (lt_asym b a less)
    | inr not_less ↦ rw not_less (lt_irrefl a)
  ]

  min_time-right : (a b : Time) → AtMost (min_time S a b) b
  min_time-right a b = elim (Bool-cases (lt b a)) [
    | inl less ↦ rw less (lt_irrefl b)
    | inr not_less ↦ rw not_less not_less
  ]

  min_time-nonneg :
      (a b : Time)
      → AtMost zero_seconds a
      → AtMost zero_seconds b
      → AtMost zero_seconds (min_time S a b)
  min_time-nonneg a b h k = elim (Bool-cases (lt b a)) [
    | inl less ↦ rw less k
    | inr not_less ↦ rw not_less h
  ]

  max_time-nonneg : (a : Time) → AtMost zero_seconds (max_time S a zero_seconds)
  max_time-nonneg a = elim (Bool-cases (lt a zero_seconds)) [
    | inl less ↦ rw less (lt_irrefl zero_seconds)
    | inr not_less ↦ rw not_less not_less
  ]

  abbrev pub IsBounded : RetryPolicy S → Time → Type 0
  IsBounded p t = AtMost zero_seconds t × AtMost t p.max_backoff_seconds

  module _ (p : RetryPolicy S) (jitter : Time) (j : IsJitter S jitter)
      (base : AtMost zero_seconds p.backoff_seconds)
      (cap_nonneg : AtMost zero_seconds p.max_backoff_seconds) where
    backoff_bounds : (n : ℕ) → IsBounded p (backoff S p jitter n)
    unfolding backoff
    backoff_bounds n =
        let raw = times_power p.backoff_seconds (n - 1) in
        let ceiling = min_time S p.max_backoff_seconds raw in
        let nonneg : AtMost zero_seconds ceiling =
          min_time-nonneg p.max_backoff_seconds raw cap_nonneg
            (times_power_nonneg p.backoff_seconds (n - 1) base) in
        (
          j.keeps_sign ceiling nonneg,
          le_trans (S.times ceiling jitter) ceiling p.max_backoff_seconds (j.shrinks ceiling nonneg)
              (min_time-left p.max_backoff_seconds raw),
        )

    hint_bounds :
        (h : Time) → IsBounded p (min_time S (max_time S h zero_seconds) p.max_backoff_seconds)
    hint_bounds h = (
      min_time-nonneg (max_time S h zero_seconds) p.max_backoff_seconds (max_time-nonneg h)
          cap_nonneg,
      min_time-right (max_time S h zero_seconds) p.max_backoff_seconds,
    )

    abbrev pub HasNoCooldown : RetryableError S → Type 0
    HasNoCooldown (provider_cooldown (some _)) = ⊥
    HasNoCooldown _ = Unit

    scheduled_delay_bounds :
        (error : RetryableError S) (n : ℕ)
        → HasNoCooldown error
        → IsBounded p (scheduled_delay S p jitter error n)
    unfolding scheduled_delay
    scheduled_delay_bounds (provider_cooldown (some h)) n c = absurd c
    scheduled_delay_bounds (rate_limited_error (some h)) n c = hint_bounds h
    scheduled_delay_bounds error n c = backoff_bounds n

    -- Where the policy's backoff and its cap are not negative and the jitter is a factor in [0,
    -- 1), a retry that is not a provider's cooldown is scheduled no earlier than at once and no
    -- later than max_backoff_seconds from now, whatever hint a 429 carried.
    pub decide_bounds :
        (error : RetryableError S) (counts : Dict ℕ) (recorded : Bool) {d : Time}
        → HasNoCooldown error
        → (decide S p jitter error counts recorded).delay_seconds ≡ some d
        → IsBounded p d
    unfolding decide
    decide_bounds error counts recorded c h =
        let n = (decide S p jitter error counts recorded).count in
        let (same, _) = decide-scheduled S p jitter error counts recorded h in
        rw same (scheduled_delay_bounds error n c)
