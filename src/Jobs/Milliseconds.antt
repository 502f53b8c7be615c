-- ===== src/Jobs/Milliseconds.antt =====
-- Delays in whole milliseconds, and a retry policy of them, for concrete runs.
use ovrly.Prelude.{ℕ, ◌≡◌, ◌*◌, ◌/◌, ◌^◌, true, false, ltb, arith}
use ovrly.Jobs.Retries.{RetryPolicy}
use ovrly.Jobs.Retries.Duration.{Seconds}

pub ltb_irrefl : (a : ℕ) → ltb a a ≡ false
ltb_irrefl a = ground arith

pub ltb_asym : (a b : ℕ) → ltb a b ≡ true → ltb b a ≡ false
ltb_asym a b h = ground arith

pub le_trans : (a b c : ℕ) → ltb b a ≡ false → ltb c b ≡ false → ltb c a ≡ false
le_trans a b c h k = ground arith

pub not_negative : (a : ℕ) → ltb a 0 ≡ false
not_negative a = ground arith

-- Milliseconds for delays, and per cent for a jitter.
abbrev pub whole : Seconds
whole = record {
  Time = ℕ;
  zero_seconds = 0;
  lt = ltb;
  times_power = λ a n. a * 2 ^ n;
  times = λ a b. a * b / 100;
  lt_irrefl = ltb_irrefl;
  lt_asym = ltb_asym;
  le_trans = le_trans;
  times_power_nonneg = λ a n h. not_negative (a * 2 ^ n);
}

abbrev pub policy : RetryPolicy whole
policy = record {
  transient_attempts = 2;
  rate_limited_attempts = 3;
  schema_repair_attempts = 1;
  unknown_outcome_attempts = 1;
  backoff_seconds = 1000;
  max_backoff_seconds = 60000;
}
