-- ===== src/Jobs/Retries/Duration.antt =====
-- Durations in seconds as backend/services/jobs/retries.py uses them: Python floats that are no NaN.
-- They are a parameter: a type, a comparison, and the two products that a backoff makes.
use ovrly.Prelude.{ℕ, ◌≡◌, Bool, true, false}

pub record Seconds : Type 1 where
  pub Time : Type 0
  pub zero_seconds : Time
  -- `a < b`
  pub lt : Time → Time → Bool
  -- `a * 2 ** n`
  pub times_power : Time → ℕ → Time
  -- `a * b`
  pub times : Time → Time → Time
  -- the order of finite floats
  pub lt_irrefl : (a : Time) → lt a a ≡ false
  pub lt_asym : (a b : Time) → lt a b ≡ true → lt b a ≡ false
  pub le_trans : (a b c : Time) → lt b a ≡ false → lt c b ≡ false → lt c a ≡ false
  -- a power of two times a value that is not negative is not negative
  pub times_power_nonneg :
      (a : Time) (n : ℕ) → lt a zero_seconds ≡ false → lt (times_power a n) zero_seconds ≡ false

-- `SystemRandom().random()` returns a value in [0, 1): a factor that neither raises a duration nor
-- turns its sign.
pub record IsJitter (S : Seconds) (j : S.Time) : Type 0 where
  pub shrinks : (a : S.Time) → S.lt a S.zero_seconds ≡ false → S.lt a (S.times a j) ≡ false
  pub keeps_sign :
      (a : S.Time) → S.lt a S.zero_seconds ≡ false → S.lt (S.times a j) S.zero_seconds ≡ false
