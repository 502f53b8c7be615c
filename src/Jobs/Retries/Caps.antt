-- ===== src/Jobs/Retries/Caps.antt =====
-- How often one job is retried: the policy of backend/services/jobs/retries.py with the counter that
-- `JobQueue.retry` keeps in `jobs.retry_counts`.
use ovrly.Prelude.{
  ℕ, suc, ◌+◌, ◌≤◌, ◌≡◌, inl, inr, refl, Bool, true, Option, none, some, List, [], ◌∷◌, Dict, get,
  put, get-put, str_eq, arith, if◌then◌else◌, Option-cases,
}
use ovrly.Jobs.Retries.Duration.{Seconds}
use ovrly.Jobs.Retries.{RetryClass, value, RetryableError, RetryPolicy, cap, decide, or_zero}
use ovrly.Jobs.Retries.Bounds.{decide-scheduled, decide_exhausted}

-- `func.coalesce(counter, 0) + 1` at the key of the class.
unfoldable pub counted : RetryClass → Dict ℕ → Dict ℕ
counted c counts = put (value c) (or_zero (get (value c) counts) + 1) counts

abbrev pub same_class : RetryClass → RetryClass → Bool
same_class c d = str_eq (value c) (value d)

pub same_class→eq : (c d : RetryClass) → same_class c d ≡ true → c ≡ d
same_class→eq RetryClass.transient RetryClass.transient h = refl
same_class→eq RetryClass.rate_limited RetryClass.rate_limited h = refl
same_class→eq RetryClass.non_retriable_input RetryClass.non_retriable_input h = refl
same_class→eq RetryClass.invalid_model_schema RetryClass.invalid_model_schema h = refl
same_class→eq RetryClass.unknown_outcome RetryClass.unknown_outcome h = refl
same_class→eq c d h = cc

pub get-counted :
    (c d : RetryClass) (counts : Dict ℕ)
    → or_zero (get (value d) (counted c counts)) ≡ (
        if same_class c d
        then or_zero (get (value c) counts) + 1
        else or_zero (get (value d) counts))
unfolding counted
get-counted c d counts =
    rw (get-put (value d) (value c) (or_zero (get (value c) counts) + 1) counts) (ground arith)

-- One failed attempt: the error, the jitter drawn and whether a request id is recorded.
module _ (S : Seconds) where
  pub record Attempt : Type 0 where
    pub error : RetryableError S
    pub jitter : S.Time
    pub recorded : Bool

  abbrev tally : Option S.Time → Bool → ℕ → ℕ
  tally none same later = 0
  tally (some _) same later = if same then suc later else later

  -- The retries of one class that the policy schedules while a job fails again and again, until
  -- the first attempt that it declares exhausted.
  unfoldable pub scheduled : RetryPolicy S → RetryClass → Dict ℕ → List (Attempt) → ℕ
  scheduled p c counts [] = 0
  scheduled p c counts (a ∷ rest) =
      let d = decide S p a.jitter a.error counts a.recorded in
      tally d.delay_seconds (same_class d.decided_class c)
        (scheduled p c (counted d.decided_class counts) rest)

  -- Where the count of a class is within its cap, then however the job fails, the retries
  -- scheduled for the class and those already counted are together at most the cap.
  pub scheduled-le-cap :
      (p : RetryPolicy S) (c : RetryClass) (counts : Dict ℕ) (attempts : List Attempt)
      → or_zero (get (value c) counts) ≤ cap S p c
      → scheduled p c counts attempts + or_zero (get (value c) counts) ≤ cap S p c
  unfolding scheduled
  scheduled-le-cap p c counts [] h = omega arith
  scheduled-le-cap p c counts (a ∷ rest) h =
      let d = decide S p a.jitter a.error counts a.recorded in
      elim (Option-cases d.delay_seconds) [
        | inl exhausted ↦ rw exhausted (omega arith)
        | inr (t, e) ↦ rw e (
            ground (
              arith,
              decide-scheduled S p a.jitter a.error counts a.recorded e,
              decide_exhausted S p a.jitter a.error counts a.recorded,
              get-counted d.decided_class c counts,
              same_class→eq d.decided_class c,
              scheduled-le-cap p c (counted d.decided_class counts) rest,
            ))
      ]
