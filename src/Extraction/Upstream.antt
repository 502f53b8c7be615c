-- ===== src/Extraction/Upstream.antt =====
-- A submission of an upstream producer (backend/services/pipeline/incremental.py): what comes late or over the bound
-- is no error.
use ovrly.Prelude.{
  ℕ, ◌+◌, ◌≤◌, ◌≡◌, refl, sym, false≢true, Bool, true, false, not, ◌&&◌, ◌||◌, ◌⊎◌, inl, inr,
  Option, none, some, List, [], ◌∷◌, String, ltb, leb, if◌then◌else◌, length, length-append, to_set,
  is_some, Outcome, ok, err, ◌>>=◌, arith,
}
use ovrly.Extraction.Runs.{Observation, Item, Run}
use ovrly.Extraction.Windows.{sources, timebases}
use ovrly.Extraction.Sorts.{sort_items, sort_unadmitted}
use ovrly.Extraction.Equality.{observation_eq}
use ovrly.Extraction.Intake.{
  Intake, IntakeError, Admitted, find_item, known_or, admit_new, add_item, new_item, admit,
  admit_each, admitted_of, take_in, with_admitted, over_bound, reused_identifier, mixed_timebases,
  is_refused, refuse,
}

data TakenOrReused (bound : ℕ) : Outcome IntakeError Admitted → Type 0 where
  in_bound : (b : Admitted) → length b.existing ≤ bound → TakenOrReused bound (ok b)
  reused : TakenOrReused bound (err reused_identifier)

of_new :
    (bound : ℕ) (o : Observation) (a : Admitted) (producer refused late full closed : Bool)
    (late_reason full_reason : String)
    → producer ≡ true
    → length a.existing ≤ bound
    → (closed ≡ true → late ≡ true)
    → (full ≡ false → length a.existing + 1 ≤ bound)
    → TakenOrReused bound (
        if producer && not refused
        then if late
          then ok (refuse o late_reason a)
          else if full
          then ok (refuse o full_reason a)
          else add_item closed o a
        else if refused
        then ok a
        else add_item closed o a)
of_new bound o a false refused late full closed r s p few h k = absurd (false≢true p)
of_new bound o a true true late full closed r s p few h k = in_bound a few
of_new bound o a true false true full closed r s p few h k = in_bound _ few
of_new bound o a true false false true closed r s p few h k = in_bound _ few
of_new bound o a true false false false true r s p few h k = absurd (false≢true (h refl))
of_new bound o a true false false false false r s p few h k =
    in_bound _ (omega (arith, k refl, length-append a.existing (new_item o ∷ [])))

admit-TakenOrReused :
    (q : Intake) (closed : Bool) (o : Observation) (a : Admitted)
    → is_some q.producer ≡ true
    → length a.existing ≤ q.policy.max_observations
    → TakenOrReused q.policy.max_observations (admit closed q o a)
admit-TakenOrReused q closed o a p few = by_find (find_item o.id a.existing)
  where
    by_eq :
        (same : Bool)
        → TakenOrReused q.policy.max_observations (if same then ok a else err reused_identifier)
    by_eq true = in_bound a few
    by_eq false = reused

    by_find :
        (found : Option Item)
        → TakenOrReused q.policy.max_observations (known_or o a found (admit_new closed q o a))
    by_find none =
        of_new q.policy.max_observations o a (is_some q.producer) (is_refused o.id a.unadmitted)
          (closed || q.finalized) (leb q.policy.max_observations (length a.existing)) closed
          "input_closed" "budget_exhausted" p few (λ c. ground (arith, c)) (λ f. ground (arith, f))
    by_find (some i) = by_eq (observation_eq i.source o)

then-TakenOrReused :
    (bound : ℕ) (next : Admitted → Outcome IntakeError Admitted) {r : Outcome IntakeError Admitted}
    → TakenOrReused bound r
    → ((b : Admitted) → length b.existing ≤ bound → TakenOrReused bound (next b))
    → TakenOrReused bound (r >>= next)
then-TakenOrReused bound next (in_bound b few) h = h b few
then-TakenOrReused bound next reused h = reused

admit_each-TakenOrReused :
    (q : Intake) (closed : Bool) (observations : List Observation) (a : Admitted)
    → is_some q.producer ≡ true
    → length a.existing ≤ q.policy.max_observations
    → TakenOrReused q.policy.max_observations (admit_each closed q observations a)
unfolding admit_each
admit_each-TakenOrReused q closed [] a p few = in_bound a few
admit_each-TakenOrReused q closed (o ∷ observations) a p few =
    then-TakenOrReused q.policy.max_observations (admit_each closed q observations)
      (admit-TakenOrReused q closed o a p few)
      (λ b few. admit_each-TakenOrReused q closed observations b p few)

of_admitted :
    (q : Intake) (run : Run) (e : IntakeError) {r : Outcome IntakeError Admitted}
    → TakenOrReused q.policy.max_observations r
    → (r >>= with_admitted q run) ≡ err e
    → (e ≡ reused_identifier) ⊎ (e ≡ mixed_timebases)
of_admitted q run e reused h = inl cc
of_admitted q run e (in_bound b few) h =
    by_tests (ltb q.policy.max_observations (length b.existing))
      (ltb 1 (length (to_set (timebases (sources (sort_items b.existing)))))) (ground (arith, few))
      h
  where
    by_tests :
        (many mixed : Bool)
        → many ≡ false
        → (if many
            then err over_bound
            else if mixed
            then err mixed_timebases
            else ok (record run {
              observations = sort_items b.existing;
              unadmitted = sort_unadmitted b.unadmitted;
              closed = run.closed || q.closed;
            }))
          ≡ err e
        → (e ≡ reused_identifier) ⊎ (e ≡ mixed_timebases)
    by_tests true mixed m h = absurd (false≢true (sym m))
    by_tests false true m h = inr cc
    by_tests false false m h = cc

-- Input of an upstream producer that comes late or over the bound is no error: once the checks on
-- the run have passed, taking in what a producer submits fails only for an id that is reused for
-- changed content or for mixed timebases, where the run has no more observations than the policy
-- admits.
pub take_in-upstream :
    (q : Intake) (run : Run) (e : IntakeError)
    → is_some q.producer ≡ true
    → length run.observations ≤ q.policy.max_observations
    → take_in q run ≡ err e
    → (e ≡ reused_identifier) ⊎ (e ≡ mixed_timebases)
take_in-upstream q run e p few h =
    of_admitted q run e
      (admit_each-TakenOrReused q run.closed q.observations (admitted_of run) p few) h
