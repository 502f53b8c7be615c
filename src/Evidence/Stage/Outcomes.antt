-- ===== src/Evidence/Stage/Outcomes.antt =====
-- The outcomes that `_assessment` of backend/services/evidence/stages.py makes of its retrievals.
use ovrly.Prelude.{
  ℕ, suc, ◌≡◌, refl, ap, subst, Bool, true, Bool-cases, inl, inr, &&-intro, ◌||◌, Option, none,
  some, List, [], ◌∷◌, String, eq_iff, if◌then◌else◌, all, select, Dict, get, put, get-put, is_in,
  is_some, Outcome, ok, err, >>=-eq-ok, ok_injective, arith,
}
use ovrly.Evidence.Records.{Claim, ClaimRetrieval, ClaimOutcome}
use ovrly.Evidence.Assessor.{AssessError, assess}
use ovrly.Evidence.Assessor.Soundness.{assess-IsOutcomeOf}
use ovrly.Evidence.Citations.{claim_ids}
use ovrly.Evidence.Merge.Fresh.{AreOutcomesOf}
use ovrly.Evidence.Stage.{
  StageWorld, StageError, propositions, of_assess, assess_known, assess_each,
}

abbrev pub is_known : Dict String → ClaimRetrieval → Bool
is_known known r = is_some (get r.claim_id known)

-- The outcomes are those of the retrievals whose claim the version has.
pub assess_each-AreOutcomesOf :
    (w : StageWorld) (known : Dict String) (n max_llm_calls version : ℕ) (provisional : Bool)
    (rs : List ClaimRetrieval) (outcomes : List ClaimOutcome)
    → assess_each w known n max_llm_calls version provisional rs ≡ ok outcomes
    → AreOutcomesOf (select (is_known known) rs) outcomes
unfolding assess_each
assess_each-AreOutcomesOf w known n max_llm_calls version provisional [] outcomes h =
    subst (AreOutcomesOf []) (ok_injective StageError h) tt
assess_each-AreOutcomesOf w known n max_llm_calls version provisional (r ∷ rs) outcomes h =
    by_proposition (get r.claim_id known)
      (λ later e.
        assess_each-AreOutcomesOf w known (suc n) max_llm_calls version provisional rs later e)
      h
  where
    by_proposition :
        (proposition : Option String)
        → ((later : List ClaimOutcome)
            → assess_each w known (suc n) max_llm_calls version provisional rs ≡ ok later
            → AreOutcomesOf (select (is_known known) rs) later)
        → assess_known w n max_llm_calls version provisional r proposition
            (assess_each w known (suc n) max_llm_calls version provisional rs)
          ≡ ok outcomes
        → AreOutcomesOf
            (if is_some proposition
              then r ∷ select (is_known known) rs
              else select (is_known known) rs)
            outcomes
    by_proposition none ih h = ih outcomes h
    by_proposition (some proposition) ih h =
        let (o, e, h') =
          >>=-eq-ok
            (of_assess
              (assess w.wording (w.routers n) max_llm_calls proposition r version provisional))
            _ h in
        let (later, f, h'') =
          >>=-eq-ok (assess_each w known (suc n) max_llm_calls version provisional rs) _ h' in
        subst (AreOutcomesOf (r ∷ select (is_known known) rs)) (ok_injective StageError h'') (
          assess-IsOutcomeOf w.wording (w.routers n) max_llm_calls proposition r version provisional
              o (returned _ e),
          ih later f,
        )
      where
        returned :
            (m : Outcome AssessError ClaimOutcome) {o : ClaimOutcome}
            → of_assess m ≡ ok o
            → m ≡ ok o
        returned (ok a) e = ap ok (ok_injective StageError e)
        returned (err x) e = cc

propositions-claim_ids :
    (x : String) (claims : List Claim) (found : Dict String)
    → is_some (get x (propositions claims found))
      ≡ (is_in x (claim_ids claims) || is_some (get x found))
unfolding propositions
propositions-claim_ids x [] found = refl
propositions-claim_ids x (c ∷ claims) found = ground (
  arith,
  propositions-claim_ids x claims (put c.id c.proposition found),
  get-put x c.id c.proposition found,
  eq_iff x c.id,
  eq_iff c.id x,
)

abbrev pub no_propositions : Dict String
no_propositions = []

pub select-known :
    (claims : List Claim) (rs : List ClaimRetrieval)
    → all
        (λ (r : ClaimRetrieval). is_in r.claim_id (claim_ids claims))
        (select (is_known (propositions claims no_propositions)) rs)
      ≡ true
select-known claims [] = refl
select-known claims (r ∷ rs) =
    elim (Bool-cases (is_known (propositions claims no_propositions) r)) [
      | inl there ↦ rw there (
          &&-intro _ _
            (ground (arith, there, propositions-claim_ids r.claim_id claims no_propositions))
            (select-known claims rs))
      | inr gone ↦ rw gone (select-known claims rs)
    ]
