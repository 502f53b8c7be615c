-- ===== src/Evidence/Merge/Fresh.antt =====
-- What a run's outcomes bring into the next version (backend/services/evidence/stages.py).
use ovrly.Prelude.{
  ◌≡◌, refl, ap, inl, inr, Bool, true, false, Bool-cases, &&-left, &&-right, ◌&&◌, Option, none,
  some, List, [], ◌∷◌, ◌++◌, String, str_eq, all, is_in, distinct, map, eq_iff, arith,
}
use ovrly.Evidence.Records.{Evidence, Assessment, Passage, ClaimRetrieval, ClaimOutcome}
use ovrly.Evidence.Assessor.{to_evidence}
use ovrly.Evidence.Assessor.Soundness.{evidence_ids, passage_evidence_ids, IsOutcomeOf}
use ovrly.Evidence.Merge.{scope_with, scope_of}

-- Each outcome is that of the retrieval at its place.
abbrev pub AreOutcomesOf : List ClaimRetrieval → List ClaimOutcome → Type 0
AreOutcomesOf [] [] = Unit
AreOutcomesOf (r ∷ rs) (o ∷ outcomes) = IsOutcomeOf r o × AreOutcomesOf rs outcomes
AreOutcomesOf [] (_ ∷ _) = ⊥
AreOutcomesOf (_ ∷ _) [] = ⊥

abbrev pub retrieval_claims : List ClaimRetrieval → List String
retrieval_claims = map (λ (r : ClaimRetrieval). r.claim_id)

-- An evidence id names its claim: it is a digest of the claim and the origin. `owner` reads it.
module _ (owner : String → String) where
  -- The passages of a retrieval have evidence ids of its claim, each once.
  abbrev pub is_ready : ClaimRetrieval → Bool
  is_ready r =
      all (λ (p : Passage). str_eq (owner p.evidence_id) r.claim_id) r.passages
      && distinct (passage_evidence_ids r.passages)

  pub owned-evidence :
      (r : ClaimRetrieval) (scope : List String) (passages : List Passage)
      → is_in r.claim_id scope ≡ true
      → all (λ (p : Passage). str_eq (owner p.evidence_id) r.claim_id) passages ≡ true
      → all (λ x. is_in (owner x) scope) (passage_evidence_ids passages) ≡ true
  owned-evidence r scope [] h k = refl
  owned-evidence r scope (p ∷ passages) h k = ground (
    arith,
    owned-evidence r scope passages h,
    eq_iff (owner p.evidence_id) r.claim_id,
    ap (λ x. is_in x scope) ((eq_iff (owner p.evidence_id) r.claim_id).0 (&&-left _ _ k)),
  )

pub evidence_ids-append :
    (xs ys : List Evidence) → evidence_ids (xs ++ ys) ≡ evidence_ids xs ++ evidence_ids ys
evidence_ids-append [] ys = refl
evidence_ids-append (x ∷ xs) ys = ap (λ ids. x.id ∷ ids) (evidence_ids-append xs ys)

pub evidence_ids-passages :
    (claim_id : String) (passages : List Passage)
    → evidence_ids (map (to_evidence claim_id) passages) ≡ passage_evidence_ids passages
evidence_ids-passages claim_id [] = refl
evidence_ids-passages claim_id (p ∷ passages) =
    ap (λ ids. p.evidence_id ∷ ids) (evidence_ids-passages claim_id passages)

pub all_in_longer :
    (f : String → String) (y : String) (ys xs : List String)
    → all (λ x. is_in (f x) ys) xs ≡ true
    → all (λ x. is_in (f x) (y ∷ ys)) xs ≡ true
all_in_longer f y ys [] h = refl
all_in_longer f y ys (x ∷ xs) h = ground (arith, all_in_longer f y ys xs)

-- The claims in scope are claims of the retrievals, each once.
pub scope_of-retrievals :
    (rs : List ClaimRetrieval) (outcomes : List ClaimOutcome)
    → AreOutcomesOf rs outcomes
    → all (λ x. is_in x (retrieval_claims rs)) (scope_of outcomes) ≡ true
unfolding scope_of
scope_of-retrievals [] [] h = refl
scope_of-retrievals (r ∷ rs) (o ∷ outcomes) ((same, _), h) =
    by_assessment o.assessment (scope_of-retrievals rs outcomes h)
  where
    by_assessment :
        (a : Option Assessment)
        → all (λ x. is_in x (retrieval_claims rs)) (scope_of outcomes) ≡ true
        → all (λ x. is_in x (retrieval_claims (r ∷ rs))) (scope_with o a (scope_of outcomes)) ≡ true
    by_assessment none ih =
        all_in_longer (λ x. x) r.claim_id (retrieval_claims rs) (scope_of outcomes) ih
    by_assessment (some a) ih =
        rw (same, (eq_iff r.claim_id r.claim_id).1 refl)
          (all_in_longer (λ x. x) r.claim_id (retrieval_claims rs) (scope_of outcomes) ih)
scope_of-retrievals [] (o ∷ outcomes) h = absurd h
scope_of-retrievals (r ∷ rs) [] h = absurd h

pub not_in_subset :
    (x : String) (xs ys : List String)
    → all (λ y. is_in y ys) xs ≡ true
    → is_in x ys ≡ false
    → is_in x xs ≡ false
not_in_subset x [] ys h k = refl
not_in_subset x (y ∷ xs) ys h k = elim (Bool-cases (str_eq x y)) [
  | inl same ↦ absurd (clash (ap (λ z. is_in z ys) ((eq_iff x y).0 same)))
  | inr other ↦ rw other (not_in_subset x xs ys (&&-right _ _ h) k)
]
  where
    clash : is_in x ys ≡ is_in y ys → ⊥
    clash e = ground (arith, h, k, e)

pub scope_of-distinct :
    (rs : List ClaimRetrieval) (outcomes : List ClaimOutcome)
    → AreOutcomesOf rs outcomes
    → distinct (retrieval_claims rs) ≡ true
    → distinct (scope_of outcomes) ≡ true
unfolding scope_of
scope_of-distinct [] [] h d = refl
scope_of-distinct (r ∷ rs) (o ∷ outcomes) ((same, _), h) d =
    by_assessment o.assessment (scope_of-distinct rs outcomes h (&&-right _ _ d))
  where
    by_assessment :
        (a : Option Assessment)
        → distinct (scope_of outcomes) ≡ true
        → distinct (scope_with o a (scope_of outcomes)) ≡ true
    by_assessment none ih = ih
    by_assessment (some a) ih =
        rw
          (
            same,
            not_in_subset r.claim_id (scope_of outcomes) (retrieval_claims rs)
                (scope_of-retrievals rs outcomes h) (ground (arith, d)),
          )
          ih
scope_of-distinct [] (o ∷ outcomes) h d = absurd h
scope_of-distinct (r ∷ rs) [] h d = absurd h
