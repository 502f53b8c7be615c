-- ===== src/Evidence/Merge/Brought.antt =====
-- The assessments and the evidence that a run adds to a report (backend/services/evidence/stages.py).
use ovrly.Prelude.{
  ℕ, ◌≡◌, refl, ap, sym, subst, Bool, true, false, &&-intro, &&-left, &&-right, not, ◌&&◌, ◌||◌,
  Option, none, some, List, [], ◌∷◌, String, str_eq, ◌==◌, any, all, all-append, any-append,
  all_mono, is_in, distinct, distinct-append, is_disjoint, map, eq_iff, ==_iff, arith,
}
use ovrly.Evidence.Records.{
  EvidenceRelation, Evidence, Assessment, Passage, ClaimRetrieval, ClaimOutcome,
}
use ovrly.Evidence.Assessor.{to_evidence, abstains}
use ovrly.Evidence.Assessor.Soundness.{evidence_ids, passage_evidence_ids, Fits, is_related}
use ovrly.Evidence.Citations.{has_relations}
use ovrly.Evidence.CitationRules.{is_cited, is_grounded, assessed_claims}
use ovrly.Evidence.Merge.{
  scope_with, scope_of, append_assessment, new_assessments, append_evidence, new_evidence,
}
use ovrly.Evidence.Merge.Fresh.{
  AreOutcomesOf, retrieval_claims, is_ready, owned-evidence, evidence_ids-append,
  evidence_ids-passages, all_in_longer, not_in_subset, scope_of-retrievals,
}

-- The assessments that are added are those of the claims in scope.
pub assessed_claims-new :
    (version : ℕ) (provisional : Bool) (rs : List ClaimRetrieval) (outcomes : List ClaimOutcome)
    → AreOutcomesOf rs outcomes
    → assessed_claims (new_assessments version provisional outcomes) ≡ scope_of outcomes
unfolding new_assessments scope_of
assessed_claims-new version provisional [] [] h = refl
assessed_claims-new version provisional (r ∷ rs) (o ∷ outcomes) ((same, fits), h) =
    by_assessment o.assessment fits (assessed_claims-new version provisional rs outcomes h)
  where
    by_assessment :
        (a : Option Assessment)
        → Fits r o a
        → assessed_claims (new_assessments version provisional outcomes) ≡ scope_of outcomes
        → assessed_claims
            (append_assessment version provisional a (new_assessments version provisional outcomes))
          ≡ scope_with o a (scope_of outcomes)
    by_assessment none fits ih = ih
    by_assessment (some a) (claim, _, _, _, _) ih = rw (claim, same, ih) refl
assessed_claims-new version provisional [] (o ∷ outcomes) h = absurd h
assessed_claims-new version provisional (r ∷ rs) [] h = absurd h

evidence-claims :
    (claims : List String) (claim_id : String) (passages : List Passage)
    → is_in claim_id claims ≡ true
    → all (λ (e : Evidence). is_in e.claim_id claims) (map (to_evidence claim_id) passages) ≡ true
evidence-claims claims claim_id [] h = refl
evidence-claims claims claim_id (p ∷ passages) h =
    ground (arith, h, evidence-claims claims claim_id passages h)

-- The evidence that is added is of claims of the report.
pub new_evidence-claims :
    (claims : List String) (rs : List ClaimRetrieval) (outcomes : List ClaimOutcome)
    → AreOutcomesOf rs outcomes
    → all (λ (r : ClaimRetrieval). is_in r.claim_id claims) rs ≡ true
    → all (λ (e : Evidence). is_in e.claim_id claims) (new_evidence outcomes) ≡ true
unfolding new_evidence
new_evidence-claims claims [] [] h k = refl
new_evidence-claims claims (r ∷ rs) (o ∷ outcomes) ((_, fits), h) k =
    by_assessment o.assessment fits (new_evidence-claims claims rs outcomes h (&&-right _ _ k))
  where
    by_assessment :
        (a : Option Assessment)
        → Fits r o a
        → all (λ (e : Evidence). is_in e.claim_id claims) (new_evidence outcomes) ≡ true
        → all
            (λ (e : Evidence). is_in e.claim_id claims)
            (append_evidence o a (new_evidence outcomes))
          ≡ true
    by_assessment none fits ih = ih
    by_assessment (some a) (_, evidence, _, _, _) ih =
        rw
          (
            evidence,
            all-append (λ (e : Evidence). is_in e.claim_id claims)
                (map (to_evidence r.claim_id) r.passages) (new_evidence outcomes),
            evidence-claims claims r.claim_id r.passages (&&-left _ _ k),
          )
          ih
new_evidence-claims claims [] (o ∷ outcomes) h k = absurd h
new_evidence-claims claims (r ∷ rs) [] h k = absurd h

module _ (owner : String → String) where
  abbrev owners_in : List String → List String → Bool
  owners_in scope = all (λ x. is_in (owner x) scope)

  -- The evidence that is added is of claims in scope.
  pub new_evidence-owned :
      (rs : List ClaimRetrieval) (outcomes : List ClaimOutcome)
      → AreOutcomesOf rs outcomes
      → all (is_ready owner) rs ≡ true
      → owners_in (scope_of outcomes) (evidence_ids (new_evidence outcomes)) ≡ true
  unfolding new_evidence scope_of
  new_evidence-owned [] [] h k = refl
  new_evidence-owned (r ∷ rs) (o ∷ outcomes) ((same, fits), h) k =
      by_assessment o.assessment fits (new_evidence-owned rs outcomes h (&&-right _ _ k))
    where
      by_assessment :
          (a : Option Assessment)
          → Fits r o a
          → owners_in (scope_of outcomes) (evidence_ids (new_evidence outcomes)) ≡ true
          → owners_in
              (scope_with o a (scope_of outcomes))
              (evidence_ids (append_evidence o a (new_evidence outcomes)))
            ≡ true
      by_assessment none fits ih = ih
      by_assessment (some a) (_, evidence, _, _, _) ih =
          rw
            (
              evidence,
              evidence_ids-append (map (to_evidence r.claim_id) r.passages) (new_evidence outcomes),
              evidence_ids-passages r.claim_id r.passages,
              all-append (λ x. is_in (owner x) (o.claim_id ∷ scope_of outcomes))
                  (passage_evidence_ids r.passages) (evidence_ids (new_evidence outcomes)),
              owned-evidence owner r (o.claim_id ∷ scope_of outcomes) r.passages
                  (rw (same, (eq_iff r.claim_id r.claim_id).1 refl) refl)
                  (&&-left _ _ (&&-left _ _ k)),
            )
            (all_in_longer owner o.claim_id (scope_of outcomes)
              (evidence_ids (new_evidence outcomes)) ih)
  new_evidence-owned [] (o ∷ outcomes) h k = absurd h
  new_evidence-owned (r ∷ rs) [] h k = absurd h

  -- Ids of different claims are different.
  pub is_disjoint-owners :
      (scope xs ys : List String)
      → all (λ x. not (is_in (owner x) scope)) xs ≡ true
      → owners_in scope ys ≡ true
      → is_disjoint xs ys ≡ true
  is_disjoint-owners scope [] ys h k = refl
  is_disjoint-owners scope (x ∷ xs) ys h k =
      ground (arith, is_disjoint-owners scope xs ys, absent x ys (ground (arith, h)) k)
    where
      absent :
          (x : String) (ys : List String)
          → is_in (owner x) scope ≡ false
          → owners_in scope ys ≡ true
          → is_in x ys ≡ false
      absent x [] h k = refl
      absent x (y ∷ ys) h k = ground (arith, absent x ys h, eq_iff x y, same y)
        where
          same : (y : String) → str_eq x y ≡ true → is_in (owner y) scope ≡ false
          same y e = subst (λ z. is_in (owner z) scope ≡ false) ((eq_iff x y).0 e) h

  owners-retrieval :
      (r : ClaimRetrieval) (passages : List Passage) (scope : List String)
      → all (λ (p : Passage). str_eq (owner p.evidence_id) r.claim_id) passages ≡ true
      → is_in r.claim_id scope ≡ false
      → all (λ x. not (is_in (owner x) scope)) (passage_evidence_ids passages) ≡ true
  owners-retrieval r [] scope h k = refl
  owners-retrieval r (p ∷ passages) scope h k = ground (
    arith,
    k,
    owners-retrieval r passages scope,
    ap (λ x. is_in x scope) ((eq_iff (owner p.evidence_id) r.claim_id).0 (&&-left _ _ h)),
  )

  ready-owned :
      (r : ClaimRetrieval) (rs : List ClaimRetrieval)
      → all (is_ready owner) (r ∷ rs) ≡ true
      → all (λ (p : Passage). str_eq (owner p.evidence_id) r.claim_id) r.passages ≡ true
  ready-owned r rs k = ground (arith, k)

  ready-distinct :
      (r : ClaimRetrieval) (rs : List ClaimRetrieval)
      → all (is_ready owner) (r ∷ rs) ≡ true
      → distinct (passage_evidence_ids r.passages) ≡ true
  ready-distinct r rs k = ground (arith, k)

  -- The evidence that is added has each id once.
  pub new_evidence-distinct :
      (rs : List ClaimRetrieval) (outcomes : List ClaimOutcome)
      → AreOutcomesOf rs outcomes
      → all (is_ready owner) rs ≡ true
      → distinct (retrieval_claims rs) ≡ true
      → distinct (evidence_ids (new_evidence outcomes)) ≡ true
  unfolding new_evidence
  new_evidence-distinct [] [] h k d = refl
  new_evidence-distinct (r ∷ rs) (o ∷ outcomes) ((_, fits), h) k d =
      by_assessment o.assessment fits
        (new_evidence-distinct rs outcomes h (&&-right _ _ k) (&&-right _ _ d))
    where
      apart :
          is_disjoint (passage_evidence_ids r.passages) (evidence_ids (new_evidence outcomes))
          ≡ true
      apart =
          is_disjoint-owners (scope_of outcomes) (passage_evidence_ids r.passages)
            (evidence_ids (new_evidence outcomes))
            (owners-retrieval r r.passages (scope_of outcomes) (ready-owned r rs k) (
              not_in_subset r.claim_id (scope_of outcomes) (retrieval_claims rs)
                (scope_of-retrievals rs outcomes h) (ground (arith, d))))
            (new_evidence-owned rs outcomes h
              (&&-right (is_ready owner r) (all (is_ready owner) rs) k))

      by_assessment :
          (a : Option Assessment)
          → Fits r o a
          → distinct (evidence_ids (new_evidence outcomes)) ≡ true
          → distinct (evidence_ids (append_evidence o a (new_evidence outcomes))) ≡ true
      by_assessment none fits ih = ih
      by_assessment (some a) (_, evidence, _, _, _) ih =
          rw
            (
              evidence,
              evidence_ids-append (map (to_evidence r.claim_id) r.passages) (new_evidence outcomes),
              evidence_ids-passages r.claim_id r.passages,
              distinct-append (passage_evidence_ids r.passages)
                  (evidence_ids (new_evidence outcomes)),
              ready-distinct r rs k,
              ih,
            )
            apart
  new_evidence-distinct [] (o ∷ outcomes) h k d = absurd h
  new_evidence-distinct (r ∷ rs) [] h k d = absurd h

-- The evidence of a version contains some other evidence.
abbrev pub Covers : List Evidence → List Evidence → Type 0
Covers evidence part = (p : Evidence → Bool) → any p part ≡ true → any p evidence ≡ true

cited_by_passages :
    (claim_id id : String) (passages : List Passage)
    → is_in id (passage_evidence_ids passages) ≡ true
    → any
        (λ (e : Evidence). str_eq e.id id && str_eq e.claim_id claim_id)
        (map (to_evidence claim_id) passages)
      ≡ true
cited_by_passages claim_id id [] h = cc
cited_by_passages claim_id id (p ∷ passages) h = ground (
  arith,
  h,
  eq_iff claim_id claim_id,
  eq_iff id p.evidence_id,
  eq_iff p.evidence_id id,
  cited_by_passages claim_id id passages,
)

-- An assessment that is added cites evidence that is added with it.
new-is_grounded :
    (r : ClaimRetrieval) (o : ClaimOutcome) (a : Assessment) (evidence : List Evidence)
    → Fits r o (some a)
    → Covers evidence o.evidence
    → is_grounded evidence a ≡ true
new-is_grounded r o a evidence (claim, from, cites, answers, _) covers =
    rw
      (all_mono (λ (x : EvidenceRelation). is_in x.evidence_id (passage_evidence_ids r.passages))
        (is_cited evidence a.claim_id) a.relations
        (λ x h.
          covers _ (rw (claim, from) (cited_by_passages r.claim_id x.evidence_id r.passages h)))
        cites)
      (answered a.relations answers)
  where
    answered :
        (relations : List EvidenceRelation)
        → (is_related relations || abstains a.overall) ≡ true
        → (has_relations relations || abstains a.overall) ≡ true
    answered [] h = h
    answered (x ∷ relations) h = refl

pub new-is_sound :
    (claims : List String) (version : ℕ) (provisional : Bool) (evidence : List Evidence)
    (rs : List ClaimRetrieval) (outcomes : List ClaimOutcome)
    → AreOutcomesOf rs outcomes
    → all (λ (r : ClaimRetrieval). is_in r.claim_id claims) rs ≡ true
    → Covers evidence (new_evidence outcomes)
    → all
        (λ (a : Assessment).
          is_in a.claim_id claims && (a.version == version && is_grounded evidence a))
        (new_assessments version provisional outcomes)
      ≡ true
unfolding new_assessments new_evidence
new-is_sound claims version provisional evidence [] [] h k covers = refl
new-is_sound claims version provisional evidence (r ∷ rs) (o ∷ outcomes) ((_, fits), h) k covers =
    by_assessment o.assessment fits covers
      (new-is_sound claims version provisional evidence rs outcomes h (&&-right _ _ k))
  where
    known : is_in r.claim_id claims ≡ true
    known =
        &&-left (is_in r.claim_id claims) (all (λ (s : ClaimRetrieval). is_in s.claim_id claims) rs)
          k

    by_assessment :
        (a : Option Assessment)
        → Fits r o a
        → Covers evidence (append_evidence o a (new_evidence outcomes))
        → (Covers evidence (new_evidence outcomes)
            → all
                (λ (a : Assessment).
                  is_in a.claim_id claims && (a.version == version && is_grounded evidence a))
                (new_assessments version provisional outcomes)
              ≡ true)
        → all
            (λ (a : Assessment).
              is_in a.claim_id claims && (a.version == version && is_grounded evidence a))
            (append_assessment version provisional a (new_assessments version provisional outcomes))
          ≡ true
    by_assessment none fits covers ih = ih covers
    by_assessment (some a) fits covers ih =
        let later : Covers evidence (new_evidence outcomes) = λ p e.
          covers p (rw (any-append p o.evidence (new_evidence outcomes)) (ground (arith, e))) in
        let own : Covers evidence o.evidence = λ p e.
          covers p (rw (any-append p o.evidence (new_evidence outcomes)) (ground (arith, e))) in
        &&-intro _ _
          (&&-intro _ _ (subst (λ c. is_in c claims ≡ true) (sym fits.0) known) (
            &&-intro _ _ ((==_iff version version).1 refl)
              (new-is_grounded r o a evidence fits own)))
          (ih later)
new-is_sound claims version provisional evidence [] (o ∷ outcomes) h k covers = absurd h
new-is_sound claims version provisional evidence (r ∷ rs) [] h k covers = absurd h
