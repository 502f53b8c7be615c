-- ===== src/Evidence/Assessor/Retracted.antt =====
-- Sources that are retracted or withdrawn count for nothing in an assessment
-- (backend/services/evidence/assessment.py).
use ovrly.Prelude.{
  ℕ, ◌≡◌, refl, sym, subst, ◌∙◌, Bool, true, false, Bool-cases, inl, inr, not, ◌&&◌, ◌||◌, Option,
  none, some, ok_injective, List, [], ◌∷◌, String, str_eq, any, all, map, Dict, ok, eq_iff, arith,
  if◌then◌else◌,
}
use ovrly.Evidence.Records.{
  Relation, relation_eq, EvidenceRelation, Assessment, Passage, ClaimRetrieval, ClaimOutcome,
}
use ovrly.Evidence.Overall.{overall, overall-label_of, relation_eq_same, occurs}
use ovrly.Evidence.Assessor.{
  Wording, Router, relation_of, relate, counted_pairs, abstains, assessed, assess, AssessError,
}
use ovrly.Evidence.Assessor.Soundness.{
  is_counted, assess_cases, relate-step, relation_of-id, all_insufficient,
}

-- The relations and origins of the passages that count.
abbrev pub counted_of : List Passage → List EvidenceRelation → List (Relation × String)
counted_of [] relations = []
counted_of (p ∷ passages) [] = []
counted_of (p ∷ passages) (x ∷ relations) =
    let rest = counted_of passages relations in
    if is_counted p then (x.relation, p.origin) ∷ rest else rest

-- There is one relation for each passage, in their order, and it is insufficient where the passage does not count.
abbrev pub is_neutral : List Passage → List EvidenceRelation → Bool
is_neutral [] [] = true
is_neutral [] (x ∷ relations) = false
is_neutral (p ∷ passages) [] = false
is_neutral (p ∷ passages) (x ∷ relations) =
    str_eq x.evidence_id p.evidence_id
    && ((is_counted p || relation_eq x.relation Relation.insufficient)
        && is_neutral passages relations)

-- A relation that says something of the claim.
abbrev pub is_settling : Relation × String → Bool
is_settling p = not (relation_eq p.0 Relation.insufficient)

abbrev cited : List (EvidenceRelation × String) → List EvidenceRelation
cited = map (λ x. x.0)

retracted_insufficient :
    (w : Wording) (p : Passage) (label : Relation × String)
    → (is_counted p || relation_eq (relation_of w p label).relation Relation.insufficient) ≡ true
unfolding relation_eq
retracted_insufficient w p (relation, note) = ground arith

relate-is_neutral :
    (w : Wording) (labels : Dict (Relation × String)) (passages : List Passage)
    (related : List (EvidenceRelation × String))
    → relate w labels passages ≡ ok related
    → is_neutral passages (cited related) ≡ true
unfolding relate
relate-is_neutral w labels [] related h = rw (← ok_injective AssessError h) refl
relate-is_neutral w labels (p ∷ passages) related h =
    let (label, rest, e, f) = relate-step w labels p passages h in
    rw f (
      ground (
        arith,
        relation_of-id w p label,
        eq_iff (relation_of w p label).evidence_id p.evidence_id,
        retracted_insufficient w p label,
        relate-is_neutral w labels passages rest e,
      ))

relate-occurs :
    (w : Wording) (q : Relation) (labels : Dict (Relation × String)) (passages : List Passage)
    (related : List (EvidenceRelation × String))
    → relation_eq Relation.insufficient q ≡ false
    → relate w labels passages ≡ ok related
    → occurs q (counted_pairs related) ≡ occurs q (counted_of passages (cited related))
unfolding relate
relate-occurs w q labels [] related k h = rw (← ok_injective AssessError h) refl
relate-occurs w q labels (p ∷ passages) related k h =
    let (label, rest, e, f) = relate-step w labels p passages h in
    rw f (
      ground (
        arith,
        k,
        retracted_insufficient w p label,
        relation_eq_same (relation_of w p label).relation Relation.insufficient q,
        relate-occurs w q labels passages rest k e,
      ))

-- The verdict of all sources is that of the sources that count.
overall-counted_of :
    (w : Wording) (labels : Dict (Relation × String)) (passages : List Passage)
    (related : List (EvidenceRelation × String))
    → relate w labels passages ≡ ok related
    → overall (counted_pairs related) ≡ overall (counted_of passages (cited related))
unfolding relation_eq
overall-counted_of w labels passages related h =
    overall-label_of (counted_pairs related)
    ∙ (rw
        (
          relate-occurs w Relation.support labels passages related refl h,
          relate-occurs w Relation.challenge labels passages related refl h,
          relate-occurs w Relation.qualify labels passages related refl h,
          relate-occurs w Relation.mixed labels passages related refl h,
        )
        (sym (overall-label_of (counted_of passages (cited related)))))

all_or_settling :
    (pairs : List (Relation × String))
    → any is_settling pairs ≡ false
    → all (λ (p : Relation × String). relation_eq p.0 Relation.insufficient) pairs ≡ true
all_or_settling [] h = refl
all_or_settling (p ∷ pairs) h = ground (arith, h, all_or_settling pairs)

settling-overall :
    (pairs : List (Relation × String)) → (any is_settling pairs || abstains (overall pairs)) ≡ true
unfolding relation_eq
settling-overall pairs = elim (Bool-cases (any is_settling pairs)) [
  | inl found ↦ rw found refl
  | inr empty ↦
      let k = all_or_settling pairs empty in
      rw
        (
          empty,
          overall-label_of pairs,
          all_insufficient Relation.support pairs refl k,
          all_insufficient Relation.challenge pairs refl k,
          all_insufficient Relation.qualify pairs refl k,
          all_insufficient Relation.mixed pairs refl k,
        )
        refl
]

abbrev Weighs : List Passage → Assessment → Type 0
Weighs passages a =
    (is_neutral passages a.relations ≡ true)
    × (a.overall ≡ overall (counted_of passages a.relations))
    × ((any is_settling (counted_of passages a.relations) || abstains a.overall) ≡ true)

abbrev WeighsIfAny : List Passage → Option Assessment → Type 0
WeighsIfAny passages none = Unit
WeighsIfAny passages (some a) = Weighs passages a

-- Retracted and withdrawn sources count for nothing in an assessment, whatever the router answers:
-- it has one relation for each passage, in their order, which is insufficient where the source is
-- retracted or withdrawn; its verdict is that of the other sources alone; and it abstains unless
-- one of those has a relation that is not insufficient.
pub assess-counts :
    (w : Wording) (c : Router) (max_llm_calls : ℕ) (proposition : String) (r : ClaimRetrieval)
    (version : ℕ) (provisional : Bool) (o : ClaimOutcome) (a : Assessment)
    → assess w c max_llm_calls proposition r version provisional ≡ ok o
    → o.assessment ≡ some a
    → (is_neutral r.passages a.relations ≡ true)
      × (a.overall ≡ overall (counted_of r.passages a.relations))
      × ((any is_settling (counted_of r.passages a.relations) || abstains a.overall) ≡ true)
assess-counts w c max_llm_calls proposition r version provisional o a h k =
    subst (WeighsIfAny r.passages) k (
      assess_cases (λ x. WeighsIfAny r.passages x.assessment) w r version provisional
        (λ labels related e. weighs labels related e) (λ reason. tt) c max_llm_calls proposition o
        h)
  where
    weighs :
        (labels : Dict (Relation × String)) (related : List (EvidenceRelation × String))
        → relate w labels r.passages ≡ ok related
        → WeighsIfAny r.passages (assessed w r version provisional related).assessment
    weighs labels related e =
        let same = overall-counted_of w labels r.passages related e in
        (
          relate-is_neutral w labels r.passages related e,
          same,
          subst
              (λ l. (any is_settling (counted_of r.passages (cited related)) || abstains l) ≡ true)
              (sym same) (settling-overall (counted_of r.passages (cited related))),
        )
