-- ===== src/Evidence/Assessor/Soundness.antt =====
-- What an assessment cites, and when it abstains (backend/services/evidence/assessment.py).
use ovrly.Prelude.{
  ℕ, ◌≡◌, refl, ap, sym, subst, Bool, true, false, Bool-cases, inl, inr, not, ◌||◌, Option, none,
  some, List, [], ◌∷◌, String, any, all, map, Dict, get, Outcome, ok, err, >>=-eq-ok, ok_injective,
  is_in, eq_iff, arith,
}
use ovrly.Evidence.Records.{
  Relation, relation_eq, insufficient_evidence, EvidenceRelation, Evidence, Assessment, Passage,
  ClaimRetrieval, ClaimOutcome,
}
use ovrly.Evidence.Overall.{overall, overall-label_of, relation_eq_same, occurs}
use ovrly.Evidence.Router.{RouterFailure, provider_error, budget_exhausted, invalid_reply}
use ovrly.Evidence.Replies.{RelationReply, labelled}
use ovrly.Evidence.Assessor.{
  Wording, Router, AssessError, is_retracted, relation_of, or_key_error, relate, counted_pairs,
  to_evidence, abstains, unassessed, assessed, conclude, after_structured, assess_passages, assess,
}

abbrev pub evidence_ids : List Evidence → List String
evidence_ids = map (λ (e : Evidence). e.id)

abbrev pub is_related : List EvidenceRelation → Bool
is_related [] = false
is_related (_ ∷ _) = true

abbrev pub passage_evidence_ids : List Passage → List String
passage_evidence_ids = map (λ (p : Passage). p.evidence_id)

abbrev pub is_counted : Passage → Bool
is_counted p = not (is_retracted p)

-- The parts of an assessment that a report's validation looks at, by the retrieval it is made from.
abbrev pub Fits : ClaimRetrieval → ClaimOutcome → Option Assessment → Type 0
Fits r o none = Unit
Fits r o (some a) =
    (a.claim_id ≡ r.claim_id)
    × (o.evidence ≡ map (to_evidence r.claim_id) r.passages)
    × (all (λ (x : EvidenceRelation). is_in x.evidence_id (passage_evidence_ids r.passages))
          a.relations
        ≡ true)
    × ((is_related a.relations || abstains a.overall) ≡ true)
    × ((any is_counted r.passages || abstains a.overall) ≡ true)

abbrev pub IsOutcomeOf : ClaimRetrieval → ClaimOutcome → Type 0
IsOutcomeOf r o = (o.claim_id ≡ r.claim_id) × Fits r o o.assessment

pub relation_of-id :
    (w : Wording) (p : Passage) (label : Relation × String)
    → (relation_of w p label).evidence_id ≡ p.evidence_id
relation_of-id w p (relation, note) = ground arith

-- Inversion of a step of the loop.
pub relate-step :
    (w : Wording) (labels : Dict (Relation × String)) (p : Passage) (passages : List Passage)
    {related : List (EvidenceRelation × String)}
    → relate w labels (p ∷ passages) ≡ ok related
    → (label : Relation × String) × (rest : List (EvidenceRelation × String)) × (relate w labels
          passages
        ≡ ok rest)
      × (related ≡ (relation_of w p label, p.origin) ∷ rest)
unfolding relate
relate-step w labels p passages h =
    let (label, _, h') = >>=-eq-ok (or_key_error (get p.passage_id labels)) _ h in
    let (rest, e, h'') = >>=-eq-ok (relate w labels passages) _ h' in
    (label, rest, e, sym (ok_injective AssessError h''))

all_in_longer :
    (x : String) (ids : List String) (rs : List EvidenceRelation)
    → all (λ (r : EvidenceRelation). is_in r.evidence_id ids) rs ≡ true
    → all (λ (r : EvidenceRelation). is_in r.evidence_id (x ∷ ids)) rs ≡ true
all_in_longer x ids [] h = refl
all_in_longer x ids (r ∷ rs) h = ground (arith, all_in_longer x ids rs)

-- Each relation cites the evidence of its passage.
relate-cites :
    (w : Wording) (labels : Dict (Relation × String)) (passages : List Passage)
    (related : List (EvidenceRelation × String))
    → relate w labels passages ≡ ok related
    → all
        (λ (r : EvidenceRelation). is_in r.evidence_id (passage_evidence_ids passages))
        (map (λ x. x.0) related)
      ≡ true
unfolding relate
relate-cites w labels [] related h = rw (← ok_injective AssessError h) refl
relate-cites w labels (p ∷ passages) related h =
    let (label, rest, e, f) = relate-step w labels p passages h in
    rw f (
      ground (
        arith,
        relation_of-id w p label,
        eq_iff (relation_of w p label).evidence_id p.evidence_id,
        all_in_longer p.evidence_id (passage_evidence_ids passages) (map (λ x. x.0) rest)
            (relate-cites w labels passages rest e),
      ))

overall-nil : overall [] ≡ insufficient_evidence
overall-nil = overall-label_of []

abstains_or_relates :
    (related : List (EvidenceRelation × String))
    → (is_related (map (λ x. x.0) related) || abstains (overall (counted_pairs related))) ≡ true
abstains_or_relates [] = ap abstains overall-nil
abstains_or_relates (x ∷ related) = refl

-- Where no passage counts, every pair is insufficient.
relate-insufficient :
    (w : Wording) (labels : Dict (Relation × String)) (passages : List Passage)
    (related : List (EvidenceRelation × String))
    → relate w labels passages ≡ ok related
    → any is_counted passages ≡ false
    → all (λ (p : Relation × String). relation_eq p.0 Relation.insufficient) (counted_pairs related)
      ≡ true
unfolding relate relation_eq
relate-insufficient w labels [] related h k = rw (← ok_injective AssessError h) refl
relate-insufficient w labels (p ∷ passages) related h k =
    let ((relation, note), rest, e, f) = relate-step w labels p passages h in
    let retracted : is_retracted p ≡ true = ground (arith, k) in
    let later : any is_counted passages ≡ false = ground (arith, k) in
    rw (f, retracted) (relate-insufficient w labels passages rest e later)

pub all_insufficient :
    (q : Relation) (pairs : List (Relation × String))
    → relation_eq Relation.insufficient q ≡ false
    → all (λ (p : Relation × String). relation_eq p.0 Relation.insufficient) pairs ≡ true
    → occurs q pairs ≡ false
all_insufficient q [] h k = refl
all_insufficient q ((relation, origin) ∷ pairs) h k =
    ground (arith, h, all_insufficient q pairs, relation_eq_same relation Relation.insufficient q)

abstains_or_counts :
    (w : Wording) (labels : Dict (Relation × String)) (passages : List Passage)
    (related : List (EvidenceRelation × String))
    → relate w labels passages ≡ ok related
    → (any is_counted passages || abstains (overall (counted_pairs related))) ≡ true
unfolding relation_eq
abstains_or_counts w labels passages related h = elim (Bool-cases (any is_counted passages)) [
  | inl counts ↦ rw counts refl
  | inr empty ↦
      let k = relate-insufficient w labels passages related h empty in
      rw
        (
          empty,
          overall-label_of (counted_pairs related),
          all_insufficient Relation.support (counted_pairs related) refl k,
          all_insufficient Relation.challenge (counted_pairs related) refl k,
          all_insufficient Relation.qualify (counted_pairs related) refl k,
          all_insufficient Relation.mixed (counted_pairs related) refl k,
        )
        refl
]

-- An outcome of `assess` is an assessment from related passages, or none.
module _ (P : ClaimOutcome → Type 0) (w : Wording) (r : ClaimRetrieval) (version : ℕ)
    (provisional : Bool)
    (some_assessment : (labels : Dict (Relation × String))
        (related : List (EvidenceRelation × String))
      → relate w labels r.passages ≡ ok related
      → P (assessed w r version provisional related))
    (no_assessment : (reason : Option String) → P (unassessed r.claim_id reason)) where
  of_conclude :
      (labels : Dict (Relation × String)) (o : ClaimOutcome)
      → conclude w r version provisional labels ≡ ok o
      → P o
  of_conclude labels o h =
      let (related, e, f) =
        >>=-eq-ok (relate w labels r.passages)
          (λ related. ok (assessed w r version provisional related)) h in
      subst P (ok_injective AssessError f) (some_assessment labels related e)

  of_none :
      (reason : Option String) (o : ClaimOutcome)
      → Path (Outcome AssessError ClaimOutcome) (ok (unassessed r.claim_id reason)) (ok o)
      → P o
  of_none reason o h = subst P (ok_injective AssessError h) (no_assessment reason)

  of_structured :
      (reply : Outcome RouterFailure RelationReply) (o : ClaimOutcome)
      → after_structured w r version provisional reply ≡ ok o
      → P o
  of_structured (ok reply) o h = of_conclude (labelled w.note reply []) o h
  of_structured (err budget_exhausted) o h = of_none _ o h
  of_structured (err invalid_reply) o h = of_none _ o h
  of_structured (err provider_error) o h = of_none _ o h
  of_structured (err e) o h = cc

  pub assess_cases :
      (c : Router) (max_llm_calls : ℕ) (proposition : String) (o : ClaimOutcome)
      → assess w c max_llm_calls proposition r version provisional ≡ ok o
      → P o
  unfolding assess
  assess_cases c max_llm_calls proposition o h = elim (Bool-cases r.retrieved) [
    | inl found ↦ of_passages r.passages (rw found at h)
    | inr missing ↦ of_none r.reason o (rw missing at h)
  ]
    where
      of_passages :
          (passages : List Passage)
          → assess_passages w c max_llm_calls proposition r version provisional passages ≡ ok o
          → P o
      of_passages [] h = of_conclude [] o h
      of_passages (p ∷ passages) h = of_structured _ o h

-- Whatever the router answers, an assessment cites only the evidence of its own passages.
pub assess-IsOutcomeOf :
    (w : Wording) (c : Router) (max_llm_calls : ℕ) (proposition : String) (r : ClaimRetrieval)
    (version : ℕ) (provisional : Bool) (o : ClaimOutcome)
    → assess w c max_llm_calls proposition r version provisional ≡ ok o
    → IsOutcomeOf r o
assess-IsOutcomeOf w c max_llm_calls proposition r version provisional o h =
    assess_cases (IsOutcomeOf r) w r version provisional
      (λ labels related e. (
        refl,
        (
          refl,
          refl,
          relate-cites w labels r.passages related e,
          abstains_or_relates related,
          abstains_or_counts w labels r.passages related e,
        ),
      ))
      (λ reason. (refl, tt)) c max_llm_calls proposition o h
