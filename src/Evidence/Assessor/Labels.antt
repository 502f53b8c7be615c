-- ===== src/Evidence/Assessor/Labels.antt =====
-- Each passage has a label where `assess` of backend/services/evidence/assessment.py looks it up.
use ovrly.Prelude.{
  ℕ, ◌≡◌, ◌≢◌, refl, Bool, true, false, Bool-cases, Option-cases, inl, inr, Option, none, some,
  List, [], ◌∷◌, String, all, Dict, get, Outcome, ok, err, is_some, is_in, eq_iff, arith,
}
use ovrly.Evidence.Records.{Relation, EvidenceRelation, Passage, ClaimRetrieval, ClaimOutcome}
use ovrly.Evidence.Router.{
  RouterFailure, provider_error, budget_exhausted, invalid_reply, structured-checked,
}
use ovrly.Evidence.Replies.{
  RelationReply, Problem, check_reply, check_reply-expected, labelled, labelled-is_in, passage_ids,
}
use ovrly.Evidence.Assessor.{
  Wording, Router, AssessError, key_error, relate, assessed, conclude, after_structured, described,
  assess_passages, assess, relation_of,
}

has_labels : Dict (Relation × String) → List Passage → Bool
has_labels labels = all (λ (p : Passage). is_some (get p.passage_id labels))

relate-total :
    (w : Wording) (labels : Dict (Relation × String)) (passages : List Passage)
    → has_labels labels passages ≡ true
    → (related : List (EvidenceRelation × String)) × (relate w labels passages ≡ ok related)
unfolding relate has_labels
relate-total w labels [] h = ([], refl)
relate-total w labels (p ∷ passages) h = elim (Option-cases (get p.passage_id labels)) [
  | inl gone ↦ absurd (missing (rw gone at h))
  | inr (label, found) ↦
      let (rest, e) = relate-total w labels passages (rw found at h) in
      ((relation_of w p label, p.origin) ∷ rest, rw (found, e) refl)
]
  where
    missing : false ≡ true → ⊥
    missing e = cc

has_labels-is_in :
    (labels : Dict (Relation × String)) (passages : List Passage)
    → ((x : String) → is_in x (passage_ids passages) ≡ true → is_some (get x labels) ≡ true)
    → has_labels labels passages ≡ true
unfolding has_labels
has_labels-is_in labels [] found = refl
has_labels-is_in labels (p ∷ passages) found = ground (
  arith,
  found p.passage_id,
  eq_iff p.passage_id p.passage_id,
  has_labels-is_in labels passages (λ x h. found x (ground (arith, h))),
)

conclude-labelled :
    (w : Wording) (r : ClaimRetrieval) (version : ℕ) (provisional : Bool)
    (labels : Dict (Relation × String))
    → has_labels labels r.passages ≡ true
    → conclude w r version provisional labels ≢ err key_error
conclude-labelled w r version provisional labels h e =
    let (related, f) = relate-total w labels r.passages h in
    clash (assessed w r version provisional related) (rw f at e)
  where
    clash : (o : ClaimOutcome) → Path (Outcome AssessError ClaimOutcome) (ok o) (err key_error) → ⊥
    clash o e = cc

described-none :
    (describe : Problem → String) (p : Option Problem) → described describe p ≡ none → p ≡ none
described-none describe none h = refl
described-none describe (some p) h = cc

after_structured-labelled :
    (w : Wording) (r : ClaimRetrieval) (version : ℕ) (provisional : Bool)
    (reply : Outcome RouterFailure RelationReply)
    → ((a : RelationReply) → reply ≡ ok a → check_reply r.passages a ≡ none)
    → after_structured w r version provisional reply ≢ err key_error
after_structured-labelled w r version provisional (ok reply) checked =
    conclude-labelled w r version provisional (labelled w.note reply []) (
      has_labels-is_in (labelled w.note reply []) r.passages (λ x h.
        labelled-is_in w.note x reply []
          (check_reply-expected r.passages reply x (checked reply refl) h)))
after_structured-labelled w r version provisional (err budget_exhausted) checked = λ e. cc
after_structured-labelled w r version provisional (err invalid_reply) checked = λ e. cc
after_structured-labelled w r version provisional (err provider_error) checked = λ e. cc
after_structured-labelled w r version provisional (err e) checked = λ e. cc

-- Assessing a claim never fails with the KeyError of a passage that has no label, whatever the
-- router answers: a reply that structured returns has passed check_reply.
pub assess-labelled :
    (w : Wording) (c : Router) (max_llm_calls : ℕ) (proposition : String) (r : ClaimRetrieval)
    (version : ℕ) (provisional : Bool)
    → assess w c max_llm_calls proposition r version provisional ≢ err key_error
unfolding assess
assess-labelled w c max_llm_calls proposition r version provisional h =
    elim (Bool-cases r.retrieved) [
      | inl found ↦ of_passages r.passages refl (rw found at h)
      | inr missing ↦ clash (rw missing at h)
    ]
  where
    clash : {o : ClaimOutcome} → Path (Outcome AssessError ClaimOutcome) (ok o) (err key_error) → ⊥
    clash e = cc

    of_passages :
        (passages : List Passage)
        → r.passages ≡ passages
        → assess_passages w c max_llm_calls proposition r version provisional passages
          ≢ err key_error
    of_passages [] e =
        conclude-labelled w r version provisional []
          (rw e (has_labels-is_in [] [] (λ x h. absurd (none_in h))))
      where
        none_in : false ≡ true → ⊥
        none_in e = cc
    of_passages (p ∷ passages) e = after_structured-labelled w r version provisional _ (λ a checked.
        described-none w.describe (check_reply r.passages a)
          (structured-checked c.send c.read _ _ _ _ a checked))
