-- ===== src/Evidence/Replies.antt =====
-- The router's reply on the passages of a claim: `check_reply` and the labels of
-- backend/services/evidence/assessment.py.
use ovrly.Prelude.{
  ◌≡◌, ◌∙◌, sym, true, Bool-cases, inl, inr, not, Option, none, some, List, [], ◌∷◌, String, ◌==◌,
  if◌then◌else◌, select, length, map, Dict, get, put, get-put, is_some, eq_iff, arith, is_in,
  to_set, is_in-to_set, ◌⊎◌,
}
use ovrly.Evidence.Records.{Relation, Passage}

pub data RouterLabel : Type 0 where
  supports challenges qualifies context cannot_assess : RouterLabel

-- `LABELS`
abbrev pub labels : RouterLabel → Relation
labels supports = Relation.support
labels challenges = Relation.challenge
labels qualifies = Relation.qualify
labels context = Relation.insufficient
labels cannot_assess = Relation.insufficient

pub record RelationItem : Type 0 where
  pub passage_id : String
  pub relation : RouterLabel
  pub rationale : String

abbrev pub RelationReply : Type 0
RelationReply = List RelationItem

-- What `check_reply` finds; the texts that it formats are an argument.
pub data Problem : Type 0 where
  unknown_ids missing_ids : List String → Problem
  repeated : Problem

abbrev pub passage_ids : List Passage → List String
passage_ids = map (λ (p : Passage). p.passage_id)

abbrev pub item_ids : RelationReply → List String
item_ids = map (λ (i : RelationItem). i.passage_id)

-- `a - b` of sets
abbrev pub difference : List String → List String → List String
difference a b = select (λ x. not (is_in x b)) a

abbrev pub check_missing : List String → Option Problem
check_missing [] = none
check_missing (x ∷ missing) = some (missing_ids (x ∷ missing))

abbrev pub check_ids : List String → List String → List String → Option Problem
check_ids expected ids [] =
    if length ids == length (to_set ids)
    then check_missing (difference expected (to_set ids))
    else some repeated
check_ids expected ids (x ∷ unknown) = some (unknown_ids (x ∷ unknown))

-- `check_reply`
unfoldable pub check_reply : List Passage → RelationReply → Option Problem
check_reply passages reply =
    let expected = to_set (passage_ids passages) in
    check_ids expected (item_ids reply) (difference (to_set (item_ids reply)) expected)

-- `labels` of `assess`: for each passage id the relation and the note.
unfoldable pub labelled :
    (String → String) → RelationReply → Dict (Relation × String) → Dict (Relation × String)
labelled note [] found = found
labelled note (i ∷ items) found =
    labelled note items (put i.passage_id (labels i.relation, note i.rationale) found)

is_in-difference :
    (x : String) (a b : List String)
    → check_missing (difference a b) ≡ none
    → is_in x a ≡ true
    → is_in x b ≡ true
is_in-difference x [] b h k = cc
is_in-difference x (y ∷ a) b h k = elim (Bool-cases (is_in y b)) [
  | inl there ↦ ground (arith, is_in-difference x a b (rw there at h), eq_iff x y, there)
  | inr gone ↦ absurd (missing (rw gone at h))
]
  where
    missing : {xs : List String} → some (missing_ids xs) ≡ none → ⊥
    missing e = cc

check_ids-expected :
    (expected ids unknown : List String) (x : String)
    → check_ids expected ids unknown ≡ none
    → is_in x expected ≡ true
    → is_in x ids ≡ true
check_ids-expected expected ids [] x h k = elim (Bool-cases (length ids == length (to_set ids))) [
  | inl same ↦ sym (is_in-to_set x ids) ∙ is_in-difference x expected (to_set ids) (rw same at h) k
  | inr other ↦ absurd (clash (rw other at h))
]
  where
    clash : some repeated ≡ none → ⊥
    clash e = cc
check_ids-expected expected ids (y ∷ unknown) x h k = cc

-- A reply that passes the check has an item for each passage.
pub check_reply-expected :
    (passages : List Passage) (reply : RelationReply) (x : String)
    → check_reply passages reply ≡ none
    → is_in x (passage_ids passages) ≡ true
    → is_in x (item_ids reply) ≡ true
unfolding check_reply
check_reply-expected passages reply x h k =
    check_ids-expected (to_set (passage_ids passages)) (item_ids reply)
      (difference (to_set (item_ids reply)) (to_set (passage_ids passages))) x h
      (is_in-to_set x (passage_ids passages) ∙ k)

pub labelled-is_in :
    (note : String → String) (x : String) (items : RelationReply) (found : Dict (Relation × String))
    → is_in x (item_ids items) ≡ true
    → is_some (get x (labelled note items found)) ≡ true
unfolding labelled
labelled-is_in note x items found h = kept note x items found (inl h)
  where
    kept :
        (note : String → String) (x : String) (items : RelationReply)
        (found : Dict (Relation × String))
        → (is_in x (item_ids items) ≡ true) ⊎ (is_some (get x found) ≡ true)
        → is_some (get x (labelled note items found)) ≡ true
    kept note x [] found (inl h) = cc
    kept note x [] found (inr h) = h
    kept note x (i ∷ items) found h =
        kept note x items (put i.passage_id (labels i.relation, note i.rationale) found) (
          ground (
            arith,
            h,
            eq_iff x i.passage_id,
            eq_iff i.passage_id x,
            get-put x i.passage_id (labels i.relation, note i.rationale) found,
          ))
