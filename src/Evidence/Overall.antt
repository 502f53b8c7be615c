-- ===== src/Evidence/Overall.antt =====
-- `overall` of backend/services/evidence/assessment.py: the label of a claim from the relations of
-- its sources. `origins` is a dictionary of sets; a set is a list with no repetition.
use ovrly.Prelude.{
  ℕ, ◌≡◌, refl, ap, inl, inr, Bool-cases, ==_iff, Bool, true, false, not, ◌&&◌, ◌||◌, ◌↔◌, List, [],
  ◌∷◌, String, ◌==◌, any, add_to_set, arith, if◌then◌else◌,
}
use ovrly.Evidence.Records.{
  Relation, support, challenge, qualify, mixed, relation_eq, relation_code, OverallAssessment,
  supported, challenged, qualified, mixed_evidence, insufficient_evidence,
}

abbrev pub Origins : Type 0
Origins = List (Relation × List String)

-- `origins.setdefault(relation, set()).add(origin)`
abbrev pub add_origin : Relation → String → Origins → Origins
add_origin relation origin [] = (relation, origin ∷ []) ∷ []
add_origin relation origin ((r, xs) ∷ origins) =
    if relation_eq r relation
    then (r, add_to_set origin xs) ∷ origins
    else (r, xs) ∷ add_origin relation origin origins

unfoldable pub collect : List (Relation × String) → Origins → Origins
collect [] origins = origins
collect ((relation, origin) ∷ relations) origins =
    collect relations (add_origin relation origin origins)

abbrev pub is_filled : List String → Bool
is_filled [] = false
is_filled (_ ∷ _) = true

-- `bool(origins.get(relation))`
abbrev pub has_origin : Relation → Origins → Bool
has_origin relation [] = false
has_origin relation ((r, xs) ∷ origins) =
    if relation_eq r relation then is_filled xs else has_origin relation origins

abbrev pub label_of : (support challenge qualify mixed : Bool) → OverallAssessment
label_of s c q m =
    if m || c && (s || q)
    then mixed_evidence
    else if c
    then challenged
    else if q
    then qualified
    else if s
    then supported
    else insufficient_evidence

-- `overall`
unfoldable pub overall : List (Relation × String) → OverallAssessment
overall relations =
    let origins = collect relations [] in
    label_of (has_origin support origins) (has_origin challenge origins)
      (has_origin qualify origins) (has_origin mixed origins)

is_filled-add_to_set : (x : String) (xs : List String) → is_filled (add_to_set x xs) ≡ true
is_filled-add_to_set x [] = refl
is_filled-add_to_set x (y ∷ ys) = ground arith

pub relation_eq_same :
    (a b r : Relation) → relation_eq a b ≡ true → relation_eq a r ≡ relation_eq b r
unfolding relation_eq
relation_eq_same a b r h =
    ap (λ (n : ℕ). n == relation_code r) ((==_iff (relation_code a) (relation_code b)).0 h)

relation_eq_sym : (a b : Relation) → relation_eq a b ≡ relation_eq b a
unfolding relation_eq
relation_eq_sym a b = ground arith

has_origin-add_origin :
    (r relation : Relation) (origin : String) (origins : Origins)
    → has_origin r (add_origin relation origin origins)
      ≡ (relation_eq relation r || has_origin r origins)
has_origin-add_origin r relation origin [] = ground arith
has_origin-add_origin r relation origin ((s, xs) ∷ origins) =
    elim (Bool-cases (relation_eq s relation)) [
      | inl same ↦
          rw (same, relation_eq_same s relation r same, is_filled-add_to_set origin xs)
            (ground arith)
      | inr other ↦
          rw (other, has_origin-add_origin r relation origin origins)
            (ground (arith, relation_eq_same s r relation, relation_eq_sym r relation))
    ]

has_origin-collect :
    (r : Relation) (relations : List (Relation × String)) (origins : Origins)
    → has_origin r (collect relations origins)
      ≡ (any (λ p. relation_eq p.0 r) relations || has_origin r origins)
unfolding collect
has_origin-collect r [] origins = refl
has_origin-collect r ((relation, origin) ∷ relations) origins = ground (
  arith,
  has_origin-collect r relations (add_origin relation origin origins),
  has_origin-add_origin r relation origin origins,
)

-- Whether a relation occurs among the pairs.
abbrev pub occurs : Relation → List (Relation × String) → Bool
occurs r = any (λ p. relation_eq p.0 r)

pub overall-label_of :
    (relations : List (Relation × String))
    → overall relations
      ≡ label_of
          (occurs support relations)
          (occurs challenge relations)
          (occurs qualify relations)
          (occurs mixed relations)
unfolding overall
overall-label_of relations = ground (
  arith,
  has_origin-collect support relations [],
  has_origin-collect challenge relations [],
  has_origin-collect qualify relations [],
  has_origin-collect mixed relations [],
)

-- Whether a label is the one that the occurring relations call for, said of each label by itself.
abbrev pub is_called_for : (support challenge qualify mixed : Bool) → OverallAssessment → Bool
is_called_for s c q m supported = s && not (c || (q || m))
is_called_for s c q m challenged = c && not (s || (q || m))
is_called_for s c q m qualified = q && not (c || m)
is_called_for s c q m mixed_evidence = m || (c && (s || q))
is_called_for s c q m insufficient_evidence = not ((s || c) || (q || m))

label_of-called_for :
    (s c q m : Bool) (l : OverallAssessment)
    → (label_of s c q m ≡ l) ↔ (is_called_for s c q m l ≡ true)
label_of-called_for s c q m supported = ground arith
label_of-called_for s c q m challenged = ground arith
label_of-called_for s c q m qualified = ground arith
label_of-called_for s c q m mixed_evidence = ground arith
label_of-called_for s c q m insufficient_evidence = ground arith

abbrev pub is_verdict : List (Relation × String) → OverallAssessment → Bool
is_verdict relations =
    is_called_for (occurs support relations) (occurs challenge relations) (occurs qualify relations)
      (occurs mixed relations)

-- The verdict of a claim is supported exactly where support is the only relation that its sources
-- have besides insufficient ones, challenged exactly where challenge is, qualified exactly where
-- one qualifies it and none challenges it or is mixed, mixed exactly where one is mixed or one
-- challenges it while another supports or qualifies it, and insufficient evidence exactly where
-- all are insufficient; neither the order of the sources nor their origins matter.
pub overall-verdict :
    (relations : List (Relation × String)) (l : OverallAssessment)
    → (overall relations ≡ l) ↔ (is_verdict relations l ≡ true)
overall-verdict relations l = rw (overall-label_of relations) (
    label_of-called_for (occurs support relations) (occurs challenge relations)
      (occurs qualify relations) (occurs mixed relations) l)
