-- ===== src/Extraction/Stored.antt =====
-- The observations that `submit_observations` (backend/services/pipeline/incremental.py) takes in leave a run in order.
use ovrly.Prelude.{
  ◌≤◌, ◌≡◌, refl, sym, ◌∙◌, subst, Bool, true, false, ◌&&◌, ◌||◌, &&-intro, &&-left, &&-right, none,
  List, [], ◌∷◌, ◌++◌, String, str_eq, eq_iff, ltb, if◌then◌else◌, all, length, to_set, is_in,
  is_in-to_set, distinct, arith, ok, err, >>=-eq-ok, ok_injective,
}
use ovrly.Extraction.Runs.{Observation, Item, Run}
use ovrly.Extraction.Windows.{ids, sources, timebases}
use ovrly.Extraction.Windows.Valid.{is_short}
use ovrly.Extraction.Sorts.{
  sort_items, sort_unadmitted, all-sort_items, distinct-sort_items, length-sort_items,
}
use ovrly.Extraction.Taking.{admit_cases}
use ovrly.Extraction.Intake.{
  Intake, IntakeError, Admitted, find_item, new_item, admit, admit_each, with_admitted, over_bound,
  mixed_timebases,
}

-- The items of a stored run, or of one that is being filled.
pub record AreItems (items : List Item) : Type 0 where
  pub distinct_ids : distinct (ids (sources items)) ≡ true
  pub short_texts : all is_short (sources items) ≡ true

pub record IsStored (run : Run) : Type 0 where
  pub items : AreItems run.observations
  pub few_items : length run.observations ≤ run.policy.max_observations
  pub one_timebase : length (to_set (timebases (sources run.observations))) ≤ 1

some_in_set : (x : String) (xs : List String) → 1 ≤ length (to_set (x ∷ xs))
unfolding to_set
some_in_set x [] = omega arith
some_in_set x (y ∷ xs) = ground (arith, some_in_set y xs)

member_of_equals :
    (x y : String) (xs : List String) → all (λ z. str_eq z y) xs ≡ true → is_in x xs ≡ true → x ≡ y
member_of_equals x y [] h k = cc
member_of_equals x y (z ∷ xs) h k =
    ground (arith, h, k, eq_iff x z, eq_iff z y, member_of_equals x y xs)

-- A set with one element at most: all its texts are the first one.
pub all_first :
    (x : String) (xs : List String)
    → length (to_set (x ∷ xs)) ≤ 1
    → all (λ y. str_eq y x) (x ∷ xs) ≡ true
unfolding to_set
all_first x [] h = ground (arith, eq_iff x x)
all_first x (y ∷ xs) h = widened (all_first y xs)
  where
    known : is_in x (to_set (y ∷ xs)) ≡ true
    known = ground (arith, h, some_in_set y xs)

    widened :
        (length (to_set (y ∷ xs)) ≤ 1 → all (λ w. str_eq w y) (y ∷ xs) ≡ true)
        → all (λ w. str_eq w x) (x ∷ y ∷ xs) ≡ true
    widened rest =
        let all_y = rest (ground (arith, h, known)) in
        let same = member_of_equals x y (y ∷ xs) all_y (sym (is_in-to_set x (y ∷ xs)) ∙ known) in
        subst (λ z. all (λ w. str_eq w z) (x ∷ y ∷ xs) ≡ true) (sym same)
          (&&-intro _ _ (ground (arith, eq_iff x y, same)) all_y)

absent_item :
    (id : String) (items : List Item)
    → find_item id items ≡ none
    → is_in id (ids (sources items)) ≡ false
absent_item id [] h = refl
absent_item id (i ∷ items) h =
    ground (arith, h, eq_iff i.source.id id, eq_iff id i.source.id, absent_item id items)

is_in-added :
    (x : String) (j : Item) (items : List Item)
    → is_in x (ids (sources (items ++ j ∷ [])))
      ≡ (is_in x (ids (sources items)) || str_eq x j.source.id)
is_in-added x j [] = ground arith
is_in-added x j (i ∷ items) = ground (arith, is_in-added x j items)

distinct-added :
    (j : Item) (items : List Item)
    → is_in j.source.id (ids (sources items)) ≡ false
    → distinct (ids (sources items)) ≡ true
    → distinct (ids (sources (items ++ j ∷ []))) ≡ true
distinct-added j [] h d = refl
distinct-added j (i ∷ items) h d = ground (
  arith,
  h,
  d,
  is_in-added i.source.id j items,
  eq_iff i.source.id j.source.id,
  eq_iff j.source.id i.source.id,
  distinct-added j items,
)

all-added :
    (p : Observation → Bool) (j : Item) (items : List Item)
    → all p (sources (items ++ j ∷ [])) ≡ (all p (sources items) && p j.source)
all-added p j [] = ground arith
all-added p j (i ∷ items) = ground (arith, all-added p j items)

added-AreItems :
    (o : Observation) (items : List Item)
    → is_short o ≡ true
    → find_item o.id items ≡ none
    → AreItems items
    → AreItems (items ++ new_item o ∷ [])
added-AreItems o items short absent a = record {
  distinct_ids = distinct-added (new_item o) items (absent_item o.id items absent) a.distinct_ids;
  short_texts = all-added is_short (new_item o) items ∙ &&-intro _ _ a.short_texts short;
}

admit-AreItems :
    (closed : Bool) (q : Intake) (o : Observation) (a b : Admitted)
    → is_short o ≡ true
    → AreItems a.existing
    → admit closed q o a ≡ ok b
    → AreItems b.existing
admit-AreItems closed q o a b short items e =
    admit_cases (λ (c : Admitted). AreItems c.existing) o a b closed q (λ i f s. items)
      (λ f r. items) (λ f reason. items) (λ f r. added-AreItems o a.existing short f items) e

pub admit_each-AreItems :
    (closed : Bool) (q : Intake) (observations : List Observation) (a b : Admitted)
    → all is_short observations ≡ true
    → AreItems a.existing
    → admit_each closed q observations a ≡ ok b
    → AreItems b.existing
unfolding admit_each
admit_each-AreItems closed q [] a b short items e =
    subst (λ (c : Admitted). AreItems c.existing) (ok_injective IntakeError e) items
admit_each-AreItems closed q (o ∷ observations) a b short items e =
    let (c, first, later) = >>=-eq-ok (admit closed q o a) (admit_each closed q observations) e in
    admit_each-AreItems closed q observations c b (&&-right (is_short o) _ short)
      (admit-AreItems closed q o a c (&&-left _ _ short) items first) later

pub with_admitted-IsStored :
    (q : Intake) (run next : Run) (a : Admitted)
    → run.policy.max_observations ≡ q.policy.max_observations
    → AreItems a.existing
    → with_admitted q run a ≡ ok next
    → IsStored next
with_admitted-IsStored q run next a bound items e =
    by_tests (ltb q.policy.max_observations (length a.existing))
      (ltb 1 (length (to_set (timebases (sources (sort_items a.existing)))))) refl refl e
  where
    by_tests :
        (many mixed : Bool)
        → ltb q.policy.max_observations (length a.existing) ≡ many
        → ltb 1 (length (to_set (timebases (sources (sort_items a.existing))))) ≡ mixed
        → (if many
            then err over_bound
            else if mixed
            then err mixed_timebases
            else ok (record run {
              observations = sort_items a.existing;
              unadmitted = sort_unadmitted a.unadmitted;
              closed = run.closed || q.closed;
            }))
          ≡ ok next
        → IsStored next
    by_tests true mixed m x e = cc
    by_tests false true m x e = cc
    by_tests false false m x e = subst IsStored (ok_injective IntakeError e) (record {
      items = record {
        distinct_ids = distinct-sort_items a.existing ∙ items.distinct_ids;
        short_texts = all-sort_items is_short a.existing ∙ items.short_texts;
      };
      few_items = ground (arith, m, bound, length-sort_items a.existing);
      one_timebase = ground (arith, x);
    })
