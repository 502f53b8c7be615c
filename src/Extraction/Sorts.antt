-- ===== src/Extraction/Sorts.antt =====
-- The two sorts of `submit_observations` (backend/services/pipeline/incremental.py) by interval and id, and what they
-- keep.
use ovrly.Prelude.{
  ℕ, suc, ◌≡◌, refl, ap, ◌∙◌, Bool, ◌&&◌, ◌||◌, List, [], ◌∷◌, String, str_eq, str_lt, eq_iff, ltb,
  ◌==◌, if◌then◌else◌, all, length, distinct, is_in, arith,
}
use ovrly.Extraction.Runs.{Item, Unadmitted, Observation}
use ovrly.Extraction.Windows.{ids, sources}

-- The keys of the two sorts
abbrev pub key_lt : (start end : ℕ) → String → (start end : ℕ) → String → Bool
key_lt s e id s' e' id' = ltb s s' || (s == s' && (ltb e e' || (e == e' && str_lt id id')))

unfoldable pub insert_item : Item → List Item → List Item
insert_item i [] = i ∷ []
insert_item i (j ∷ items) =
    let rest = insert_item i items in
    if key_lt j.source.start_ms j.source.end_ms j.source.id i.source.start_ms i.source.end_ms
      i.source.id
    then j ∷ rest
    else i ∷ j ∷ items

unfoldable pub sort_items : List Item → List Item
sort_items [] = []
sort_items (i ∷ items) = insert_item i (sort_items items)

unfoldable pub insert_unadmitted : Unadmitted → List Unadmitted → List Unadmitted
insert_unadmitted u [] = u ∷ []
insert_unadmitted u (v ∷ us) =
    let rest = insert_unadmitted u us in
    if key_lt v.start_ms v.end_ms v.id u.start_ms u.end_ms u.id then v ∷ rest else u ∷ v ∷ us

unfoldable pub sort_unadmitted : List Unadmitted → List Unadmitted
sort_unadmitted [] = []
sort_unadmitted (u ∷ us) = insert_unadmitted u (sort_unadmitted us)

all-insert_item :
    (p : Observation → Bool) (i : Item) (items : List Item)
    → all p (sources (insert_item i items)) ≡ (p i.source && all p (sources items))
unfolding insert_item
all-insert_item p i [] = refl
all-insert_item p i (j ∷ items) = ground (arith, all-insert_item p i items)

pub all-sort_items :
    (p : Observation → Bool) (items : List Item)
    → all p (sources (sort_items items)) ≡ all p (sources items)
unfolding sort_items
all-sort_items p [] = refl
all-sort_items p (i ∷ items) =
    all-insert_item p i (sort_items items)
    ∙ ap (λ rest. p i.source && rest) (all-sort_items p items)

is_in-insert_item :
    (x : String) (i : Item) (items : List Item)
    → is_in x (ids (sources (insert_item i items)))
      ≡ (str_eq x i.source.id || is_in x (ids (sources items)))
unfolding insert_item
is_in-insert_item x i [] = refl
is_in-insert_item x i (j ∷ items) = ground (arith, is_in-insert_item x i items)

is_in-sort_items :
    (x : String) (items : List Item)
    → is_in x (ids (sources (sort_items items))) ≡ is_in x (ids (sources items))
unfolding sort_items
is_in-sort_items x [] = refl
is_in-sort_items x (i ∷ items) =
    is_in-insert_item x i (sort_items items)
    ∙ ap (λ rest. str_eq x i.source.id || rest) (is_in-sort_items x items)

distinct-insert_item :
    (i : Item) (items : List Item)
    → distinct (ids (sources (insert_item i items))) ≡ distinct (ids (sources (i ∷ items)))
unfolding insert_item
distinct-insert_item i [] = refl
distinct-insert_item i (j ∷ items) = ground (
  arith,
  distinct-insert_item i items,
  is_in-insert_item j.source.id i items,
  eq_iff i.source.id j.source.id,
  eq_iff j.source.id i.source.id,
)

pub distinct-sort_items :
    (items : List Item)
    → distinct (ids (sources (sort_items items))) ≡ distinct (ids (sources items))
unfolding sort_items
distinct-sort_items [] = refl
distinct-sort_items (i ∷ items) = ground (
  arith,
  distinct-insert_item i (sort_items items),
  distinct-sort_items items,
  is_in-sort_items i.source.id items,
)

length-insert_item :
    (i : Item) (items : List Item) → length (insert_item i items) ≡ suc (length items)
unfolding insert_item
length-insert_item i [] = refl
length-insert_item i (j ∷ items) = ground (arith, length-insert_item i items)

pub length-sort_items : (items : List Item) → length (sort_items items) ≡ length items
unfolding sort_items
length-sort_items [] = refl
length-sort_items (i ∷ items) =
    omega (arith, length-insert_item i (sort_items items), length-sort_items items)
