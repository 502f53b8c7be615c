-- ===== src/Extraction/Windows/Rounds.antt =====
-- What one round of the loop of backend/services/pipeline/incremental.py keeps: the observations that are left
-- have no window yet, and those that it took have one or a reason.
use ovrly.Prelude.{
  ◌≡◌, refl, ap, subst, Bool, true, false, Bool-cases, inl, inr, not, ◌&&◌, ◌||◌, &&-intro,
  &&-right, List, [], ◌∷◌, ◌++◌, String, str_eq, eq_iff, all, is_in, distinct, is_disjoint, arith,
  any-append, is_some,
}
use ovrly.Extraction.Runs.{Item}
use ovrly.Extraction.Windows.{ids, sources, has_job, is_pending, pending_of, update_items, assign}

-- An item has no job as long as its id is in a list.
abbrev pub is_free : List String → Item → Bool
is_free names i = not (has_job i && is_in i.source.id names)

abbrev pub is_settled : Item → Bool
is_settled i = has_job i || is_some i.reason

abbrev pub is_settled_or_in : List String → Item → Bool
is_settled_or_in names i = is_settled i || is_in i.source.id names

pub disjoint-is_in :
    (x : String) (xs ys : List String)
    → is_disjoint xs ys ≡ true
    → is_in x xs ≡ true
    → is_in x ys ≡ false
disjoint-is_in x [] ys d h = cc
disjoint-is_in x (y ∷ xs) ys d h = ground (arith, d, h, eq_iff x y, disjoint-is_in x xs ys)

pub sources-update_items :
    (changed : List String) (f : Item → Item) (items : List Item)
    → ((i : Item) → (f i).source ≡ i.source)
    → sources (update_items changed f items) ≡ sources items
unfolding update_items
sources-update_items changed f [] same = refl
sources-update_items changed f (i ∷ items) same = elim (Bool-cases (is_in i.source.id changed)) [
  | inl e ↦
      rw (e, same i) (ap (λ rest. i.source ∷ rest) (sources-update_items changed f items same))
  | inr e ↦ rw e (ap (λ rest. i.source ∷ rest) (sources-update_items changed f items same))
]

-- A change that leaves what a test reads leaves the test's result.
pub all-update_items :
    (p : Item → Bool) (changed : List String) (f : Item → Item) (items : List Item)
    → ((i : Item) → p (f i) ≡ p i)
    → all p (update_items changed f items) ≡ all p items
unfolding update_items
all-update_items p changed f [] same = refl
all-update_items p changed f (i ∷ items) same =
    ground (arith, same i, all-update_items p changed f items same)

pub is_free-assign :
    (job : String) (xs ys names : List String) (items : List Item)
    → is_disjoint xs ys ≡ true
    → ((x : String) → is_in x ys ≡ true → is_in x names ≡ true)
    → all (is_free names) items ≡ true
    → all (is_free ys) (update_items xs (assign job) items) ≡ true
unfolding update_items
is_free-assign job xs ys names [] d m h = refl
is_free-assign job xs ys names (i ∷ items) d m h = ground (
  arith,
  h,
  disjoint-is_in i.source.id xs ys d,
  m i.source.id,
  is_free-assign job xs ys names items d m,
)

pub is_free-narrowed :
    (ys names : List String) (items : List Item)
    → ((x : String) → is_in x ys ≡ true → is_in x names ≡ true)
    → all (is_free names) items ≡ true
    → all (is_free ys) items ≡ true
is_free-narrowed ys names [] m h = refl
is_free-narrowed ys names (i ∷ items) m h =
    ground (arith, h, m i.source.id, is_free-narrowed ys names items m)

-- A change that settles its items makes their ids superfluous.
pub settled-update_items :
    (f : Item → Item) (xs ys : List String) (items : List Item)
    → ((i : Item) → is_settled (f i) ≡ true)
    → all (is_settled_or_in (xs ++ ys)) items ≡ true
    → all (is_settled_or_in ys) (update_items xs f items) ≡ true
unfolding update_items
settled-update_items f xs ys [] settles h = refl
settled-update_items f xs ys (i ∷ items) settles h = ground (
  arith,
  h,
  settles i,
  any-append (str_eq i.source.id) xs ys,
  settled-update_items f xs ys items settles,
)

pending_of_pending :
    (i : Item) (items : List Item)
    → is_pending i ≡ true
    → i.source ∷ pending_of items ≡ pending_of (i ∷ items)
pending_of_pending i items e = rw e refl

pending_of_other :
    (i : Item) (items : List Item)
    → is_pending i ≡ false
    → pending_of items ≡ pending_of (i ∷ items)
pending_of_other i items e = rw e refl

absent_pending :
    (x : String) (items : List Item)
    → is_in x (ids (sources items)) ≡ false
    → is_in x (ids (pending_of items)) ≡ false
absent_pending x [] h = refl
absent_pending x (i ∷ items) h = elim (Bool-cases (is_pending i)) [
  | inl e ↦ rw e (ground (arith, h, absent_pending x items))
  | inr e ↦ rw e (ground (arith, h, absent_pending x items))
]

is_free-wider :
    (x : String) (names : List String) (items : List Item)
    → is_in x (ids (sources items)) ≡ false
    → all (is_free names) items ≡ true
    → all (is_free (x ∷ names)) items ≡ true
is_free-wider x names [] absent h = refl
is_free-wider x names (i ∷ items) absent h =
    ground
      (arith, absent, h, eq_iff x i.source.id, eq_iff i.source.id x, is_free-wider x names items)

pub is_free-pending :
    (items : List Item)
    → distinct (ids (sources items)) ≡ true
    → all (is_free (ids (pending_of items))) items ≡ true
is_free-pending [] d = refl
is_free-pending (i ∷ items) d = elim (Bool-cases (is_pending i)) [
  | inl e ↦
      subst (λ names. all (is_free (ids names)) (i ∷ items) ≡ true) (pending_of_pending i items e)
        (&&-intro _ _ (ground (arith, e)) (
          is_free-wider i.source.id (ids (pending_of items)) items (absent i items d)
            (is_free-pending items (later i items d))))
  | inr e ↦
      subst (λ names. all (is_free (ids names)) (i ∷ items) ≡ true) (pending_of_other i items e)
        (&&-intro _ _ (ground (arith, absent_pending i.source.id items (absent i items d)))
          (is_free-pending items (later i items d)))
]
  where
    absent :
        (i : Item) (items : List Item)
        → distinct (ids (sources (i ∷ items))) ≡ true
        → is_in i.source.id (ids (sources items)) ≡ false
    absent i items d = ground (arith, d)

    later :
        (i : Item) (items : List Item)
        → distinct (ids (sources (i ∷ items))) ≡ true
        → distinct (ids (sources items)) ≡ true
    later i items d = &&-right (not (is_in i.source.id (ids (sources items)))) _ d

settled-wider :
    (x : String) (names : List String) (items : List Item)
    → all (is_settled_or_in names) items ≡ true
    → all (is_settled_or_in (x ∷ names)) items ≡ true
settled-wider x names [] h = refl
settled-wider x names (i ∷ items) h = ground (arith, h, settled-wider x names items)

pub settled_or_pending :
    (items : List Item) → all (is_settled_or_in (ids (pending_of items))) items ≡ true
settled_or_pending [] = refl
settled_or_pending (i ∷ items) = elim (Bool-cases (is_pending i)) [
  | inl e ↦
      subst (λ names. all (is_settled_or_in (ids names)) (i ∷ items) ≡ true)
        (pending_of_pending i items e)
        (&&-intro _ _ (ground (arith, eq_iff i.source.id i.source.id))
          (settled-wider i.source.id (ids (pending_of items)) items (settled_or_pending items)))
  | inr e ↦
      subst (λ names. all (is_settled_or_in (ids names)) (i ∷ items) ≡ true)
        (pending_of_other i items e) (&&-intro _ _ (ground (arith, e)) (settled_or_pending items))
]
