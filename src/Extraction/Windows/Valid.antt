-- ===== src/Extraction/Windows/Valid.antt =====
-- Why the windows of backend/services/pipeline/incremental.py pass the checks of `ObservationWindow`
-- (extraction.py): their observations are distinct, few and short enough.
use ovrly.Prelude.{
  ℕ, zero, suc, ◌+◌, ◌≤◌, ◌≡◌, refl, ap, sym, ◌∙◌, subst, Bool, true, Bool-cases, inl, inr,
  &&-intro, List, [], ◌∷◌, ◌++◌, String, str_eq, eq_iff, ltb, leb, any, all, map, length,
  length-append, to_set, distinct, is_disjoint, arith, is_in-to_set, all-append, distinct-append,
}
use ovrly.Extraction.Runs.{Observation, size, is_target}
use ovrly.Extraction.Windows.{
  max_characters, ids, characters, timebases, is_window, take, drop, trim, fill,
}
use ovrly.Extraction.Windows.Parts.{
  IsPart, part_start, part_all, part_map, part_distinct, is_disjoint-part, length-take,
}

abbrev pub is_short : Observation → Bool
is_short o = leb (size o) 8000

abbrev pub has_timebase : String → Observation → Bool
has_timebase timebase o = str_eq o.timebase timebase

pub length-map {ℓ κ} :
    {A : Type ℓ} {B : Type κ} (f : A → B) (xs : List A) → length (map f xs) ≡ length xs
length-map f [] = refl
length-map f (x ∷ xs) = ap suc (length-map f xs)

pub map-append {ℓ κ} :
    {A : Type ℓ} {B : Type κ} (f : A → B) (xs ys : List A) → map f (xs ++ ys) ≡ map f xs ++ map f ys
map-append f [] ys = refl
map-append f (x ∷ xs) ys = ap (λ rest. f x ∷ rest) (map-append f xs ys)

pub characters-append :
    (xs ys : List Observation) → characters (xs ++ ys) ≡ characters xs + characters ys
unfolding characters
characters-append [] ys = omega arith
characters-append (x ∷ xs) ys = omega (arith, characters-append xs ys)

-- A list that repeats nothing is as long as its set.
pub length-to_set_of_distinct :
    (xs : List String) → distinct xs ≡ true → length (to_set xs) ≡ length xs
unfolding to_set
length-to_set_of_distinct [] h = refl
length-to_set_of_distinct (x ∷ xs) h =
    ground (arith, h, is_in-to_set x xs, length-to_set_of_distinct xs)

one_timebase :
    (timebase : String) (o : Observation) (observations : List Observation)
    → all (has_timebase timebase) (o ∷ observations) ≡ true
    → length (to_set (timebases (o ∷ observations))) ≡ 1
unfolding to_set
one_timebase timebase o [] h = refl
one_timebase timebase o (p ∷ observations) h = ground (
  arith,
  h,
  one_timebase timebase p observations,
  is_in-to_set o.timebase (timebases (p ∷ observations)),
  eq_iff o.timebase timebase,
  eq_iff p.timebase timebase,
  eq_iff o.timebase p.timebase,
)

pub characters-trim :
    (first : ℕ) (overlap : List Observation)
    → first ≤ max_characters
    → characters (trim first overlap) + first ≤ max_characters
unfolding trim characters
characters-trim first [] h = omega (arith, h)
characters-trim first (o ∷ overlap) h = ground (arith, h, characters-trim first overlap h)

pub characters-fill :
    (used : ℕ) (batch : List Observation)
    → used ≤ max_characters
    → used + characters (fill used batch) ≤ max_characters
unfolding fill characters
characters-fill used [] h = omega (arith, h)
characters-fill used (o ∷ batch) h = ground (arith, h, characters-fill (used + size o) batch)

pub fill-prefix :
    (used n : ℕ) (pending : List Observation)
    → fill used (take n pending) ++ drop (length (fill used (take n pending))) pending ≡ pending
unfolding fill take drop
fill-prefix used zero pending = refl
fill-prefix used (suc n) [] = refl
fill-prefix used (suc n) (o ∷ pending) = elim (Bool-cases (ltb max_characters (used + size o))) [
  | inl e ↦ rw e refl
  | inr e ↦ rw e (ap (λ rest. o ∷ rest) (fill-prefix (used + size o) n pending))
]

pub length-fill : (used : ℕ) (batch : List Observation) → length (fill used batch) ≤ length batch
unfolding fill
length-fill used [] = omega arith
length-fill used (o ∷ batch) = ground (arith, length-fill (used + size o) batch)

pub is_window_of :
    (timebase : String) (observations : List Observation)
    → distinct (ids observations) ≡ true
    → all (has_timebase timebase) observations ≡ true
    → length observations ≤ 128
    → characters observations ≤ max_characters
    → any is_target observations ≡ true
    → is_window observations ≡ true
is_window_of timebase [] d t l c h = ground (arith, h)
is_window_of timebase (o ∷ observations) d t l c h = ground (
  arith,
  l,
  c,
  h,
  length-to_set_of_distinct (ids (o ∷ observations)) d,
  length-map (λ (o : Observation). o.id) (o ∷ observations),
  one_timebase timebase o observations t,
)

-- An overlap and what a round selects after it make a window.
pub is_window-fill :
    (timebase : String) (n : ℕ) (overlap pending : List Observation)
    → n ≤ 64
    → length overlap ≤ 32
    → characters overlap ≤ max_characters
    → distinct (ids overlap) ≡ true
    → distinct (ids pending) ≡ true
    → is_disjoint (ids overlap) (ids pending) ≡ true
    → all (has_timebase timebase) overlap ≡ true
    → all (has_timebase timebase) pending ≡ true
    → any is_target (overlap ++ fill (characters overlap) (take n pending)) ≡ true
    → is_window (overlap ++ fill (characters overlap) (take n pending)) ≡ true
is_window-fill timebase n overlap pending bound few short d dp apart t tp target =
    is_window_of timebase (overlap ++ selected)
      (subst (λ names. distinct names ≡ true)
        (sym (map-append (λ (o : Observation). o.id) overlap selected))
        (ground (
          arith,
          distinct-append (ids overlap) (ids selected),
          d,
          part_distinct (λ (o : Observation). o.id) part dp,
          is_disjoint-part (ids overlap) (part_map (λ (o : Observation). o.id) part) apart,
        )))
      (all-append (has_timebase timebase) overlap selected
        ∙ &&-intro _ _ t (part_all (has_timebase timebase) part tp))
      (omega (
        arith,
        bound,
        few,
        length-append overlap selected,
        length-fill (characters overlap) (take n pending),
        length-take n pending,
      ))
      (omega (
        arith,
        short,
        characters-append overlap selected,
        characters-fill (characters overlap) (take n pending) short,
      ))
      target
  where
    selected : List Observation
    selected = fill (characters overlap) (take n pending)

    part : IsPart (fill (characters overlap) (take n pending)) pending
    part =
        subst (IsPart (fill (characters overlap) (take n pending)))
          (fill-prefix (characters overlap) n pending) (part_start _ _)
