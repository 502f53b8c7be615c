-- ===== src/Extraction/Windows/Parts.antt =====
-- The parts that the loop of backend/services/pipeline/incremental.py takes of its lists: each keeps the
-- order and repeats nothing.
use ovrly.Prelude.{
  ℕ, zero, suc, ◌+◌, ◌-◌, ◌≤◌, ◌≡◌, refl, Bool, true, false, not, &&-right, List, [], ◌∷◌, ◌++◌,
  String, str_eq, ltb, if◌then◌else◌, all, map, length, select, is_in, distinct, is_disjoint, arith,
}
use ovrly.Extraction.Runs.{Observation, Item}
use ovrly.Extraction.Windows.{max_characters, characters, before, take, drop, trim}

-- A list that keeps some elements of another one, in their order.
pub data IsPart {ℓ} {A : Type ℓ} : List A → List A → Type ℓ where
  done : IsPart [] []
  keep : {x : A} {xs ys : List A} → IsPart xs ys → IsPart (x ∷ xs) (x ∷ ys)
  miss : {x : A} {xs ys : List A} → IsPart xs ys → IsPart xs (x ∷ ys)

module _ {ℓ} {A : Type ℓ} where
  pub whole : (xs : List A) → IsPart xs xs
  whole [] = done
  whole (x ∷ xs) = keep (whole xs)

  pub nothing : (xs : List A) → IsPart [] xs
  nothing [] = done
  nothing (x ∷ xs) = miss (nothing xs)

  pub part_trans : {ys zs : List A} (q : IsPart ys zs) {xs : List A} → IsPart xs ys → IsPart xs zs
  part_trans done p = p
  part_trans (miss q) p = miss (part_trans q p)
  part_trans (keep q) (keep p) = keep (part_trans q p)
  part_trans (keep q) (miss p) = miss (part_trans q p)

  pub part_all : (f : A → Bool) {xs ys : List A} → IsPart xs ys → all f ys ≡ true → all f xs ≡ true
  part_all f done h = refl
  part_all f (keep {x} {xs} {ys} p) h = ground (arith, h, part_all f p)
  part_all f (miss {x} {xs} {ys} p) h = part_all f p (&&-right (f x) (all f ys) h)

  pub part_length : {xs ys : List A} → IsPart xs ys → length xs ≤ length ys
  part_length done = omega arith
  part_length (keep p) = omega (arith, part_length p)
  part_length (miss p) = omega (arith, part_length p)

  pub part_absent :
      (name : A → String) (n : String) {xs ys : List A}
      → IsPart xs ys
      → is_in n (map name ys) ≡ false
      → is_in n (map name xs) ≡ false
  part_absent name n done h = h
  part_absent name n (keep {x} {xs} {ys} p) h = ground (arith, h, part_absent name n p)
  part_absent name n (miss {x} {xs} {ys} p) h = part_absent name n p (ground (arith, h))

  pub part_distinct :
      (name : A → String) {xs ys : List A}
      → IsPart xs ys
      → distinct (map name ys) ≡ true
      → distinct (map name xs) ≡ true
  part_distinct name done h = refl
  part_distinct name (keep {x} {xs} {ys} p) h =
      ground (arith, h, part_distinct name p, part_absent name (name x) p)
  part_distinct name (miss {x} {xs} {ys} p) h =
      part_distinct name p (&&-right (not (is_in (name x) (map name ys))) _ h)

  pub part_map {κ} :
      {B : Type κ} (f : A → B) {xs ys : List A} → IsPart xs ys → IsPart (map f xs) (map f ys)
  part_map f done = done
  part_map f (keep p) = keep (part_map f p)
  part_map f (miss p) = miss (part_map f p)

  pub part_start : (xs ys : List A) → IsPart xs (xs ++ ys)
  part_start [] ys = nothing ys
  part_start (x ∷ xs) ys = keep (part_start xs ys)

  pub part_end : (xs ys : List A) → IsPart ys (xs ++ ys)
  part_end [] ys = whole ys
  part_end (x ∷ xs) ys = miss (part_end xs ys)

  pub part_take : (n : ℕ) (xs : List A) → IsPart (take n xs) xs
  unfolding take
  part_take zero xs = nothing xs
  part_take (suc n) [] = done
  part_take (suc n) (x ∷ xs) = keep (part_take n xs)

  pub part_drop : (n : ℕ) (xs : List A) → IsPart (drop n xs) xs
  unfolding drop
  part_drop zero xs = whole xs
  part_drop (suc n) [] = done
  part_drop (suc n) (x ∷ xs) = miss (part_drop n xs)

  pub kept_if :
      (b : Bool) (x : A) {xs ys : List A}
      → IsPart xs ys
      → IsPart (if b then x ∷ xs else xs) (x ∷ ys)
  kept_if true x p = keep p
  kept_if false x p = miss p

  pub cut_if :
      (b : Bool) (x : A) {xs ys : List A}
      → IsPart xs ys
      → IsPart (if b then [] else x ∷ xs) (x ∷ ys)
  cut_if true x {xs} {ys} p = nothing (x ∷ ys)
  cut_if false x p = keep p

  pub part_select : (f : A → Bool) (xs : List A) → IsPart (select f xs) xs
  part_select f [] = done
  part_select f (x ∷ xs) = kept_if (f x) x (part_select f xs)

  pub length-take : (n : ℕ) (xs : List A) → length (take n xs) ≤ n
  unfolding take
  length-take zero xs = omega arith
  length-take (suc n) [] = omega arith
  length-take (suc n) (x ∷ xs) = omega (arith, length-take n xs)

  pub length-drop : (n : ℕ) (xs : List A) → length (drop n xs) ≡ length xs - n
  unfolding drop
  length-drop zero xs = omega arith
  length-drop (suc n) [] = omega arith
  length-drop (suc n) (x ∷ xs) = omega (arith, length-drop n xs)

pub is_in-part :
    (n : String) {xs ys : List String} → IsPart xs ys → is_in n ys ≡ false → is_in n xs ≡ false
is_in-part n done h = h
is_in-part n (keep {x} {xs} {ys} p) h = ground (arith, h, is_in-part n p)
is_in-part n (miss {x} {xs} {ys} p) h = is_in-part n p (ground (arith, h))

pub is_disjoint-part :
    (zs : List String) {xs ys : List String}
    → IsPart xs ys
    → is_disjoint zs ys ≡ true
    → is_disjoint zs xs ≡ true
is_disjoint-part [] p h = refl
is_disjoint-part (z ∷ zs) {xs} {ys} p h = ground (arith, h, is_in-part z p, is_disjoint-part zs p)

pub part_before : (id : String) (items : List Item) → IsPart (before id items) items
unfolding before
part_before id [] = done
part_before id (i ∷ items) = cut_if (str_eq i.source.id id) i (part_before id items)

pub part_trim : (first : ℕ) (overlap : List Observation) → IsPart (trim first overlap) overlap
unfolding trim
part_trim first [] = done
part_trim first (o ∷ overlap) =
    trimmed_if (ltb max_characters (characters (o ∷ overlap) + first)) (part_trim first overlap)
  where
    trimmed_if :
        (b : Bool) {xs : List Observation}
        → IsPart xs overlap
        → IsPart (if b then xs else o ∷ overlap) (o ∷ overlap)
    trimmed_if true p = miss p
    trimmed_if false p = whole (o ∷ overlap)
