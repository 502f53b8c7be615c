-- ===== src/Prelude/Sets.antt =====
-- Python's sets of texts, as lists, and lists of texts with no repetition.
use Prim.Native.Nat.{◌≤◌}
use mathlib.Core.Path.{◌≡◌, refl}
use mathlib.Core.Logic.{inl, inr}
use mathlib.Core.Bool.{Bool, true, ◌||◌, ◌&&◌, not}
use mathlib.Core.List.{List, [], ◌∷◌, ◌++◌}
use Prim.Native.String.{String}
use text.Mathlib.Text.{◌==◌ as str_eq}
use text.Mathlib.TextEquality.{eq_iff}
use native.Mathlib.Omega.{arith}
use ovrly.Prelude.Tests.{if◌then◌else◌, Bool-cases}
use ovrly.Prelude.Lists.{any, select, length}

abbrev pub all {ℓ} : {A : Type ℓ} → (A → Bool) → List A → Bool
all p [] = true
all p (x ∷ xs) = p x && all p xs

-- `x in xs`
abbrev pub is_in : String → List String → Bool
is_in x = any (str_eq x)

abbrev pub add_to_set : String → List String → List String
add_to_set x xs = if is_in x xs then xs else x ∷ xs

-- `set(xs)`
unfoldable pub to_set : List String → List String
to_set [] = []
to_set (x ∷ xs) = add_to_set x (to_set xs)

abbrev pub distinct : List String → Bool
distinct [] = true
distinct (x ∷ xs) = not (is_in x xs) && distinct xs

abbrev pub is_disjoint : List String → List String → Bool
is_disjoint xs ys = all (λ x. not (is_in x ys)) xs

pub all-append {ℓ} :
    {A : Type ℓ} (p : A → Bool) (xs ys : List A) → all p (xs ++ ys) ≡ (all p xs && all p ys)
all-append p [] ys = refl
all-append p (x ∷ xs) ys = ground (arith, all-append p xs ys)

pub any-append {ℓ} :
    {A : Type ℓ} (p : A → Bool) (xs ys : List A) → any p (xs ++ ys) ≡ (any p xs || any p ys)
any-append p [] ys = refl
any-append p (x ∷ xs) ys = ground (arith, any-append p xs ys)

-- What holds of every element holds of one that is found.
pub all-any {ℓ} :
    {A : Type ℓ} (p q r : A → Bool) (xs : List A)
    → ((x : A) → p x ≡ true → q x ≡ true → r x ≡ true)
    → all p xs ≡ true
    → any q xs ≡ true
    → any r xs ≡ true
all-any p q r [] f h k = cc
all-any p q r (x ∷ xs) f h k = ground (arith, f x, all-any p q r xs f)

pub all_mono {ℓ} :
    {A : Type ℓ} (p q : A → Bool) (xs : List A)
    → ((x : A) → p x ≡ true → q x ≡ true)
    → all p xs ≡ true
    → all q xs ≡ true
all_mono p q [] f h = refl
all_mono p q (x ∷ xs) f h = ground (arith, f x, all_mono p q xs f)

pub all-select {ℓ} :
    {A : Type ℓ} (p s : A → Bool) (xs : List A) → all p xs ≡ true → all p (select s xs) ≡ true
all-select p s [] h = refl
all-select p s (x ∷ xs) h = ground (arith, all-select p s xs)

pub is_in-add_to_set :
    (x y : String) (xs : List String) → is_in x (add_to_set y xs) ≡ (str_eq x y || is_in x xs)
is_in-add_to_set x y xs = elim (Bool-cases (is_in y xs)) [
  | inl old ↦ rw old (known x y xs old)
  | inr fresh ↦ rw fresh refl
]
  where
    known :
        (x y : String) (xs : List String)
        → is_in y xs ≡ true
        → is_in x xs ≡ (str_eq x y || is_in x xs)
    known x y [] h = cc
    known x y (z ∷ xs) h = ground (arith, eq_iff x y, eq_iff y z, eq_iff x z, known x y xs)

pub is_in-to_set : (x : String) (xs : List String) → is_in x (to_set xs) ≡ is_in x xs
unfolding to_set
is_in-to_set x [] = refl
is_in-to_set x (y ∷ xs) = ground (arith, is_in-add_to_set x y (to_set xs), is_in-to_set x xs)

pub length-to_set : (xs : List String) → length (to_set xs) ≤ length xs
unfolding to_set
length-to_set [] = omega arith
length-to_set (x ∷ xs) = ground (arith, length-to_set xs)

-- A list is as long as its set exactly when it repeats nothing.
pub distinct-length : (xs : List String) → length (to_set xs) ≡ length xs → distinct xs ≡ true
unfolding to_set
distinct-length [] h = refl
distinct-length (x ∷ xs) h = ground (arith, length-to_set xs, is_in-to_set x xs, distinct-length xs)

pub distinct-append :
    (xs ys : List String)
    → distinct (xs ++ ys) ≡ (distinct xs && (distinct ys && is_disjoint xs ys))
distinct-append [] ys = ground arith
distinct-append (x ∷ xs) ys = ground (arith, distinct-append xs ys, any-append (str_eq x) xs ys)
