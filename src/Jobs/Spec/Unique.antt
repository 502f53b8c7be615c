-- ===== src/Jobs/Spec/Unique.antt =====
-- The constraints of the table `jobs` (backend/services/jobs/models.py): the primary key and
-- `uq_jobs_stage_key`. Updates by id reach one row.
use ovrly.Prelude.{
  eq_iff, false≢true, ||-left, ||-right, ||-inr, ap, ◌∙◌, ℕ, ◌≡◌, sym, ap, ◌∙◌, subst, ◌⊎◌, inl,
  inr, refl, Bool, true, false, some, List, [], ◌∷◌, ◌++◌, arith, if◌then◌else◌, ◌==◌, ==_iff,
  Bool-cases, any, select, update_where, first_where,
}
use ovrly.Jobs.States.{JobEvent}
use ovrly.Jobs.Tables.{Job, StageKey, key_eq}
use ovrly.Jobs.Spec.{Evolves, Evolves-refl}
use ovrly.Jobs.Spec.Rows.{Table, Table-refl}

-- No two rows have one id, and no two have one stage key.
abbrev pub UniqueRows : List Job → Type 0
UniqueRows [] = Unit
UniqueRows (r ∷ rows) =
    (any (λ s. s.id == r.id) rows ≡ false)
    × (any (λ s. key_eq s.key r.key) rows ≡ false)
    × UniqueRows rows

abbrev pub In : Job → List Job → Type 0
In r [] = ⊥
In r (x ∷ xs) = (x ≡ r) ⊎ In r xs

pub any_of_In :
    (n : ℕ) (r : Job) (rows : List Job) → In r rows → r.id ≡ n → any (λ s. s.id == n) rows ≡ true
any_of_In n r [] h k = absurd h
any_of_In n r (x ∷ xs) (inl e) k = ground arith
any_of_In n r (x ∷ xs) (inr h) k = ground (arith, any_of_In n r xs h k)

update_where-any {ℓ} :
    {A : Type ℓ} (p : A → Bool) (f : A → A) (xs : List A)
    → any p xs ≡ false
    → update_where p f xs ≡ xs
update_where-any p f [] h = refl
update_where-any p f (x ∷ xs) h = ground (arith, update_where-any p f xs)

Table-update_head :
    (allowed : JobEvent → Bool) (f : Job → Job) (x : Job) (xs : List Job)
    → any (λ s. s.id == x.id) xs ≡ false
    → Evolves allowed x (f x)
    → Table allowed (x ∷ xs) (update_where (λ s. s.id == x.id) f (x ∷ xs))
Table-update_head allowed f x xs u v =
    let same : Evolves allowed x (if x.id == x.id then f x else x) =
      rw ((==_iff x.id x.id).1 refl) v in
    let rest : Table allowed xs (update_where (λ s. s.id == x.id) f xs) =
      rw (update_where-any (λ s. s.id == x.id) f xs u) (Table-refl allowed xs) in
    (same, rest)

-- An update of the row with one id, which some found row has.
pub Table-update_id :
    (allowed : JobEvent → Bool) (f : Job → Job) (r : Job) (rows : List Job)
    → UniqueRows rows
    → In r rows
    → Evolves allowed r (f r)
    → Table allowed rows (update_where (λ s. s.id == r.id) f rows)
Table-update_id allowed f r [] u h v = tt
Table-update_id allowed f r (x ∷ xs) u (inl e) v =
    subst
      (λ (y : Job).
        Evolves allowed y (f y)
        → Table allowed (x ∷ xs) (update_where (λ s. s.id == y.id) f (x ∷ xs)))
      e (Table-update_head allowed f x xs u.0) v
Table-update_id allowed f r (x ∷ xs) u (inr h) v = elim (Bool-cases (x.id == r.id)) [
  | inl same ↦ absurd (ground (arith, any_of_In x.id r xs h))
  | inr other ↦ (rw other (Evolves-refl allowed x), Table-update_id allowed f r xs u.2 h v)
]

pub In-first_where :
    (p : Job → Bool) (rows : List Job) {r : Job}
    → first_where p rows ≡ some r
    → In r rows × (p r ≡ true)
In-first_where p [] h = cc
In-first_where p (x ∷ xs) {r} h = elim (Bool-cases (p x)) [
  | inl fits ↦ first x fits (rw fits at h)
  | inr other ↦ later (In-first_where p xs (rw other at h))
]
  where
    first : (y : Job) → p y ≡ true → some y ≡ some r → ((y ≡ r) ⊎ In r xs) × (p r ≡ true)
    first y fits e = (inl (cc), (cc))

    later : In r xs × (p r ≡ true) → ((x ≡ r) ⊎ In r xs) × (p r ≡ true)
    later (i, q) = (inr i, q)

In-select_fit :
    (p : Job → Bool) (x r : Job) (xs : List Job)
    → p x ≡ true
    → (In r (select p xs) → In r xs × (p r ≡ true))
    → (x ≡ r) ⊎ In r (select p xs)
    → ((x ≡ r) ⊎ In r xs) × (p r ≡ true)
In-select_fit p x r xs fits rest (inl e) = (inl e, subst (λ (y : Job). p y ≡ true) e fits)
In-select_fit p x r xs fits rest (inr i) = (inr (rest i).0, (rest i).1)

pub In-select :
    (p : Job → Bool) (rows : List Job) (r : Job) → In r (select p rows) → In r rows × (p r ≡ true)
In-select p [] r h = absurd h
In-select p (x ∷ xs) r h = elim (Bool-cases (p x)) [
  | inl fits ↦ In-select_fit p x r xs fits (In-select p xs r) (rw fits at h)
  | inr other ↦ let (i, q) = In-select p xs r (rw other at h) in (inr i, q)
]

any-update_where :
    (p q : Job → Bool) (f : Job → Job) (rows : List Job)
    → ((r : Job) → q (f r) ≡ q r)
    → any q (update_where p f rows) ≡ any q rows
any-update_where p q f [] h = refl
any-update_where p q f (x ∷ xs) h = ground (arith, h x, any-update_where p q f xs h)

abbrev pub KeepsNames : (Job → Job) → Type 0
KeepsNames f = (r : Job) → ((f r).id ≡ r.id) × ((f r).key ≡ r.key)

if_names :
    (b : Bool) (f : Job → Job) (x : Job)
    → KeepsNames f
    → ((if b then f x else x).id ≡ x.id) × ((if b then f x else x).key ≡ x.key)
if_names true f x h = h x
if_names false f x h = (refl, refl)

-- An update that keeps ids and stage keys keeps them unique.
pub UniqueRows-update_where :
    (p : Job → Bool) (f : Job → Job) (rows : List Job)
    → KeepsNames f
    → UniqueRows rows
    → UniqueRows (update_where p f rows)
UniqueRows-update_where p f [] h u = tt
UniqueRows-update_where p f (x ∷ xs) h u =
    let (id, key) = if_names (p x) f x h in
    (
      rw id (any-update_where p (λ s. s.id == x.id) f xs (λ r. ap (λ n. n == x.id) (h r).0) ∙ u.0),
      rw key (
          any-update_where p (λ s. key_eq s.key x.key) f xs (λ r. ap (λ k. key_eq k x.key) (h r).1)
          ∙ u.1),
      UniqueRows-update_where p f xs h u.2,
    )

any-append :
    (q : Job → Bool) (rows : List Job) (r : Job)
    → any q rows ≡ false
    → q r ≡ false
    → any q (rows ++ r ∷ []) ≡ false
any-append q [] r h k = ground arith
any-append q (x ∷ rows) r h k = ground (arith, any-append q rows r)

pub key_eq-eq : (a b : StageKey) → key_eq a b ≡ true → a ≡ b
key_eq-eq a b h = ground (arith, eq_iff a.stage b.stage, eq_iff a.input_hash b.input_hash)

pub key_eq_refl : (a : StageKey) → key_eq a a ≡ true
key_eq_refl a = ground (arith, eq_iff a.stage a.stage, eq_iff a.input_hash a.input_hash)

key_eq_sym : (a b : StageKey) → key_eq a b ≡ false → key_eq b a ≡ false
key_eq_sym a b h = elim (Bool-cases (key_eq b a)) [
  | inl same ↦
      absurd (false≢true (sym h ∙ ap (λ k. key_eq k b) (sym (key_eq-eq b a same)) ∙ key_eq_refl b))
  | inr other ↦ other
]

pub UniqueRows-append :
    (rows : List Job) (r : Job)
    → any (λ s. s.id == r.id) rows ≡ false
    → any (λ s. key_eq s.key r.key) rows ≡ false
    → UniqueRows rows
    → UniqueRows (rows ++ r ∷ [])
UniqueRows-append [] r h k u = (refl, refl, tt)
UniqueRows-append (x ∷ rows) r h k u = (
  any-append (λ s. s.id == x.id) rows r u.0 (ground arith),
  any-append (λ s. key_eq s.key x.key) rows r u.1 (key_eq_sym x.key r.key (||-left _ _ k)),
  UniqueRows-append rows r (||-right _ _ h) (||-right _ _ k) u.2,
)

pub In-unique_id :
    (a b : Job) (rows : List Job) → UniqueRows rows → In a rows → In b rows → a.id ≡ b.id → a ≡ b
In-unique_id a b [] u i j e = absurd i
In-unique_id a b (x ∷ xs) u (inl p) (inl q) e = sym p ∙ q
In-unique_id a b (x ∷ xs) u (inl p) (inr j) e = absurd (ground (arith, any_of_In x.id b xs j))
In-unique_id a b (x ∷ xs) u (inr i) (inl q) e = absurd (ground (arith, any_of_In x.id a xs i))
In-unique_id a b (x ∷ xs) u (inr i) (inr j) e = In-unique_id a b xs u.2 i j e

any_key_of_In :
    (k : StageKey) (r : Job) (rows : List Job)
    → In r rows
    → key_eq r.key k ≡ true
    → any (λ s. key_eq s.key k) rows ≡ true
any_key_of_In k r [] i e = absurd i
any_key_of_In k r (x ∷ xs) (inl p) e = rw (subst (λ (y : Job). key_eq y.key k ≡ true) (sym p) e)
any_key_of_In k r (x ∷ xs) (inr i) e = ||-inr _ _ (any_key_of_In k r xs i e)

same_key_In :
    (a x : Job) (xs : List Job)
    → any (λ s. key_eq s.key x.key) xs ≡ false
    → In a xs
    → a.key ≡ x.key
    → ⊥
same_key_In a x xs u i e =
    false≢true (sym u ∙ any_key_of_In x.key a xs i (rw e (key_eq_refl x.key)))

pub In-unique_key :
    (a b : Job) (rows : List Job) → UniqueRows rows → In a rows → In b rows → a.key ≡ b.key → a ≡ b
In-unique_key a b [] u i j e = absurd i
In-unique_key a b (x ∷ xs) u (inl p) (inl q) e = sym p ∙ q
In-unique_key a b (x ∷ xs) u (inl p) (inr j) e =
    absurd (same_key_In b x xs u.1 j (sym e ∙ ap (λ (y : Job). y.key) (sym p)))
In-unique_key a b (x ∷ xs) u (inr i) (inl q) e =
    absurd (same_key_In a x xs u.1 i (e ∙ ap (λ (y : Job). y.key) (sym q)))
In-unique_key a b (x ∷ xs) u (inr i) (inr j) e = In-unique_key a b xs u.2 i j e
