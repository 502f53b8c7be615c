-- ===== src/Jobs/Spec/Rows.antt =====
-- Whole tables of jobs: rows evolve in place, new rows stand at the end, none disappears.
use ovrly.Prelude.{
  ℕ, ◌≡◌, sym, ap, ◌∙◌, subst, inl, inr, refl, Bool, true, some, List, [], ◌∷◌, ◌++◌, All, ◌==◌,
  Bool-cases, update_where, first_where,
}
use ovrly.Jobs.States.{JobEvent}
use ovrly.Jobs.Tables.{Job}
use ovrly.Jobs.Spec.{
  view, Evolves, Evolves-refl, Evolves-trans, Evolves-mono, new_view, replay, replay-append,
  AllowedIn, AllowedIn-append, AllowedIn-mono,
}

-- A row that `enqueue` inserted, and that has evolved since by events of a set.
pub record Born (allowed : JobEvent → Bool) (b : Job) : Type 0 where
  pub events : List JobEvent
  pub within : AllowedIn allowed events
  pub replayed : replay new_view events ≡ some (view b)

abbrev pub Table : (JobEvent → Bool) → List Job → List Job → Type 0
Table allowed [] bs = All (Born allowed) bs
Table allowed (a ∷ as') [] = ⊥
Table allowed (a ∷ as') (b ∷ bs) = Evolves allowed a b × Table allowed as' bs

pub Born-new : (allowed : JobEvent → Bool) (b : Job) → view b ≡ new_view → Born allowed b
unfolding replay
Born-new allowed b h = record { events = []; within = tt; replayed = ap some (sym h) }

Born-Evolves :
    (allowed : JobEvent → Bool) (a b : Job) → Born allowed a → Evolves allowed a b → Born allowed b
Born-Evolves allowed a b h v = record {
  events = h.events ++ v.events;
  within = AllowedIn-append allowed h.events v.events h.within v.within;
  replayed = replay-append new_view (view a) h.events v.events h.replayed ∙ v.replayed;
}

Born-mono :
    (p q : JobEvent → Bool) (bs : List Job)
    → ((e : JobEvent) → p e ≡ true → q e ≡ true)
    → All (Born p) bs
    → All (Born q) bs
Born-mono p q [] f h = tt
Born-mono p q (b ∷ bs) f h = (
  record {
    events = h.0.events;
    within = AllowedIn-mono p q h.0.events f h.0.within;
    replayed = h.0.replayed;
  },
  Born-mono p q bs f h.1,
)

pub Table-refl : (allowed : JobEvent → Bool) (rows : List Job) → Table allowed rows rows
Table-refl allowed [] = tt
Table-refl allowed (r ∷ rows) = (Evolves-refl allowed r, Table-refl allowed rows)

pub Table-append :
    (allowed : JobEvent → Bool) (rows : List Job) (r : Job)
    → view r ≡ new_view
    → Table allowed rows (rows ++ r ∷ [])
Table-append allowed [] r h = (Born-new allowed r h, tt)
Table-append allowed (x ∷ rows) r h = (Evolves-refl allowed x, Table-append allowed rows r h)

-- An update of the rows that fit, each by events of the set.
pub Table-update_where :
    (allowed : JobEvent → Bool) (p : Job → Bool) (f : Job → Job) (rows : List Job)
    → ((r : Job) → p r ≡ true → Evolves allowed r (f r))
    → Table allowed rows (update_where p f rows)
Table-update_where allowed p f [] h = tt
Table-update_where allowed p f (r ∷ rows) h = elim (Bool-cases (p r)) [
  | inl fits ↦ (rw fits (h r fits), Table-update_where allowed p f rows h)
  | inr other ↦ (rw other (Evolves-refl allowed r), Table-update_where allowed p f rows h)
]

pub Table-trans :
    (allowed : JobEvent → Bool) (xs ys zs : List Job)
    → Table allowed xs ys
    → Table allowed ys zs
    → Table allowed xs zs
Table-trans allowed [] [] zs t u = u
Table-trans allowed [] (y ∷ ys) [] t u = absurd u
Table-trans allowed [] (y ∷ ys) (z ∷ zs) t u =
    (Born-Evolves allowed y z t.0 u.0, Table-trans allowed [] ys zs t.1 u.1)
Table-trans allowed (x ∷ xs) [] zs t u = absurd t
Table-trans allowed (x ∷ xs) (y ∷ ys) [] t u = absurd u
Table-trans allowed (x ∷ xs) (y ∷ ys) (z ∷ zs) t u =
    (Evolves-trans allowed x y z t.0 u.0, Table-trans allowed xs ys zs t.1 u.1)

pub Table-mono :
    (p q : JobEvent → Bool) (xs ys : List Job)
    → ((e : JobEvent) → p e ≡ true → q e ≡ true)
    → Table p xs ys
    → Table q xs ys
Table-mono p q [] ys f h = Born-mono p q ys f h
Table-mono p q (x ∷ xs) [] f h = absurd h
Table-mono p q (x ∷ xs) (y ∷ ys) f h = (Evolves-mono p q x y f h.0, Table-mono p q xs ys f h.1)

-- The row that a table keeps for one id, followed through the table's evolution.
pub Table-find :
    (allowed : JobEvent → Bool) (n : ℕ) (xs ys : List Job) {r : Job}
    → Table allowed xs ys
    → first_where (λ s. s.id == n) xs ≡ some r
    → (r' : Job) × (first_where (λ s. s.id == n) ys ≡ some r') × Evolves allowed r r'
Table-find allowed n [] ys t h = cc
Table-find allowed n (x ∷ xs) [] t h = absurd t
Table-find allowed n (x ∷ xs) (y ∷ ys) {r} t h = elim (Bool-cases (x.id == n)) [
  | inl same ↦ (
    y,
    rw (t.0.same_id, same) refl,
    subst (λ (z : Job). Evolves allowed z y) (found (rw same at h)) t.0,
  )
  | inr other ↦
      let (r', e, v) = Table-find allowed n xs ys t.1 (rw other at h) in
      (r', rw (t.0.same_id, other) e, v)
]
  where
    found : some x ≡ some r → x ≡ r
    found e = cc
