-- ===== src/Jobs/Spec/Counters.antt =====
-- The fencing token and the generation of a job never fall, and a row is found by its id.
use ovrly.Prelude.{
  ◌≤◌, ◌≡◌, subst, inl, inr, Bool, some, List, [], ◌∷◌, arith, ◌==◌, Bool-cases, first_where,
  update_where,
}
use ovrly.Jobs.States.{JobEvent}
use ovrly.Jobs.Tables.{Job}
use ovrly.Jobs.Spec.{View, view, advance, replay, replay-cons, Evolves}
use ovrly.Jobs.Spec.Unique.{UniqueRows, In, any_of_In}

advance_counters :
    (v w : View) (e : JobEvent)
    → advance v e ≡ some w
    → (v.token ≤ w.token) × (v.generation ≤ w.generation)
unfolding advance
advance_counters v w e h = ground arith

replay_counters :
    (v w : View) (es : List JobEvent)
    → replay v es ≡ some w
    → (v.token ≤ w.token) × (v.generation ≤ w.generation)
unfolding replay
replay_counters v w [] h = ground arith
replay_counters v w (e ∷ es) h =
    let (u, first, rest) = replay-cons v w e es h in
    ground (arith, advance_counters v u e first, replay_counters u w es rest)

pub Evolves-counters :
    (allowed : JobEvent → Bool) (a b : Job)
    → Evolves allowed a b
    → (a.fencing_token ≤ b.fencing_token) × (a.generation ≤ b.generation)
Evolves-counters allowed a b v = replay_counters (view a) (view b) v.events v.replayed

pub first_where-update_id :
    (f : Job → Job) (r : Job) (rows : List Job)
    → UniqueRows rows
    → In r rows
    → ((s : Job) → (f s).id ≡ s.id)
    → first_where (λ s. s.id == r.id) (update_where (λ s. s.id == r.id) f rows) ≡ some (f r)
first_where-update_id f r [] u i same = absurd i
first_where-update_id f r (x ∷ xs) u (inl e) same =
    subst
      (λ (y : Job).
        first_where (λ s. s.id == y.id) (update_where (λ s. s.id == y.id) f (x ∷ xs)) ≡ some (f y))
      e (ground (arith, same x))
first_where-update_id f r (x ∷ xs) u (inr i) same = elim (Bool-cases (x.id == r.id)) [
  | inl equal ↦ absurd (ground (arith, any_of_In x.id r xs i))
  | inr other ↦ rw (other, other) (first_where-update_id f r xs u.2 i same)
]

-- The row of an id is the one found by it.
pub first_where-In :
    (r : Job) (rows : List Job)
    → UniqueRows rows
    → In r rows
    → first_where (λ s. s.id == r.id) rows ≡ some r
first_where-In r [] u i = absurd i
first_where-In r (x ∷ xs) u (inl e) =
    subst (λ (y : Job). first_where (λ s. s.id == y.id) (x ∷ xs) ≡ some y) e (ground arith)
first_where-In r (x ∷ xs) u (inr i) = elim (Bool-cases (x.id == r.id)) [
  | inl equal ↦ absurd (ground (arith, any_of_In x.id r xs i))
  | inr other ↦ rw other (first_where-In r xs u.2 i)
]
