-- ===== src/Jobs/Spec/Evolution.antt =====
-- Whole transactions on the table of jobs: rows evolve and the table's constraints stay.
use ovrly.Prelude.{◌≡◌, Bool, true, false, List, [], ◌∷◌, ◌++◌, ◌==◌, any, update_where}
use ovrly.Jobs.States.{JobEvent}
use ovrly.Jobs.Tables.{Job, key_eq}
use ovrly.Jobs.Spec.{view, Evolves, new_view}
use ovrly.Jobs.Spec.Rows.{
  Table, Table-refl, Table-append, Table-update_where, Table-mono, Table-trans,
}
use ovrly.Jobs.Spec.Unique.{
  UniqueRows, In, KeepsNames, UniqueRows-update_where, UniqueRows-append, Table-update_id,
}

-- How a table changes in one transaction or several: its rows evolve, and its constraints stay.
abbrev pub Evolution : (JobEvent → Bool) → List Job → List Job → Type 0
Evolution allowed xs ys = Table allowed xs ys × (UniqueRows xs → UniqueRows ys)

pub Evolution-refl : (allowed : JobEvent → Bool) (rows : List Job) → Evolution allowed rows rows
Evolution-refl allowed rows = (Table-refl allowed rows, λ u. u)

pub Evolution-trans :
    (allowed : JobEvent → Bool) (xs ys zs : List Job)
    → Evolution allowed xs ys
    → Evolution allowed ys zs
    → Evolution allowed xs zs
Evolution-trans allowed xs ys zs t u = (Table-trans allowed xs ys zs t.0 u.0, λ h. u.1 (t.1 h))

pub Evolution-mono :
    (p q : JobEvent → Bool) (xs ys : List Job)
    → ((e : JobEvent) → p e ≡ true → q e ≡ true)
    → Evolution p xs ys
    → Evolution q xs ys
Evolution-mono p q xs ys f t = (Table-mono p q xs ys f t.0, t.1)

pub Evolution-update_where :
    (allowed : JobEvent → Bool) (p : Job → Bool) (f : Job → Job) (rows : List Job)
    → ((r : Job) → p r ≡ true → Evolves allowed r (f r))
    → KeepsNames f
    → Evolution allowed rows (update_where p f rows)
Evolution-update_where allowed p f rows h same =
    (Table-update_where allowed p f rows h, UniqueRows-update_where p f rows same)

pub Evolution-append :
    (allowed : JobEvent → Bool) (rows : List Job) (r : Job)
    → view r ≡ new_view
    → any (λ s. s.id == r.id) rows ≡ false
    → any (λ s. key_eq s.key r.key) rows ≡ false
    → Evolution allowed rows (rows ++ r ∷ [])
Evolution-append allowed rows r h fresh new =
    (Table-append allowed rows r h, UniqueRows-append rows r fresh new)

pub Evolution-update_id :
    (allowed : JobEvent → Bool) (f : Job → Job) (r : Job) (rows : List Job)
    → UniqueRows rows
    → In r rows
    → Evolves allowed r (f r)
    → KeepsNames f
    → Evolution allowed rows (update_where (λ s. s.id == r.id) f rows)
Evolution-update_id allowed f r rows u i v same = (
  Table-update_id allowed f r rows u i v,
  UniqueRows-update_where (λ s. s.id == r.id) f rows same,
)
