-- ===== src/Jobs/Spec.antt =====
-- What the queue promises of one job, apart from its columns: the state machine of
-- backend/services/jobs/states.py with the two counters that backend/services/jobs/models.py
-- describes. A claim raises the fencing token; an effective cancellation and a deletion raise the
-- generation; no other event touches them.
pub mod Rows
pub mod Unique
pub mod Evolution
pub mod Counters
use ovrly.Prelude.{
  ℕ, ◌+◌, ◌≤◌, ◌≡◌, refl, sym, ap, ◌∙◌, Bool, true, false, ◌||◌, Option, none, some, List, [], ◌∷◌,
  ◌++◌, All, arith, Option-cases, inl, inr, if◌then◌else◌,
}
use ovrly.Jobs.States.{
  JobState, JobEvent, JobStatus, Transition, ok, illegal_transition, apply, new_status,
}
use ovrly.Jobs.Tables.{Job, status}

pub record View : Type 0 where
  pub of : JobStatus
  pub token : ℕ
  pub generation : ℕ

abbrev pub view : Job → View
view r = record { of = status r; token = r.fencing_token; generation = r.generation }

abbrev pub new_view : View
new_view = record { of = new_status; token = 0; generation = 0 }

abbrev is_claim : JobEvent → Bool
is_claim JobEvent.claim = true
is_claim _ = false

abbrev is_final : JobState → Bool
is_final JobState.cancelled = true
is_final JobState.deleted = true
is_final _ = false

abbrev count_event : View → JobEvent → Transition → Option View
count_event v e (illegal_transition _ _) = none
count_event v e (ok t) = some (record {
  of = t;
  token = v.token + (if is_claim e then 1 else 0);
  generation = v.generation + (if is_final t.state then 1 else 0);
})

unfoldable pub advance : View → JobEvent → Option View
unfolding apply
advance v e = count_event v e (apply v.of e)

abbrev pub then_replay : Option View → (View → Option View) → Option View
then_replay none f = none
then_replay (some v) f = f v

unfoldable pub replay : View → List JobEvent → Option View
replay v [] = some v
replay v (e ∷ es) = then_replay (advance v e) (λ w. replay w es)

pub replay-cons :
    (u v : View) (e : JobEvent) (es : List JobEvent)
    → replay u (e ∷ es) ≡ some v
    → (w : View) × (advance u e ≡ some w) × (replay w es ≡ some v)
unfolding replay
replay-cons u v e es h = elim (Option-cases (advance u e)) [
  | inl illegal ↦ ground arith
  | inr (w, legal) ↦ (w, legal, ground arith)
]

pub replay-append :
    (u v : View) (es ds : List JobEvent) → replay u es ≡ some v → replay u (es ++ ds) ≡ replay v ds
unfolding replay
replay-append u v [] ds h = ground arith
replay-append u v (e ∷ es) ds h =
    let (w, legal, rest) = replay-cons u v e es h in rw legal (replay-append w v es ds rest)

-- One row became another by events of a set, and kept what names it.
pub record Evolves (allowed : JobEvent → Bool) (a b : Job) : Type 0 where
  pub events : List JobEvent
  pub within : All (λ e. allowed e ≡ true) events
  pub replayed : replay (view a) events ≡ some (view b)
  pub same_id : b.id ≡ a.id
  pub same_key : b.key ≡ a.key
  pub same_owner : b.owner_id ≡ a.owner_id

abbrev pub only : JobEvent → JobEvent → Bool
only JobEvent.claim JobEvent.claim = true
only JobEvent.start JobEvent.start = true
only JobEvent.publish JobEvent.publish = true
only JobEvent.fail JobEvent.fail = true
only JobEvent.release JobEvent.release = true
only JobEvent.retry JobEvent.retry = true
only JobEvent.expire JobEvent.expire = true
only JobEvent.request_cancel JobEvent.request_cancel = true
only JobEvent.cancel JobEvent.cancel = true
only JobEvent.delete JobEvent.delete = true
only _ _ = false

only_self : (e : JobEvent) → only e e ≡ true
only_self JobEvent.claim = refl
only_self e = refl

-- No event at all.
abbrev pub quiet : JobEvent → Bool
quiet _ = false

abbrev pub AllowedIn : (JobEvent → Bool) → List JobEvent → Type 0
AllowedIn allowed = All (λ e. allowed e ≡ true)

pub AllowedIn-append :
    (allowed : JobEvent → Bool) (es ds : List JobEvent)
    → AllowedIn allowed es
    → AllowedIn allowed ds
    → AllowedIn allowed (es ++ ds)
AllowedIn-append allowed [] ds h k = k
AllowedIn-append allowed (e ∷ es) ds h k = (h.0, AllowedIn-append allowed es ds h.1 k)

pub AllowedIn-mono :
    (a b : JobEvent → Bool) (es : List JobEvent)
    → ((e : JobEvent) → a e ≡ true → b e ≡ true)
    → AllowedIn a es
    → AllowedIn b es
AllowedIn-mono a b [] f h = tt
AllowedIn-mono a b (e ∷ es) f h = (f e h.0, AllowedIn-mono a b es f h.1)

pub Evolves-refl : (allowed : JobEvent → Bool) (a : Job) → Evolves allowed a a
unfolding replay
Evolves-refl allowed a = record {
  events = [];
  within = tt;
  replayed = refl;
  same_id = refl;
  same_key = refl;
  same_owner = refl;
}

pub Evolves-mono :
    (p q : JobEvent → Bool) (a b : Job)
    → ((e : JobEvent) → p e ≡ true → q e ≡ true)
    → Evolves p a b
    → Evolves q a b
Evolves-mono p q a b f v = record {
  events = v.events;
  within = AllowedIn-mono p q v.events f v.within;
  replayed = v.replayed;
  same_id = v.same_id;
  same_key = v.same_key;
  same_owner = v.same_owner;
}

pub Evolves-trans :
    (allowed : JobEvent → Bool) (a b c : Job)
    → Evolves allowed a b
    → Evolves allowed b c
    → Evolves allowed a c
Evolves-trans allowed a b c v w = record {
  events = v.events ++ w.events;
  within = AllowedIn-append allowed v.events w.events v.within w.within;
  replayed = replay-append (view a) (view b) v.events w.events v.replayed ∙ w.replayed;
  same_id = w.same_id ∙ v.same_id;
  same_key = w.same_key ∙ v.same_key;
  same_owner = w.same_owner ∙ v.same_owner;
}

-- One event.
pub Evolves-one :
    (e : JobEvent) (a b : Job)
    → advance (view a) e ≡ some (view b)
    → b.id ≡ a.id
    → b.key ≡ a.key
    → b.owner_id ≡ a.owner_id
    → Evolves (only e) a b
unfolding replay
Evolves-one e a b h i k o = record {
  events = e ∷ [];
  within = (only_self e, tt);
  replayed = rw h;
  same_id = i;
  same_key = k;
  same_owner = o;
}

-- Columns of no concern to the state machine changed.
pub Evolves-none :
    (allowed : JobEvent → Bool) (a b : Job)
    → view b ≡ view a
    → b.id ≡ a.id
    → b.key ≡ a.key
    → b.owner_id ≡ a.owner_id
    → Evolves allowed a b
unfolding replay
Evolves-none allowed a b h i k o = record {
  events = [];
  within = tt;
  replayed = ap some (sym h);
  same_id = i;
  same_key = k;
  same_owner = o;
}
