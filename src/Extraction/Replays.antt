-- ===== src/Extraction/Replays.antt =====
-- Observations that `submit_observations` (backend/services/pipeline/incremental.py) takes in a second time.
use ovrly.Prelude.{
  ◌≡◌, refl, ap, sym, ◌∙◌, subst, Bool, true, false, ◌||◌, &&-intro, &&-left, &&-right, Option,
  none, some, List, [], ◌∷◌, ◌++◌, String, str_eq, eq_iff, if◌then◌else◌, all, any-append,
  false≢true, Bool-cases, inl, inr, is_some, ok, ◌>>=◌, >>=-eq-ok, ok_injective, arith,
}
use ovrly.Extraction.Runs.{Role, target, context, Observation, Item, Unadmitted}
use ovrly.Extraction.Equality.{role_eq, speaker_eq, observation_eq}
use ovrly.Extraction.Intake.{
  Intake, IntakeError, Admitted, find_item, known_or, admit_new, new_item, admit, admit_each,
  is_refused, refuse,
}
use ovrly.Extraction.Taking.{admit_cases}

abbrev taken_by : Observation → Bool → Option Item → Bool
taken_by o refused none = refused
taken_by o refused (some i) = observation_eq i.source o

-- An observation that the run has, or has refused.
abbrev is_taken : Admitted → Observation → Bool
is_taken a o = taken_by o (is_refused o.id a.unadmitted) (find_item o.id a.existing)

role_eq_refl : (r : Role) → role_eq r r ≡ true
role_eq_refl target = refl
role_eq_refl context = refl

speaker_eq_refl : (s : Option String) → speaker_eq s s ≡ true
speaker_eq_refl none = refl
speaker_eq_refl (some s) = ground (arith, eq_iff s s)

observation_eq_refl : (o : Observation) → observation_eq o o ≡ true
unfolding observation_eq
observation_eq_refl o = ground (
  arith,
  eq_iff o.id o.id,
  role_eq_refl o.role,
  eq_iff o.text o.text,
  eq_iff o.modality o.modality,
  eq_iff o.timebase o.timebase,
  speaker_eq_refl o.speaker_id,
)

abbrev or_item : Option Item → Option Item → Option Item
or_item none j = j
or_item (some i) j = some i

find_item-added :
    (id : String) (items : List Item) (j : Item)
    → find_item id (items ++ j ∷ [])
      ≡ or_item (find_item id items) (if str_eq j.source.id id then some j else none)
find_item-added id [] j = refl
find_item-added id (i ∷ items) j = ground (arith, find_item-added id items j)

is_refused-refuse :
    (id : String) (p : Observation) (reason : String) (a : Admitted)
    → is_refused id (refuse p reason a).unadmitted ≡ (is_refused id a.unadmitted || str_eq p.id id)
is_refused-refuse id p reason a =
    any-append (λ (u : Unadmitted). str_eq u.id id) a.unadmitted _ ∙ ground arith

-- Adding another observation leaves one that is taken as it is.
still_taken :
    (p o : Observation) (a : Admitted) (found : Option Item)
    → is_refused p.id a.unadmitted ≡ false
    → taken_by o (is_refused o.id a.unadmitted) found ≡ true
    → taken_by o
        (is_refused o.id a.unadmitted)
        (or_item found (if str_eq p.id o.id then some (new_item p) else none))
      ≡ true
still_taken p o a (some i) r t = t
still_taken p o a none r t = elim (Bool-cases (str_eq p.id o.id)) [
  | inl same ↦ absurd (
      false≢true (
        sym r
        ∙ subst (λ id. is_refused id a.unadmitted ≡ true) (sym ((eq_iff p.id o.id).0 same)) t))
  | inr other ↦ rw other t
]

-- An observation that is taken stays so.
admit-taken_before :
    (closed : Bool) (q : Intake) (p o : Observation) (a b : Admitted)
    → is_taken a o ≡ true
    → admit closed q p a ≡ ok b
    → is_taken b o ≡ true
admit-taken_before closed q p o a b t e =
    admit_cases (λ c. is_taken c o ≡ true) p a b closed q (λ i f s. t) (λ f r. t)
      (λ f reason. refused reason (find_item o.id a.existing) t)
      (λ f r.
        subst (λ found. taken_by o (is_refused o.id a.unadmitted) found ≡ true)
          (sym (find_item-added o.id a.existing (new_item p))) (still_taken p o a _ r t))
      e
  where
    refused :
        (reason : String) (found : Option Item)
        → taken_by o (is_refused o.id a.unadmitted) found ≡ true
        → taken_by o (is_refused o.id (refuse p reason a).unadmitted) found ≡ true
    refused reason none t = is_refused-refuse o.id p reason a ∙ ground (arith, t)
    refused reason (some i) t = t

admit-taken :
    (closed : Bool) (q : Intake) (o : Observation) (a b : Admitted)
    → admit closed q o a ≡ ok b
    → is_taken b o ≡ true
admit-taken closed q o a b e =
    admit_cases (λ c. is_taken c o ≡ true) o a b closed q (λ i f s. rw f s) (λ f r. rw f r)
      (λ f reason. rw f (is_refused-refuse o.id o reason a ∙ ground (arith, eq_iff o.id o.id)))
      (λ f r.
        subst (λ found. taken_by o (is_refused o.id a.unadmitted) found ≡ true)
          (sym (find_item-added o.id a.existing (new_item o) ∙ added f)) (observation_eq_refl o))
      e
  where
    added :
        find_item o.id a.existing ≡ none
        → or_item (find_item o.id a.existing) (if str_eq o.id o.id then some (new_item o) else none)
          ≡ some (new_item o)
    added f = rw (f, (eq_iff o.id o.id).1 refl) refl

admit_taken :
    (closed : Bool) (q : Intake) (o : Observation) (a : Admitted)
    → is_taken a o ≡ true
    → admit closed q o a ≡ ok a
admit_taken closed q o a t = by_find (find_item o.id a.existing) t
  where
    by_find :
        (found : Option Item)
        → taken_by o (is_refused o.id a.unadmitted) found ≡ true
        → known_or o a found (admit_new closed q o a) ≡ ok a
    by_find none t = elim (Bool-cases (is_some q.producer)) [
      | inl upstream ↦ rw (upstream, t) refl
      | inr other ↦ rw (other, t) refl
    ]
    by_find (some i) t = rw t refl

admit_each-taken_before :
    (closed : Bool) (q : Intake) (observations : List Observation) (o : Observation)
    (a b : Admitted)
    → is_taken a o ≡ true
    → admit_each closed q observations a ≡ ok b
    → is_taken b o ≡ true
unfolding admit_each
admit_each-taken_before closed q [] o a b t e =
    subst (λ c. is_taken c o ≡ true) (ok_injective IntakeError e) t
admit_each-taken_before closed q (p ∷ observations) o a b t e =
    let (c, first, later) = >>=-eq-ok (admit closed q p a) (admit_each closed q observations) e in
    admit_each-taken_before closed q observations o c b
      (admit-taken_before closed q p o a c t first) later

admit_each-taken :
    (closed : Bool) (q : Intake) (observations : List Observation) (a b : Admitted)
    → admit_each closed q observations a ≡ ok b
    → all (is_taken b) observations ≡ true
unfolding admit_each
admit_each-taken closed q [] a b e = refl
admit_each-taken closed q (p ∷ observations) a b e =
    let (c, first, later) = >>=-eq-ok (admit closed q p a) (admit_each closed q observations) e in
    &&-intro _ _
      (admit_each-taken_before closed q observations p c b (admit-taken closed q p a c first) later)
      (admit_each-taken closed q observations c b later)

admit_each_taken :
    (closed : Bool) (q : Intake) (observations : List Observation) (a : Admitted)
    → all (is_taken a) observations ≡ true
    → admit_each closed q observations a ≡ ok a
unfolding admit_each
admit_each_taken closed q [] a t = refl
admit_each_taken closed q (o ∷ observations) a t =
    ap (λ r. r >>= admit_each closed q observations) (admit_taken closed q o a (&&-left _ _ t))
    ∙ admit_each_taken closed q observations a (&&-right (is_taken a o) _ t)

-- Taking observations in is idempotent: where the loop over the observations has taken them in,
-- running it on them again ends without an error and leaves the observations and the refusals as
-- they are, also for another submission and after the input was closed. The checks that a
-- submission passes before the loop may still refuse a repeated one.
pub admit_each-replayed :
    (closed reclosed : Bool) (q r : Intake) (observations : List Observation) (a b : Admitted)
    → admit_each closed q observations a ≡ ok b
    → admit_each reclosed r observations b ≡ ok b
admit_each-replayed closed reclosed q r observations a b e =
    admit_each_taken reclosed r observations b (admit_each-taken closed q observations a b e)
