-- ===== src/Extraction/Taking.antt =====
-- The ways in which `submit_observations` (backend/services/pipeline/incremental.py) takes an observation in.
use ovrly.Prelude.{
  ◌≡◌, refl, subst, Bool, true, false, not, ◌&&◌, ◌||◌, Option, none, some, [], ◌∷◌, ◌++◌, String,
  leb, if◌then◌else◌, length, is_some, Outcome, ok, err, ok_injective,
}
use ovrly.Extraction.Runs.{Observation, Item}
use ovrly.Extraction.Equality.{observation_eq}
use ovrly.Extraction.Intake.{
  Intake, IntakeError, Admitted, find_item, known_or, admit_new, add_item, new_item, admit,
  reused_identifier, is_refused, refuse,
}

module _ (P : Admitted → Type 0) (o : Observation) (a b : Admitted) where
  of_ok : {c : Admitted} → Path (Outcome IntakeError Admitted) (ok c) (ok b) → P c → P b
  of_ok e p = subst P (ok_injective IntakeError e) p

  of_add :
      (closed : Bool)
      → add_item closed o a ≡ ok b
      → P (record a { existing = a.existing ++ new_item o ∷ [] })
      → P b
  of_add true e p = cc
  of_add false e p = of_ok e p

  of_tests :
      (producer refused late full closed : Bool) (late_reason full_reason : String)
      → (refused ≡ true → P a)
      → ((reason : String) → P (refuse o reason a))
      → (refused ≡ false → P (record a { existing = a.existing ++ new_item o ∷ [] }))
      → (if producer && not refused
          then if late
            then ok (refuse o late_reason a)
            else if full
            then ok (refuse o full_reason a)
            else add_item closed o a
          else if refused
          then ok a
          else add_item closed o a)
        ≡ ok b
      → P b
  of_tests true true late full closed r s old new more e = of_ok e (old refl)
  of_tests true false true full closed r s old new more e = of_ok e (new r)
  of_tests true false false true closed r s old new more e = of_ok e (new s)
  of_tests true false false false closed r s old new more e = of_add closed e (more refl)
  of_tests false true late full closed r s old new more e = of_ok e (old refl)
  of_tests false false late full closed r s old new more e = of_add closed e (more refl)

  -- An observation is known, or was refused before, or is refused now, or is added.
  pub admit_cases :
      (closed : Bool) (q : Intake)
      → ((i : Item) → find_item o.id a.existing ≡ some i → observation_eq i.source o ≡ true → P a)
      → (find_item o.id a.existing ≡ none → is_refused o.id a.unadmitted ≡ true → P a)
      → (find_item o.id a.existing ≡ none → (reason : String) → P (refuse o reason a))
      → (find_item o.id a.existing ≡ none
          → is_refused o.id a.unadmitted ≡ false
          → P (record a { existing = a.existing ++ new_item o ∷ [] }))
      → admit closed q o a ≡ ok b
      → P b
  admit_cases closed q known old new more e = by_find (find_item o.id a.existing) refl e
    where
      by_eq :
          (i : Item) (same : Bool)
          → find_item o.id a.existing ≡ some i
          → observation_eq i.source o ≡ same
          → (if same then ok a else err reused_identifier) ≡ ok b
          → P b
      by_eq i true f s e = of_ok e (known i f s)
      by_eq i false f s e = cc

      by_find :
          (found : Option Item)
          → find_item o.id a.existing ≡ found
          → known_or o a found (admit_new closed q o a) ≡ ok b
          → P b
      by_find none f e =
          of_tests (is_some q.producer) (is_refused o.id a.unadmitted) (closed || q.finalized)
            (leb q.policy.max_observations (length a.existing)) closed "input_closed"
            "budget_exhausted" (old f) (new f) (more f) e
      by_find (some i) f e = by_eq i (observation_eq i.source o) f refl e
