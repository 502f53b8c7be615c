-- ===== src/Evidence/Merge/Kept.antt =====
-- What the next version keeps of the claims that a run did not assess
-- (backend/services/evidence/stages.py).
use ovrly.Prelude.{
  ℕ, ◌≡◌, refl, ap, inl, inr, sym, subst, Bool, true, false, Bool-cases, &&-intro, &&-left,
  &&-right, not, ◌&&◌, List, [], ◌∷◌, ◌++◌, String, str_eq, ◌==◌, any, all, select, all_mono, is_in,
  distinct, is_disjoint, map, eq_iff, ==_iff, arith,
}
use ovrly.Evidence.Records.{Evidence, Assessment}
use ovrly.Evidence.Assessor.Soundness.{evidence_ids}
use ovrly.Evidence.CitationRules.{is_cited, is_grounded, assessed_claims}
use ovrly.Evidence.Merge.{restamp, outside}
use ovrly.Evidence.Merge.Brought.{Covers}

module _ {ℓ} {A : Type ℓ} (name : A → String) (p : A → Bool) where
  not_in_select :
      (x : String) (xs : List A)
      → is_in x (map name xs) ≡ false
      → is_in x (map name (select p xs)) ≡ false
  not_in_select x [] h = refl
  not_in_select x (y ∷ xs) h = elim (Bool-cases (p y)) [
    | inl kept ↦ rw kept (ground (arith, not_in_select x xs))
    | inr gone ↦ rw gone (not_in_select x xs (ground (arith, h)))
  ]

  -- A selection repeats nothing that the list does not repeat.
  pub distinct-select :
      (xs : List A) → distinct (map name xs) ≡ true → distinct (map name (select p xs)) ≡ true
  distinct-select [] h = refl
  distinct-select (x ∷ xs) h = elim (Bool-cases (p x)) [
    | inl kept ↦ rw kept (ground (arith, h, not_in_select (name x) xs, distinct-select xs))
    | inr gone ↦ rw gone (distinct-select xs (&&-right _ _ h))
  ]

pub kept-owners :
    (owner : String → String) (scope : List String) (evidence : List Evidence)
    → all (λ (e : Evidence). str_eq (owner e.id) e.claim_id) evidence ≡ true
    → all
        (λ x. not (is_in (owner x) scope))
        (evidence_ids (select (λ (e : Evidence). outside scope e.claim_id) evidence))
      ≡ true
kept-owners owner scope [] h = refl
kept-owners owner scope (e ∷ evidence) h = elim (Bool-cases (outside scope e.claim_id)) [
  | inl kept ↦
      rw (kept, (eq_iff (owner e.id) e.claim_id).0 (&&-left _ _ h), kept)
        (kept-owners owner scope evidence (&&-right _ _ h))
  | inr gone ↦ rw gone (kept-owners owner scope evidence (&&-right _ _ h))
]

pub kept-outside :
    (scope : List String) (assessments : List Assessment)
    → is_disjoint
        (assessed_claims (select (λ (a : Assessment). outside scope a.claim_id) assessments))
        scope
      ≡ true
kept-outside scope [] = refl
kept-outside scope (a ∷ assessments) = elim (Bool-cases (outside scope a.claim_id)) [
  | inl kept ↦ rw (kept, kept) (kept-outside scope assessments)
  | inr gone ↦ rw gone (kept-outside scope assessments)
]

pub assessed_claims-restamp :
    (version : ℕ) (provisional : Bool) (assessments : List Assessment)
    → assessed_claims (map (restamp version provisional) assessments) ≡ assessed_claims assessments
assessed_claims-restamp version provisional [] = refl
assessed_claims-restamp version provisional (a ∷ assessments) =
    ap (λ ids. a.claim_id ∷ ids) (assessed_claims-restamp version provisional assessments)

pub assessed_claims-append :
    (xs ys : List Assessment)
    → assessed_claims (xs ++ ys) ≡ assessed_claims xs ++ assessed_claims ys
assessed_claims-append [] ys = refl
assessed_claims-append (x ∷ xs) ys = ap (λ ids. x.claim_id ∷ ids) (assessed_claims-append xs ys)

-- Evidence of a claim that is out of scope is kept.
cited-kept :
    (scope : List String) (claim_id id : String) (evidence : List Evidence)
    → outside scope claim_id ≡ true
    → any (λ (e : Evidence). str_eq e.id id && str_eq e.claim_id claim_id) evidence ≡ true
    → any
        (λ (e : Evidence). str_eq e.id id && str_eq e.claim_id claim_id)
        (select (λ (e : Evidence). outside scope e.claim_id) evidence)
      ≡ true
cited-kept scope claim_id id [] h k = k
cited-kept scope claim_id id (e ∷ evidence) h k = elim (Bool-cases (outside scope e.claim_id)) [
  | inl kept ↦ rw kept (ground (arith, k, cited-kept scope claim_id id evidence h))
  | inr gone ↦ rw gone (
      ground
        (arith, k, cited-kept scope claim_id id evidence h, eq_iff e.claim_id claim_id, gone_claim))
]
  where
    gone_claim : str_eq e.claim_id claim_id ≡ true → outside scope e.claim_id ≡ true
    gone_claim same =
        subst (λ c. outside scope c ≡ true) (sym ((eq_iff e.claim_id claim_id).0 same)) h

-- An assessment that is kept stays grounded.
kept-is_grounded :
    (scope : List String) (evidence merged : List Evidence) (a : Assessment)
    → Covers merged (select (λ (e : Evidence). outside scope e.claim_id) evidence)
    → outside scope a.claim_id ≡ true
    → is_grounded evidence a ≡ true
    → is_grounded merged a ≡ true
kept-is_grounded scope evidence merged a covers kept was =
    &&-intro _ _
      (all_mono (is_cited evidence a.claim_id) (is_cited merged a.claim_id) a.relations
        (λ r cited.
          covers (λ (e : Evidence). str_eq e.id r.evidence_id && str_eq e.claim_id a.claim_id)
            (cited-kept scope a.claim_id r.evidence_id evidence kept cited))
        (&&-left (all (is_cited evidence a.claim_id) a.relations) _ was))
      (&&-right (all (is_cited evidence a.claim_id) a.relations) _ was)

pub kept-is_sound :
    (claims scope : List String) (old version : ℕ) (provisional : Bool)
    (evidence merged : List Evidence) (assessments : List Assessment)
    → Covers merged (select (λ (e : Evidence). outside scope e.claim_id) evidence)
    → all
        (λ (a : Assessment).
          is_in a.claim_id claims && (a.version == old && is_grounded evidence a))
        assessments
      ≡ true
    → all
        (λ (a : Assessment).
          is_in a.claim_id claims && (a.version == version && is_grounded merged a))
        (map
          (restamp version provisional)
          (select (λ (a : Assessment). outside scope a.claim_id) assessments))
      ≡ true
kept-is_sound claims scope old version provisional evidence merged [] covers h = refl
kept-is_sound claims scope old version provisional evidence merged (a ∷ assessments) covers h =
    let rest =
      kept-is_sound claims scope old version provisional evidence merged assessments covers
        (&&-right _ _ h) in
    elim (Bool-cases (outside scope a.claim_id)) [
      | inl kept ↦ rw kept (
          &&-intro _ _
            (&&-intro _ _ (&&-left _ _ here) (
              &&-intro _ _ ((==_iff version version).1 refl) (
                kept-is_grounded scope evidence merged a covers kept (
                  &&-right (a.version == old) (is_grounded evidence a)
                    (&&-right (is_in a.claim_id claims) _ here)))))
            rest)
      | inr gone ↦ rw gone rest
    ]
  where
    here : (is_in a.claim_id claims && (a.version == old && is_grounded evidence a)) ≡ true
    here =
        &&-left (is_in a.claim_id claims && (a.version == old && is_grounded evidence a))
          (all
            (λ (b : Assessment).
              is_in b.claim_id claims && (b.version == old && is_grounded evidence b))
            assessments)
          h
