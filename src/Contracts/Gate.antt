-- ===== src/Contracts/Gate.antt =====
-- When the check of packages/contracts/compat.py passes.
use ovrly.Prelude.{
  ◌≡◌, refl, inl, inr, Bool, true, false, Bool-cases, not, ◌&&◌, ◌||◌, Option, none, some, List, [],
  ◌∷◌, ◌++◌, String, str_eq, ◌==◌, if◌then◌else◌, all, is_in, Dict, get, ok, err, ◌>>=◌, is_some,
  arith, ◌∙◌,
}
use ovrly.Contracts.Compat.{
  Contracts, Definitions, Change, Finding, Conclusion, Oasdiff, passed, breaks, fails, insert_name,
  sorted_names, enum_values, lost_values, lost, definition_findings, over_definitions,
  compare_enums, enum_findings, file_finding, over_files, schema_file_findings, parse_oasdiff,
  oasdiff_findings, judge, conclude, check, enums,
}

-- A definition is still there, with each of its values.
abbrev pub keeps_definition : Option (List String) → Option (Option (List String)) → Bool
keeps_definition definition none = false
keeps_definition definition (some kept) =
    all (λ v. is_in v (enum_values kept)) (enum_values definition)

abbrev pub keeps_enums : Option Definitions → Option Definitions → Bool
keeps_enums none head = true
keeps_enums (some base) none = false
keeps_enums (some base) (some head) = all (λ e. keeps_definition e.1 (get e.0 head)) base

abbrev pub keeps_files : Contracts → Contracts → Bool
keeps_files base head = all (λ f. is_some (get f.0 head.schemas)) base.schemas

abbrev pub no_errors : Oasdiff → Bool
no_errors none = true
no_errors (some (err _)) = false
no_errors (some (ok changes)) = all (λ (c : Change). not (c.level == 3)) changes

-- Nothing of the base was removed, as far as the check looks.
abbrev pub is_compatible : Contracts → Contracts → Oasdiff → Bool
is_compatible base head oasdiff =
    keeps_files base head
    && (keeps_enums (get enums base.schemas) (get enums head.schemas) && no_errors oasdiff)

-- The check can read what it compares: the enums of the head, and what `oasdiff` prints.
abbrev pub has_enums : Option Definitions → Option Definitions → Bool
has_enums none head = true
has_enums (some _) head = is_some head

abbrev pub has_run : Oasdiff → Bool
has_run none = true
has_run (some (err _)) = false
has_run (some (ok _)) = true

abbrev pub is_passed : Conclusion → Bool
is_passed passed = true
is_passed (breaks _) = false
is_passed (fails _) = false

abbrev is_empty {ℓ} : {A : Type ℓ} → List A → Bool
is_empty [] = true
is_empty (_ ∷ _) = false

is_empty-append {ℓ} :
    {A : Type ℓ} (xs ys : List A) → is_empty (xs ++ ys) ≡ (is_empty xs && is_empty ys)
is_empty-append [] ys = refl
is_empty-append (x ∷ xs) ys = refl

all-insert_name :
    {V : Type 0} (p : String × V → Bool) (e : String × V) (d : Dict V)
    → all p (insert_name e d) ≡ (p e && all p d)
unfolding insert_name
all-insert_name p e [] = refl
all-insert_name p e (f ∷ d) = ground (arith, all-insert_name p e d)

-- Sorting does not change whether every entry has a property.
all-sorted_names :
    {V : Type 0} (p : String × V → Bool) (d : Dict V) → all p (sorted_names d) ≡ all p d
unfolding sorted_names
all-sorted_names p [] = refl
all-sorted_names p (e ∷ d) =
    ground (arith, all-insert_name p e (sorted_names d), all-sorted_names p d)

is_empty-lost :
    (name : String) (values : List String) → is_empty (lost name values) ≡ is_empty values
is_empty-lost name [] = refl
is_empty-lost name (v ∷ values) = refl

is_empty-lost_values :
    (base head : List String) → is_empty (lost_values base head) ≡ all (λ v. is_in v head) base
is_empty-lost_values [] head = refl
is_empty-lost_values (v ∷ base) head = elim (Bool-cases (is_in v head)) [
  | inl kept ↦ rw kept (is_empty-lost_values base head)
  | inr gone ↦ rw gone refl
]

definition_findings-keeps :
    (name : String) (definition : Option (List String)) (kept : Option (Option (List String)))
    → is_empty (definition_findings name definition kept) ≡ keeps_definition definition kept
definition_findings-keeps name definition none = refl
definition_findings-keeps name definition (some kept) =
    is_empty-lost name (lost_values (enum_values definition) (enum_values kept))
    ∙ is_empty-lost_values (enum_values definition) (enum_values kept)

over_definitions-keeps :
    (head base : Definitions)
    → is_empty (over_definitions head base) ≡ all (λ e. keeps_definition e.1 (get e.0 head)) base
unfolding over_definitions
over_definitions-keeps head [] = refl
over_definitions-keeps head (e ∷ base) =
    rw
      (
        is_empty-append (definition_findings e.0 e.1 (get e.0 head)) (over_definitions head base),
        definition_findings-keeps e.0 e.1 (get e.0 head),
        over_definitions-keeps head base,
      )
      refl

file_finding-keeps :
    (name : String) (kept : Bool)
    → is_empty (if kept then [] else Finding.schema_file_removed name ∷ []) ≡ kept
file_finding-keeps name true = refl
file_finding-keeps name false = refl

over_files-keeps :
    (head : Contracts) (files : Dict Definitions)
    → is_empty (over_files head files) ≡ all (λ f. is_some (get f.0 head.schemas)) files
unfolding over_files
over_files-keeps head [] = refl
over_files-keeps head (f ∷ files) =
    rw
      (
        is_empty-append (file_finding head f) (over_files head files),
        file_finding-keeps f.0 (is_some (get f.0 head.schemas)),
        over_files-keeps head files,
      )
      refl

parse_oasdiff-no_errors :
    (changes : List Change)
    → is_empty (parse_oasdiff changes) ≡ all (λ (c : Change). not (c.level == 3)) changes
unfolding parse_oasdiff
parse_oasdiff-no_errors [] = refl
parse_oasdiff-no_errors (c ∷ changes) = elim (Bool-cases (c.level == 3)) [
  | inl error ↦ rw error refl
  | inr other ↦ rw other (parse_oasdiff-no_errors changes)
]

judge-passed :
    (base head : String) (findings : List Finding)
    → is_passed (judge base head findings).1 ≡ (not (str_eq head base) || is_empty findings)
judge-passed base head [] = ground arith
judge-passed base head (f ∷ findings) = elim (Bool-cases (str_eq head base)) [
  | inl same ↦ rw same refl
  | inr changed ↦ rw changed refl
]

schema_file_findings-keeps :
    (base head : Contracts) → is_empty (schema_file_findings base head) ≡ keeps_files base head
unfolding schema_file_findings
schema_file_findings-keeps base head =
    over_files-keeps head (sorted_names base.schemas)
    ∙ all-sorted_names (λ f. is_some (get f.0 head.schemas)) base.schemas

sorted_definitions-keeps :
    (base head : Definitions)
    → is_empty (over_definitions head (sorted_names base)) ≡ keeps_enums (some base) (some head)
sorted_definitions-keeps base head =
    over_definitions-keeps head (sorted_names base)
    ∙ all-sorted_names (λ e. keeps_definition e.1 (get e.0 head)) base

-- The verdict on the three lists of findings.
findings-passed :
    (base head : Contracts) (in_enums in_openapi : List Finding)
    → is_passed
        (judge base.version head.version
          ((schema_file_findings base head ++ in_enums) ++ in_openapi)).1
      ≡ (not (str_eq head.version base.version)
          || (keeps_files base head && (is_empty in_enums && is_empty in_openapi)))
findings-passed base head in_enums in_openapi =
    let files = schema_file_findings base head in
    ground (
      arith,
      judge-passed base.version head.version ((files ++ in_enums) ++ in_openapi),
      is_empty-append (files ++ in_enums) in_openapi,
      is_empty-append files in_enums,
      schema_file_findings-keeps base head,
    )

conclude-passed :
    (base head : Contracts) (oasdiff : Oasdiff) (b h : Option Definitions)
    → is_passed
        (conclude oasdiff base head (do
          in_enums ← compare_enums b h
          in_openapi ← oasdiff_findings oasdiff
          ok ((schema_file_findings base head ++ in_enums) ++ in_openapi))).1
      ≡ (has_enums b h
          && (has_run oasdiff
              && (not (str_eq head.version base.version)
                  || (keeps_files base head && (keeps_enums b h && no_errors oasdiff)))))
conclude-passed base head none none h = findings-passed base head [] []
conclude-passed base head none (some b) none = refl
conclude-passed base head none (some b) (some h) =
    rw
      (
        findings-passed base head (over_definitions h (sorted_names b)) [],
        sorted_definitions-keeps b h,
      )
      refl
conclude-passed base head (some (err e)) none h = refl
conclude-passed base head (some (err e)) (some b) none = refl
conclude-passed base head (some (err e)) (some b) (some h) = refl
conclude-passed base head (some (ok changes)) none h =
    rw (findings-passed base head [] (parse_oasdiff changes), parse_oasdiff-no_errors changes) refl
conclude-passed base head (some (ok changes)) (some b) none = refl
conclude-passed base head (some (ok changes)) (some b) (some h) =
    rw
      (
        findings-passed base head (over_definitions h (sorted_names b)) (parse_oasdiff changes),
        sorted_definitions-keeps b h,
        parse_oasdiff-no_errors changes,
      )
      refl

-- The check of a contract change passes exactly when the base has no openapi.json, or the enums of
-- the head and the output of oasdiff can be read where they are needed, and either the versions
-- differ or every schema file, enum definition and enum value of the base is still in the head and
-- oasdiff, where its binary is given, prints no change of level 3.
pub check-passed :
    (base head : Contracts) (oasdiff : Oasdiff)
    → is_passed (check base head oasdiff).1 ≡ (
        not base.has_openapi
        || (has_enums (get enums base.schemas) (get enums head.schemas)
            && (has_run oasdiff
                && (not (str_eq head.version base.version) || is_compatible base head oasdiff))))
unfolding check enum_findings schema_file_findings
check-passed base head oasdiff = elim (Bool-cases base.has_openapi) [
  | inl given ↦
      rw given (conclude-passed base head oasdiff (get enums base.schemas) (get enums head.schemas))
  | inr missing ↦ rw missing refl
]
