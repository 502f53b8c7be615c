-- ===== src/Contracts/Compat.antt =====
-- packages/contracts/compat.py: whether a change of the contracts needs a new VERSION. A directory is
-- what the script reads of it, the JSON of its files as decoded; each enum value is a text.
use ovrly.Prelude.{
  ℕ, Bool, not, Option, none, some, List, [], ◌∷◌, ◌++◌, String, str_eq, str_lt, ◌==◌,
  if◌then◌else◌, any, select, length, map, Dict, get, Outcome, ok, err, ◌>>=◌, is_some,
}

-- `$defs` of a schema file: for each name the values of its `enum`, none where it has no such key.
abbrev pub Definitions : Type 0
Definitions = Dict (Option (List String))

pub record Contracts : Type 0 where
  pub version : String
  pub has_openapi : Bool
  -- the files `*.schema.json` with their `$defs`
  pub schemas : Dict Definitions

-- A change that `oasdiff` prints, with its level: 3 is an error.
pub record Change : Type 0 where
  pub level : ℕ
  pub id : String
  pub operation : String
  pub path : String
  pub text : String

pub data Finding : Type 0 where
  schema_file_removed enum_removed : String → Finding
  enum_lost_values : String → List String → Finding
  oasdiff_error : (id operation path text : String) → Finding

-- An exception other than `Breaking`.
pub data Failure : Type 0 where
  file_not_found oasdiff_failed : Failure

-- `sorted` of dictionary items or file names, by their text.
unfoldable pub insert_name : {V : Type 0} → String × V → Dict V → Dict V
insert_name e [] = e ∷ []
insert_name e (f ∷ d) = let rest = insert_name e d in if str_lt f.0 e.0 then f ∷ rest else e ∷ f ∷ d

unfoldable pub sorted_names : {V : Type 0} → Dict V → Dict V
sorted_names [] = []
sorted_names (e ∷ d) = insert_name e (sorted_names d)

abbrev pub enum_values : Option (List String) → List String
enum_values none = []
enum_values (some values) = values

abbrev pub lost_values : List String → List String → List String
lost_values base head = select (λ v. not (any (str_eq v) head)) base

abbrev pub lost : String → List String → List Finding
lost name [] = []
lost name (v ∷ removed) = enum_lost_values name (v ∷ removed) ∷ []

abbrev pub definition_findings :
    String → Option (List String) → Option (Option (List String)) → List Finding
definition_findings name definition none = enum_removed name ∷ []
definition_findings name definition (some kept) =
    lost name (lost_values (enum_values definition) (enum_values kept))

-- The loop of `enum_findings`.
unfoldable pub over_definitions : Definitions → Definitions → List Finding
over_definitions head [] = []
over_definitions head (e ∷ base) =
    definition_findings e.0 e.1 (get e.0 head) ++ over_definitions head base

abbrev pub enums : String
enums = "enums.schema.json"

abbrev pub compare_enums : Option Definitions → Option Definitions → Outcome Failure (List Finding)
compare_enums none head = ok []
compare_enums (some base) none = err file_not_found
compare_enums (some base) (some head) = ok (over_definitions head (sorted_names base))

-- `enum_findings`
unfoldable pub enum_findings : Contracts → Contracts → Outcome Failure (List Finding)
enum_findings base head = compare_enums (get enums base.schemas) (get enums head.schemas)

abbrev pub file_finding : Contracts → String × Definitions → List Finding
file_finding head f = if is_some (get f.0 head.schemas) then [] else schema_file_removed f.0 ∷ []

unfoldable pub over_files : Contracts → Dict Definitions → List Finding
over_files head [] = []
over_files head (f ∷ files) = file_finding head f ++ over_files head files

-- `schema_file_findings`; a directory lists each name once.
unfoldable pub schema_file_findings : Contracts → Contracts → List Finding
schema_file_findings base head = over_files head (sorted_names base.schemas)

-- `parse_oasdiff` of a list of changes
unfoldable pub parse_oasdiff : List Change → List Finding
parse_oasdiff [] = []
parse_oasdiff (c ∷ changes) =
    if c.level == 3
    then oasdiff_error c.id c.operation c.path c.text ∷ parse_oasdiff changes
    else parse_oasdiff changes

pub data Line : Type 0 where
  no_baseline oasdiff_not_given no_breaking : Line
  versions bumped : (base head : String) → Line
  breaking : Finding → Line

-- How `check` ends: it returns, raises `Breaking` with the number of findings, or fails otherwise.
pub data Conclusion : Type 0 where
  passed : Conclusion
  breaks : ℕ → Conclusion
  fails : Failure → Conclusion

-- What `oasdiff` comes to where its binary is given: the changes that it prints, or a failure.
abbrev pub Oasdiff : Type 0
Oasdiff = Option (Outcome Failure (List Change))

abbrev pub oasdiff_findings : Oasdiff → Outcome Failure (List Finding)
oasdiff_findings none = ok []
oasdiff_findings (some run) = run >>= λ changes. ok (parse_oasdiff changes)

abbrev pub judge : String → String → List Finding → List Line × Conclusion
judge base head [] = (no_breaking ∷ [], passed)
judge base head (f ∷ findings) =
    if str_eq head base
    then (map breaking (f ∷ findings), breaks (length (f ∷ findings)))
    else (map breaking (f ∷ findings) ++ bumped base head ∷ [], passed)

abbrev pub report : Oasdiff → Contracts → Contracts → List Finding → List Line × Conclusion
report oasdiff base head findings =
    let (lines, verdict) = judge base.version head.version findings in
    (
      (if is_some oasdiff then [] else oasdiff_not_given ∷ [])
          ++ versions base.version head.version ∷ lines,
      verdict,
    )

abbrev pub conclude :
    Oasdiff → Contracts → Contracts → Outcome Failure (List Finding) → List Line × Conclusion
conclude oasdiff base head (err e) = ([], fails e)
conclude oasdiff base head (ok findings) = report oasdiff base head findings

-- `check`: the lines that it yields, and how it ends.
unfoldable pub check : Contracts → Contracts → Oasdiff → List Line × Conclusion
check base head oasdiff =
    if base.has_openapi
    then conclude oasdiff base head (do
      in_enums ← enum_findings base head
      in_openapi ← oasdiff_findings oasdiff
      ok ((schema_file_findings base head ++ in_enums) ++ in_openapi))
    else (no_baseline ∷ [], passed)

-- `main`, which a failure leaves with a traceback and the same exit code
abbrev pub exit_code : Conclusion → ℕ
exit_code passed = 0
exit_code (breaks _) = 1
exit_code (fails _) = 1
