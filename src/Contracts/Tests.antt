-- ===== src/Contracts/Tests.antt =====
-- Runs of packages/contracts/compat.py on small directories.
use ovrly.Prelude.{
  ◌≡◌, refl, true, not, ◌&&◌, ◌||◌, none, some, List, [], ◌∷◌, String, str_eq, get, ok,
}
use ovrly.Contracts.Compat.{
  Contracts, Definitions, Change, check, enums, breaks, fails, file_not_found, versions, breaking,
  enum_lost_values, schema_file_removed, oasdiff_not_given, sorted_names, insert_name,
  enum_findings, schema_file_findings, over_files, over_definitions,
}
use ovrly.Contracts.Gate.{check-passed, is_passed, has_enums, has_run, is_compatible}

abbrev statuses : List String → Definitions
statuses values = ("status", some values) ∷ []

abbrev base : Contracts
base = record {
  version = "0.2.0";
  has_openapi = true;
  schemas = (enums, statuses ("queued" ∷ "failed" ∷ [])) ∷ ("claim.schema.json", []) ∷ [];
}

abbrev narrowed : Contracts
narrowed = record base { schemas = (enums, statuses ("queued" ∷ "running" ∷ [])) ∷ [] }

abbrev no_changes : List Change
no_changes = []

check-narrowed : check base narrowed none ≡ (
  oasdiff_not_given
      ∷ versions "0.2.0" "0.2.0"
      ∷ breaking (schema_file_removed "claim.schema.json")
      ∷ breaking (enum_lost_values "status" ("failed" ∷ []))
      ∷ [],
  breaks 2,
)
unfolding check sorted_names insert_name enum_findings schema_file_findings over_files
    over_definitions
check-narrowed = refl

-- Without the file of the enums a new version does not help.
check-no_enums :
    (check base
      (record base { version = "0.3.0"; schemas = ("claim.schema.json", []) ∷ [] })
      none).1
    ≡ fails file_not_found
unfolding check enum_findings
check-no_enums = refl

check-passed_example : is_passed (check base narrowed (some (ok no_changes))).1 ≡ (
    not base.has_openapi
    || (has_enums (get enums base.schemas) (get enums narrowed.schemas)
        && (has_run (some (ok no_changes))
            && (not (str_eq narrowed.version base.version)
                || is_compatible base narrowed (some (ok no_changes))))))
check-passed_example = check-passed base narrowed (some (ok no_changes))
