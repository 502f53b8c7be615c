-- ===== src/Reports/Versions.antt =====
-- `publish_report_version` of backend/services/reports.py, one transaction: the row lock of the
-- investigation makes publishers take turns.
pub mod Chains
use ovrly.Prelude.{
  ℕ, ◌+◌, ◌≡◌, Bool, true, false, ◌&&◌, Option, none, some, List, [], ◌∷◌, ◌++◌, String, str_eq,
  ◌==◌, ltb, if◌then◌else◌, select, first_where, map, Outcome, ok, err, ◌>>=◌,
}
use ovrly.Json.{Codec}
use ovrly.Jobs.Tables.{Investigation}
use ovrly.Evidence.Records.{ReportVersion}

-- A row of `report_versions`; its payload is the report.
pub record VersionRow : Type 0 where
  pub id : ℕ
  pub investigation_id : ℕ
  pub owner_id : ℕ
  pub version : ℕ
  pub change_summary : String
  pub fixture : Bool
  pub payload : ReportVersion
  pub created_at : ℕ

-- `NextVersion`
pub record NextVersion : Type 0 where
  pub id : ℕ
  pub investigation_id : ℕ
  pub version : ℕ
  pub supersedes : Option String
  pub created_at : ℕ

-- What publication raises: `LookupError`, `ValueError`, or what `build` raises.
pub data PublishError (E : Type 0) : Type 0 where
  investigation_missing wrong_identity : PublishError E
  build_error : E → PublishError E

abbrev pub is_version_of : ℕ → VersionRow → Bool
is_version_of investigation_id r = r.investigation_id == investigation_id

-- The newer of two rows, the first where they have one version.
abbrev pub newer : VersionRow → Option VersionRow → VersionRow
newer r none = r
newer r (some s) = if ltb r.version s.version then s else r

-- `ORDER BY version DESC LIMIT 1`
unfoldable pub newest : List VersionRow → Option VersionRow
newest [] = none
newest (r ∷ rows) = some (newer r (newest rows))

abbrev pub latest : ℕ → List VersionRow → Option VersionRow
latest investigation_id rows = newest (select (is_version_of investigation_id) rows)

abbrev pub next_number : Option VersionRow → ℕ
next_number none = 1
next_number (some r) = r.version + 1

abbrev pub superseded_id : Codec → Option VersionRow → Option String
superseded_id codec none = none
superseded_id codec (some r) = some (codec.uuid_text r.id)

-- The identity of the next version; `id` and `now` are what `uuid4` and the clock return.
abbrev pub next_version : Codec → (id now investigation_id : ℕ) → List VersionRow → NextVersion
next_version codec id now investigation_id rows = record {
  id = id;
  investigation_id = investigation_id;
  version = next_number (latest investigation_id rows);
  supersedes = superseded_id codec (latest investigation_id rows);
  created_at = now;
}

abbrev pub text_eq : Option String → Option String → Bool
text_eq none none = true
text_eq (some a) (some b) = str_eq a b
text_eq none (some _) = false
text_eq (some _) none = false

abbrev pub carries : Codec → NextVersion → ReportVersion → Bool
carries codec n report =
    str_eq report.id (codec.uuid_text n.id)
    && (report.investigation_id == n.investigation_id
        && (report.version == n.version && text_eq report.supersedes n.supersedes))

abbrev pub version_row : NextVersion → (owner_id : ℕ) → Bool → ReportVersion → VersionRow
version_row n owner_id fixture report = record {
  id = n.id;
  investigation_id = n.investigation_id;
  owner_id = owner_id;
  version = n.version;
  change_summary = report.change_summary;
  fixture = fixture;
  payload = report;
  created_at = report.created_at;
}

module _ {E : Type 0} where
  abbrev pub of_build : {A : Type 0} → Outcome E A → Outcome (PublishError E) A
  of_build (err e) = err (build_error e)
  of_build (ok a) = ok a

  abbrev pub insert_version :
      Codec
      → NextVersion
      → (owner_id : ℕ) → Bool
      → List VersionRow
      → ReportVersion
      → Outcome (PublishError E) (ReportVersion × List VersionRow)
  insert_version codec n owner_id fixture rows report =
      if carries codec n report
      then ok (report, rows ++ version_row n owner_id fixture report ∷ [])
      else err wrong_identity

  abbrev pub publish_for :
      Codec
      → (id now : ℕ) → Bool
      → (NextVersion → Outcome E ReportVersion)
      → List VersionRow
      → Option Investigation
      → Outcome (PublishError E) (ReportVersion × List VersionRow)
  publish_for codec id now fixture build rows none = err investigation_missing
  publish_for codec id now fixture build rows (some i) = do
    let n = next_version codec id now i.id rows
    report ← of_build (build n)
    insert_version codec n i.owner_id fixture rows (record report { fixture = fixture })

  -- `publish_report_version`
  unfoldable pub publish_report_version :
      Codec
      → (id now investigation_id : ℕ) → Bool
      → (NextVersion → Outcome E ReportVersion)
      → List Investigation
      → List VersionRow
      → Outcome (PublishError E) (ReportVersion × List VersionRow)
  publish_report_version codec id now investigation_id fixture build investigations rows =
      publish_for codec id now fixture build rows
        (first_where (λ (i : Investigation). i.id == investigation_id) investigations)
