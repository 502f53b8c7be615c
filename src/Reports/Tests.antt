-- ===== src/Reports/Tests.antt =====
-- A publication of backend/services/reports.py on a small table.
use ovrly.Prelude.{◌≡◌, refl, true, List, [], ◌∷◌, Outcome, ok}
use ovrly.Jobs.Fixtures.{codec}
use ovrly.Evidence.Records.{ReportVersion}
use ovrly.Evidence.Fixtures.{first_report, report_tables}
use ovrly.Reports.Versions.{VersionRow, NextVersion, publish_report_version, newest}
use ovrly.Reports.Versions.Chains.{AreChains, publish_report_version-AreChains}

-- A builder that takes the identity it is given.
abbrev copies : NextVersion → Outcome Unit ReportVersion
copies n = ok (record first_report { version = n.version; supersedes = n.supersedes; id = "7" })

abbrev written : VersionRow
written = record {
  id = 5;
  investigation_id = 4;
  owner_id = 9;
  version = 1;
  change_summary = "first";
  fixture = true;
  payload = record first_report { fixture = true };
  created_at = 10;
}

abbrev no_rows : List VersionRow
no_rows = []

first_publication :
    publish_report_version codec 5 20 4 true copies report_tables.investigations no_rows
    ≡ ok (written.payload, written ∷ [])
unfolding publish_report_version newest
first_publication = refl

publish_report_version-AreChains_example : AreChains codec (written ∷ [])
publish_report_version-AreChains_example =
    publish_report_version-AreChains codec 5 20 4 true copies report_tables.investigations no_rows
      (λ i. tt) first_publication
