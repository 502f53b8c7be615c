-- ===== src/Reports/Versions/Chains.antt =====
-- The versions of a report are 1, 2, 3 without gaps, each naming the one before it
-- (backend/services/reports.py).
use ovrly.Prelude.{
  ℕ, ◌≤◌, ◌<◌, ◌≡◌, refl, ap, sym, ◌∙◌, subst, Bool, true, false, Bool-cases, inl, inr, ◌⊎◌,
  &&-left, &&-right, Option, none, some, List, [], ◌∷◌, ◌++◌, String, str_eq, eq_iff, ◌==◌, ==_iff,
  if◌then◌else◌, select, first_where, Outcome, ok, err, >>=-eq-ok, ok_injective, arith,
}
use ovrly.Json.{Codec}
use ovrly.Jobs.Tables.{Investigation}
use ovrly.Evidence.Records.{ReportVersion}
use ovrly.Reports.Versions.{
  VersionRow, NextVersion, PublishError, is_version_of, newer, newest, next_number, superseded_id,
  next_version, text_eq, carries, version_row, of_build, insert_version, publish_for,
  publish_report_version,
}

-- A row that comes right after another one, or is the first.
abbrev pub Follows : Codec → Option VersionRow → VersionRow → Type 0
Follows codec before r =
    (r.version ≡ next_number before)
    × (r.payload.version ≡ r.version)
    × (r.payload.id ≡ codec.uuid_text r.id)
    × (r.payload.supersedes ≡ superseded_id codec before)

abbrev pub IsChainFrom : Codec → Option VersionRow → List VersionRow → Type 0
IsChainFrom codec before [] = Unit
IsChainFrom codec before (r ∷ rows) = Follows codec before r × IsChainFrom codec (some r) rows

-- The rows of each investigation are a chain, in the order in which they were written.
abbrev pub AreChains : Codec → List VersionRow → Type 0
AreChains codec rows = (i : ℕ) → IsChainFrom codec none (select (is_version_of i) rows)

abbrev last_of : Option VersionRow → List VersionRow → Option VersionRow
last_of before [] = before
last_of before (r ∷ rows) = last_of (some r) rows

chain-append :
    (codec : Codec) (before : Option VersionRow) (rows : List VersionRow) (r : VersionRow)
    → IsChainFrom codec before rows
    → Follows codec (last_of before rows) r
    → IsChainFrom codec before (rows ++ r ∷ [])
chain-append codec before [] r h f = (f, tt)
chain-append codec before (s ∷ rows) r (g, h) f = (g, chain-append codec (some s) rows r h f)

newest-cons :
    (r : VersionRow) (rows : List VersionRow) → newest (r ∷ rows) ≡ some (newer r (newest rows))
unfolding newest
newest-cons r rows = refl

newer-later :
    (r s : VersionRow)
    → r.version < s.version
    → Path (Option VersionRow) (some (newer r (some s))) (some s)
newer-later r s h = ground arith

-- The newest row of a chain is its last one.
newest-last :
    (codec : Codec) (r : VersionRow) (rows : List VersionRow)
    → IsChainFrom codec (some r) rows
    → (s : VersionRow) × (last_of (some r) rows ≡ some s)
      × (newest (r ∷ rows) ≡ some s)
      × (r.version ≤ s.version)
unfolding newest
newest-last codec r [] h = (r, refl, refl, omega arith)
newest-last codec r (t ∷ rows) ((version, _, _, _), h) =
    let (s, last, new, le) = newest-last codec t rows h in
    (
      s,
      last,
      newest-cons r (t ∷ rows)
          ∙ ap (λ o. some (newer r o)) new
          ∙ newer-later r s (omega (arith, version, le)),
      omega (arith, version, le),
    )

newest-chain :
    (codec : Codec) (rows : List VersionRow)
    → IsChainFrom codec none rows
    → newest rows ≡ last_of none rows
unfolding newest
newest-chain codec [] h = refl
newest-chain codec (r ∷ rows) (_, h) =
    let (s, last, new, _) = newest-last codec r rows h in new ∙ sym last

select-append :
    (p : VersionRow → Bool) (rows : List VersionRow) (r : VersionRow)
    → select p (rows ++ r ∷ []) ≡ (if p r then select p rows ++ r ∷ [] else select p rows)
select-append p [] r = refl
select-append p (s ∷ rows) r = ground (arith, select-append p rows r)

text_eq_iff : (a b : Option String) → text_eq a b ≡ true → a ≡ b
text_eq_iff none none h = refl
text_eq_iff (some a) (some b) h = ap some ((eq_iff a b).0 h)
text_eq_iff none (some b) h = cc
text_eq_iff (some a) none h = cc

module _ (codec : Codec) (id now owner_id i : ℕ) (fixture : Bool) (rows : List VersionRow)
    (report : ReportVersion)
    (carried : carries codec (next_version codec id now i rows) report ≡ true)
    (chains : AreChains codec rows) where
  abbrev n : NextVersion
  n = next_version codec id now i rows

  row-Follows :
      Follows codec
        (last_of none (select (is_version_of i) rows))
        (version_row n owner_id fixture report)
  row-Follows =
      let newest_row = newest-chain codec (select (is_version_of i) rows) (chains i) in
      let rest = &&-right (str_eq report.id (codec.uuid_text n.id)) _ carried in
      let last = &&-right (report.investigation_id == n.investigation_id) _ rest in
      (
        ap next_number newest_row,
        (==_iff report.version n.version).0
            (&&-left _ (text_eq report.supersedes n.supersedes) last),
        (eq_iff report.id (codec.uuid_text id)).0 (&&-left _ _ carried),
        text_eq_iff report.supersedes n.supersedes (&&-right (report.version == n.version) _ last)
            ∙ ap (superseded_id codec) newest_row,
      )

  inserted-AreChains : AreChains codec (rows ++ version_row n owner_id fixture report ∷ [])
  inserted-AreChains j =
      subst (IsChainFrom codec none)
        (sym (select-append (is_version_of j) rows (version_row n owner_id fixture report)))
        (by_investigation (Bool-cases (i == j)))
    where
      by_investigation :
          ((i == j) ≡ true) ⊎ ((i == j) ≡ false)
          → IsChainFrom codec none (
              if i == j
              then select (is_version_of j) rows ++ version_row n owner_id fixture report ∷ []
              else select (is_version_of j) rows)
      by_investigation (inl same) = rw same (
          chain-append codec none (select (is_version_of j) rows)
            (version_row n owner_id fixture report) (chains j)
            (subst
              (λ k.
                Follows codec (last_of none (select (is_version_of k) rows))
                  (version_row n owner_id fixture report))
              ((==_iff i j).0 same) row-Follows))
      by_investigation (inr other) = rw other (chains j)

-- A publication keeps the versions of every investigation a chain, whatever the report's builder
-- does: in the order of writing they are 1, 2, 3 without gaps, and each report carries its row's
-- id and version and names the id of the version before it.
pub publish_report_version-AreChains :
    {E : Type 0} (codec : Codec) (id now investigation_id : ℕ) (fixture : Bool)
    (build : NextVersion → Outcome E ReportVersion) (investigations : List Investigation)
    (rows : List VersionRow) {report : ReportVersion} {rows' : List VersionRow}
    → AreChains codec rows
    → publish_report_version codec id now investigation_id fixture build investigations rows
      ≡ ok (report, rows')
    → AreChains codec rows'
unfolding publish_report_version
publish_report_version-AreChains {E} codec id now investigation_id fixture build investigations rows
      {report} {rows'} chains h =
    by_investigation (first_where (λ (i : Investigation). i.id == investigation_id) investigations)
      h
  where
    inserted :
        (i : Investigation) (built : ReportVersion) (c : Bool)
        → carries codec (next_version codec id now i.id rows) built ≡ c
        → insert_version {E = E} codec
            (next_version codec id now i.id rows)
            i.owner_id
            fixture
            rows
            built
          ≡ ok (report, rows')
        → AreChains codec rows'
    inserted i built true e h =
        subst (AreChains codec) (ap (λ p. p.1) (ok_injective (PublishError E) (rw e at h)))
          (inserted-AreChains codec id now i.owner_id i.id fixture rows built e chains)
    inserted i built false e h = absurd (refused (rw e at h))
      where
        refused :
            Path
              (Outcome (PublishError E) (ReportVersion × List VersionRow))
              (err PublishError.wrong_identity)
              (ok (report, rows'))
            → ⊥
        refused e = cc

    by_investigation :
        (found : Option Investigation)
        → publish_for codec id now fixture build rows found ≡ ok (report, rows')
        → AreChains codec rows'
    by_investigation none h = cc
    by_investigation (some i) h =
        let (built, _, e) =
          >>=-eq-ok (of_build (build (next_version codec id now i.id rows))) _ h in
        inserted i (record built { fixture = fixture })
          (carries codec (next_version codec id now i.id rows) (record built { fixture = fixture }))
          refl e
