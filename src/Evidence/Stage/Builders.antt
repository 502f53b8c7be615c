-- ===== src/Evidence/Stage/Builders.antt =====
-- When a publication of backend/services/reports.py is not refused, for `_assessment` of
-- backend/services/evidence/stages.py.
use ovrly.Prelude.{
  ℕ, suc, ◌≡◌, ◌≢◌, refl, subst, Bool, true, false, &&-left, &&-right, Option, none, some, List, [],
  ◌∷◌, String, ◌==◌, if◌then◌else◌, all, Dict, get, first_where, Outcome, ok, err, ◌>>=◌,
  some_injective,
}
use ovrly.Json.{Codec}
use ovrly.Jobs.Tables.{Investigation}
use ovrly.Evidence.Records.{ClaimRetrieval, ClaimOutcome, ReportVersion}
use ovrly.Evidence.Assessor.{AssessError, assess}
use ovrly.Evidence.Citations.{CitationInvalid}
use ovrly.Evidence.Stage.{
  StageWorld, StageError, citations_refused, of_assess, assess_known, assess_each, of_publish,
}
use ovrly.Reports.Versions.{
  VersionRow, NextVersion, carries, next_version, insert_version, publish_for, newest, newer,
  publish_report_version,
}

-- A builder that returns a report is not refused by the publication.
pub publish-built :
    (codec : Codec) (id now investigation_id : ℕ) (fixture : Bool)
    (build : NextVersion → Outcome CitationInvalid ReportVersion)
    (investigations : List Investigation) (rows : List VersionRow)
    → ((n : NextVersion) → (report : ReportVersion) × (build n ≡ ok report))
    → of_publish
        (publish_report_version codec id now investigation_id fixture build investigations rows)
      ≢ err citations_refused
unfolding publish_report_version
publish-built codec id now investigation_id fixture build investigations rows builds h =
    by_investigation (first_where (λ (i : Investigation). i.id == investigation_id) investigations)
      h
  where
    by_carried :
        (n : NextVersion) (owner_id : ℕ) (report : ReportVersion) (c : Bool)
        → carries codec n report ≡ c
        → of_publish (insert_version codec n owner_id fixture rows report) ≢ err citations_refused
    by_carried n owner_id report true e = rw e (λ h. cc)
    by_carried n owner_id report false e = rw e (λ h. cc)

    by_investigation :
        (found : Option Investigation)
        → of_publish (publish_for codec id now fixture build rows found) ≢ err citations_refused
    by_investigation none h = cc
    by_investigation (some i) h =
        let n = next_version codec id now i.id rows in
        let (report, e) = builds n in
        by_carried n i.owner_id (record report { fixture = fixture })
          (carries codec n (record report { fixture = fixture })) refl (rw e at h)

-- The loop raises no error of the publication.
pub assess_each-accepted :
    (w : StageWorld) (known : Dict String) (n max_llm_calls version : ℕ) (provisional : Bool)
    (rs : List ClaimRetrieval)
    → assess_each w known n max_llm_calls version provisional rs ≢ err citations_refused
unfolding assess_each
assess_each-accepted w known n max_llm_calls version provisional [] h = cc
assess_each-accepted w known n max_llm_calls version provisional (r ∷ rs) h =
    by_proposition (get r.claim_id known)
      (assess_each w known (suc n) max_llm_calls version provisional rs)
      (assess_each-accepted w known (suc n) max_llm_calls version provisional rs) h
  where
    by_outcome :
        (o : Outcome AssessError ClaimOutcome) (rest : Outcome StageError (List ClaimOutcome))
        → rest ≢ err citations_refused
        → (of_assess o >>= λ a. rest >>= λ outcomes. Outcome.ok (a ∷ outcomes))
          ≢ err citations_refused
    by_outcome (err e) rest ih h = cc
    by_outcome (ok a) (err e) ih h = ih (cc h)
    by_outcome (ok a) (ok outcomes) ih h = cc

    by_proposition :
        (proposition : Option String) (rest : Outcome StageError (List ClaimOutcome))
        → rest ≢ err citations_refused
        → assess_known w n max_llm_calls version provisional r proposition rest
          ≢ err citations_refused
    by_proposition none rest ih h = ih h
    by_proposition (some proposition) rest ih h =
        by_outcome (assess w.wording (w.routers n) max_llm_calls proposition r version provisional)
          rest ih h

pub newest-all :
    (p : VersionRow → Bool) (rows : List VersionRow) (r : VersionRow)
    → all p rows ≡ true
    → newest rows ≡ some r
    → p r ≡ true
unfolding newest
newest-all p [] r h k = cc
newest-all p (s ∷ rows) r h k =
    by_newest (newest rows) (λ t e. newest-all p rows t (&&-right _ _ h) e) k
  where
    head : p s ≡ true
    head = &&-left (p s) (all p rows) h

    by_version :
        (t : VersionRow) (b : Bool)
        → p t ≡ true
        → Path (Option VersionRow) (some (if b then t else s)) (some r)
        → p r ≡ true
    by_version t true q e = subst (λ x. p x ≡ true) (some_injective e) q
    by_version t false q e = subst (λ x. p x ≡ true) (some_injective e) head

    by_newest :
        (o : Option VersionRow)
        → ((t : VersionRow) → o ≡ some t → p t ≡ true)
        → Path (Option VersionRow) (some (newer s o)) (some r)
        → p r ≡ true
    by_newest none ih e = subst (λ x. p x ≡ true) (some_injective e) head
    by_newest (some t) ih e = by_version t _ (ih t refl) e
