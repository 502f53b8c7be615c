-- ===== src/Evidence/CitationRules.antt =====
-- When `validate_citations` of backend/services/evidence/assessment.py accepts a version.
use ovrly.Prelude.{
  ℕ, suc, ◌+◌, ◌≤◌, ◌≡◌, refl, Bool, true, false, not, ◌&&◌, ◌||◌, List, [], ◌∷◌, String, str_eq,
  ◌==◌, if◌then◌else◌, any, all, is_in, add_to_set, is_in-add_to_set, distinct, length, map, Dict,
  get, put, get-put, ok, err, ◌>>=◌, is_some, eq_iff, arith,
}
use ovrly.Evidence.Records.{EvidenceRelation, Evidence, Assessment, ReportVersion}
use ovrly.Evidence.Assessor.{abstains}
use ovrly.Evidence.Assessor.Soundness.{evidence_ids}
use ovrly.Evidence.Citations.{
  CitationInvalid, Checked, guard, claim_ids, by_id, check_evidence, is_of_claim, check_relations,
  has_relations, check_assessments, validate_citations,
}

abbrev pub accepts : Checked → Bool
accepts (ok _) = true
accepts (err _) = false

-- A relation cites evidence of the version that belongs to the claim.
abbrev pub is_cited : List Evidence → String → EvidenceRelation → Bool
is_cited evidence claim_id r =
    any (λ (e : Evidence). str_eq e.id r.evidence_id && str_eq e.claim_id claim_id) evidence

abbrev pub is_grounded : List Evidence → Assessment → Bool
is_grounded evidence a =
    all (is_cited evidence a.claim_id) a.relations
    && (has_relations a.relations || abstains a.overall)

abbrev pub assessed_claims : List Assessment → List String
assessed_claims = map (λ (a : Assessment). a.claim_id)

-- Every citation of a version is in order.
abbrev pub is_in_order : ReportVersion → Bool
is_in_order report =
    distinct (evidence_ids report.evidence)
    && (all (λ (e : Evidence). is_in e.claim_id (claim_ids report.claims)) report.evidence
        && (distinct (assessed_claims report.assessments)
            && all
                (λ (a : Assessment).
                  is_in a.claim_id (claim_ids report.claims)
                  && (a.version == report.version && is_grounded report.evidence a))
                report.assessments))

accepts-guard :
    (b : Bool) (e : CitationInvalid) (next : Checked)
    → accepts (guard b e >>= λ _. next) ≡ (b && accepts next)
accepts-guard true e next = refl
accepts-guard false e next = refl

accepts-bind :
    (first next : Checked) → accepts (first >>= λ _. next) ≡ (accepts first && accepts next)
accepts-bind (ok _) next = refl
accepts-bind (err e) next = refl

accepts-check_evidence :
    (claims : List String) (evidence : List Evidence)
    → accepts (check_evidence claims evidence)
      ≡ all (λ (e : Evidence). is_in e.claim_id claims) evidence
unfolding check_evidence
accepts-check_evidence claims [] = refl
accepts-check_evidence claims (e ∷ evidence) =
    rw
      (
        accepts-guard (is_in e.claim_id claims) CitationInvalid.evidence_outside
            (check_evidence claims evidence),
        accepts-check_evidence claims evidence,
      )
      refl

-- No id of the evidence is a key of a dictionary, or repeats.
abbrev unclashed : Dict Evidence → List Evidence → Bool
unclashed found [] = true
unclashed found (e ∷ evidence) =
    not (is_some (get e.id found)) && unclashed (put e.id e found) evidence

length-put :
    (k : String) (e : Evidence) (d : Dict Evidence)
    → length (put k e d) ≡ (if is_some (get k d) then length d else suc (length d))
length-put k e [] = refl
length-put k e ((j, f) ∷ d) = ground (arith, length-put k e d)

length-by_id :
    (evidence : List Evidence) (found : Dict Evidence)
    → length (by_id evidence found) ≤ length found + length evidence
unfolding by_id
length-by_id [] found = omega arith
length-by_id (e ∷ evidence) found =
    ground (arith, length-by_id evidence (put e.id e found), length-put e.id e found)

length-unclashed :
    (evidence : List Evidence) (found : Dict Evidence)
    → (length (by_id evidence found) == length found + length evidence) ≡ unclashed found evidence
unfolding by_id
length-unclashed [] found = ground arith
length-unclashed (e ∷ evidence) found = ground (
  arith,
  length-unclashed evidence (put e.id e found),
  length-by_id evidence (put e.id e found),
  length-put e.id e found,
)

all_unknown-put :
    (k : String) (v : Evidence) (found : Dict Evidence) (evidence : List Evidence)
    → all (λ (e : Evidence). not (is_some (get e.id (put k v found)))) evidence ≡ (
        not (is_in k (evidence_ids evidence))
        && all (λ (e : Evidence). not (is_some (get e.id found))) evidence)
all_unknown-put k v found [] = refl
all_unknown-put k v found (e ∷ evidence) =
    ground (arith, all_unknown-put k v found evidence, get-put e.id k v found)

unclashed-distinct :
    (evidence : List Evidence) (found : Dict Evidence)
    → unclashed found evidence ≡ (
        distinct (evidence_ids evidence)
        && all (λ (e : Evidence). not (is_some (get e.id found))) evidence)
unclashed-distinct [] found = refl
unclashed-distinct (e ∷ evidence) found =
    ground
      (arith, unclashed-distinct evidence (put e.id e found), all_unknown-put e.id e found evidence)

abbrev no_evidence : Dict Evidence
no_evidence = []

all_unknown :
    (evidence : List Evidence)
    → all (λ (e : Evidence). not (is_some (get e.id no_evidence))) evidence ≡ true
all_unknown [] = refl
all_unknown (e ∷ evidence) = all_unknown evidence

unclashed-nil :
    (evidence : List Evidence) → unclashed no_evidence evidence ≡ distinct (evidence_ids evidence)
unclashed-nil evidence =
    ground (arith, unclashed-distinct evidence no_evidence, all_unknown evidence)

-- What the dictionary has for an id is the evidence with that id.
get-by_id :
    (k claim_id : String) (evidence : List Evidence) (found : Dict Evidence)
    → unclashed found evidence ≡ true
    → is_of_claim claim_id (get k (by_id evidence found)) ≡ (
        any (λ (e : Evidence). str_eq e.id k && str_eq e.claim_id claim_id) evidence
        || is_of_claim claim_id (get k found))
unfolding by_id
get-by_id k claim_id [] found h = refl
get-by_id k claim_id (e ∷ evidence) found h =
    ground (
      arith,
      get-by_id k claim_id evidence (put e.id e found),
      get-put k e.id e found,
      eq_iff e.id k,
    )

accepts-check_relations :
    (evidence : List Evidence) (claim_id : String) (relations : List EvidenceRelation)
    → unclashed no_evidence evidence ≡ true
    → accepts (check_relations (by_id evidence []) claim_id relations)
      ≡ all (is_cited evidence claim_id) relations
unfolding check_relations
accepts-check_relations evidence claim_id [] h = refl
accepts-check_relations evidence claim_id (r ∷ relations) h = ground (
  arith,
  accepts-guard (is_of_claim claim_id (get r.evidence_id (by_id evidence [])))
      CitationInvalid.missing_or_foreign (check_relations (by_id evidence []) claim_id relations),
  get-by_id r.evidence_id claim_id evidence no_evidence h,
  accepts-check_relations evidence claim_id relations h,
)

-- The assessments that are left, after some claims are assessed.
abbrev rest_in_order : List String → List Evidence → ℕ → List String → List Assessment → Bool
rest_in_order claims evidence version assessed assessments =
    all (λ (a : Assessment). not (is_in a.claim_id assessed)) assessments
    && (distinct (assessed_claims assessments)
        && all
            (λ (a : Assessment).
              is_in a.claim_id claims && (a.version == version && is_grounded evidence a))
            assessments)

all_fresh-add :
    (x : String) (assessed : List String) (assessments : List Assessment)
    → all (λ (a : Assessment). not (is_in a.claim_id (add_to_set x assessed))) assessments ≡ (
        not (is_in x (assessed_claims assessments))
        && all (λ (a : Assessment). not (is_in a.claim_id assessed)) assessments)
all_fresh-add x assessed [] = refl
all_fresh-add x assessed (a ∷ assessments) = ground (
  arith,
  all_fresh-add x assessed assessments,
  is_in-add_to_set a.claim_id x assessed,
  eq_iff a.claim_id x,
  eq_iff x a.claim_id,
)

-- A round of the loop accepts when its four checks and the rest do.
accepts_round :
    (known same answered : Bool) (relations rest : Checked)
    → accepts (do
      _ ← guard known CitationInvalid.unknown_or_repeated_claim
      _ ← guard same CitationInvalid.version_differs
      _ ← relations
      _ ← guard answered CitationInvalid.must_abstain
      rest)
      ≡ (known && (same && (accepts relations && (answered && accepts rest))))
accepts_round false same answered relations rest = refl
accepts_round true false answered relations rest = refl
accepts_round true true answered (err e) rest = refl
accepts_round true true false (ok _) rest = refl
accepts_round true true true (ok _) rest = refl

regroup :
    (known fresh same cited answered new others apart good : Bool)
    → (known && fresh && (same && (cited && (answered && (new && others && (apart && good))))))
      ≡ (fresh && others && (new && apart && (known && (same && (cited && answered)) && good)))
regroup false fresh same cited answered new others apart good = ground arith
regroup true fresh false cited answered new others apart good = ground arith
regroup true fresh true false answered new others apart good = ground arith
regroup true fresh true true answered new others apart good = ground arith

accepts-check_assessments :
    (claims : List String) (evidence : List Evidence) (version : ℕ) (assessed : List String)
    (assessments : List Assessment)
    → unclashed no_evidence evidence ≡ true
    → accepts (check_assessments claims (by_id evidence no_evidence) version assessed assessments)
      ≡ rest_in_order claims evidence version assessed assessments
unfolding check_assessments
accepts-check_assessments claims evidence version assessed [] h = refl
accepts-check_assessments claims evidence version assessed (a ∷ assessments) h =
    rw
      (
        accepts_round (is_in a.claim_id claims && not (is_in a.claim_id assessed))
            (a.version == version) (has_relations a.relations || abstains a.overall)
            (check_relations (by_id evidence no_evidence) a.claim_id a.relations)
            (check_assessments claims (by_id evidence no_evidence) version
              (add_to_set a.claim_id assessed) assessments),
        accepts-check_relations evidence a.claim_id a.relations h,
        accepts-check_assessments claims evidence version (add_to_set a.claim_id assessed)
            assessments h,
        all_fresh-add a.claim_id assessed assessments,
      )
      (regroup (is_in a.claim_id claims) (not (is_in a.claim_id assessed)) (a.version == version)
        (all (is_cited evidence a.claim_id) a.relations)
        (has_relations a.relations || abstains a.overall)
        (not (is_in a.claim_id (assessed_claims assessments)))
        (all (λ (b : Assessment). not (is_in b.claim_id assessed)) assessments)
        (distinct (assessed_claims assessments))
        (all
          (λ (b : Assessment).
            is_in b.claim_id claims && (b.version == version && is_grounded evidence b))
          assessments))

all_fresh :
    (assessments : List Assessment)
    → all (λ (a : Assessment). not (is_in a.claim_id [])) assessments ≡ true
all_fresh [] = refl
all_fresh (a ∷ assessments) = all_fresh assessments

-- The citation check accepts exactly the reports in which evidence ids are distinct, evidence
-- belongs to claims of the report, no claim is assessed twice, and each assessment is of a claim
-- of the report, has the report's version, cites evidence of its own claim only, and has a
-- relation or abstains.
pub validate_citations-in_order :
    (report : ReportVersion) → accepts (validate_citations report) ≡ is_in_order report
unfolding validate_citations
validate_citations-in_order report =
    let found = by_id report.evidence no_evidence in
    let evidence = check_evidence (claim_ids report.claims) report.evidence in
    let assessments =
      check_assessments (claim_ids report.claims) found report.version [] report.assessments in
    ground (
      arith,
      accepts-guard (length found == length report.evidence) CitationInvalid.duplicate_evidence
          (evidence >>= λ _. assessments),
      accepts-bind evidence assessments,
      accepts-check_evidence (claim_ids report.claims) report.evidence,
      length-unclashed report.evidence no_evidence,
      unclashed-nil report.evidence,
      accepts-check_assessments (claim_ids report.claims) report.evidence report.version []
          report.assessments,
      all_fresh report.assessments,
    )
