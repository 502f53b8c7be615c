-- ===== src/Evidence/Assessor.antt =====
-- `Assessor.assess` of backend/services/evidence/assessment.py with the summary of a claim. The texts
-- that are only shown (notes, prompts, the rendering of a summary) are arguments.
pub mod Soundness
pub mod Retracted
pub mod Labels
use Prim.Native.String as String
use ovrly.Prelude.{
  ℕ, ◌-◌, Bool, true, false, not, ◌&&◌, ◌||◌, Option, none, some, List, [], ◌∷◌, ◌++◌, String,
  str_eq, ◌==◌, if◌then◌else◌, any, map, count_where, Dict, get, Outcome, ok, err, ◌>>=◌,
}
use ovrly.Evidence.Records.{
  Relation, relation_eq, OverallAssessment, insufficient_evidence, EvidenceRelation, Evidence,
  Assessment, Passage, ClaimRetrieval, ClaimOutcome,
}
use ovrly.Evidence.Overall.{overall}
use ovrly.Evidence.Router.{
  RouterFailure, provider_error, budget_exhausted, invalid_reply, Send, structured,
}
use ovrly.Evidence.Replies.{RelationReply, Problem, check_reply, labelled}

-- The sentences of a summary; `found` counts the sources of each relation.
pub data Sentence : Type 0 where
  no_source unsettled only_abstracts retracted_not_counted incomplete not_a_verdict : Sentence
  found : List (ℕ × Relation) → Sentence

pub record Wording : Type 0 where
  -- `_note`
  pub note : String → String
  -- the problems that `check_reply` formats
  pub describe : Problem → String
  pub relation_system : String
  pub relation_prompt : String → List Passage → String
  -- the joined sentences, cut at the limit
  pub render : List Sentence → String
  pub assessment_id : String → ℕ → String

-- The router as the assessor uses it: the exchange, and the validation of a reply.
pub record Router : Type 0 where
  pub send : Send
  pub read : String → Outcome String RelationReply

-- An error that leaves `assess`: one of the router's, or the `KeyError` of `labels[passage_id]`.
pub data AssessError : Type 0 where
  router : RouterFailure → AssessError
  key_error : AssessError

abbrev pub is_retracted : Passage → Bool
is_retracted p = str_eq p.retraction_status "retracted" || str_eq p.retraction_status "withdrawn"

abbrev pub not_counted : Wording → Passage → String → String
not_counted w p note = w.note (
    String.◌++◌ "Not counted: the source is "
      (String.◌++◌ p.retraction_status (String.◌++◌ ". " note)))

abbrev pub relation_of : Wording → Passage → Relation × String → EvidenceRelation
relation_of w p (relation, note) =
    if is_retracted p
    then record {
      evidence_id = p.evidence_id;
      relation = Relation.insufficient;
      note = some (not_counted w p note);
    }
    else record { evidence_id = p.evidence_id; relation = relation; note = some note }

-- `labels[passage_id]`
abbrev pub or_key_error : Option (Relation × String) → Outcome AssessError (Relation × String)
or_key_error none = err key_error
or_key_error (some label) = ok label

-- The loop over the passages: the relation of each with its origin.
unfoldable pub relate :
    Wording
    → Dict (Relation × String)
    → List Passage
    → Outcome AssessError (List (EvidenceRelation × String))
relate w labels [] = ok []
relate w labels (p ∷ passages) = do
  label ← or_key_error (get p.passage_id labels)
  rest ← relate w labels passages
  ok ((relation_of w p label, p.origin) ∷ rest)

abbrev pub counted_pairs : List (EvidenceRelation × String) → List (Relation × String)
counted_pairs = map (λ r. (r.0.relation, r.1))

abbrev pub pair_eq : Relation × String → Relation × String → Bool
pair_eq a b = relation_eq a.0 b.0 && str_eq a.1 b.1

-- `set(counted_pairs)`
unfoldable pub pair_set : List (Relation × String) → List (Relation × String)
pair_set [] = []
pair_set (p ∷ pairs) = let rest = pair_set pairs in if any (pair_eq p) rest then rest else p ∷ rest

-- `counted.get(relation, 0)`
unfoldable pub source_count : Relation → List (Relation × String) → ℕ
source_count relation pairs = count_where (λ p. relation_eq p.0 relation) (pair_set pairs)

abbrev pub found_entry : Relation → ℕ → List (ℕ × Relation) → List (ℕ × Relation)
found_entry relation n rest = if n == 0 then rest else (n, relation) ∷ rest

abbrev pub found_counts : List (Relation × String) → List (ℕ × Relation)
found_counts pairs = found_entry Relation.support (source_count Relation.support pairs) (
    found_entry Relation.challenge (source_count Relation.challenge pairs) (
      found_entry Relation.qualify (source_count Relation.qualify pairs)
        (found_entry Relation.mixed (source_count Relation.mixed pairs) [])))

abbrev pub found_sentence : List (ℕ × Relation) → Sentence
found_sentence [] = unsettled
found_sentence (e ∷ entries) = found (e ∷ entries)

abbrev pub said : Bool → Sentence → List Sentence
said test sentence = if test then sentence ∷ [] else []

abbrev pub source_sentences : List Passage → List (Relation × String) → List Sentence
source_sentences [] pairs = no_source ∷ []
source_sentences (p ∷ passages) pairs =
    found_sentence (found_counts pairs)
    ∷ (said (not (any (λ (q : Passage). str_eq q.inspection_level "full_text") (p ∷ passages)))
          only_abstracts
        ++ said (any is_retracted (p ∷ passages)) retracted_not_counted)

abbrev pub is_incomplete : ClaimRetrieval → Bool
is_incomplete r =
    not (r.failed_queries == 0) || has_unknown r.unknown_sources || r.federated_unavailable
  where
    has_unknown : List String → Bool
    has_unknown [] = false
    has_unknown (_ ∷ _) = true

abbrev pub abstains : OverallAssessment → Bool
abstains insufficient_evidence = true
abstains _ = false

-- `summary`, as its sentences
abbrev pub summary : OverallAssessment → List (Relation × String) → ClaimRetrieval → List Sentence
summary label pairs r =
    source_sentences r.passages pairs
    ++ (said (is_incomplete r) incomplete ++ said (abstains label) not_a_verdict)

-- `to_evidence`
abbrev pub to_evidence : String → Passage → Evidence
to_evidence claim_id p = record {
  id = p.evidence_id;
  claim_id = claim_id;
  source = p.source;
  source_type = p.source_type;
  inspection_level = p.inspection_level;
  retrieval_relevance = p.retrieval_relevance;
  retraction_status = p.retraction_status;
  excerpt = p.excerpt;
  retrieved_at = p.retrieved_at;
}

abbrev pub unassessed : String → Option String → ClaimOutcome
unassessed claim_id reason = record {
  claim_id = claim_id;
  assessment = none;
  evidence = [];
  reason = reason;
}

-- The assessment from the related passages.
abbrev pub assessed :
    Wording → ClaimRetrieval → ℕ → Bool → List (EvidenceRelation × String) → ClaimOutcome
assessed w r version provisional related =
    let pairs = counted_pairs related in
    let label = overall pairs in
    record {
      claim_id = r.claim_id;
      assessment = some (record {
        id = w.assessment_id r.claim_id version;
        claim_id = r.claim_id;
        version = version;
        relations = map (λ x. x.0) related;
        overall = label;
        provisional = provisional;
        summary = w.render (summary label pairs r);
      });
      evidence = map (to_evidence r.claim_id) r.passages;
      reason = none;
    }

abbrev pub conclude :
    Wording
    → ClaimRetrieval
    → ℕ
    → Bool
    → Dict (Relation × String)
    → Outcome AssessError ClaimOutcome
conclude w r version provisional labels =
    (relate w labels r.passages) >>= λ related. ok (assessed w r version provisional related)

abbrev pub after_structured :
    Wording
    → ClaimRetrieval
    → ℕ
    → Bool
    → Outcome RouterFailure RelationReply
    → Outcome AssessError ClaimOutcome
after_structured w r version provisional (ok reply) =
    conclude w r version provisional (labelled w.note reply [])
after_structured w r version provisional (err budget_exhausted) =
    ok (unassessed r.claim_id (some "llm_budget_exhausted"))
after_structured w r version provisional (err invalid_reply) =
    ok (unassessed r.claim_id (some "assessment_unavailable"))
after_structured w r version provisional (err provider_error) =
    ok (unassessed r.claim_id (some "assessment_unavailable"))
after_structured w r version provisional (err e) = err (router e)

abbrev pub described : (Problem → String) → Option Problem → Option String
described describe none = none
described describe (some p) = some (describe p)

-- `assess` of a retrieved claim, by its passages
abbrev pub assess_passages :
    Wording
    → Router
    → (max_llm_calls : ℕ) → String
    → ClaimRetrieval
    → ℕ
    → Bool
    → List Passage
    → Outcome AssessError ClaimOutcome
assess_passages w c max_llm_calls proposition r version provisional [] =
    conclude w r version provisional []
assess_passages w c max_llm_calls proposition r version provisional (p ∷ passages) =
    after_structured w r version provisional
      (structured c.send c.read (λ reply. described w.describe (check_reply r.passages reply))
        w.relation_system (w.relation_prompt proposition r.passages)
        (max_llm_calls - r.llm_calls_used)).0

-- `assess`
unfoldable pub assess :
    Wording
    → Router
    → (max_llm_calls : ℕ) → String
    → ClaimRetrieval
    → ℕ
    → Bool
    → Outcome AssessError ClaimOutcome
assess w c max_llm_calls proposition r version provisional =
    if r.retrieved
    then assess_passages w c max_llm_calls proposition r version provisional r.passages
    else ok (unassessed r.claim_id r.reason)
