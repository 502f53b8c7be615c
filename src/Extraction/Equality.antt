-- ===== src/Extraction/Equality.antt =====
-- The comparisons of stored observations and policies in backend/services/pipeline/incremental.py.
use ovrly.Prelude.{
  Bool, true, false, not, ◌&&◌, Option, none, some, String, str_eq, ◌==◌, if◌then◌else◌,
}
use ovrly.Extraction.Runs.{Policy, Role, target, context, Observation}

abbrev pub role_eq : Role → Role → Bool
role_eq target target = true
role_eq target context = false
role_eq context target = false
role_eq context context = true

abbrev pub speaker_eq : Option String → Option String → Bool
speaker_eq none none = true
speaker_eq none (some b) = false
speaker_eq (some a) none = false
speaker_eq (some a) (some b) = str_eq a b

unfoldable pub observation_eq : Observation → Observation → Bool
observation_eq o p =
    str_eq o.id p.id
    && (role_eq o.role p.role
        && (str_eq o.text p.text
            && (str_eq o.modality p.modality
                && (str_eq o.timebase p.timebase
                    && (o.start_ms == p.start_ms
                        && (o.end_ms == p.end_ms && speaker_eq o.speaker_id p.speaker_id))))))

abbrev pub policy_eq : Policy → Policy → Bool
policy_eq p q =
    p.max_requests == q.max_requests
    && (p.max_tokens == q.max_tokens
        && (p.reconciliation_requests == q.reconciliation_requests
            && (p.reconciliation_tokens == q.reconciliation_tokens
                && (p.batch_observations == q.batch_observations
                    && (p.overlap_observations == q.overlap_observations
                        && p.max_observations == q.max_observations)))))

abbrev pub bool_eq : Bool → Bool → Bool
bool_eq a b = if a then b else not b
