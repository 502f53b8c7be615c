-- ===== src/Extraction/Intake.antt =====
-- What `submit_observations` (backend/services/pipeline/incremental.py) does before its windows: it checks the
-- submission against the stored run and takes its observations in.
use ovrly.Prelude.{
  Bool, true, false, not, ◌&&◌, ◌||◌, Option, none, some, List, [], ◌∷◌, ◌++◌, String, str_eq,
  is_some, ltb, leb, if◌then◌else◌, any, length, first_where, to_set, Outcome, ok, err, ◌>>=◌,
}
use ovrly.Json.{Document}
use ovrly.Extraction.Runs.{Policy, Observation, Item, Unadmitted, Run}
use ovrly.Extraction.Equality.{observation_eq, policy_eq, bool_eq}
use ovrly.Extraction.Sorts.{sort_items, sort_unadmitted}
use ovrly.Extraction.Windows.{
  Window, Submission, Planning, WindowError, sources, timebases, plan_submission,
}

-- The errors of `submit_observations` before its windows, in their order, and that of a window.
pub data IntakeError : Type 0 where
  capture_stopped not_authorized finalized_report config_changed reused_identifier closed_input :
      IntakeError
  over_bound mixed_timebases : IntakeError
  rejected_window : WindowError → IntakeError

-- The arguments, and what the transaction reads; `same_producer` is the equality of the stored producers.
pub record Intake : Type 0 where
  pub policy : Policy
  pub observations : List Observation
  pub closed : Bool
  pub hosted_processing_approved : Bool
  pub groq_processing_approved : Bool
  pub producer : Option Document
  pub may_continue : Bool
  pub owned : Bool
  pub finalized : Bool
  pub stored : Option Run
  pub same_producer : Document → Document → Bool

pub record Admitted : Type 0 where
  pub existing : List Item
  pub unadmitted : List Unadmitted

-- The key of a producer is compared only when the submission has one.
abbrev pub keeps_producer : Intake → Option Document → Bool
keeps_producer q stored = elim q.producer [
  | none ↦ true
  | some p ↦ elim stored [ none ↦ false | some r ↦ q.same_producer r p ]
]

abbrev pub keeps_config : Intake → Run → Bool
keeps_config q run =
    policy_eq run.policy q.policy
    && (bool_eq run.hosted_processing_approved q.hosted_processing_approved
        && (bool_eq run.groq_processing_approved q.groq_processing_approved
            && keeps_producer q run.producer))

abbrev pub new_run : Intake → Run
new_run q = record {
  policy = q.policy;
  hosted_processing_approved = q.hosted_processing_approved;
  groq_processing_approved = q.groq_processing_approved;
  producer = q.producer;
  closed = false;
  observations = [];
  windows = [];
  unadmitted = [];
  requests_used = 0;
  tokens_reserved = 0;
}

abbrev pub run_or_new : Intake → Option Run → Outcome IntakeError Run
run_or_new q none = ok (new_run q)
run_or_new q (some run) = if keeps_config q run then ok run else err config_changed

abbrev pub stored_or_new : Intake → Outcome IntakeError Run
stored_or_new q = run_or_new q q.stored

abbrev pub find_item : String → List Item → Option Item
find_item id = first_where (λ (i : Item). str_eq i.source.id id)

abbrev pub is_refused : String → List Unadmitted → Bool
is_refused id = any (λ (u : Unadmitted). str_eq u.id id)

abbrev pub new_item : Observation → Item
new_item o = record { source = o; job_id = none; window_ids = []; reason = none }

abbrev pub add_item : Bool → Observation → Admitted → Outcome IntakeError Admitted
add_item closed o a =
    if closed then err closed_input else ok (record a { existing = a.existing ++ new_item o ∷ [] })

abbrev pub refuse : Observation → String → Admitted → Admitted
refuse o reason a = record a {
  unadmitted =
      a.unadmitted
      ++ (record {
        id = o.id;
        start_ms = o.start_ms;
        end_ms = o.end_ms;
        timebase = o.timebase;
        reason = reason;
      })
        ∷ [];
}

-- An observation that is new to the run.
abbrev pub admit_new :
    (closed : Bool) → Intake → Observation → Admitted → Outcome IntakeError Admitted
admit_new closed q o a =
    if is_some q.producer && not (is_refused o.id a.unadmitted)
    then if closed || q.finalized
      then ok (refuse o "input_closed" a)
      else if leb q.policy.max_observations (length a.existing)
      then ok (refuse o "budget_exhausted" a)
      else add_item closed o a
    else if is_refused o.id a.unadmitted
    then ok a
    else add_item closed o a

abbrev pub known_or :
    Observation
    → Admitted
    → Option Item
    → Outcome IntakeError Admitted
    → Outcome IntakeError Admitted
known_or o a none new = new
known_or o a (some i) new = if observation_eq i.source o then ok a else err reused_identifier

abbrev pub admit : (closed : Bool) → Intake → Observation → Admitted → Outcome IntakeError Admitted
admit closed q o a = known_or o a (find_item o.id a.existing) (admit_new closed q o a)

unfoldable pub admit_each :
    (closed : Bool) → Intake → List Observation → Admitted → Outcome IntakeError Admitted
admit_each closed q [] a = ok a
admit_each closed q (o ∷ observations) a = admit closed q o a >>= admit_each closed q observations

-- The run with what was taken in.
abbrev pub with_admitted : Intake → Run → Admitted → Outcome IntakeError Run
with_admitted q run a =
    if ltb q.policy.max_observations (length a.existing)
    then err over_bound
    else if ltb 1 (length (to_set (timebases (sources (sort_items a.existing)))))
    then err mixed_timebases
    else ok (record run {
      observations = sort_items a.existing;
      unadmitted = sort_unadmitted a.unadmitted;
      closed = run.closed || q.closed;
    })

abbrev pub admitted_of : Run → Admitted
admitted_of run = record { existing = run.observations; unadmitted = run.unadmitted }

abbrev pub take_in : Intake → Run → Outcome IntakeError Run
take_in q run = admit_each run.closed q q.observations (admitted_of run) >>= with_admitted q run

-- `submit_observations` up to its windows
unfoldable pub intake_run : Intake → Outcome IntakeError Run
intake_run q =
    if not q.may_continue
    then err capture_stopped
    else if not q.owned || not q.hosted_processing_approved
    then err not_authorized
    else if q.finalized && not (is_some q.producer)
    then err finalized_report
    else stored_or_new q >>= take_in q

abbrev pub submission_of : Intake → Run → (Window → String) → Submission
submission_of q run job_of = record {
  policy = q.policy;
  hosted_processing_approved = q.hosted_processing_approved;
  groq_processing_approved = q.groq_processing_approved;
  requests_used = run.requests_used;
  tokens_reserved = run.tokens_reserved;
  closed = run.closed;
  job_of = job_of;
}

abbrev pub saved : Run → Outcome WindowError Planning → Outcome IntakeError (Run × List Window)
saved run (err e) = err (rejected_window e)
saved run (ok plan) =
    ok (record run { observations = plan.ordered; windows = plan.windows }, plan.queued)

abbrev pub saved_if_done :
    Run → Option (Outcome WindowError Planning) → Option (Outcome IntakeError (Run × List Window))
saved_if_done run none = none
saved_if_done run (some result) = some (saved run result)

-- The windows of a submission; a finalized report has none.
abbrev pub plan_run :
    Intake → (Window → String) → Run → Option (Outcome IntakeError (Run × List Window))
plan_run q job_of run =
    if q.finalized
    then some (ok (run, []))
    else saved_if_done run
        (plan_submission (submission_of q run job_of) run.observations run.windows)

abbrev pub plan_if_ok :
    Intake
    → (Window → String)
    → Outcome IntakeError Run
    → Option (Outcome IntakeError (Run × List Window))
plan_if_ok q job_of (err e) = some (err e)
plan_if_ok q job_of (ok run) = plan_run q job_of run

-- `submit_observations`: the run that it stores, and the windows that it queues; `none` would be a loop that does not end.
unfoldable pub submit_observations :
    Intake → (Window → String) → Option (Outcome IntakeError (Run × List Window))
submit_observations q job_of = plan_if_ok q job_of (intake_run q)
