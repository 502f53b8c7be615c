-- ===== src/Extraction/Submissions.antt =====
-- A whole submission of backend/services/pipeline/incremental.py: it returns, and stores a run in order.
use ovrly.Prelude.{
  ◌≤◌, ◌≡◌, refl, ap, sym, ◌∙◌, subst, Bool, true, false, Option, none, some, List, [], ◌∷◌, String,
  str_eq, if◌then◌else◌, all, length, to_set, distinct, arith, Outcome, ok, err, ◌>>=◌, >>=-eq-ok,
  ok_injective, some_injective,
}
use ovrly.Extraction.Runs.{IsPolicy, Observation, Item, Run}
use ovrly.Extraction.Windows.{Window, Planning, ids, sources, timebases, plan_submission}
use ovrly.Extraction.Windows.Valid.{is_short, length-map, has_timebase}
use ovrly.Extraction.Windows.Total.{IsSubmittable, plan_submission-ends, plan_submission-sources}
use ovrly.Extraction.Windows.Ready.{all-map}
use ovrly.Extraction.Intake.{
  Intake, IntakeError, admit_each, with_admitted, take_in, intake_run, submit_observations,
  submission_of, plan_run, stored_or_new, admitted_of, run_or_new, keeps_config, config_changed,
  capture_stopped, not_authorized, finalized_report, plan_if_ok,
}
use ovrly.Extraction.Stored.{
  AreItems, IsStored, all_first, admit_each-AreItems, with_admitted-IsStored,
}

-- One timebase of all items
timebase_of :
    (items : List Item)
    → length (to_set (timebases (sources items))) ≤ 1
    → (timebase : String) × (all (has_timebase timebase) (sources items) ≡ true)
timebase_of [] h = ("", refl)
timebase_of (i ∷ items) h = (
  i.source.timebase,
  sym (
        all-map (λ y. str_eq y i.source.timebase) (λ (o : Observation). o.timebase)
          (sources (i ∷ items)))
      ∙ all_first i.source.timebase (timebases (sources items)) h,
)

abbrev Found : Intake → Run → Type 0
Found q run = (run.policy.max_observations ≡ q.policy.max_observations) × AreItems run.observations

-- The run that a submission finds.
Found-run :
    (q : Intake) (run : Run)
    → ((old : Run) → q.stored ≡ some old → IsStored old)
    → stored_or_new q ≡ ok run
    → Found q run
Found-run q run h e = by_stored q.stored refl e
  where
    by_stored :
        (stored : Option Run) → q.stored ≡ stored → run_or_new q stored ≡ ok run → Found q run
    by_stored none s e =
        subst (Found q) (ok_injective IntakeError e)
          (refl, record { distinct_ids = refl; short_texts = refl })
    by_stored (some old) s e = by_config (keeps_config q old) refl e
      where
        by_config :
            (keeps : Bool)
            → keeps_config q old ≡ keeps
            → (if keeps then ok old else err config_changed) ≡ ok run
            → Found q run
        by_config true k e =
            subst (Found q) (ok_injective IntakeError e) (ground (arith, k), (h old s).items)
        by_config false k e = cc

past_checks :
    (stopped denied final : Bool) (result : Outcome IntakeError Run) (run : Run)
    → (if stopped
        then err capture_stopped
        else if denied
        then err not_authorized
        else if final
        then err finalized_report
        else result)
      ≡ ok run
    → result ≡ ok run
past_checks true denied final result run e = cc
past_checks false true final result run e = cc
past_checks false false true result run e = cc
past_checks false false false result run e = e

-- What `intake_run` gives has been stored or made, and filled.
taken_in :
    (q : Intake) (run : Run) → intake_run q ≡ ok run → (stored_or_new q >>= take_in q) ≡ ok run
unfolding intake_run
taken_in q run e = past_checks _ _ _ _ run e

pub intake_run-IsStored :
    (q : Intake) (run : Run)
    → all is_short q.observations ≡ true
    → ((old : Run) → q.stored ≡ some old → IsStored old)
    → intake_run q ≡ ok run
    → IsStored run
intake_run-IsStored q run short h e =
    let (old, found, filled) = >>=-eq-ok (stored_or_new q) (take_in q) (taken_in q run e) in
    let (a, admitted, stored) =
      >>=-eq-ok (admit_each old.closed q q.observations (admitted_of old)) (with_admitted q old)
        filled in
    let (bound, items) = Found-run q old h found in
    with_admitted-IsStored q old run a bound
      (admit_each-AreItems old.closed q q.observations (admitted_of old) a short items admitted)
      stored

-- The windows of a run that was taken in.
IsSubmittable-run :
    (q : Intake) (run : Run) (job_of : Window → String)
    → IsPolicy q.policy
    → IsStored run
    → (timebase : String) × IsSubmittable (submission_of q run job_of) timebase run.observations
IsSubmittable-run q run job_of p r =
    let (timebase, same) = timebase_of run.observations r.one_timebase in
    (
      timebase,
      record {
        bounds = p;
        distinct_ids = r.items.distinct_ids;
        short_texts = r.items.short_texts;
        one_timebase = same;
      },
    )

record StoredNext (q : Intake) (job_of : Window → String) (run : Run) : Type 0 where
  next : Run × List Window
  returned : plan_run q job_of run ≡ some (ok next)
  stored : IsStored next.0

replaced-IsStored :
    (run : Run) (plan : Planning)
    → IsStored run
    → sources plan.ordered ≡ sources run.observations
    → IsStored (record run { observations = plan.ordered; windows = plan.windows })
replaced-IsStored run plan r same = record {
  items = record {
    distinct_ids = subst (λ os. distinct (ids os) ≡ true) (sym same) r.items.distinct_ids;
    short_texts = subst (λ os. all is_short os ≡ true) (sym same) r.items.short_texts;
  };
  few_items = omega (
    arith,
    r.few_items,
    length-map (λ (i : Item). i.source) plan.ordered,
    length-map (λ (i : Item). i.source) run.observations,
    ap length same,
  );
  one_timebase = subst (λ os. length (to_set (timebases os)) ≤ 1) (sym same) r.one_timebase;
}

run_planned :
    (q : Intake) (job_of : Window → String) (run : Run) (plan : Planning)
    → q.finalized ≡ false
    → plan_submission (submission_of q run job_of) run.observations run.windows ≡ some (ok plan)
    → plan_run q job_of run
      ≡ some (ok (record run { observations = plan.ordered; windows = plan.windows }, plan.queued))
run_planned q job_of run plan f h = rw (f, h) refl

-- A run that was taken in gets its windows and is stored again.
planned :
    (q : Intake) (job_of : Window → String) (run : Run)
    → IsPolicy q.policy
    → IsStored run
    → StoredNext q job_of run
planned q job_of run p r = by_final q.finalized refl
  where
    by_final : (finalized : Bool) → q.finalized ≡ finalized → StoredNext q job_of run
    by_final true f = record { next = (run, []); returned = rw f refl; stored = r }
    by_final false f =
        let (timebase, submittable) = IsSubmittable-run q run job_of p r in
        let (plan, returned) =
          plan_submission-ends (submission_of q run job_of) timebase run.observations run.windows
            submittable in
        let same =
          plan_submission-sources (submission_of q run job_of) timebase run.observations run.windows
            plan submittable returned in
        record {
          next = (record run { observations = plan.ordered; windows = plan.windows }, plan.queued);
          returned = run_planned q job_of run plan f returned;
          stored = replaced-IsStored run plan r same;
        }

-- A submission whose observations are taken in returns: its window loop ends and ObservationWindow
-- rejects no window, where the policy has its bounds, each new text is at most 8000 characters
-- long and the stored run, if there is one, is in order.
pub submit_observations-returns :
    (q : Intake) (job_of : Window → String) (run : Run)
    → IsPolicy q.policy
    → all is_short q.observations ≡ true
    → ((old : Run) → q.stored ≡ some old → IsStored old)
    → intake_run q ≡ ok run
    → (next : Run × List Window) × (submit_observations q job_of ≡ some (ok next))
unfolding submit_observations
submit_observations-returns q job_of run p short h e =
    let n = planned q job_of run p (intake_run-IsStored q run short h e) in
    (n.next, ap (plan_if_ok q job_of) e ∙ n.returned)

-- Submissions keep a run in order: under the same conditions, the run that a submission stores has
-- distinct ids, texts of at most 8000 characters, no more observations than its policy admits and
-- one timebase.
pub submit_observations-IsStored :
    (q : Intake) (job_of : Window → String) (next : Run) (windows : List Window)
    → IsPolicy q.policy
    → all is_short q.observations ≡ true
    → ((old : Run) → q.stored ≡ some old → IsStored old)
    → submit_observations q job_of ≡ some (ok (next, windows))
    → IsStored next
unfolding submit_observations
submit_observations-IsStored q job_of next windows p short h e = by_intake (intake_run q) refl e
  where
    by_intake :
        (taken : Outcome IntakeError Run)
        → intake_run q ≡ taken
        → plan_if_ok q job_of taken ≡ some (ok (next, windows))
        → IsStored next
    by_intake (err x) i e = cc
    by_intake (ok run) i e =
        by_plan (planned q job_of run p (intake_run-IsStored q run short h i)) e
      where
        by_plan :
            StoredNext q job_of run
            → plan_run q job_of run ≡ some (ok (next, windows))
            → IsStored next
        by_plan n e =
            subst (λ (n : Run × List Window). IsStored n.0)
              (ok_injective IntakeError (some_injective (sym n.returned ∙ e))) n.stored
