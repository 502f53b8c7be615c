-- ===== src/Extraction/Windows/Total.antt =====
-- The loop of `submit_observations` (backend/services/pipeline/incremental.py) from its start to its end.
use ovrly.Prelude.{
  ℕ, zero, suc, ◌≤◌, ◌≡◌, refl, ap, sym, ◌∙◌, subst, Bool, true, false, not, ◌&&◌, Option, some,
  ok_injective, some_injective, List, [], ◌∷◌, ◌++◌, String, ltb, false≢true, if◌then◌else◌, any,
  all, length, length-append, distinct, arith, Outcome, ok,
}
use ovrly.Extraction.Runs.{IsPolicy, Observation, Item, is_target}
use ovrly.Extraction.Windows.{
  Submission, Planning, WindowError, ids, sources, drop, pending_of, is_window, skip, assign,
  characters, batch_size, threshold, overlap_of, selected_of, queue_window, skip_selected,
  round_with, plan_windows, plan_submission, is_pending,
}
use ovrly.Extraction.Windows.Valid.{is_short, has_timebase, map-append, fill-prefix}
use ovrly.Extraction.Windows.Rounds.{
  is_settled, is_settled_or_in, all-update_items, settled-update_items, sources-update_items,
  is_free-pending, settled_or_pending,
}
use ovrly.Extraction.Windows.Parts.{IsPart, part_all, part_distinct, part_map, part_select}
use ovrly.Extraction.Windows.Ready.{
  IsReady, window-accepted, some_selected, after_skip, after_window,
}

-- What the four outcomes of a round have, its result has.
module _ {ℓ κ} {A : Type ℓ} (P : A → Type κ) where
  by_test :
      (targets closed later accepted : Bool) (stopped skipped queued rejected : A)
      → (targets ≡ true → accepted ≡ true)
      → (closed ≡ false → P stopped)
      → P skipped
      → P queued
      → P (
          if not targets
          then (if not closed && not later then stopped else skipped)
          else (if accepted then queued else rejected))
  by_test false false false accepted a b c d h s k q = s refl
  by_test false false true accepted a b c d h s k q = k
  by_test false true later accepted a b c d h s k q = k
  by_test true closed later true a b c d h s k q = q
  by_test true closed later false a b c d h s k q = absurd (false≢true (h refl))

  by_count :
      (few closed : Bool) (stopped next : A)
      → (closed ≡ false → P stopped)
      → P next
      → P (if few && not closed then stopped else next)
  by_count true false a b s k = s refl
  by_count true true a b s k = k
  by_count false closed a b s k = k

module _ (s : Submission) where
  -- A result that is a plan, and leaves nothing unsettled after the last submission.
  record Ends (pending : List Observation) (ordered : List Item)
      (result : Option (Outcome WindowError Planning)) : Type 0 where
    final : Planning
    returned : result ≡ some (ok final)
    same_sources : sources final.ordered ≡ sources ordered
    all_settled :
        s.closed ≡ true
        → all (is_settled_or_in (ids pending)) ordered ≡ true
        → all is_settled final.ordered ≡ true

  stopped :
      (pending : List Observation) (plan : Planning)
      → s.closed ≡ false
      → Ends pending plan.ordered (some (ok plan))
  stopped pending plan h = record {
    final = plan;
    returned = refl;
    same_sources = refl;
    all_settled = λ closed k. cc;
  }

  settled_or_in_none :
      (items : List Item) → all (is_settled_or_in []) items ≡ true → all is_settled items ≡ true
  settled_or_in_none [] h = refl
  settled_or_in_none (i ∷ items) h = ground (arith, h, settled_or_in_none items)

  continued :
      (selected rest : List Observation) (ordered later : List Item)
      {result : Option (Outcome WindowError Planning)}
      → (all (is_settled_or_in (ids selected ++ ids rest)) ordered ≡ true
          → all (is_settled_or_in (ids rest)) later ≡ true)
      → sources later ≡ sources ordered
      → Ends rest later result
      → Ends (selected ++ rest) ordered result
  continued selected rest ordered later step same e = record {
    final = e.final;
    returned = e.returned;
    same_sources = e.same_sources ∙ same;
    all_settled = λ closed k. e.all_settled closed (
        step (
          subst (λ names. all (is_settled_or_in names) ordered ≡ true)
            (map-append (λ (o : Observation). o.id) selected rest) k));
  }

  round_with-ends :
      (plan : Planning) (overlap selected rest : List Observation)
      (next : List Observation → Planning → Option (Outcome WindowError Planning))
      → (any is_target (overlap ++ selected) ≡ true → is_window (overlap ++ selected) ≡ true)
      → Ends rest (skip_selected plan selected).ordered (next rest (skip_selected plan selected))
      → Ends rest
          (queue_window s plan overlap selected).ordered
          (next rest (queue_window s plan overlap selected))
      → Ends (selected ++ rest) plan.ordered (round_with s plan overlap selected rest next)
  round_with-ends plan overlap selected rest next accepted skipped queued =
      by_test (Ends (selected ++ rest) plan.ordered) (any is_target (overlap ++ selected)) s.closed
        (any is_target rest) (is_window (overlap ++ selected)) _ _ _ _ accepted
        (stopped (selected ++ rest) plan)
        (continued selected rest plan.ordered _
          (settled-update_items skip (ids selected) (ids rest) plan.ordered (λ i. ground arith))
          (sources-update_items (ids selected) skip plan.ordered (λ i. refl)) skipped)
        (continued selected rest plan.ordered _
          (λ k.
            settled-update_items (assign _) (ids selected) (ids rest) _ (λ i. refl)
              (all-update_items (is_settled_or_in (ids selected ++ ids rest))
                  (ids (overlap ++ selected)) _ plan.ordered (λ i. refl)
                ∙ k))
          (sources-update_items (ids selected) _ _ (λ i. refl)
            ∙ sources-update_items (ids (overlap ++ selected)) _ plan.ordered (λ i. refl))
          queued)

  module _ (timebase : String) (policy : IsPolicy s.policy) where
    plan_windows-ends :
        (fuel : ℕ) (pending : List Observation) (plan : Planning)
        → length pending ≤ fuel
        → IsReady timebase pending plan.ordered
        → Ends pending plan.ordered (plan_windows fuel s pending plan)
    unfolding plan_windows
    plan_windows-ends fuel [] plan enough r = record {
      final = plan;
      returned = refl;
      same_sources = refl;
      all_settled = λ closed k. settled_or_in_none plan.ordered k;
    }
    plan_windows-ends zero (first ∷ pending) plan enough r = ground (arith, enough)
    plan_windows-ends (suc fuel) (first ∷ pending) plan enough r =
        by_count (Ends (first ∷ pending) plan.ordered)
          (ltb (suc (length pending)) (threshold s (length plan.windows))) s.closed _ _
          (stopped (first ∷ pending) plan)
          (subst
            (λ observations.
              Ends observations plan.ordered
                (round_with s plan overlap selected rest (plan_windows fuel s)))
            parts
            (round_with-ends plan overlap selected rest (plan_windows fuel s)
              (window-accepted s timebase plan first pending policy r)
              (plan_windows-ends fuel rest (skip_selected plan selected) less
                (after_skip s timebase plan selected rest ready))
              (plan_windows-ends fuel rest (queue_window s plan overlap selected) less
                (after_window s timebase plan overlap selected rest ready))))
      where
        overlap : List Observation
        overlap = overlap_of s plan.ordered first

        selected : List Observation
        selected = selected_of s plan first (first ∷ pending)

        rest : List Observation
        rest = drop (length selected) (first ∷ pending)

        parts : selected ++ rest ≡ first ∷ pending
        parts =
            fill-prefix (characters overlap)
              (batch_size (threshold s (length plan.windows)) (first ∷ pending)) (first ∷ pending)

        ready : IsReady timebase (selected ++ rest) plan.ordered
        ready = subst (λ observations. IsReady timebase observations plan.ordered) (sym parts) r

        less : length rest ≤ fuel
        less = omega (
          arith,
          enough,
          some_selected s timebase plan first pending r,
          length-append selected rest,
          ap length parts,
        )

-- What `submit_observations` checks of its observations before the loop: distinct ids, the length of `Observation.text`,
-- and one timebase.
pub record IsSubmittable (s : Submission) (timebase : String) (ordered : List Item) : Type 0 where
  pub bounds : IsPolicy s.policy
  pub distinct_ids : distinct (ids (sources ordered)) ≡ true
  pub short_texts : all is_short (sources ordered) ≡ true
  pub one_timebase : all (has_timebase timebase) (sources ordered) ≡ true

starts :
    (s : Submission) (timebase : String) (ordered : List Item) (windows : List String)
    → IsSubmittable s timebase ordered
    → Ends s (pending_of ordered) ordered (plan_submission s ordered windows)
unfolding plan_submission
starts s timebase ordered windows h =
    plan_windows-ends s timebase h.bounds (length (pending_of ordered)) (pending_of ordered) _
      (omega arith)
      (record {
        pending_distinct = part_distinct (λ (o : Observation). o.id) pending_part h.distinct_ids;
        pending_short = part_all is_short pending_part h.short_texts;
        pending_timebase = part_all (has_timebase timebase) pending_part h.one_timebase;
        items_distinct = h.distinct_ids;
        items_timebase = h.one_timebase;
        pending_free = is_free-pending ordered h.distinct_ids;
      })
  where
    pending_part : IsPart (pending_of ordered) (sources ordered)
    pending_part = part_map (λ (i : Item). i.source) (part_select is_pending ordered)

-- The window loop of a submission ends with as many rounds as it has pending observations, and
-- ObservationWindow rejects none of its windows: where the policy has its bounds, ids are
-- distinct, texts are at most 8000 characters long and all timebases are the same, the loop
-- returns a plan.
pub plan_submission-ends :
    (s : Submission) (timebase : String) (ordered : List Item) (windows : List String)
    → IsSubmittable s timebase ordered
    → (plan : Planning) × (plan_submission s ordered windows ≡ some (ok plan))
plan_submission-ends s timebase ordered windows h =
    let e = starts s timebase ordered windows h in (e.final, e.returned)

-- After the last submission of a run no observation stays behind: under the same conditions, when
-- the input is closed, every observation of the plan that the loop returns has a job or a reason
-- for having none.
pub plan_submission-settled :
    (s : Submission) (timebase : String) (ordered : List Item) (windows : List String)
    (plan : Planning)
    → IsSubmittable s timebase ordered
    → s.closed ≡ true
    → plan_submission s ordered windows ≡ some (ok plan)
    → all is_settled plan.ordered ≡ true
plan_submission-settled s timebase ordered windows plan h closed k =
    let e = starts s timebase ordered windows h in
    subst (λ final. all is_settled final.ordered ≡ true)
      (ok_injective WindowError (some_injective (sym e.returned ∙ k)))
      (e.all_settled closed (settled_or_pending ordered))

-- The loop changes no observation.
pub plan_submission-sources :
    (s : Submission) (timebase : String) (ordered : List Item) (windows : List String)
    (plan : Planning)
    → IsSubmittable s timebase ordered
    → plan_submission s ordered windows ≡ some (ok plan)
    → sources plan.ordered ≡ sources ordered
plan_submission-sources s timebase ordered windows plan h k =
    let e = starts s timebase ordered windows h in
    subst (λ (final : Planning). sources final.ordered ≡ sources ordered)
      (ok_injective WindowError (some_injective (sym e.returned ∙ k))) e.same_sources
