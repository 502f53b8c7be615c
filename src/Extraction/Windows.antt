-- ===== src/Extraction/Windows.antt =====
-- The loop of `submit_observations` that groups the pending observations into overlapping windows
-- (backend/services/pipeline/incremental.py), with the checks of `ObservationWindow` (extraction.py).
pub mod Parts
pub mod Valid
pub mod Rounds
pub mod Ready
pub mod Total
use ovrly.Prelude.{
  ℕ, zero, suc, ◌+◌, ◌-◌, ◌*◌, min, max, Bool, true, false, not, ◌&&◌, ◌||◌, Option, none, some,
  List, [], ◌∷◌, ◌++◌, String, str_eq, ltb, leb, ◌==◌, if◌then◌else◌, any, all, map, length, select,
  is_in, to_set, is_some, Outcome, ok, err, ◌>>=◌,
}
use ovrly.Extraction.Runs.{Policy, Observation, Item, size, is_target}

abbrev pub max_characters : ℕ
max_characters = 24000

-- `ObservationWindow`, with the number that its `window_id` shows.
pub record Window : Type 0 where
  pub number : ℕ
  pub hosted_processing_approved : Bool
  pub groq_processing_approved : Bool
  pub observations : List Observation

pub data WindowError : Type 0 where
  invalid_window : WindowError

abbrev pub ids : List Observation → List String
ids = map (λ (o : Observation). o.id)

abbrev pub sources : List Item → List Observation
sources = map (λ (i : Item). i.source)

unfoldable pub characters : List Observation → ℕ
characters [] = 0
characters (o ∷ observations) = size o + characters observations

abbrev pub timebases : List Observation → List String
timebases = map (λ (o : Observation). o.timebase)

-- The bounds of a window's observations and `consistent`.
abbrev pub is_window : List Observation → Bool
is_window observations =
    leb 1 (length observations)
    && (leb (length observations) 128
        && (length (to_set (ids observations)) == length observations
            && (length (to_set (timebases observations)) == 1
                && (any is_target observations && leb (characters observations) max_characters))))

-- What a submission fixes for its windows, and the job that `enqueue_extraction` gives for a window.
pub record Submission : Type 0 where
  pub policy : Policy
  pub hosted_processing_approved : Bool
  pub groq_processing_approved : Bool
  pub requests_used : ℕ
  pub tokens_reserved : ℕ
  pub closed : Bool
  pub job_of : Window → String

-- The state of the loop: the stored items, the windows' jobs, and the windows queued now.
pub record Planning : Type 0 where
  pub ordered : List Item
  pub windows : List String
  pub queued : List Window

-- `pressure >= 0.75` and `pressure >= 0.5`, without the division
abbrev pub is_high : Submission → ℕ → Bool
is_high s windows =
    leb (3 * (s.policy.max_requests - s.policy.reconciliation_requests))
      (4 * max s.requests_used windows)
    || leb (3 * (s.policy.max_tokens - s.policy.reconciliation_tokens)) (4 * s.tokens_reserved)

abbrev pub is_raised : Submission → ℕ → Bool
is_raised s windows =
    leb (s.policy.max_requests - s.policy.reconciliation_requests) (2 * max s.requests_used windows)
    || leb (s.policy.max_tokens - s.policy.reconciliation_tokens) (2 * s.tokens_reserved)

abbrev pub factor : Submission → ℕ → ℕ
factor s windows = if is_high s windows then 4 else if is_raised s windows then 2 else 1

abbrev pub threshold : Submission → ℕ → ℕ
threshold s windows = min 64 (s.policy.batch_observations * factor s windows)

abbrev pub has_job : Item → Bool
has_job i = is_some i.job_id

-- `ordered[:ordered.index(first)]`
unfoldable pub before : String → List Item → List Item
before id [] = []
before id (i ∷ items) = if str_eq i.source.id id then [] else i ∷ before id items

module _ {ℓ} {A : Type ℓ} where
  unfoldable pub take : ℕ → List A → List A
  take zero xs = []
  take (suc n) [] = []
  take (suc n) (x ∷ xs) = x ∷ take n xs

  unfoldable pub drop : ℕ → List A → List A
  drop zero xs = xs
  drop (suc n) [] = []
  drop (suc n) (x ∷ xs) = drop n xs

  -- `xs[-n:]`, for a positive n
  abbrev pub last : ℕ → List A → List A
  last n xs = drop (length xs - n) xs

-- `while overlap and … > 24000: overlap.pop(0)`
unfoldable pub trim : ℕ → List Observation → List Observation
trim first [] = []
trim first (o ∷ overlap) =
    if ltb max_characters (characters (o ∷ overlap) + first)
    then trim first overlap
    else o ∷ overlap

-- `for item in batch: if characters + len(...) > 24000: break; …`
unfoldable pub fill : ℕ → List Observation → List Observation
fill used [] = []
fill used (o ∷ batch) =
    let rest = fill (used + size o) batch in
    if ltb max_characters (used + size o) then [] else o ∷ rest

-- `next((index for … if target), 0)`
unfoldable pub index_of_target : List Observation → Option ℕ
index_of_target [] = none
index_of_target (o ∷ pending) =
    if is_target o
    then some 0
    else elim (index_of_target pending) [ none ↦ none | some n ↦ some (suc n) ]

abbrev pub or_first : Option ℕ → ℕ
or_first none = 0
or_first (some n) = n

abbrev pub batch_size : ℕ → List Observation → ℕ
batch_size threshold pending = min 64 (max threshold (or_first (index_of_target pending) + 1))

abbrev pub overlap_of : Submission → List Item → Observation → List Observation
overlap_of s ordered first =
    trim (size first)
      (last s.policy.overlap_observations (sources (select has_job (before first.id ordered))))

-- An item's entry in the store, by the ids of those that change.
unfoldable pub update_items : List String → (Item → Item) → List Item → List Item
update_items changed f [] = []
update_items changed f (i ∷ items) =
    (if is_in i.source.id changed then f i else i) ∷ update_items changed f items

abbrev pub skip : Item → Item
skip i = record i { reason = some "context_without_target" }

abbrev pub cover : String → Item → Item
cover job i = record i { window_ids = i.window_ids ++ job ∷ [] }

abbrev pub assign : String → Item → Item
assign job i = record i { job_id = some job }

abbrev pub window_of : Submission → Planning → List Observation → Window
window_of s plan observations = record {
  number = length plan.windows + 1;
  hosted_processing_approved = s.hosted_processing_approved;
  groq_processing_approved = s.groq_processing_approved;
  observations = observations;
}

-- The plan after a window over some observations, of which the selected get its job.
abbrev pub queue_window : Submission → Planning → (overlap selected : List Observation) → Planning
queue_window s plan overlap selected =
    let window = window_of s plan (overlap ++ selected) in
    let job = s.job_of window in
    record {
      ordered =
          update_items (ids selected) (assign job)
            (update_items (ids (overlap ++ selected)) (cover job) plan.ordered);
      windows = plan.windows ++ job ∷ [];
      queued = plan.queued ++ window ∷ [];
    }

abbrev pub skip_selected : Planning → List Observation → Planning
skip_selected plan selected = record plan {
  ordered = update_items (ids selected) skip plan.ordered;
}

-- What a round does with its overlap, what it selects, and what is left; `next` is the next round.
abbrev pub round_with :
    Submission
    → Planning
    → (overlap selected rest : List Observation)
    → (List Observation → Planning → Option (Outcome WindowError Planning))
    → Option (Outcome WindowError Planning)
round_with s plan overlap selected rest next =
    if not (any is_target (overlap ++ selected))
    then if not s.closed && not (any is_target rest)
      then some (ok plan)
      else next rest (skip_selected plan selected)
    else if is_window (overlap ++ selected)
    then next rest (queue_window s plan overlap selected)
    else some (err invalid_window)

abbrev pub selected_of : Submission → Planning → Observation → List Observation → List Observation
selected_of s plan first pending =
    fill (characters (overlap_of s plan.ordered first))
      (take (batch_size (threshold s (length plan.windows)) pending) pending)

abbrev pub round :
    Submission
    → Planning
    → Observation
    → List Observation
    → (List Observation → Planning → Option (Outcome WindowError Planning))
    → Option (Outcome WindowError Planning)
round s plan first pending next =
    if ltb (length pending) (threshold s (length plan.windows)) && not s.closed
    then some (ok plan)
    else round_with s plan (overlap_of s plan.ordered first) (selected_of s plan first pending)
        (drop (length (selected_of s plan first pending)) pending) next

-- `while pending`, with fuel; `none` means that the fuel ran out.
unfoldable pub plan_windows :
    ℕ → Submission → List Observation → Planning → Option (Outcome WindowError Planning)
plan_windows fuel s [] plan = some (ok plan)
plan_windows zero s (o ∷ pending) plan = none
plan_windows (suc fuel) s (o ∷ pending) plan = round s plan o (o ∷ pending) (plan_windows fuel s)

abbrev pub is_pending : Item → Bool
is_pending i = not (has_job i) && not (is_some i.reason)

-- The observations that a submission may put in windows, and the loop over them.
abbrev pub pending_of : List Item → List Observation
pending_of ordered = sources (select is_pending ordered)

unfoldable pub plan_submission :
    Submission → List Item → List String → Option (Outcome WindowError Planning)
plan_submission s ordered windows =
    plan_windows (length (pending_of ordered)) s (pending_of ordered)
      (record { ordered = ordered; windows = windows; queued = [] })
