-- ===== src/Extraction/Windows/Ready.antt =====
-- What holds before each round of the loop of `submit_observations` (backend/services/pipeline/incremental.py), and that
-- a round keeps it.
use ovrly.Prelude.{
  ℕ, zero, suc, ◌+◌, ◌-◌, ◌≤◌, ◌≡◌, refl, ap, sym, ◌∙◌, subst, Bool, true, Bool-cases, inl, inr,
  not, ◌&&◌, List, [], ◌∷◌, ◌++◌, String, str_eq, any, all, map, length, select, is_in, distinct,
  is_disjoint, arith, any-append, distinct-append,
}
use ovrly.Extraction.Runs.{IsPolicy, Observation, Item, size, is_target}
use ovrly.Extraction.Windows.{
  Submission, Planning, max_characters, ids, sources, characters, has_job, before, last, take, fill,
  is_window, skip, overlap_of, selected_of, batch_size, threshold, queue_window, skip_selected,
}
use ovrly.Extraction.Windows.Parts.{
  IsPart, part_end, part_trans, part_all, part_distinct, part_map, part_length, part_drop,
  part_trim, part_before, part_select, length-drop,
}
use ovrly.Extraction.Windows.Valid.{
  is_short, has_timebase, map-append, characters-trim, is_window-fill,
}
use ovrly.Extraction.Windows.Rounds.{
  is_free, sources-update_items, all-update_items, is_free-assign, is_free-narrowed,
}

-- What holds when a round starts.
pub record IsReady (timebase : String) (pending : List Observation) (ordered : List Item)
    : Type 0 where
  pub pending_distinct : distinct (ids pending) ≡ true
  pub pending_short : all is_short pending ≡ true
  pub pending_timebase : all (has_timebase timebase) pending ≡ true
  pub items_distinct : distinct (ids (sources ordered)) ≡ true
  pub items_timebase : all (has_timebase timebase) (sources ordered) ≡ true
  pub pending_free : all (is_free (ids pending)) ordered ≡ true

pub all-map {ℓ κ} :
    {A : Type ℓ} {B : Type κ} (p : B → Bool) (f : A → B) (xs : List A)
    → all p (map f xs) ≡ all (λ x. p (f x)) xs
all-map p f [] = refl
all-map p f (x ∷ xs) = ap (λ rest. p (f x) && rest) (all-map p f xs)

is_free-sources :
    (names : List String) (items : List Item)
    → all (is_free names) items ≡ true
    → all (λ (o : Observation). not (is_in o.id names)) (sources (select has_job items)) ≡ true
is_free-sources names [] h = refl
is_free-sources names (i ∷ items) h = elim (Bool-cases (has_job i)) [
  | inl e ↦ rw e (ground (arith, e, h, is_free-sources names items))
  | inr e ↦ rw e (ground (arith, e, h, is_free-sources names items))
]

some_filled :
    (used n : ℕ) (o : Observation) (pending : List Observation)
    → 1 ≤ n
    → used + size o ≤ max_characters
    → 1 ≤ length (fill used (take n (o ∷ pending)))
unfolding take fill
some_filled used zero o pending h k = omega (arith, h)
some_filled used (suc n) o pending h k = ground (arith, k)

module _ (s : Submission) (timebase : String) where
  overlap_part :
      (ordered : List Item) (first : Observation)
      → IsPart (overlap_of s ordered first) (sources (select has_job (before first.id ordered)))
  overlap_part ordered first =
      part_trans
        (part_drop
          (length (sources (select has_job (before first.id ordered)))
            - s.policy.overlap_observations)
          _)
        (part_trim (size first) _)

  overlap_part_items :
      (ordered : List Item) (first : Observation)
      → IsPart (overlap_of s ordered first) (sources ordered)
  overlap_part_items ordered first =
      part_trans
        (part_map (λ (i : Item). i.source)
          (part_trans (part_before first.id ordered) (part_select has_job _)))
        (overlap_part ordered first)

  overlap_disjoint :
      (ordered : List Item) (first : Observation) (names : List String)
      → all (is_free names) ordered ≡ true
      → is_disjoint (ids (overlap_of s ordered first)) names ≡ true
  overlap_disjoint ordered first names h =
      all-map (λ x. not (is_in x names)) (λ (o : Observation). o.id) (overlap_of s ordered first)
      ∙ part_all _ (overlap_part ordered first) (
          is_free-sources names (before first.id ordered)
            (part_all (is_free names) (part_before first.id ordered) h))

  length-overlap_of :
      (ordered : List Item) (first : Observation)
      → IsPolicy s.policy
      → length (overlap_of s ordered first) ≤ 32
  length-overlap_of ordered first p = omega (
    arith,
    p.overlap_bound,
    part_length (
        part_trim (size first) (
          last s.policy.overlap_observations (sources (select has_job (before first.id ordered))))),
    length-drop
        (length (sources (select has_job (before first.id ordered)))
          - s.policy.overlap_observations)
        (sources (select has_job (before first.id ordered))),
  )

  short_first :
      (plan : Planning) (first : Observation) (pending : List Observation)
      → IsReady timebase (first ∷ pending) plan.ordered
      → characters (overlap_of s plan.ordered first) + size first ≤ max_characters
  short_first plan first pending r =
      characters-trim (size first)
        (last s.policy.overlap_observations
          (sources (select has_job (before first.id plan.ordered))))
        (ground (arith, r.pending_short))

  batch_size-most : (n : ℕ) (pending : List Observation) → batch_size n pending ≤ 64
  batch_size-most n pending = omega arith

  pub window-accepted :
      (plan : Planning) (first : Observation) (pending : List Observation)
      → IsPolicy s.policy
      → IsReady timebase (first ∷ pending) plan.ordered
      → any is_target
          (overlap_of s plan.ordered first ++ selected_of s plan first (first ∷ pending))
        ≡ true
      → is_window (overlap_of s plan.ordered first ++ selected_of s plan first (first ∷ pending))
        ≡ true
  window-accepted plan first pending p r h =
      is_window-fill timebase (batch_size (threshold s (length plan.windows)) (first ∷ pending))
        (overlap_of s plan.ordered first) (first ∷ pending) (omega arith)
        (length-overlap_of plan.ordered first p) (omega (arith, short_first plan first pending r))
        (part_distinct _ (overlap_part_items plan.ordered first) r.items_distinct)
        r.pending_distinct
        (overlap_disjoint plan.ordered first (ids (first ∷ pending)) r.pending_free)
        (part_all _ (overlap_part_items plan.ordered first) r.items_timebase) r.pending_timebase h

  pub some_selected :
      (plan : Planning) (first : Observation) (pending : List Observation)
      → IsReady timebase (first ∷ pending) plan.ordered
      → 1 ≤ length (selected_of s plan first (first ∷ pending))
  some_selected plan first pending r =
      some_filled (characters (overlap_of s plan.ordered first))
        (batch_size (threshold s (length plan.windows)) (first ∷ pending)) first pending
        (omega arith) (short_first plan first pending r)

  changed :
      (selected rest : List Observation) (ordered later : List Item)
      → IsReady timebase (selected ++ rest) ordered
      → sources later ≡ sources ordered
      → all (is_free (ids rest)) later ≡ true
      → IsReady timebase rest later
  changed selected rest ordered later r same free = record {
    pending_distinct =
        part_distinct (λ (o : Observation). o.id) (part_end selected rest) r.pending_distinct;
    pending_short = part_all is_short (part_end selected rest) r.pending_short;
    pending_timebase = part_all (has_timebase timebase) (part_end selected rest) r.pending_timebase;
    items_distinct =
        subst (λ observations. distinct (ids observations) ≡ true) (sym same) r.items_distinct;
    items_timebase =
        subst (λ observations. all (has_timebase timebase) observations ≡ true) (sym same)
          r.items_timebase;
    pending_free = free;
  }

  in_rest :
      (selected rest : List Observation) (x : String)
      → is_in x (ids rest) ≡ true
      → is_in x (ids (selected ++ rest)) ≡ true
  in_rest selected rest x h =
      ap (is_in x) (map-append (λ (o : Observation). o.id) selected rest)
      ∙ ground (arith, any-append (str_eq x) (ids selected) (ids rest), h)

  apart :
      (selected rest : List Observation) (ordered : List Item)
      → IsReady timebase (selected ++ rest) ordered
      → is_disjoint (ids selected) (ids rest) ≡ true
  apart selected rest ordered r = ground (
    arith,
    distinct-append (ids selected) (ids rest),
    ap distinct (map-append (λ (o : Observation). o.id) selected rest),
    r.pending_distinct,
  )

  pub after_skip :
      (plan : Planning) (selected rest : List Observation)
      → IsReady timebase (selected ++ rest) plan.ordered
      → IsReady timebase rest (skip_selected plan selected).ordered
  after_skip plan selected rest r =
      changed selected rest plan.ordered _ r
        (sources-update_items (ids selected) skip plan.ordered (λ i. refl))
        (all-update_items (is_free (ids rest)) (ids selected) skip plan.ordered (λ i. refl)
          ∙ is_free-narrowed (ids rest) (ids (selected ++ rest)) plan.ordered
              (in_rest selected rest) r.pending_free)

  pub after_window :
      (plan : Planning) (overlap selected rest : List Observation)
      → IsReady timebase (selected ++ rest) plan.ordered
      → IsReady timebase rest (queue_window s plan overlap selected).ordered
  after_window plan overlap selected rest r =
      changed selected rest plan.ordered _ r
        (sources-update_items (ids selected) _ _ (λ i. refl)
          ∙ sources-update_items (ids (overlap ++ selected)) _ plan.ordered (λ i. refl))
        (is_free-assign _ (ids selected) (ids rest) (ids (selected ++ rest)) _
          (apart selected rest plan.ordered r) (in_rest selected rest)
          (all-update_items (is_free (ids (selected ++ rest))) (ids (overlap ++ selected)) _
              plan.ordered (λ i. refl)
            ∙ r.pending_free))
