-- ===== src/Extraction/Budget.antt =====
-- What the extraction requests of a run leave for its reconciliation
-- (`record_request` of backend/services/pipeline/incremental.py).
use ovrly.Prelude.{
  ℕ, ◌+◌, ◌≤◌, ◌≡◌, Bool, true, false, List, [], ◌∷◌, Outcome, ok, err, arith, not, all, &&-left,
  &&-right, Bool-cases, inl, inr, refl, ap, sym, subst,
}
use ovrly.Extraction.Runs.{
  Policy, Run, record_request, request_tokens, is_exhausted, spend, budget_exceeded, BudgetError,
}

-- A request that was sent for a run: its sizes, and whether a reconciliation sent it.
pub record Request : Type 0 where
  pub input_bytes : ℕ
  pub output_tokens : ℕ
  pub reconciliation : Bool

-- The run after requests that were asked for one after another; one that is rejected leaves the run as it is.
abbrev pub or_unchanged : Run → Outcome BudgetError Run → Run
or_unchanged run (ok next) = next
or_unchanged run (err e) = run

abbrev pub after_request : Run → Request → Run
after_request run q =
    or_unchanged run (record_request run q.input_bytes q.output_tokens q.reconciliation)

unfoldable pub after_requests : Run → List Request → Run
after_requests run [] = run
after_requests run (q ∷ requests) = after_requests (after_request run q) requests

abbrev pub is_extraction : Request → Bool
is_extraction q = not q.reconciliation

pub record IsWithinMaxima (p : Policy) (run : Run) : Type 0 where
  pub its_policy : run.policy ≡ p
  pub requests_bound : run.requests_used ≤ p.max_requests
  pub tokens_bound : run.tokens_reserved ≤ p.max_tokens

pub record IsReserved (p : Policy) (run : Run) : Type 0 where
  pub its_policy : run.policy ≡ p
  pub requests_left : run.requests_used + p.reconciliation_requests ≤ p.max_requests
  pub tokens_left : run.tokens_reserved + p.reconciliation_tokens ≤ p.max_tokens

refused :
    (run : Run) (input_bytes output_tokens : ℕ) (reconciliation : Bool)
    → is_exhausted run (request_tokens input_bytes output_tokens) reconciliation ≡ true
    → record_request run input_bytes output_tokens reconciliation ≡ err budget_exceeded
unfolding record_request
refused run i o r e = rw e refl

recorded :
    (run : Run) (input_bytes output_tokens : ℕ) (reconciliation : Bool)
    → is_exhausted run (request_tokens input_bytes output_tokens) reconciliation ≡ false
    → record_request run input_bytes output_tokens reconciliation
      ≡ ok (spend run (request_tokens input_bytes output_tokens))
unfolding record_request
recorded run i o r e = rw e refl

module _ (p : Policy) where
  step-IsWithinMaxima :
      (run : Run) (q : Request) → IsWithinMaxima p run → IsWithinMaxima p (after_request run q)
  step-IsWithinMaxima run q w =
      elim (Bool-cases
        (is_exhausted run (request_tokens q.input_bytes q.output_tokens) q.reconciliation)) [
          | inl e ↦ subst (IsWithinMaxima p) (sym (ap (or_unchanged run) (refused run _ _ _ e))) w
          | inr e ↦
              subst (IsWithinMaxima p) (sym (ap (or_unchanged run) (recorded run _ _ _ e)))
                (record {
                  its_policy = w.its_policy;
                  requests_bound = ground (arith, e, w.its_policy, w.requests_bound);
                  tokens_bound = ground (arith, e, w.its_policy, w.tokens_bound);
                })
        ]

  step-IsReserved :
      (run : Run) (q : Request)
      → is_extraction q ≡ true
      → IsReserved p run
      → IsReserved p (after_request run q)
  step-IsReserved run q extraction w =
      elim (Bool-cases
        (is_exhausted run (request_tokens q.input_bytes q.output_tokens) q.reconciliation)) [
          | inl e ↦ subst (IsReserved p) (sym (ap (or_unchanged run) (refused run _ _ _ e))) w
          | inr e ↦
              subst (IsReserved p) (sym (ap (or_unchanged run) (recorded run _ _ _ e))) (record {
                its_policy = w.its_policy;
                requests_left = ground (arith, e, extraction, w.its_policy, w.requests_left);
                tokens_left = ground (arith, e, extraction, w.its_policy, w.tokens_left);
              })
        ]

  -- Whatever requests of either kind are asked for, a run that is within the maxima of its policy
  -- stays within them, and keeps its policy.
  pub after_requests-IsWithinMaxima :
      (run : Run) (requests : List Request)
      → IsWithinMaxima p run
      → IsWithinMaxima p (after_requests run requests)
  unfolding after_requests
  after_requests-IsWithinMaxima run [] w = w
  after_requests-IsWithinMaxima run (q ∷ requests) w =
      after_requests-IsWithinMaxima (after_request run q) requests (step-IsWithinMaxima run q w)

  pub after_requests-IsReserved :
      (run : Run) (requests : List Request)
      → all is_extraction requests ≡ true
      → IsReserved p run
      → IsReserved p (after_requests run requests)
  unfolding after_requests
  after_requests-IsReserved run [] h w = w
  after_requests-IsReserved run (q ∷ requests) h w =
      after_requests-IsReserved (after_request run q) requests (&&-right (is_extraction q) _ h)
        (step-IsReserved run q (&&-left _ _ h) w)

  -- Extraction requests leave the reconciliation its reserve: after any extraction requests, in a
  -- run that starts with the reserve free, a reconciliation request is recorded where at least one
  -- request is reserved and its tokens fit in the reserved tokens.
  pub reconciliation-accepted :
      (run : Run) (requests : List Request) (input_bytes output_tokens : ℕ)
      → all is_extraction requests ≡ true
      → IsReserved p run
      → 1 ≤ p.reconciliation_requests
      → request_tokens input_bytes output_tokens ≤ p.reconciliation_tokens
      → record_request (after_requests run requests) input_bytes output_tokens true
        ≡ ok (spend (after_requests run requests) (request_tokens input_bytes output_tokens))
  reconciliation-accepted run requests input_bytes output_tokens h w some small =
      recorded (after_requests run requests) input_bytes output_tokens true
        (free (after_requests-IsReserved run requests h w))
    where
      free :
          {now : Run}
          → IsReserved p now
          → is_exhausted now (request_tokens input_bytes output_tokens) true ≡ false
      free {now} r = ground (arith, r.its_policy, r.requests_left, r.tokens_left, some, small)
