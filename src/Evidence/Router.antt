-- ===== src/Evidence/Router.antt =====
-- backend/services/providers/router.py: a call of the router, its retries after a 429, and `structured`
-- with one repair. The HTTP exchange and the validation of a reply are arguments.
use ovrly.Prelude.{
  ℕ, suc, zero, ◌-◌, ◌||◌, Option, none, some, List, [], ◌∷◌, ◌++◌, String, ◌==◌, if◌then◌else◌,
  Outcome, ok, err, ◌>>=◌, >>=-eq-ok, ok_injective, ◌+◌, ◌≡◌, ◌∙◌, ap, refl, subst,
}
use Prim.Native.String as String

-- What a call raises: `ProviderError`, `ProviderRejected`, `RateLimited` with its hint,
-- `BudgetExhausted` and `InvalidReply`.
pub data RouterFailure : Type 0 where
  provider_error provider_rejected budget_exhausted invalid_reply : RouterFailure
  rate_limited : Option ℕ → RouterFailure

pub data Message : Type 0 where
  system user assistant : String → Message

pub record Completion : Type 0 where
  pub content : String
  pub decision_id : Option String

-- A response: its status, the `Retry-After` hint, and the completion, where the body holds one.
pub record Response : Type 0 where
  pub status : ℕ
  pub retry_after : Option ℕ
  pub body : Option Completion

-- The exchange for some messages at an attempt, with the wait for the request's slot before it.
abbrev pub Send : Type 0
Send = List Message → ℕ → Outcome RouterFailure Response

abbrev pub rate_limit_attempts : ℕ
rate_limit_attempts = 3

abbrev pub completion_of : Option Completion → Outcome RouterFailure Completion
completion_of none = err provider_error
completion_of (some c) = ok c

abbrev pub read_response : Response → Outcome RouterFailure Completion
read_response r =
    if r.status == 401 || r.status == 403
    then err provider_rejected
    else if r.status == 200
    then completion_of r.body
    else err provider_error

-- What an attempt makes of its response; `again` is the next attempt, where one is left.
abbrev pub after_send :
    Response → Option (Outcome RouterFailure Completion) → Outcome RouterFailure Completion
after_send r none = if r.status == 429 then err (rate_limited r.retry_after) else read_response r
after_send r (some again) = if r.status == 429 then again else read_response r

-- The loop of `_complete` from an attempt on, with the attempts that are left after it.
unfoldable pub try_send : Send → List Message → ℕ → ℕ → Outcome RouterFailure Completion
try_send send messages attempt zero = (send messages attempt) >>= λ r. after_send r none
try_send send messages attempt (suc left) =
    let again = try_send send messages (attempt + 1) left in
    (send messages attempt) >>= λ r. after_send r (some again)

-- `_complete`
unfoldable pub complete : Send → List Message → Outcome RouterFailure Completion
complete send messages = try_send send messages 0 (rate_limit_attempts - 1)

-- `text[:n]`
unfoldable pub take : ℕ → String → String
take zero s = String.[]
take (suc n) String.[] = String.[]
take (suc n) (String.◌∷◌ c s) = String.◌∷◌ c (take n s)

abbrev pub repair_request : String → String
repair_request problem =
    String.◌++◌
      "Repair the previous reply once. Return only one JSON object matching the requested "
      (String.◌++◌ "shape, using only the supplied identifiers. Problems: " problem)

abbrev pub repaired : List Message → String → String → List Message
repaired messages content problem =
    messages ++ assistant (take 4000 content) ∷ user (repair_request problem) ∷ []

module _ {A : Type 0} where
  abbrev pub or_problem : A → Option String → Outcome String A
  or_problem a none = ok a
  or_problem a (some problem) = err problem

  -- `clean_reply` and `model_validate_json` are `read`: a problem, or the parsed reply.
  abbrev pub validated :
      (String → Outcome String A) → (A → Option String) → String → Outcome String A
  validated read check content = (read content) >>= λ a. or_problem a (check a)

  abbrev pub after_reply :
      Outcome String A → ℕ → (String → Outcome RouterFailure A × ℕ) → Outcome RouterFailure A × ℕ
  after_reply (ok a) remaining repair = (ok a, remaining)
  after_reply (err problem) remaining repair = repair problem

  abbrev pub after_completion :
      Outcome RouterFailure Completion
      → ℕ
      → (Completion → Outcome RouterFailure A × ℕ)
      → Outcome RouterFailure A × ℕ
  after_completion (err e) remaining next = (err e, remaining)
  after_completion (ok c) remaining next = next c

  -- The loop of `structured`: the attempts that are left, the messages and the calls that remain. The
  -- feedback on a discarded reply changes nothing here.
  unfoldable pub attempt_reply :
      ℕ
      → Send
      → (String → Outcome String A)
      → (A → Option String)
      → List Message
      → ℕ
      → Outcome RouterFailure A × ℕ
  attempt_reply zero send read check messages remaining = (err invalid_reply, remaining)
  attempt_reply (suc left) send read check messages zero = (err budget_exhausted, 0)
  attempt_reply (suc left) send read check messages (suc remaining) =
      after_completion (complete send messages) remaining (λ c.
        after_reply (validated read check c.content) remaining (λ problem.
          attempt_reply left send read check (repaired messages c.content problem) remaining))

  -- `structured`, with the remaining calls
  unfoldable pub structured :
      Send
      → (String → Outcome String A)
      → (A → Option String)
      → (instructions prompt : String) → ℕ
      → Outcome RouterFailure A × ℕ
  structured send read check instructions prompt remaining =
      attempt_reply 2 send read check (system instructions ∷ user prompt ∷ []) remaining

  validated-checked :
      (read : String → Outcome String A) (check : A → Option String) (content : String) (a : A)
      → validated read check content ≡ ok a
      → check a ≡ none
  validated-checked read check content a h =
      let (b, e, f) = >>=-eq-ok (read content) (λ b. or_problem b (check b)) h in
      passed b (check b) refl f
    where
      passed : (b : A) (c : Option String) → check b ≡ c → or_problem b c ≡ ok a → check a ≡ none
      passed b none e f = subst (λ x. check x ≡ none) (ok_injective String f) e
      passed b (some problem) e f = cc

  -- One attempt: its reply has passed the check, if the repair's has.
  after_reply-checked :
      (read : String → Outcome String A) (check : A → Option String) (content : String)
      (remaining : ℕ) (repair : String → Outcome RouterFailure A × ℕ) (a : A)
      → ((problem : String) → (repair problem).0 ≡ ok a → check a ≡ none)
      → (after_reply (validated read check content) remaining repair).0 ≡ ok a
      → check a ≡ none
  after_reply-checked read check content remaining repair a ih h =
      by_reply (validated read check content) refl h
    where
      by_reply :
          (r : Outcome String A)
          → validated read check content ≡ r
          → (after_reply r remaining repair).0 ≡ ok a
          → check a ≡ none
      by_reply (ok b) e h =
          validated-checked read check content a (e ∙ ap ok (ok_injective RouterFailure h))
      by_reply (err problem) e h = ih problem h

  after_completion-checked :
      (check : A → Option String) (r : Outcome RouterFailure Completion) (remaining : ℕ)
      (next : Completion → Outcome RouterFailure A × ℕ) (a : A)
      → ((c : Completion) → (next c).0 ≡ ok a → check a ≡ none)
      → (after_completion r remaining next).0 ≡ ok a
      → check a ≡ none
  after_completion-checked check (err e) remaining next a ih h = cc
  after_completion-checked check (ok c) remaining next a ih h = ih c h

  attempt_reply-checked :
      (left : ℕ) (send : Send) (read : String → Outcome String A) (check : A → Option String)
      (messages : List Message) (remaining : ℕ) (a : A)
      → (attempt_reply left send read check messages remaining).0 ≡ ok a
      → check a ≡ none
  unfolding attempt_reply
  attempt_reply-checked zero send read check messages remaining a h = cc
  attempt_reply-checked (suc left) send read check messages zero a h = cc
  attempt_reply-checked (suc left) send read check messages (suc remaining) a h =
      after_completion-checked check (complete send messages) remaining _ a
        (λ c. after_reply-checked read check c.content remaining _ a (λ problem.
          attempt_reply-checked left send read check (repaired messages c.content problem) remaining
            a))
        h

  -- A reply that `structured` returns has passed the check.
  pub structured-checked :
      (send : Send) (read : String → Outcome String A) (check : A → Option String)
      (instructions prompt : String) (remaining : ℕ) (a : A)
      → (structured send read check instructions prompt remaining).0 ≡ ok a
      → check a ≡ none
  unfolding structured
  structured-checked send read check instructions prompt remaining a h =
      attempt_reply-checked 2 send read check _ remaining a h
