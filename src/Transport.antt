-- ===== src/Transport.antt =====
-- The retries of a model call (`classify`, `retry_wait` and `with_retries` of
-- api-python/platform_runtime/model_transport.py) and the price of a receipt (`token_cost` of
-- api-python/platform_runtime/usage_budget.py).
--
-- A time is a number of ticks, 4000 to the second, so that a wait with `jitter() = j / 1000` is
-- exact.
pub mod Deadline
pub mod Price
use agentic_works.Base.{
  ℕ, Bool, Option, ok, Result, zero, suc, ◌+◌, ◌-◌, ◌*◌, ◌/◌, ◌^◌, true, ◌&&◌, ◌||◌, none, some,
  if◌then◌else◌, ◌>>◌, require, eqb, min, ltb, leb, max, value_error, ◌⊎◌, inl, inr,
}
use agentic_works.Ledger.{amount}

-- NOT_SENT, REJECTED and UNKNOWN
pub data Outcome : Type 0 where
  not_sent unknown : Outcome
  rejected : (status : ℕ) → Outcome

-- `ModelRequestFailed`; only a rejection has a status
pub record Failure : Type 0 where
  pub outcome : Outcome
  pub retry_after : Option ℕ

-- What a transport raises: `ModelRequestFailed`, `LocalRequestRejected`, `HTTPError` with the wait
-- that its header asks for, another `URLError`, a timeout or a broken connection, anything else.
pub data Exception : Type 0 where
  request_failed : Failure → Exception
  local_rejected : (code : ℕ) → Exception
  http_error : (code : ℕ) (retry_after : Option ℕ) → Exception
  url_error broken_connection unclassified : Exception

unfoldable pub classify : Exception → Option Failure
classify (request_failed f) = some f
classify (local_rejected code) = some (record { outcome = rejected code; retry_after = none })
classify (http_error code after) = some (record { outcome = rejected code; retry_after = after })
classify url_error = some (record { outcome = not_sent; retry_after = none })
classify broken_connection = some (record { outcome = unknown; retry_after = none })
classify unclassified = none

abbrev pub max_model_attempts : ℕ
max_model_attempts = 3

abbrev pub ticks : ℕ
ticks = 4000

abbrev pub max_retry_wait : ℕ
max_retry_wait = 8 * ticks

-- RETRYABLE_CLIENT_STATUSES and the server's statuses
abbrev pub is_retryable : Outcome → Bool
is_retryable (rejected status) =
    eqb status 408 || eqb status 409 || eqb status 429 || (leb 500 status && leb status 599)
is_retryable _ = true

-- `min(8, 1 * 2 ** attempt) * (1 - 0.25 * jitter())`, with `jitter()` in thousandths
abbrev pub backoff : ℕ → ℕ → ℕ
backoff attempt jitter = min 8 (2 ^ attempt) * (ticks - jitter)

abbrev pub asked_wait : ℕ → Option ℕ → Option ℕ
asked_wait wait none = some wait
asked_wait wait (some after) = if ltb max_retry_wait after then none else some (max wait after)

unfoldable pub retry_wait : Failure → ℕ → ℕ → Option ℕ
retry_wait failure attempt jitter =
    if is_retryable failure.outcome
    then asked_wait (backoff attempt jitter) failure.retry_after
    else none

-- What a call of a transport, or a call with its retries, ends in.
pub data Answer (A : Type 0) : Type 0 where
  returned : A → Answer A
  raised : Exception → Answer A

-- the end of the call, or the next attempt after a wait
abbrev pub proceed : {S A : Type 0} → Answer A ⊎ ℕ → S → (ℕ → S × Answer A) → S × Answer A
proceed (inl end) s again = (s, end)
proceed (inr wait) s again = again wait

-- The loop of `with_retries`, over a state that the attempts change: `left` attempts are left.
module _ {S A : Type 0} (attempt : ℕ → S → S × Answer A) (clock : S → ℕ) (sleep : ℕ → S → S)
    (jitter : ℕ → ℕ) (timeout deadline started : ℕ) where
  abbrev pub wait_for : ℕ → Failure → Option ℕ
  wait_for index failure =
      if leb max_model_attempts (index + 1) then none else retry_wait failure index (jitter index)

  abbrev pub may_wait : S → Option ℕ → Option ℕ
  may_wait s none = none
  may_wait s (some wait) =
      if ltb (deadline + started) (clock s + wait + timeout) then none else some wait

  -- the wait after an exception, or what is raised
  abbrev pub after_failure : ℕ → S → Option Failure → Exception → Exception ⊎ ℕ
  after_failure index s none e = inl e
  after_failure index s (some failure) e = elim (may_wait s (wait_for index failure)) [
    | none ↦ inl (request_failed failure)
    | some wait ↦ inr wait
  ]

  abbrev pub after_answer : ℕ → S → Answer A → Answer A ⊎ ℕ
  after_answer index s (returned a) = inl (returned a)
  after_answer index s (raised e) = elim (after_failure index s (classify e) e) [
    | inl e' ↦ inl (raised e')
    | inr wait ↦ inr wait
  ]

  -- no attempt is left: the last one returned or raised before this
  unfoldable pub retry_loop : ℕ → ℕ → S → S × Answer A
  retry_loop zero index s = (s, raised unclassified)
  retry_loop (suc left) index s =
      let (s', answer) = attempt index s in
      proceed (after_answer index s' answer) s'
        (λ wait. retry_loop left (index + 1) (sleep wait s'))

-- `with_retries`: the first attempt has index 0
unfoldable pub with_retries :
    {S A : Type 0}
    → (ℕ → S → S × Answer A)
    → (S → ℕ)
    → (ℕ → S → S)
    → (ℕ → ℕ)
    → ℕ
    → ℕ
    → S
    → S × Answer A
with_retries attempt clock sleep jitter timeout deadline s =
    retry_loop attempt clock sleep jitter timeout deadline (clock s) max_model_attempts 0 s

-- `token_cost`: the rates are millionths of the currency for a million tokens
unfoldable pub token_cost : ℕ → ℕ → ℕ → ℕ → Result ℕ
token_cost input_tokens output_tokens input_rate output_rate = do
  require (leb input_tokens (10 ^ 8)) value_error
  require (leb output_tokens (10 ^ 8)) value_error
  amount input_rate true
  amount output_rate true
  let cost = (input_tokens * input_rate + output_tokens * output_rate + 999999) / 1000000
  amount cost true
  ok cost
