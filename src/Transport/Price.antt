-- ===== src/Transport/Price.antt =====
-- The price of a receipt is rounded up.
use agentic_works.Base.{
  value_error, ok, ℕ, ◌≤◌, ◌+◌, ◌≡◌, arith, ◌*◌, ◌/◌, ◌<◌, ◌^◌, ◌&&◌, require-ok, leb, subst,
  ok_injective,
}
use agentic_works.Transport.{token_cost}
use agentic_works.Ledger.{max_amount}

round_up :
    (due cost : ℕ)
    → (due + 999999) / 1000000 ≡ cost
    → (due ≤ cost * 1000000) × (cost * 1000000 < due + 1000000)
round_up due cost e = (omega (arith, e), omega (arith, e))

token_cost-ok :
    (input_tokens output_tokens input_rate output_rate cost : ℕ)
    → token_cost input_tokens output_tokens input_rate output_rate ≡ ok cost
    → ((input_tokens * input_rate + output_tokens * output_rate + 999999) / 1000000 ≡ cost)
      × (cost ≤ max_amount)
unfolding token_cost
token_cost-ok input_tokens output_tokens input_rate output_rate cost e =
    let n = (input_tokens * input_rate + output_tokens * output_rate + 999999) / 1000000 in
    let (_, e1) = require-ok (leb input_tokens (10 ^ 8)) value_error _ e in
    let (_, e2) = require-ok (leb output_tokens (10 ^ 8)) value_error _ e1 in
    let (_, e3) = require-ok (leb 0 input_rate && leb input_rate max_amount) value_error _ e2 in
    let (_, e4) = require-ok (leb 0 output_rate && leb output_rate max_amount) value_error _ e3 in
    let (fits, e5) = require-ok (leb 0 n && leb n max_amount) value_error _ e4 in
    let same : n ≡ cost = ok_injective e5 in
    (same, subst (λ c. c ≤ max_amount) same (ground (arith, fits)))

-- `token_cost` rounds up, never down: where it returns, the cost in millionths covers the tokens at
-- their rates, exceeds them by less than one unit, and is within the bound of an amount.
pub token_cost_rounds_up :
    (input_tokens output_tokens input_rate output_rate cost : ℕ)
    → token_cost input_tokens output_tokens input_rate output_rate ≡ ok cost
    → (input_tokens * input_rate + output_tokens * output_rate ≤ cost * 1000000)
      × (cost * 1000000 < input_tokens * input_rate + output_tokens * output_rate + 1000000)
      × (cost ≤ max_amount)
unfolding token_cost
token_cost_rounds_up input_tokens output_tokens input_rate output_rate cost e =
    let due = input_tokens * input_rate + output_tokens * output_rate in
    let (same, bound) = token_cost-ok input_tokens output_tokens input_rate output_rate cost e in
    let (low, high) = round_up due cost same in (low, high, bound)
