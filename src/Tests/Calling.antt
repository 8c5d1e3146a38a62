-- ===== src/Tests/Calling.antt =====
-- Runs of a model call with its retries: the provider's connection breaks each time.
use agentic_works.Base.{
  ℕ, ◌≤◌, ◌+◌, ◌<◌, ok, refl, arith, ◌*◌, ◌≡◌, zero, suc, true, false, String, Result, commit,
}
use agentic_works.Transport.{returned, Answer, raised, broken_connection, with_retries, token_cost}
use agentic_works.Budget.Admit.{configure, reserve, admit}
use agentic_works.Budget.Calls.{dispatch}
use agentic_works.Budget.{expire_slots}
use agentic_works.Ledger.{is_bounded, is_fingerprint, is_currency, uncertain}
use agentic_works.Budget.Requests.{Request, serve, empty}
use agentic_works.Metering.{Meter, metered_attempt}
use agentic_works.Metering.Charge.{metered_attempt-EndsAs, Reads}
use agentic_works.Host.{Host}
use agentic_works.Ledger.{Ledger}
use agentic_works.Transport.Deadline.{with_retries_within}
use agentic_works.Transport.Price.{token_cost_rounds_up}
use agentic_works.Ledger.{max_amount}

-- the clock, and the number of attempts
abbrev Trial : Type 0
Trial = ℕ × ℕ

abbrev broken : ℕ → Trial → Trial × Answer ℕ
broken index z = ((z.0 + 100, z.1 + 1), raised broken_connection)

abbrev time_of : Trial → ℕ
time_of z = z.0

abbrev calls_of : Trial → ℕ
calls_of z = z.1

abbrev wait : ℕ → Trial → Trial
wait n z = (z.0 + n, z.1)

with_retries_within_example :
    (time_of (with_retries broken time_of wait (λ _. 0) 240000 600000 (5, 0)).0 ≤ 5 + 600000)
    × (calls_of (with_retries broken time_of wait (λ _. 0) 240000 600000 (5, 0)).0 ≤ 0 + 3)
with_retries_within_example =
    with_retries_within broken time_of calls_of wait (λ _. 0) 240000 600000 (5, 0)
      (λ i z. omega arith) (λ n z. refl) (λ i z. refl) (λ n z. refl) (omega arith)

one_cost : token_cost 1000 10 150 600 ≡ ok 1
unfolding token_cost
one_cost = refl

token_cost_rounds_up_example :
    (1000 * 150 + 10 * 600 ≤ 1 * 1000000)
    × (1 * 1000000 < 1000 * 150 + 10 * 600 + 1000000)
    × (1 ≤ max_amount)
token_cost_rounds_up_example = token_cost_rounds_up 1000 10 150 600 1 one_cost

abbrev meter : Meter ℕ
meter = record {
  tenant = "acme";
  key = "k1";
  fingerprint = "aaaaaaaaaaaaaaaaaaaaaaaaaaaaaaaaaaaaaaaaaaaaaaaaaaaaaaaaaaaaaaaa";
  estimate = 300;
  currency = "USD";
  cost = λ tokens. token_cost tokens 0 150 600;
}

abbrev call_host : ℕ → ℕ → Host
call_host index call = record {
  now = 20;
  period = "2026-01";
  fresh = "r1";
  authority = λ _ _ _ _. true;
  frozen = λ _. false;
}

-- the first attempt breaks, the second is answered
abbrev second_time : ℕ → Answer ℕ
second_time zero = raised broken_connection
second_time (suc n) = returned 1000

abbrev paid : Ledger
paid =
    serve (λ fingerprint _ _. fingerprint) empty
      (call_host 0 0, Request.configure "acme" "ann" "USD" 1000 2)

abbrev asked : Result (String × Ledger)
asked =
    reserve (λ fingerprint _ _. fingerprint) (call_host 0 0) "acme" "k1" meter.fingerprint 300 "USD"
      paid

abbrev held : Ledger
held = commit paid asked

abbrev sent : Ledger
sent = commit held (dispatch (call_host 0 1) "acme" "r1" held)

reserved_once : asked ≡ ok ("r1", held)
unfolding serve configure reserve admit expire_slots is_bounded is_fingerprint is_currency
reserved_once = refl

dispatched_once : dispatch (call_host 0 1) "acme" "r1" held ≡ ok (tt, sent)
unfolding serve configure reserve admit expire_slots dispatch is_bounded is_fingerprint is_currency
dispatched_once = refl

metered_attempt-EndsAs_example :
    Reads "acme" "r1"
      (metered_attempt (λ fingerprint _ _. fingerprint) meter (call_host 0) second_time 0 paid).0
      (λ r. r.status ≡ uncertain)
metered_attempt-EndsAs_example =
    metered_attempt-EndsAs (λ fingerprint _ _. fingerprint) meter (call_host 0) second_time 0 paid
      held sent "r1" reserved_once dispatched_once
