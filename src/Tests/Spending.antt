-- ===== src/Tests/Spending.antt =====
-- Runs of `UsageBudget`: one tenant configures a budget, reserves, dispatches and settles.
use agentic_works.Base.{
  ℕ, String, true, false, List, [], ◌∷◌, refl, arith, ◌≡◌, none, ◌+◌, ◌≤◌, some, ok, err, conflict,
  ap, ◌==◌, ◌≢◌, sym,
}
use agentic_works.Host.{Host}
use agentic_works.Ledger.{
  Ledger, Reservation, reserved, is_bounded, Setting, is_fingerprint, is_row, is_currency,
  is_setting, has_key,
}
use agentic_works.Budget.Admit
use agentic_works.Budget.{expire_slots}
use agentic_works.Budget.Admit.{Digest}
use agentic_works.Base.Text.{has_text, is_stripped}
use agentic_works.Budget.Cap.{run-IsCapped, reserve_within_limits}
use agentic_works.Budget.Slots.{active}
use agentic_works.Budget.Requests.{Request, serve, run, empty}
use agentic_works.Budget.Balance.{IsBalanced, charged_micro, held_micro}
use agentic_works.Budget.Invariant.{run-IsBalanced, serve-IsBalanced}
use agentic_works.Base.Table.{first}
use agentic_works.Budget.Replay.{reserve_again}
use agentic_works.Budget.History.{Later}
use agentic_works.Budget.Final.{reservation_is_final}

abbrev host : ℕ → String → Host
host now fresh = record {
  now = now;
  period = "2026-01";
  fresh = fresh;
  authority = λ _ _ _ _. true;
  frozen = λ _. false;
}

abbrev plain_digest : Digest
plain_digest fingerprint estimate currency = fingerprint

abbrev first_print : String
first_print = "aaaaaaaaaaaaaaaaaaaaaaaaaaaaaaaaaaaaaaaaaaaaaaaaaaaaaaaaaaaaaaaa"

abbrev other_print : String
other_print = "baaaaaaaaaaaaaaaaaaaaaaaaaaaaaaaaaaaaaaaaaaaaaaaaaaaaaaaaaaaaaaa"

abbrev set_up : List (Host × Request)
set_up =
    (host 10 "", Request.configure "acme" "ann" "USD" 1000 2)
    ∷ (host 20 "r1", Request.reserve "acme" "k1" first_print 300 "USD")
    ∷ []

abbrev spend : List (Host × Request)
spend =
    (host 30 "", Request.dispatch "acme" "r1")
    ∷ (host 40 "", Request.settle "acme" "r1" 250)
    ∷ (host 50 "r2", Request.reserve "acme" "k2" other_print 700 "USD")
    ∷ []

abbrev started : Ledger
started = run plain_digest empty set_up

empty-IsBalanced : IsBalanced empty
empty-IsBalanced = record {
  accounts_unique = λ t p. omega arith;
  rows_unique = λ t i. omega arith;
  opened = λ t p h. absurd (omega arith);
  reserved_sum = λ t p. refl;
  spent_sum = λ t p. refl;
  inflight_sum = λ t p. refl;
}

run-IsBalanced_example : IsBalanced (run plain_digest empty set_up)
run-IsBalanced_example = run-IsBalanced plain_digest set_up empty empty-IsBalanced

abbrev started_row : Reservation
started_row = record {
  tenant = "acme";
  id = "r1";
  request_key = "k1";
  fingerprint = first_print;
  period = "2026-01";
  amount_micro = 300;
  actual_micro = none;
  status = reserved;
  created = 20;
  updated = 20;
}

started_rows : started.reservations ≡ started_row ∷ []
unfolding run serve Admit.configure Admit.reserve Admit.admit Admit.insert_reservation is_bounded
    is_fingerprint is_currency expire_slots has_text is_stripped
started_rows = refl

run-IsCapped_example : active "acme" (run plain_digest empty set_up) ≤ 2
run-IsCapped_example =
    run-IsCapped plain_digest "acme" 2 set_up empty empty-IsBalanced (omega arith, (tt, tt))
      (record { limit = omega arith; calls = omega arith })

reservation_is_final_example :
    (later : Reservation) × (first
        (is_row "acme" "r1")
        (run plain_digest started spend).reservations
      ≡ some later)
    × Later started_row later
reservation_is_final_example =
    reservation_is_final plain_digest "acme" "r1" spend started started_row run-IsBalanced_example
      (ap (first (is_row "acme" "r1")) started_rows)

abbrev configured_db : Ledger
configured_db = serve plain_digest empty (host 10 "", Request.configure "acme" "ann" "USD" 1000 2)

configured_rows : configured_db.reservations ≡ []
unfolding serve Admit.configure is_bounded is_currency has_text is_stripped
configured_rows = refl

abbrev usd : Setting
usd = record {
  tenant = "acme";
  currency = "USD";
  limit_micro = 1000;
  max_inflight = 2;
  generation = 1;
}

configured_settings : first (is_setting "acme") started.settings ≡ some usd
unfolding run serve Admit.configure Admit.reserve Admit.admit Admit.insert_reservation is_bounded
    is_fingerprint is_currency expire_slots has_text is_stripped
configured_settings = refl

first_reserve :
    Admit.reserve plain_digest (host 20 "r1") "acme" "k1" first_print 300 "USD" configured_db
    ≡ ok ("r1", started)
unfolding run serve Admit.configure Admit.reserve Admit.admit Admit.insert_reservation is_bounded
    is_fingerprint is_currency expire_slots has_text is_stripped
first_reserve = refl

reserve_within_limits_example :
    (s : Setting) × (first (is_setting "acme") configured_db.settings ≡ some s)
    × (charged_micro "acme" "2026-01" started + held_micro "acme" "2026-01" started ≤ s.limit_micro)
    × (held_micro "acme" "2026-01" started ≡ held_micro "acme" "2026-01" configured_db + 300)
    × (active "acme" started ≤ s.max_inflight)
reserve_within_limits_example =
    reserve_within_limits plain_digest (host 20 "r1") "acme" "k1" first_print 300 "USD" "r1"
      configured_db started
      (serve-IsBalanced plain_digest empty (host 10 "", Request.configure "acme" "ann" "USD" 1000 2)
        empty-IsBalanced)
      (ap (first (has_key "acme" "k1")) configured_rows) first_reserve

names_ok : (is_bounded "acme" 256 ≡ true) × (is_bounded "k1" 256 ≡ true)
unfolding is_bounded has_text is_stripped
names_ok = (refl, refl)

prints_ok : (is_fingerprint first_print ≡ true) × (is_fingerprint other_print ≡ true)
unfolding is_fingerprint
prints_ok = (refl, refl)

other_differs : other_print ≢ first_print
other_differs e = let same : true ≡ false = ap (λ p. p == first_print) (sym e) in absurd (cc)

reserve_again_example :
    (Admit.reserve plain_digest
        (host 90 "r9")
        "acme"
        "k1"
        first_print
        300
        "USD"
        (run plain_digest started spend)
      ≡ ok ("r1", run plain_digest started spend))
    × (Admit.reserve plain_digest
          (host 90 "r9")
          "acme"
          "k1"
          other_print
          500
          "USD"
          (run plain_digest started spend)
        ≡ err conflict)
reserve_again_example =
    reserve_again plain_digest (host 90 "r9") "acme" "k1" first_print other_print 300 500 "USD" usd
      spend started started_row run-IsBalanced_example
      (ap (first (has_key "acme" "k1")) started_rows) refl names_ok.0 names_ok.1 prints_ok.0
      prints_ok.1 (omega arith) (omega arith) refl configured_settings refl other_differs
