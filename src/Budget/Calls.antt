-- ===== src/Budget/Calls.antt =====
-- What happens to a reservation after `reserve`: `dispatch`, `uncertain`, `cancel`, `release`,
-- `settle` and `reconcile` of api-python/platform_runtime/usage_budget.py.
use agentic_works.Base.{
  ℕ, ◌+◌, String, Bool, true, false, ◌||◌, Option, none, some, Result, ok, value_error, conflict,
  not_found, rate_limited, type_error, require, some_or, ◌>>=◌, ◌>>◌, leb, eqb, ◌==◌, if◌then◌else◌,
}
use agentic_works.Base.Table.{first, update_where}
use agentic_works.Host.{Host, owners, require_authority, require_active}
use agentic_works.Ledger.{
  Status, dispatching, uncertain, cancelled, released, settled, reconciled, Reservation, call,
  evidence, Ledger, is_held, is_reserved, is_dispatching, is_setting, is_account, is_row, amount,
  bounded,
}
use agentic_works.Budget.{log, slots, expire_slots, settle_row}

-- `_row`
abbrev pub find_row : String → String → Ledger → Result Reservation
find_row tenant id db = some_or (first (is_row tenant id) db.reservations) not_found

abbrev pub mark : Host → String → String → Status → Ledger → Ledger
mark h tenant id status db = record db {
  reservations =
      update_where (is_row tenant id) (λ r. record r { status = status; updated = h.now })
        db.reservations;
}

unfoldable pub dispatch : Host → String → String → Ledger → Result (Unit {0} × Ledger)
dispatch h tenant id db = do
  require_active h tenant
  row ← find_row tenant id db
  require (is_reserved row.status) conflict
  require (row.period == h.period) conflict
  let swept = expire_slots h tenant db
  settings ← some_or (first (is_setting tenant) db.settings) rate_limited
  account ← some_or (first (is_account tenant row.period) db.accounts) type_error
  require (leb (account.spent_micro + account.reserved_micro) settings.limit_micro) rate_limited
  require (leb (slots h tenant swept) settings.max_inflight) rate_limited
  ok (tt, log (mark h tenant id dispatching swept) tenant "budget.dispatched" "budget" (call id))

abbrev pub is_uncertain : Status → Bool
is_uncertain uncertain = true
is_uncertain _ = false

unfoldable pub mark_uncertain : Host → String → String → Ledger → Result (Unit {0} × Ledger)
mark_uncertain h tenant id db = do
  row ← find_row tenant id db
  if is_uncertain row.status then ok (tt, db) else do
    require (is_dispatching row.status) conflict
    ok (tt, log (mark h tenant id uncertain db) tenant "budget.uncertain" "budget" (call id))

abbrev pub is_cancelled : Status → Bool
is_cancelled cancelled = true
is_cancelled _ = false

unfoldable pub cancel : Host → String → String → Ledger → Result (Unit {0} × Ledger)
cancel h tenant id db = do
  row ← find_row tenant id db
  if is_cancelled row.status then ok (tt, db) else do
    require (is_reserved row.status) conflict
    ok (tt, settle_row h tenant row 0 cancelled "budget.cancelled" "budget" "" db)

abbrev pub is_released : Status → Bool
is_released released = true
is_released _ = false

unfoldable pub release : Host → String → String → String → Ledger → Result (Unit {0} × Ledger)
release h tenant id reason db = do
  require (reason == "not_sent" || reason == "rejected") value_error
  row ← find_row tenant id db
  if is_released row.status then ok (tt, db) else do
    require (is_dispatching row.status) conflict
    ok (tt, settle_row h tenant row 0 released "budget.released" "budget" reason db)

abbrev pub is_settled : Status → Bool
is_settled settled = true
is_settled _ = false

-- `row['actual_micro'] != actual_micro`, where the column may be NULL
abbrev pub same_actual : Option ℕ → ℕ → Bool
same_actual none n = false
same_actual (some m) n = eqb m n

unfoldable pub settle : Host → String → String → ℕ → Ledger → Result (Unit {0} × Ledger)
settle h tenant id actual_micro db = do
  amount actual_micro true
  row ← find_row tenant id db
  if is_settled row.status
      then (do require (same_actual row.actual_micro actual_micro) conflict; ok (tt, db))
      else do
        require (is_dispatching row.status) conflict
        ok (tt, settle_row h tenant row actual_micro settled "budget.settled" "budget" "" db)

unfoldable pub reconcile :
    Host → String → String → String → ℕ → String → Ledger → Result (Unit {0} × Ledger)
reconcile h tenant id actor actual_micro text db = do
  bounded actor 256
  bounded text 500
  amount actual_micro true
  require_authority h tenant "web" actor owners
  row ← find_row tenant id db
  require (is_held row.status) conflict
  let charged_db = settle_row h tenant row actual_micro reconciled "budget.reconciled" actor "" db
  ok (tt, log charged_db tenant "budget.reconciliation_evidence" actor (evidence id text))
