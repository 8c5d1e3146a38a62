-- ===== src/Budget/Admit.antt =====
-- `UsageBudget.configure`, `summary` and `reserve` of
-- api-python/platform_runtime/usage_budget.py.
use agentic_works.Base.{
  ℕ, ◌+◌, ◌-◌, ◌*◌, String, Bool, true, false, ◌&&◌, Option, none, some, List, [], ◌∷◌, ◌++◌,
  Result, ok, value_error, conflict, forbidden, not_found, rate_limited, integrity_error, require,
  some_or, ◌>>=◌, ◌>>◌, leb, ltb, eqb, ◌==◌, if◌then◌else◌,
}
use agentic_works.Base.Table.{first, update_where, count}
use agentic_works.Host.{Host, owners, require_authority, require_active}
use agentic_works.Ledger.{
  reserved, Setting, Account, Reservation, configured, held, Ledger, is_setting, is_account, is_row,
  has_key, amount, bounded, is_currency, is_fingerprint,
}
use agentic_works.Budget.{log, slots, expire_slots}

-- `INSERT … ON CONFLICT(tenant) DO UPDATE`; the currency of an old row stays
abbrev pub put_setting : Setting → List Setting → List Setting
put_setting s [] = s ∷ []
put_setting s (r ∷ rs) =
    if r.tenant == s.tenant
    then record r {
      limit_micro = s.limit_micro;
      max_inflight = s.max_inflight;
      generation = s.generation;
    }
      ∷ rs
    else r ∷ put_setting s rs

abbrev pub same_currency : String → Option Setting → Bool
same_currency currency none = true
same_currency currency (some s) = s.currency == currency

abbrev pub next_generation : Option Setting → ℕ
next_generation none = 1
next_generation (some s) = s.generation + 1

unfoldable pub configure :
    Host → String → String → String → ℕ → ℕ → Ledger → Result (Unit {0} × Ledger)
configure h tenant actor currency limit_micro max_inflight db = do
  bounded tenant 256
  bounded actor 256
  amount limit_micro false
  require (is_currency currency) value_error
  require (leb 1 max_inflight && leb max_inflight 100) value_error
  require_authority h tenant "web" actor owners
  let old = first (is_setting tenant) db.settings
  require (same_currency currency old) conflict
  let generation = next_generation old
  let row : Setting = record {
    tenant = tenant;
    currency = currency;
    limit_micro = limit_micro;
    max_inflight = max_inflight;
    generation = generation;
  }
  ok (
    tt,
    log (record db { settings = put_setting row db.settings }) tenant "budget.configured" actor
        (configured currency limit_micro generation),
  )

pub record Summary : Type 0 where
  pub spent_micro : ℕ
  pub reserved_micro : ℕ
  pub inflight : ℕ
  pub available_micro : ℕ
  pub limit_exceeded : Bool
  pub warning_80_percent : Bool

abbrev spent_of : Option Account → ℕ
spent_of none = 0
spent_of (some a) = a.spent_micro

abbrev reserved_of : Option Account → ℕ
reserved_of none = 0
reserved_of (some a) = a.reserved_micro

-- `max(0, a - b - c)` is the subtraction that stops at 0
unfoldable pub summary : Host → String → Ledger → Result Summary
summary h tenant db = do
  bounded tenant 256
  settings ← some_or (first (is_setting tenant) db.settings) not_found
  let account = first (is_account tenant h.period) db.accounts
  let spent = spent_of account
  let held = reserved_of account
  ok (record {
    spent_micro = spent;
    reserved_micro = held;
    inflight = slots h tenant db;
    available_micro = settings.limit_micro - spent - held;
    limit_exceeded = ltb settings.limit_micro (spent + held);
    warning_80_percent = leb (settings.limit_micro * 4) ((spent + held) * 5);
  })

-- `INSERT OR IGNORE INTO p_budget_accounts(tenant,period)`
abbrev pub open_account : String → String → List Account → List Account
open_account tenant period accounts = elim (first (is_account tenant period) accounts) [
  | some a ↦ accounts
  | none ↦
      accounts
      ++ record {
        tenant = tenant;
        period = period;
        spent_micro = 0;
        reserved_micro = 0;
        inflight = 0;
      }
        ∷ []
]

-- the condition of the `UPDATE p_budget_accounts` in `reserve`
abbrev pub has_room : String → String → ℕ → ℕ → Account → Bool
has_room tenant period estimate limit a =
    is_account tenant period a && leb (a.spent_micro + a.reserved_micro + estimate) limit

abbrev pub hold : ℕ → Account → Account
hold estimate a = record a {
  reserved_micro = a.reserved_micro + estimate;
  inflight = a.inflight + 1;
}

-- `INSERT INTO p_budget_reservations`, with the table's two unique keys
unfoldable pub insert_reservation : Reservation → Ledger → Result Ledger
insert_reservation r db = do
  require (eqb (count (is_row r.tenant r.id) db.reservations) 0) integrity_error
  require (eqb (count (has_key r.tenant r.request_key) db.reservations) 0) integrity_error
  ok (record db { reservations = db.reservations ++ r ∷ [] })

-- `reserve` behind its idempotency check
unfoldable pub admit :
    Host → String → String → String → ℕ → Setting → Ledger → Result (String × Ledger)
unfolding insert_reservation
admit h tenant key full estimate settings db = do
  let swept = expire_slots h tenant db
  require (ltb (slots h tenant swept) settings.max_inflight) rate_limited
  let opened = open_account tenant h.period swept.accounts
  let fits = has_room tenant h.period estimate settings.limit_micro
  require (eqb (count fits opened) 1) rate_limited
  stored ←
      insert_reservation
        (record {
          tenant = tenant;
          id = h.fresh;
          request_key = key;
          fingerprint = full;
          period = h.period;
          amount_micro = estimate;
          actual_micro = none;
          status = reserved;
          created = h.now;
          updated = h.now;
        })
        (record swept { accounts = update_where fits (hold estimate) opened })
  ok (h.fresh, log stored tenant "budget.reserved" "budget" (held h.fresh estimate h.period))

-- `digest({'request': …, 'estimate': …, 'currency': …})` of engine.py
abbrev pub Digest : Type 0
Digest = String → ℕ → String → String

unfoldable pub reserve :
    Digest → Host → String → String → String → ℕ → String → Ledger → Result (String × Ledger)
reserve digest h tenant key fingerprint estimate currency db = do
  bounded tenant 256
  bounded key 256
  amount estimate true
  require (is_fingerprint fingerprint) value_error
  require_active h tenant
  settings ← some_or (first (is_setting tenant) db.settings) forbidden
  require (settings.currency == currency) forbidden
  let full = digest fingerprint estimate currency
  elim (first (has_key tenant key) db.reservations) [
    | some old ↦ (do require (old.fingerprint == full) conflict; ok (old.id, db))
    | none ↦ admit h tenant key full estimate settings db
  ]
