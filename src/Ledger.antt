-- ===== src/Ledger.antt =====
-- The rows of the budget tables (`SCHEMA` of api-python/platform_runtime/usage_budget.py), the
-- conditions of its queries, and its checks of arguments.
use agentic_works.Base.{
  ℕ, ◌+◌, ◌^◌, String, Bool, true, false, not, ◌&&◌, ◌||◌, Option, List, Check, value_error,
  require, leb, ltb, eqb, length, any, all, ◌==◌, if◌then◌else◌,
}
use agentic_works.Base.Text.{codes, is_control, is_stripped, has_text}

-- The column `status` of p_budget_reservations.
pub data Status : Type 0 where
  reserved dispatching uncertain unreconciled cancelled released settled reconciled : Status

pub record Setting : Type 0 where
  pub tenant : String
  pub currency : String
  pub limit_micro : ℕ
  pub max_inflight : ℕ
  pub generation : ℕ

pub record Account : Type 0 where
  pub tenant : String
  pub period : String
  pub spent_micro : ℕ
  pub reserved_micro : ℕ
  pub inflight : ℕ

pub record Reservation : Type 0 where
  pub tenant : String
  pub id : String
  pub request_key : String
  pub fingerprint : String
  pub period : String
  pub amount_micro : ℕ
  pub actual_micro : Option ℕ
  pub status : Status
  pub created : ℕ
  pub updated : ℕ

-- The `data` of the audit rows that this module writes.
pub data Note : Type 0 where
  configured : String → ℕ → ℕ → Note
  slot_expired : String → ℕ → Note
  held : String → ℕ → String → Note
  call : String → Note
  charged : String → ℕ → Bool → String → Note
  evidence : String → String → Note

pub record AuditRow : Type 0 where
  pub tenant : String
  pub action : String
  pub actor : String
  pub note : Note

pub record Ledger : Type 0 where
  pub settings : List Setting
  pub accounts : List Account
  pub reservations : List Reservation
  pub audit : List AuditRow

-- HELD: money still held and awaiting an owner, whether or not it holds a slot.
abbrev pub is_held : Status → Bool
is_held reserved = true
is_held dispatching = true
is_held uncertain = true
is_held unreconciled = true
is_held _ = false

-- `status IN ('dispatching','uncertain')`
abbrev pub is_sent : Status → Bool
is_sent dispatching = true
is_sent uncertain = true
is_sent _ = false

abbrev pub is_reserved : Status → Bool
is_reserved reserved = true
is_reserved _ = false

abbrev pub is_dispatching : Status → Bool
is_dispatching dispatching = true
is_dispatching _ = false

abbrev pub uncertain_slot_seconds : ℕ
uncertain_slot_seconds = 600

-- `updated > clock - UNCERTAIN_SLOT_SECONDS`, with the subtraction moved to the other side
abbrev pub is_young : ℕ → Reservation → Bool
is_young now r = ltb now (r.updated + uncertain_slot_seconds)

-- the condition of `_SLOTS`
abbrev pub has_slot : ℕ → String → Reservation → Bool
has_slot now tenant r =
    r.tenant == tenant && (is_reserved r.status || (is_sent r.status && is_young now r))

-- the rows that `_expire_slots` moves
abbrev pub is_stale : ℕ → String → Reservation → Bool
is_stale now tenant r = r.tenant == tenant && (is_sent r.status && not (is_young now r))

abbrev pub is_setting : String → Setting → Bool
is_setting tenant s = s.tenant == tenant

abbrev pub is_account : String → String → Account → Bool
is_account tenant period a = a.tenant == tenant && a.period == period

abbrev pub is_row : String → String → Reservation → Bool
is_row tenant id r = r.tenant == tenant && r.id == id

abbrev pub has_key : String → String → Reservation → Bool
has_key tenant key r = r.tenant == tenant && r.request_key == key

abbrev pub max_amount : ℕ
max_amount = 10 ^ 15

-- `amount(value, zero=…)`, on an integer that is not negative
abbrev pub amount : ℕ → Bool → Check
amount value zero_ok =
    require (leb (if zero_ok then 0 else 1) value && leb value max_amount) value_error

unfoldable pub is_bounded : String → ℕ → Bool
unfolding is_stripped has_text
is_bounded value maximum =
    has_text (codes value)
    && leb (length (codes value)) maximum
    && is_stripped (codes value)
    && not (any is_control (codes value))

abbrev pub bounded : String → ℕ → Check
bounded value maximum = require (is_bounded value maximum) value_error

-- `re.fullmatch(r'[A-Z]{3}', currency)`
unfoldable pub is_currency : String → Bool
is_currency text = all (λ c. leb b'A' c && leb c b'Z') (codes text) && eqb (length (codes text)) 3

-- `re.fullmatch('[a-f0-9]{64}', fingerprint)`
unfoldable pub is_fingerprint : String → Bool
is_fingerprint text =
    all (λ c. (leb b'a' c && leb c b'f') || (leb b'0' c && leb c b'9')) (codes text)
    && eqb (length (codes text)) 64
