-- ===== src/Budget.antt =====
-- `class UsageBudget` of api-python/platform_runtime/usage_budget.py. Each method is one
-- transaction: it returns the new tables, or the exception that rolls them back. Here is what the
-- methods share; they stand in `Admit` and `Calls`.
pub mod Admit
pub mod Outcomes
pub mod Balance
pub mod Settle
pub mod Keep
pub mod Hold
pub mod Requests
pub mod Invariant
pub mod Slots
pub mod Parallel
pub mod Cap
pub mod History
pub mod Final
pub mod Replay
pub mod Calls
use agentic_works.Base.{ℕ, ◌+◌, ◌-◌, String, some, [], ◌∷◌, ◌++◌, map, ltb}
use agentic_works.Base.Table.{update_where, select, count}
use agentic_works.Host.{Host}
use agentic_works.Ledger.{
  Status, unreconciled, Reservation, Note, slot_expired, charged, AuditRow, Ledger,
  uncertain_slot_seconds, has_slot, is_stale, is_account, is_row,
}

abbrev pub note_row : String → String → String → Note → AuditRow
note_row tenant action actor note = record {
  tenant = tenant;
  action = action;
  actor = actor;
  note = note;
}

abbrev pub log : Ledger → String → String → String → Note → Ledger
log db tenant action actor note = record db {
  audit = db.audit ++ note_row tenant action actor note ∷ [];
}

-- `_slots`
abbrev pub slots : Host → String → Ledger → ℕ
slots h tenant db = count (has_slot h.now tenant) db.reservations

abbrev pub retire : ℕ → Reservation → Reservation
retire now r = record r { status = unreconciled; updated = now }

abbrev pub expired_note : String → Reservation → AuditRow
expired_note tenant r =
    note_row tenant "budget.uncertain_slot_expired" "budget"
      (slot_expired r.id uncertain_slot_seconds)

-- `_expire_slots`; the rows are updated together, since the updates touch different rows
unfoldable pub expire_slots : Host → String → Ledger → Ledger
expire_slots h tenant db = record db {
  reservations = update_where (is_stale h.now tenant) (retire h.now) db.reservations;
  audit = db.audit ++ map (expired_note tenant) (select (is_stale h.now tenant) db.reservations);
}

-- `_settle`: the hold leaves the account and the charge enters it
unfoldable pub settle_row :
    Host → String → Reservation → ℕ → Status → String → String → String → Ledger → Ledger
settle_row h tenant row actual status action actor reason db =
    log
      (record db {
        accounts =
            update_where (is_account tenant row.period)
              (λ a. record a {
                reserved_micro = a.reserved_micro - row.amount_micro;
                spent_micro = a.spent_micro + actual;
                inflight = a.inflight - 1;
              })
              db.accounts;
        reservations =
            update_where (is_row tenant row.id)
              (λ r. record r { status = status; actual_micro = some actual; updated = h.now })
              db.reservations;
      })
      tenant action actor (charged row.id actual (ltb row.amount_micro actual) reason)
