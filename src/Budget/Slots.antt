-- ===== src/Budget/Slots.antt =====
-- The limit on parallel calls: the calls of a tenant that are reserved, dispatching or uncertain
-- never outnumber the largest `max_inflight` that was configured.
use agentic_works.Base.{
  ◌+◌, ◌≤◌, ℕ, String, ◌≡◌, Bool, true, false, ◌&&◌, ◌||◌, Option, none, some, List, [], ◌∷◌, arith,
  ◌==◌, if◌then◌else◌,
}
use agentic_works.Base.Table.{
  first, count, weight, update_where, total-append, total-update_le, total-update_one,
}
use agentic_works.Ledger.{Reservation, Ledger, Setting, is_reserved, is_setting, is_sent}
use agentic_works.Host.{Host}
use agentic_works.Budget.{
  expire_slots, settle_row, is_stale, slots, Status, retire, is_row, has_slot,
}
use agentic_works.Budget.Outcomes.{with_hold, new_row}
use agentic_works.Budget.Calls.{mark}

-- a call that may be in flight, whatever its age
abbrev pub is_active : String → Reservation → Bool
is_active tenant r = r.tenant == tenant && (is_reserved r.status || is_sent r.status)

abbrev pub active : String → Ledger → ℕ
active tenant db = count (is_active tenant) db.reservations

abbrev pub limit_of : Option Setting → ℕ
limit_of none = 0
limit_of (some s) = s.max_inflight

-- Under the bound `m`: the tenant's limit, and its calls.
pub record IsCapped (tenant : String) (m : ℕ) (db : Ledger) : Type 0 where
  pub limit : limit_of (first (is_setting tenant) db.settings) ≤ m
  pub calls : active tenant db ≤ m

-- After the sweep a call that may be in flight has a slot.
slots_after_sweep :
    (h : Host) (tenant : String) (rows : List Reservation)
    → count (is_active tenant) (update_where (is_stale h.now tenant) (retire h.now) rows)
      ≤ count (has_slot h.now tenant) (update_where (is_stale h.now tenant) (retire h.now) rows)
slots_after_sweep h tenant [] = omega arith
slots_after_sweep h tenant (r ∷ rows) = ground (arith, slots_after_sweep h tenant rows)

pub active-le-slots :
    (h : Host) (tenant : String) (db : Ledger)
    → active tenant (expire_slots h tenant db) ≤ slots h tenant (expire_slots h tenant db)
unfolding expire_slots
active-le-slots h tenant db = slots_after_sweep h tenant db.reservations

pub sweep_active :
    (h : Host) (t tenant : String) (db : Ledger)
    → active tenant (expire_slots h t db) ≤ active tenant db
unfolding expire_slots
sweep_active h t tenant db =
    total-update_le (is_stale h.now t) (retire h.now) (weight (is_active tenant) (λ _. 1))
      db.reservations (λ r e. ground arith)

-- Settling or marking a row that may be in flight makes no new call.
pub active-mark :
    (h : Host) (t id tenant : String) (status : Status) (db : Ledger) {row : Reservation}
    → first (is_row t id) db.reservations ≡ some row
    → (is_reserved row.status || is_sent row.status) ≡ true
    → count (is_row t id) db.reservations ≤ 1
    → active tenant (mark h t id status db) ≤ active tenant db
active-mark h t id tenant status db {row} f a u = ground (
  arith,
  total-update_one (is_row t id)
      (λ (r : Reservation). record r { status = status; updated = h.now })
      (weight (is_active tenant) (λ (_ : Reservation). 1)) db.reservations f u,
)

pub settle_active :
    (h : Host) (t tenant : String) (row : Reservation) (actual : ℕ) (status : Status)
    (action actor reason : String) (db : Ledger)
    → (is_reserved status || is_sent status) ≡ false
    → active tenant (settle_row h t row actual status action actor reason db) ≤ active tenant db
unfolding settle_row
settle_active h t tenant row actual status action actor reason db c =
    total-update_le (is_row t row.id)
      (λ r. record r { status = status; actual_micro = some actual; updated = h.now })
      (weight (is_active tenant) (λ _. 1)) db.reservations (λ r e. ground arith)

pub hold_active :
    (h : Host) (t key full tenant : String) (estimate limit : ℕ) (db : Ledger)
    → active tenant (with_hold h t key full estimate limit db)
      ≡ active tenant db + (if t == tenant then 1 else 0)
hold_active h t key full tenant estimate limit db = ground (
  arith,
  total-append (weight (is_active tenant) (λ (_ : Reservation). 1)) db.reservations
      (new_row h t key full estimate ∷ []),
)
