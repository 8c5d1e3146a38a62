-- ===== src/Budget/Balance.antt =====
-- The accounts are the sums of the reservations: what is held, what is charged and how many calls
-- are held, for each tenant and each period, through every statement on the tables.
use agentic_works.Base.{
  ℕ, ◌+◌, ◌≤◌, ◌<◌, String, ◌≡◌, refl, eq_refl, Bool, true, false, not, ◌&&◌, none, some, arith,
  ◌==◌, eq_iff,
}
use agentic_works.Base.Table.{
  first-update_other, first, count, total, weight, first_sound, first_of_count, total-first,
  total-update_same, total-update_one, total-weight_one, update_where,
}
use agentic_works.Host.{Host}
use agentic_works.Ledger.{
  Account, Reservation, Ledger, is_held, is_sent, is_account, is_row, is_stale,
}
use agentic_works.Budget.{retire, expire_slots}

abbrev pub in_period : String → String → Reservation → Bool
in_period t p r = r.tenant == t && r.period == p

abbrev pub held_in : String → String → Reservation → Bool
held_in t p r = in_period t p r && is_held r.status

abbrev pub charged_in : String → String → Reservation → Bool
charged_in t p r = in_period t p r && not (is_held r.status)

-- what a closed reservation was charged
abbrev pub charge : Reservation → ℕ
charge r = elim r.actual_micro [ none ↦ 0 | some n ↦ n ]

abbrev pub account_sum : (Account → ℕ) → String → String → Ledger → ℕ
account_sum g t p db = total (weight (is_account t p) g) db.accounts

abbrev pub held_micro : String → String → Ledger → ℕ
held_micro t p db = total (weight (held_in t p) (λ r. r.amount_micro)) db.reservations

abbrev pub charged_micro : String → String → Ledger → ℕ
charged_micro t p db = total (weight (charged_in t p) charge) db.reservations

pub record IsBalanced (db : Ledger) : Type 0 where
  pub accounts_unique : (t p : String) → count (is_account t p) db.accounts ≤ 1
  pub rows_unique : (t i : String) → count (is_row t i) db.reservations ≤ 1
  pub opened :
      (t p : String)
      → 0 < count (in_period t p) db.reservations
      → 0 < count (is_account t p) db.accounts
  pub reserved_sum : (t p : String) → account_sum (λ a. a.reserved_micro) t p db ≡ held_micro t p db
  pub spent_sum : (t p : String) → account_sum (λ a. a.spent_micro) t p db ≡ charged_micro t p db
  pub inflight_sum :
      (t p : String) → account_sum (λ a. a.inflight) t p db ≡ count (held_in t p) db.reservations

pub is_account_sound :
    (t p : String) (a : Account) → is_account t p a ≡ true → (a.tenant ≡ t) × (a.period ≡ p)
is_account_sound t p a h = ground (arith, eq_iff a.tenant t, eq_iff a.period p)

pub is_row_sound :
    (t i : String) (r : Reservation) → is_row t i r ≡ true → (r.tenant ≡ t) × (r.id ≡ i)
is_row_sound t i r h = ground (arith, eq_iff r.tenant t, eq_iff r.id i)

-- A stale row that is retired stays held, in its period and under its id.
module _ (h : Host) (tenant : String) where
  expire_slots-total :
      (w : Reservation → ℕ) (db : Ledger)
      → ((r : Reservation) → is_stale h.now tenant r ≡ true → w (retire h.now r) ≡ w r)
      → total w (expire_slots h tenant db).reservations ≡ total w db.reservations
  unfolding expire_slots
  expire_slots-total w db same =
      total-update_same (is_stale h.now tenant) (retire h.now) w db.reservations same

  stale-is_held : (r : Reservation) → is_stale h.now tenant r ≡ true → is_held r.status ≡ true
  stale-is_held r e = ground arith

  pub expire_slots-held :
      (t p : String) (g : Reservation → ℕ) (db : Ledger)
      → ((r : Reservation) → g (retire h.now r) ≡ g r)
      → total (weight (held_in t p) g) (expire_slots h tenant db).reservations
        ≡ total (weight (held_in t p) g) db.reservations
  expire_slots-held t p g db same =
      expire_slots-total (weight (held_in t p) g) db
        λ r e. ground (arith, same r, stale-is_held r e)

  pub expire_slots-IsBalanced :
      (db : Ledger) → IsBalanced db → IsBalanced (expire_slots h tenant db)
  unfolding expire_slots
  expire_slots-IsBalanced db b = record {
    accounts_unique = b.accounts_unique;
    rows_unique = λ t i.
        rw (expire_slots-total (weight (is_row t i) (λ _. 1)) db (λ r e. refl)) (b.rows_unique t i);
    opened = λ t p.
        rw (expire_slots-total (weight (in_period t p) (λ _. 1)) db (λ r e. refl)) (b.opened t p);
    reserved_sum =
        λ t p. rw (expire_slots-held t p (λ r. r.amount_micro) db (λ r. refl)) (b.reserved_sum t p);
    spent_sum = λ t p.
        rw
          (expire_slots-total (weight (charged_in t p) charge) db
            (λ r e. ground (arith, stale-is_held r e)))
          (b.spent_sum t p);
    inflight_sum = λ t p. rw (expire_slots-held t p (λ _. 1) db (λ r. refl)) (b.inflight_sum t p);
  }

-- A change to the one reservation of an id.
module _ (tenant id : String) (f : Reservation → Reservation) {row : Reservation}
    (db : Ledger) where
  pub row_change :
      (w : Reservation → ℕ)
      → IsBalanced db
      → first (is_row tenant id) db.reservations ≡ some row
      → total w (update_where (is_row tenant id) f db.reservations) + w row
        ≡ total w db.reservations + w (f row)
  row_change w b e =
      total-update_one (is_row tenant id) f w db.reservations e (b.rows_unique tenant id)

-- The account of a reservation that is found.
pub account_of_row :
    (tenant id : String) {row : Reservation} (db : Ledger)
    → IsBalanced db
    → first (is_row tenant id) db.reservations ≡ some row
    → (a : Account) × (first (is_account tenant row.period) db.accounts ≡ some a)
account_of_row tenant id {row} db b e = first_of_count (is_account tenant row.period) db.accounts (
    b.opened tenant row.period (
      ground (
        arith,
        is_row_sound tenant id row,
        first_sound (is_row tenant id) db.reservations e,
        eq_refl row.period,
        eq_refl tenant,
        total-first (is_row tenant id) (weight (in_period tenant row.period) (λ _. 1))
            db.reservations e,
      )))

-- The account holds at least what the reservation holds, so that `reserved_micro - amount_micro`
-- and `inflight - 1` are the differences.
pub hold_le_account :
    (tenant id : String) {row : Reservation} {a : Account} (db : Ledger)
    → IsBalanced db
    → first (is_row tenant id) db.reservations ≡ some row
    → is_held row.status ≡ true
    → first (is_account tenant row.period) db.accounts ≡ some a
    → (row.amount_micro ≤ a.reserved_micro) × (1 ≤ a.inflight)
hold_le_account tenant id {row} {a} db b e live ea =
    let t = is_row_sound tenant id row (first_sound (is_row tenant id) db.reservations e) in
    let one = b.accounts_unique tenant row.period in
    let held = held_in tenant row.period in
    ground (
      arith,
      eq_refl row.period,
      eq_refl tenant,
      total-weight_one (is_account tenant row.period) (λ (x : Account). x.reserved_micro)
          db.accounts ea,
      total-weight_one (is_account tenant row.period) (λ (x : Account). x.inflight) db.accounts ea,
      b.reserved_sum tenant row.period,
      b.inflight_sum tenant row.period,
      total-first (is_row tenant id) (weight held (λ (r : Reservation). r.amount_micro))
          db.reservations e,
      total-first (is_row tenant id) (weight held (λ (_ : Reservation). 1)) db.reservations e,
    )

-- A row that is not sent is found again after the sweep of stale rows.
pub row_after_sweep :
    (h : Host) (tenant id : String) (db : Ledger) {row : Reservation}
    → first (is_row tenant id) db.reservations ≡ some row
    → is_sent row.status ≡ false
    → first (is_row tenant id) (expire_slots h tenant db).reservations ≡ some row
unfolding expire_slots
row_after_sweep h tenant id db {row} f s =
    first-update_other (is_row tenant id) (is_stale h.now tenant) (retire h.now) db.reservations
      (λ x. refl) f (ground arith)

pub same_tables-IsBalanced :
    {a b : Ledger}
    → b.accounts ≡ a.accounts
    → b.reservations ≡ a.reservations
    → IsBalanced a
    → IsBalanced b
same_tables-IsBalanced ea er v = record {
  accounts_unique = λ t p. rw ea (v.accounts_unique t p);
  rows_unique = λ t i. rw er (v.rows_unique t i);
  opened = λ t p. rw (ea, er) (v.opened t p);
  reserved_sum = λ t p. rw (ea, er) (v.reserved_sum t p);
  spent_sum = λ t p. rw (ea, er) (v.spent_sum t p);
  inflight_sum = λ t p. rw (ea, er) (v.inflight_sum t p);
}
