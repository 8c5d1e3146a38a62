-- ===== src/Budget/Settle.antt =====
-- Settlement and status changes keep the accounts equal to the sums of the reservations.
use agentic_works.Base.{ℕ, ◌+◌, ◌-◌, String, ◌≡◌, refl, sym, subst, Bool, true, false, some, arith}
use agentic_works.Base.Table.{
  first, count, total, weight, update_where, first_sound, total-update_same, total-update_one,
}
use agentic_works.Host.{Host}
use agentic_works.Ledger.{Status, Account, Reservation, Ledger, is_held, is_account, is_row}
use agentic_works.Budget.{settle_row}
use agentic_works.Budget.Balance.{
  IsBalanced, in_period, held_in, charged_in, charge, account_sum, held_micro, charged_micro,
  is_row_sound, is_account_sound, row_change, account_of_row, hold_le_account,
}

-- The account's sums after the settlement of a row, at every tenant and period.
module _ (h : Host) (tenant id : String) (actual : ℕ) (status : Status)
    (action actor reason : String) {row : Reservation} (db : Ledger) (b : IsBalanced db)
    (e : first (is_row tenant id) db.reservations ≡ some row) (live : is_held row.status ≡ true)
    (closed : is_held status ≡ false) where
  abbrev pub after : Ledger
  after = settle_row h tenant row actual status action actor reason db

  found : (row.tenant ≡ tenant) × (row.id ≡ id)
  found = is_row_sound tenant id row (first_sound (is_row tenant id) db.reservations e)

  row_sum :
      (w : Reservation → ℕ)
      → total w after.reservations + w row
        ≡ total w db.reservations
          + w (record row { status = status; actual_micro = some actual; updated = h.now })
  unfolding settle_row
  row_sum w =
      let change : Reservation → Reservation =
        λ r. record r { status = status; actual_micro = some actual; updated = h.now } in
      subst
        (λ i.
          total w (update_where (is_row tenant i) change db.reservations) + w row
          ≡ total w db.reservations + w (change row))
        (sym found.1) (row_change tenant id change db w b e)

  account_change :
      (w : Account → ℕ) {a : Account}
      → first (is_account tenant row.period) db.accounts ≡ some a
      → total w after.accounts + w a
        ≡ total w db.accounts
          + w (record a {
            reserved_micro = a.reserved_micro - row.amount_micro;
            spent_micro = a.spent_micro + actual;
            inflight = a.inflight - 1;
          })
  unfolding settle_row
  account_change w ea =
      total-update_one (is_account tenant row.period) _ w db.accounts ea
        (b.accounts_unique tenant row.period)

  reserved_after :
      (t p : String) → account_sum (λ a. a.reserved_micro) t p after ≡ held_micro t p after
  reserved_after t p =
      let (a, ea) = account_of_row tenant id db b e in
      ground (
        arith,
        found,
        is_account_sound tenant row.period a
            (first_sound (is_account tenant row.period) db.accounts ea),
        hold_le_account tenant id db b e live ea,
        account_change (weight (is_account t p) (λ (x : Account). x.reserved_micro)) ea,
        row_sum (weight (held_in t p) (λ (r : Reservation). r.amount_micro)),
        b.reserved_sum t p,
      )

  spent_after :
      (t p : String) → account_sum (λ a. a.spent_micro) t p after ≡ charged_micro t p after
  spent_after t p =
      let (a, ea) = account_of_row tenant id db b e in
      ground (
        arith,
        found,
        is_account_sound tenant row.period a
            (first_sound (is_account tenant row.period) db.accounts ea),
        account_change (weight (is_account t p) (λ (x : Account). x.spent_micro)) ea,
        row_sum (weight (charged_in t p) charge),
        b.spent_sum t p,
      )

  inflight_after :
      (t p : String)
      → account_sum (λ a. a.inflight) t p after ≡ count (held_in t p) after.reservations
  inflight_after t p =
      let (a, ea) = account_of_row tenant id db b e in
      ground (
        arith,
        found,
        is_account_sound tenant row.period a
            (first_sound (is_account tenant row.period) db.accounts ea),
        hold_le_account tenant id db b e live ea,
        account_change (weight (is_account t p) (λ (x : Account). x.inflight)) ea,
        row_sum (weight (held_in t p) (λ (_ : Reservation). 1)),
        b.inflight_sum t p,
      )

  accounts_count :
      (t p : String) → count (is_account t p) after.accounts ≡ count (is_account t p) db.accounts
  unfolding settle_row
  accounts_count t p =
      total-update_same (is_account tenant row.period) _ (weight (is_account t p) (λ _. 1))
        db.accounts (λ a m. refl)

  rows_count :
      (q : Reservation → Bool)
      → ((r : Reservation)
          → q (record r { status = status; actual_micro = some actual; updated = h.now }) ≡ q r)
      → count q after.reservations ≡ count q db.reservations
  unfolding settle_row
  rows_count q same =
      total-update_same (is_row tenant row.id) _ (weight q (λ _. 1)) db.reservations
        (λ r m. rw (same r))

  pub settle_row-IsBalanced : IsBalanced after
  settle_row-IsBalanced = record {
    accounts_unique = λ t p. rw (accounts_count t p) (b.accounts_unique t p);
    rows_unique = λ t i. rw (rows_count (is_row t i) (λ r. refl)) (b.rows_unique t i);
    opened = λ t p m.
        rw (accounts_count t p) (b.opened t p (rw (rows_count (in_period t p) (λ r. refl)) at m));
    reserved_sum = reserved_after;
    spent_sum = spent_after;
    inflight_sum = inflight_after;
  }
