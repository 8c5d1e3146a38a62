-- ===== src/Budget/Hold.antt =====
-- A new hold enters the account of its period and the reservations together.
use agentic_works.Base.{ℕ, ◌+◌, ◌≤◌, ◌<◌, String, ◌≡◌, refl, some, arith, eq_iff, [], ◌∷◌}
use agentic_works.Base.Table.{
  total-first, first, count, total, weight, first_sound, first_of_count, total-append,
  total-update_same, total-update_one,
}
use agentic_works.Host.{Host}
use agentic_works.Ledger.{Account, Reservation, Ledger, is_account, is_row}
use agentic_works.Budget.Admit.{open_account, has_room, hold}
use agentic_works.Budget.Outcomes.{with_hold, new_row}
use agentic_works.Budget.Balance.{
  IsBalanced, in_period, held_in, charged_in, charge, account_sum, held_micro, charged_micro,
}
use agentic_works.Budget.Keep.{open_account-sum, open_account-count, open_account-grows}

module _ (h : Host) (tenant key full : String) (estimate limit : ℕ) (db : Ledger)
    (b : IsBalanced db)
    (fits : count
        (has_room tenant h.period estimate limit)
        (open_account tenant h.period db.accounts)
      ≡ 1)
    (fresh : count (is_row tenant h.fresh) db.reservations ≡ 0) where
  abbrev pub grown : Ledger
  grown = with_hold h tenant key full estimate limit db

  pub grown_rows :
      (w : Reservation → ℕ)
      → total w grown.reservations
        ≡ total w db.reservations + w (new_row h tenant key full estimate)
  grown_rows w =
      omega (arith, total-append w db.reservations (new_row h tenant key full estimate ∷ []))

  -- the account with room, which is the period's
  pub room :
      (a : Account) × (first
          (has_room tenant h.period estimate limit)
          (open_account tenant h.period db.accounts)
        ≡ some a)
      × (a.tenant ≡ tenant)
      × (a.period ≡ h.period)
  room =
      let q = has_room tenant h.period estimate limit in
      let xs = open_account tenant h.period db.accounts in
      let (a, e) = first_of_count q xs (omega arith) in
      let s = first_sound q xs e in
      (a, e, ground (arith, eq_iff a.tenant tenant), ground (arith, eq_iff a.period h.period))

  pub grown_accounts :
      (w : Account → ℕ)
      → total w grown.accounts + w room.0
        ≡ total w (open_account tenant h.period db.accounts) + w (hold estimate room.0)
  grown_accounts w =
      total-update_one (has_room tenant h.period estimate limit) (hold estimate) w
        (open_account tenant h.period db.accounts) room.1 (omega arith)

  reserved_grown :
      (t p : String) → account_sum (λ a. a.reserved_micro) t p grown ≡ held_micro t p grown
  reserved_grown t p = ground (
    arith,
    room.2,
    room.3,
    grown_accounts (weight (is_account t p) (λ (x : Account). x.reserved_micro)),
    open_account-sum tenant h.period db.accounts (λ (x : Account). x.reserved_micro) t p refl,
    grown_rows (weight (held_in t p) (λ (r : Reservation). r.amount_micro)),
    b.reserved_sum t p,
  )

  spent_grown :
      (t p : String) → account_sum (λ a. a.spent_micro) t p grown ≡ charged_micro t p grown
  spent_grown t p = ground (
    arith,
    room.2,
    room.3,
    grown_accounts (weight (is_account t p) (λ (x : Account). x.spent_micro)),
    open_account-sum tenant h.period db.accounts (λ (x : Account). x.spent_micro) t p refl,
    grown_rows (weight (charged_in t p) charge),
    b.spent_sum t p,
  )

  inflight_grown :
      (t p : String)
      → account_sum (λ a. a.inflight) t p grown ≡ count (held_in t p) grown.reservations
  inflight_grown t p = ground (
    arith,
    room.2,
    room.3,
    grown_accounts (weight (is_account t p) (λ (x : Account). x.inflight)),
    open_account-sum tenant h.period db.accounts (λ (x : Account). x.inflight) t p refl,
    grown_rows (weight (held_in t p) (λ (_ : Reservation). 1)),
    b.inflight_sum t p,
  )

  accounts_count :
      (t p : String)
      → count (is_account t p) grown.accounts
        ≡ count (is_account t p) (open_account tenant h.period db.accounts)
  accounts_count t p =
      total-update_same (has_room tenant h.period estimate limit) (hold estimate)
        (weight (is_account t p) (λ _. 1)) (open_account tenant h.period db.accounts) (λ a m. refl)

  rows_unique_grown : (t i : String) → count (is_row t i) grown.reservations ≤ 1
  rows_unique_grown t i = ground (
    arith,
    grown_rows (weight (is_row t i) (λ (_ : Reservation). 1)),
    b.rows_unique t i,
    eq_iff tenant t,
    eq_iff h.fresh i,
  )

  opened_grown :
      (t p : String)
      → 0 < count (in_period t p) grown.reservations
      → 0 < count (is_account t p) grown.accounts
  opened_grown t p m = ground (
    arith,
    room.2,
    room.3,
    grown_rows (weight (in_period t p) (λ (_ : Reservation). 1)),
    accounts_count t p,
    total-first (has_room tenant h.period estimate limit)
        (weight (is_account t p) (λ (_ : Account). 1)) (open_account tenant h.period db.accounts)
        room.1,
    b.opened t p,
    open_account-grows tenant h.period db.accounts t p,
  )

  pub with_hold-IsBalanced : IsBalanced grown
  with_hold-IsBalanced = record {
    accounts_unique = λ t p.
        rw (accounts_count t p)
          (open_account-count tenant h.period db.accounts t p b.accounts_unique);
    rows_unique = rows_unique_grown;
    opened = opened_grown;
    reserved_sum = reserved_grown;
    spent_sum = spent_grown;
    inflight_sum = inflight_grown;
  }
