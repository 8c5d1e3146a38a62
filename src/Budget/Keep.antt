-- ===== src/Budget/Keep.antt =====
-- Marks, new holds and audit rows keep the accounts equal to the sums of the reservations.
use agentic_works.Base.{
  ℕ, ◌≤◌, String, ◌≡◌, refl, true, some, arith, eq_iff, List, [], ◌∷◌, inl, inr, Option-cases,
}
use agentic_works.Base.Table.{first, count, total, weight, first-none, total-append}
use agentic_works.Host.{Host}
use agentic_works.Ledger.{Status, Account, Reservation, Ledger, Note, is_held, is_account, is_row}
use agentic_works.Budget.{log}
use agentic_works.Budget.Admit.{open_account}
use agentic_works.Budget.Calls.{mark}
use agentic_works.Budget.Balance.{IsBalanced, in_period, held_in, charged_in, charge, row_change}

pub log-IsBalanced :
    (db : Ledger) (tenant action actor : String) (note : Note)
    → IsBalanced db
    → IsBalanced (log db tenant action actor note)
log-IsBalanced db tenant action actor note b = record {
  accounts_unique = b.accounts_unique;
  rows_unique = b.rows_unique;
  opened = b.opened;
  reserved_sum = b.reserved_sum;
  spent_sum = b.spent_sum;
  inflight_sum = b.inflight_sum;
}

-- A held row that is marked with another held status.
module _ (h : Host) (tenant id : String) (status : Status) {row : Reservation} (db : Ledger)
    (b : IsBalanced db) (e : first (is_row tenant id) db.reservations ≡ some row)
    (live : is_held row.status ≡ true) (still : is_held status ≡ true) where
  abbrev marked : Reservation → Reservation
  marked r = record r { status = status; updated = h.now }

  mark-total :
      (w : Reservation → ℕ)
      → w (marked row) ≡ w row
      → total w (mark h tenant id status db).reservations ≡ total w db.reservations
  mark-total w same = omega (arith, row_change tenant id marked db w b e)

  pub mark-IsBalanced : IsBalanced (mark h tenant id status db)
  mark-IsBalanced = record {
    accounts_unique = b.accounts_unique;
    rows_unique = λ t i. rw (mark-total (weight (is_row t i) (λ _. 1)) refl) (b.rows_unique t i);
    opened = λ t p. rw (mark-total (weight (in_period t p) (λ _. 1)) refl) (b.opened t p);
    reserved_sum = λ t p.
        rw (mark-total (weight (held_in t p) (λ r. r.amount_micro)) (ground arith))
          (b.reserved_sum t p);
    spent_sum =
        λ t p. rw (mark-total (weight (charged_in t p) charge) (ground arith)) (b.spent_sum t p);
    inflight_sum =
        λ t p. rw (mark-total (weight (held_in t p) (λ _. 1)) (ground arith)) (b.inflight_sum t p);
  }

-- Opening an account adds an empty one where there was none.
module _ (t p : String) (accounts : List Account) where
  pub open_account-sum :
      (g : Account → ℕ) (t' p' : String)
      → g (record { tenant = t; period = p; spent_micro = 0; reserved_micro = 0; inflight = 0 }) ≡ 0
      → total (weight (is_account t' p') g) (open_account t p accounts)
        ≡ total (weight (is_account t' p') g) accounts
  open_account-sum g t' p' z = elim (Option-cases (first (is_account t p) accounts)) [
    | inl n ↦ ground (
      arith,
      total-append (weight (is_account t' p') g) accounts (
          record { tenant = t; period = p; spent_micro = 0; reserved_micro = 0; inflight = 0 }
          ∷ []),
    )
    | inr (a, f) ↦ ground arith
  ]

  pub open_account-count :
      (t' p' : String)
      → ((x y : String) → count (is_account x y) accounts ≤ 1)
      → count (is_account t' p') (open_account t p accounts) ≤ 1
  open_account-count t' p' u = elim (Option-cases (first (is_account t p) accounts)) [
    | inl n ↦ ground (
      arith,
      u t' p',
      first-none (is_account t p) accounts,
      eq_iff t t',
      eq_iff p p',
      total-append (weight (is_account t' p') (λ _. 1)) accounts (
          record { tenant = t; period = p; spent_micro = 0; reserved_micro = 0; inflight = 0 }
          ∷ []),
    )
    | inr (a, f) ↦ ground (arith, u t' p')
  ]

  pub open_account-grows :
      (t' p' : String)
      → count (is_account t' p') accounts ≤ count (is_account t' p') (open_account t p accounts)
  open_account-grows t' p' = elim (Option-cases (first (is_account t p) accounts)) [
    | inl n ↦ ground (
      arith,
      total-append (weight (is_account t' p') (λ _. 1)) accounts (
          record { tenant = t; period = p; spent_micro = 0; reserved_micro = 0; inflight = 0 }
          ∷ []),
    )
    | inr (a, f) ↦ ground arith
  ]
