-- ===== src/Budget/Final.antt =====
-- No method removes, reorders or rewrites a reservation, and closed ones never change.
use agentic_works.Base.{
  ℕ, String, ◌≡◌, refl, ◌⊎◌, inl, inr, true, some, List, arith, ok, subst, sym, [], ◌∷◌,
  commit-cases,
}
use agentic_works.Ledger.{
  Status, Reservation, Ledger, Status, is_held, dispatching, cancelled, released, settled,
  reconciled,
}
use agentic_works.Host.{Host}
use agentic_works.Budget.History.{
  Extends, Extends-refl, Extends-update, Extends-trans, Later-held, Extends-append,
  Extends-update_one, Later, Extends-first,
}
use agentic_works.Budget.Balance.{
  IsBalanced, is_row_sound, expire_slots-IsBalanced, row_after_sweep,
}
use agentic_works.Budget.{expire_slots, settle_row, is_stale, is_row, retire, unreconciled}
use agentic_works.Budget.Admit.{Digest, reserve}
use agentic_works.Budget.Calls.{dispatch, mark}
use agentic_works.Base.Table.{first, first_sound}
use agentic_works.Budget.Outcomes.{
  dispatch-ok, reserve-ok, admit-ok, configure-ok, mark_uncertain-ok, cancel-ok, release-ok,
  settle-ok, reconcile-ok,
}
use agentic_works.Budget.Requests.{Request, serve, run}
use agentic_works.Budget.Invariant.{serve-IsBalanced}

abbrev Grows : List Reservation → Ledger → Type 0
Grows rows db = Extends rows db.reservations

module _ (h : Host) (t : String) (db : Ledger) (b : IsBalanced db) where
  Grows-cong : {a b : Ledger} → a ≡ b → Grows db.reservations b → Grows db.reservations a
  Grows-cong e g = subst (Grows db.reservations) (sym e) g

  sweep-Extends : Extends db.reservations (expire_slots h t db).reservations
  unfolding expire_slots
  sweep-Extends =
      Extends-update (is_stale h.now t) (retire h.now) db.reservations
        λ r m. Later-held r unreconciled r.actual_micro h.now (ground arith)

  mark-Extends :
      (id : String) (status : Status) (base : Ledger) {row : Reservation}
      → IsBalanced base
      → first (is_row t id) base.reservations ≡ some row
      → is_held row.status ≡ true
      → Extends base.reservations (mark h t id status base).reservations
  mark-Extends id status base {row} v f live =
      Extends-update_one (is_row t id) (λ r. record r { status = status; updated = h.now })
        base.reservations f (v.rows_unique t id) (Later-held row status row.actual_micro h.now live)

  settle-Extends :
      (id : String) {row : Reservation} (actual : ℕ) (status : Status)
      (action actor reason : String)
      → first (is_row t id) db.reservations ≡ some row
      → is_held row.status ≡ true
      → Extends db.reservations
          (settle_row h t row actual status action actor reason db).reservations
  unfolding settle_row
  settle-Extends id {row} actual status action actor reason f live =
      let same = is_row_sound t id row (first_sound (is_row t id) db.reservations f) in
      Extends-update_one (is_row t row.id)
        (λ r. record r { status = status; actual_micro = some actual; updated = h.now })
        db.reservations (subst (λ i. first (is_row t i) db.reservations ≡ some row) (sym same.1) f)
        (b.rows_unique t row.id) (Later-held row status (some actual) h.now live)

  reserve-Extends :
      (digest : Digest) (key fingerprint : String) (estimate : ℕ) (currency : String) (i : String)
      (db' : Ledger)
      → reserve digest h t key fingerprint estimate currency db ≡ ok (i, db')
      → Grows db.reservations db'
  reserve-Extends digest key fingerprint estimate currency i db' e =
      let (s, _, out) = reserve-ok digest h t key fingerprint estimate currency db e in
      let swept = expire_slots h t db in
      elim out [
        | inl (_, _, _, _, eq) ↦ Grows-cong eq (Extends-refl db.reservations)
        | inr (_, admitted) ↦
            let (_, _, _, _, _, eq) = admit-ok h t key _ estimate s db admitted in
            Grows-cong eq (
              Extends-trans db.reservations swept.reservations _ sweep-Extends
                (Extends-append swept.reservations _))
      ]

  dispatch-Extends :
      (id : String) (u : Unit {0}) (db' : Ledger)
      → dispatch h t id db ≡ ok (u, db')
      → Grows db.reservations db'
  dispatch-Extends id u db' e =
      let (row, _, _, f, r, _, _, _, _, _, eq) = dispatch-ok h t id db e in
      let swept = expire_slots h t db in
      Grows-cong eq (
        Extends-trans db.reservations swept.reservations _ sweep-Extends (
          mark-Extends id dispatching swept (expire_slots-IsBalanced h t db b)
            (row_after_sweep h t id db f (rw r refl)) (rw r refl)))

  settled_or_same :
      {P Q : Type 0} {db' done : Ledger}
      → Extends db.reservations done.reservations
      → (P × (db' ≡ db)) ⊎ (Q × (db' ≡ done))
      → Grows db.reservations db'
  settled_or_same d (inl (_, eq)) = Grows-cong eq (Extends-refl db.reservations)
  settled_or_same d (inr (_, eq)) = Grows-cong eq d

serve-Extends :
    (digest : Digest) (db : Ledger) (r : Host × Request)
    → IsBalanced db
    → Extends db.reservations (serve digest db r).reservations
unfolding serve
serve-Extends digest db (h, Request.configure t a y l n) b =
    commit-cases (Grows db.reservations) db _ (Extends-refl db.reservations) λ u db' e.
      let (_, _, _, _, er) = configure-ok h t a y l n db e in rw er (Extends-refl db.reservations)
serve-Extends digest db (h, Request.reserve t k f e y) b =
    commit-cases (Grows db.reservations) db _ (Extends-refl db.reservations)
      (reserve-Extends h t db b digest k f e y)
serve-Extends digest db (h, Request.dispatch t i) b =
    commit-cases (Grows db.reservations) db _ (Extends-refl db.reservations)
      (dispatch-Extends h t db b i)
serve-Extends digest db (h, Request.uncertain t i) b =
    commit-cases (Grows db.reservations) db _ (Extends-refl db.reservations) λ u db' e.
      let (row, f, out) = mark_uncertain-ok h t i db e in
      elim out [
        | inl (_, eq) ↦ Grows-cong h t db b eq (Extends-refl db.reservations)
        | inr (r, eq) ↦
            Grows-cong h t db b eq (mark-Extends h t db b i Status.uncertain db b f (rw r refl))
      ]
serve-Extends digest db (h, Request.cancel t i) b =
    commit-cases (Grows db.reservations) db _ (Extends-refl db.reservations) λ u db' e.
      let (row, f, out) = cancel-ok h t i db e in
      elim out [
        | inl (_, eq) ↦ Grows-cong h t db b eq (Extends-refl db.reservations)
        | inr (r, eq) ↦
            Grows-cong h t db b eq (settle-Extends h t db b i 0 cancelled _ _ _ f (rw r refl))
      ]
serve-Extends digest db (h, Request.release t i x) b =
    commit-cases (Grows db.reservations) db _ (Extends-refl db.reservations) λ u db' e.
      let (row, f, out) = release-ok h t i x db e in
      elim out [
        | inl (_, eq) ↦ Grows-cong h t db b eq (Extends-refl db.reservations)
        | inr (r, eq) ↦
            Grows-cong h t db b eq (settle-Extends h t db b i 0 released _ _ _ f (rw r refl))
      ]
serve-Extends digest db (h, Request.settle t i n) b =
    commit-cases (Grows db.reservations) db _ (Extends-refl db.reservations) λ u db' e.
      let (row, f, out) = settle-ok h t i n db e in
      elim out [
        | inl (_, _, eq) ↦ Grows-cong h t db b eq (Extends-refl db.reservations)
        | inr (r, eq) ↦
            Grows-cong h t db b eq (settle-Extends h t db b i n settled _ _ _ f (rw r refl))
      ]
serve-Extends digest db (h, Request.reconcile t i a n x) b =
    commit-cases (Grows db.reservations) db _ (Extends-refl db.reservations) λ u db' e.
      let (row, f, _, live, eq) = reconcile-ok h t i a n x db e in
      Grows-cong h t db b eq
        (settle-Extends h t db b i n reconciled "budget.reconciled" a "" f live)

pub run-Extends :
    (digest : Digest) (requests : List (Host × Request)) (db : Ledger)
    → IsBalanced db
    → Extends db.reservations (run digest db requests).reservations
unfolding run
run-Extends digest [] db b = Extends-refl db.reservations
run-Extends digest (r ∷ rs) db b =
    Extends-trans db.reservations (serve digest db r).reservations
      (run digest (serve digest db r) rs).reservations (serve-Extends digest db r b)
      (run-Extends digest rs (serve digest db r) (serve-IsBalanced digest db r b))

-- From a balanced ledger, through any history, a reservation that is found by its id stays found by
-- it, with the same request key, fingerprint, period and amount; and once its money is no longer held
-- (it is cancelled, released, settled or reconciled) no later call changes anything in it.
pub reservation_is_final :
    (digest : Digest) (tenant id : String) (requests : List (Host × Request)) (db : Ledger)
    (row : Reservation)
    → IsBalanced db
    → first (is_row tenant id) db.reservations ≡ some row
    → (later : Reservation) × (first (is_row tenant id) (run digest db requests).reservations
        ≡ some later)
      × Later row later
reservation_is_final digest tenant id requests db row b f =
    Extends-first (is_row tenant id) db.reservations (run digest db requests).reservations
      (λ x y l. rw (l.tenant, l.id) refl) (run-Extends digest requests db b) f
