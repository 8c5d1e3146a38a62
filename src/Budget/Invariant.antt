-- ===== src/Budget/Invariant.antt =====
-- Every method keeps the accounts equal to the sums of the reservations, so every history does.
use agentic_works.Base.{ℕ, String, ◌≡◌, sym, subst, ok, List, commit-cases, ◌∷◌, refl, inl, inr, []}
use agentic_works.Host.{Host}
use agentic_works.Ledger.{
  Ledger, uncertain, Setting, dispatching, reconciled, cancelled, released, settled,
}
use agentic_works.Budget.{expire_slots}
use agentic_works.Budget.Admit
use agentic_works.Budget.Admit.{admit, Digest}
use agentic_works.Budget.Calls
use agentic_works.Budget.Outcomes.{
  admit-ok, dispatch-ok, mark_uncertain-ok, cancel-ok, release-ok, settle-ok, reconcile-ok,
  configure-ok, reserve-ok,
}
use agentic_works.Budget.Balance.{
  IsBalanced, expire_slots-IsBalanced, row_after_sweep, same_tables-IsBalanced,
}
use agentic_works.Budget.Keep.{log-IsBalanced, mark-IsBalanced}
use agentic_works.Budget.Hold.{with_hold-IsBalanced}
use agentic_works.Budget.Requests.{serve, run, Request}
use agentic_works.Budget.Settle.{settle_row-IsBalanced}

IsBalanced-cong : {a b : Ledger} → a ≡ b → IsBalanced b → IsBalanced a
IsBalanced-cong e b = subst IsBalanced (sym e) b

-- Each method, where it returns.
module _ (h : Host) (tenant : String) (db : Ledger) (b : IsBalanced db) where
  admit-IsBalanced :
      (key full : String) (estimate : ℕ) (s : Setting) {i : String} {db' : Ledger}
      → admit h tenant key full estimate s db ≡ ok (i, db')
      → IsBalanced db'
  admit-IsBalanced key full estimate s e =
      let (_, fits, fresh, _, _, eq) = admit-ok h tenant key full estimate s db e in
      IsBalanced-cong eq (
        log-IsBalanced _ _ _ _ _ (
          with_hold-IsBalanced h tenant key full estimate s.limit_micro (expire_slots h tenant db)
            (expire_slots-IsBalanced h tenant db b) fits fresh))

  reserve-IsBalanced :
      (digest : Digest) (key fingerprint : String) (estimate : ℕ) (currency : String) (i : String)
      (db' : Ledger)
      → Admit.reserve digest h tenant key fingerprint estimate currency db ≡ ok (i, db')
      → IsBalanced db'
  reserve-IsBalanced digest key fingerprint estimate currency i db' e =
      let (s, _, out) = reserve-ok digest h tenant key fingerprint estimate currency db e in
      elim out [
        | inl (_, _, _, _, eq) ↦ IsBalanced-cong eq b
        | inr (_, admitted) ↦ admit-IsBalanced key _ estimate s admitted
      ]

  dispatch-IsBalanced :
      (id : String) (u : Unit {0}) (db' : Ledger)
      → Calls.dispatch h tenant id db ≡ ok (u, db')
      → IsBalanced db'
  dispatch-IsBalanced id u db' e =
      let (row, _, _, f, r, _, _, _, _, _, eq) = dispatch-ok h tenant id db e in
      IsBalanced-cong eq (
        log-IsBalanced _ _ _ _ _ (
          mark-IsBalanced h tenant id dispatching (expire_slots h tenant db)
            (expire_slots-IsBalanced h tenant db b) (row_after_sweep h tenant id db f (rw r refl))
            (rw r refl) refl))

  uncertain-IsBalanced :
      (id : String) (u : Unit {0}) (db' : Ledger)
      → Calls.mark_uncertain h tenant id db ≡ ok (u, db')
      → IsBalanced db'
  uncertain-IsBalanced id u db' e =
      let (row, f, out) = mark_uncertain-ok h tenant id db e in
      elim out [
        | inl (_, eq) ↦ IsBalanced-cong eq b
        | inr (r, eq) ↦ IsBalanced-cong eq (
            log-IsBalanced _ _ _ _ _
              (mark-IsBalanced h tenant id uncertain db b f (rw r refl) refl))
      ]

  cancel-IsBalanced :
      (id : String) (u : Unit {0}) (db' : Ledger)
      → Calls.cancel h tenant id db ≡ ok (u, db')
      → IsBalanced db'
  cancel-IsBalanced id u db' e =
      let (row, f, out) = cancel-ok h tenant id db e in
      elim out [
        | inl (_, eq) ↦ IsBalanced-cong eq b
        | inr (r, eq) ↦
            IsBalanced-cong eq
              (settle_row-IsBalanced h tenant id 0 cancelled _ _ _ db b f (rw r refl) refl)
      ]

  release-IsBalanced :
      (id reason : String) (u : Unit {0}) (db' : Ledger)
      → Calls.release h tenant id reason db ≡ ok (u, db')
      → IsBalanced db'
  release-IsBalanced id reason u db' e =
      let (row, f, out) = release-ok h tenant id reason db e in
      elim out [
        | inl (_, eq) ↦ IsBalanced-cong eq b
        | inr (r, eq) ↦
            IsBalanced-cong eq
              (settle_row-IsBalanced h tenant id 0 released _ _ _ db b f (rw r refl) refl)
      ]

  settle-IsBalanced :
      (id : String) (actual : ℕ) (u : Unit {0}) (db' : Ledger)
      → Calls.settle h tenant id actual db ≡ ok (u, db')
      → IsBalanced db'
  settle-IsBalanced id actual u db' e =
      let (row, f, out) = settle-ok h tenant id actual db e in
      elim out [
        | inl (_, _, eq) ↦ IsBalanced-cong eq b
        | inr (r, eq) ↦
            IsBalanced-cong eq
              (settle_row-IsBalanced h tenant id actual settled _ _ _ db b f (rw r refl) refl)
      ]

  reconcile-IsBalanced :
      (id actor : String) (actual : ℕ) (text : String) (u : Unit {0}) (db' : Ledger)
      → Calls.reconcile h tenant id actor actual text db ≡ ok (u, db')
      → IsBalanced db'
  reconcile-IsBalanced id actor actual text u db' e =
      let (row, f, _, live, eq) = reconcile-ok h tenant id actor actual text db e in
      IsBalanced-cong eq (
        log-IsBalanced _ _ _ _ _
          (settle_row-IsBalanced h tenant id actual reconciled _ _ _ db b f live refl))

  configure-IsBalanced :
      (actor currency : String) (limit_micro max_inflight : ℕ) (u : Unit {0}) (db' : Ledger)
      → Admit.configure h tenant actor currency limit_micro max_inflight db ≡ ok (u, db')
      → IsBalanced db'
  configure-IsBalanced actor currency limit_micro max_inflight u db' e =
      let (_, _, _, ea, er) = configure-ok h tenant actor currency limit_micro max_inflight db e in
      same_tables-IsBalanced ea er b

-- One call, whatever it returns, keeps the balance.
pub serve-IsBalanced :
    (digest : Digest) (db : Ledger) (r : Host × Request)
    → IsBalanced db
    → IsBalanced (serve digest db r)
unfolding serve
serve-IsBalanced digest db (h, Request.configure t a c l m) b =
    commit-cases IsBalanced db _ b (configure-IsBalanced h t db b a c l m)
serve-IsBalanced digest db (h, Request.reserve t k f e c) b =
    commit-cases IsBalanced db _ b (reserve-IsBalanced h t db b digest k f e c)
serve-IsBalanced digest db (h, Request.dispatch t i) b =
    commit-cases IsBalanced db _ b (dispatch-IsBalanced h t db b i)
serve-IsBalanced digest db (h, Request.uncertain t i) b =
    commit-cases IsBalanced db _ b (uncertain-IsBalanced h t db b i)
serve-IsBalanced digest db (h, Request.cancel t i) b =
    commit-cases IsBalanced db _ b (cancel-IsBalanced h t db b i)
serve-IsBalanced digest db (h, Request.release t i r) b =
    commit-cases IsBalanced db _ b (release-IsBalanced h t db b i r)
serve-IsBalanced digest db (h, Request.settle t i n) b =
    commit-cases IsBalanced db _ b (settle-IsBalanced h t db b i n)
serve-IsBalanced digest db (h, Request.reconcile t i a n x) b =
    commit-cases IsBalanced db _ b (reconcile-IsBalanced h t db b i a n x)

-- From a balanced ledger, whatever is called, by whom, when, and whether it succeeds or raises:
-- for each tenant and each period the account holds what its held reservations hold, has spent what
-- its closed reservations were charged, and counts its held reservations in flight.
pub run-IsBalanced :
    (digest : Digest) (requests : List (Host × Request)) (db : Ledger)
    → IsBalanced db
    → IsBalanced (run digest db requests)
unfolding run
run-IsBalanced digest [] db b = b
run-IsBalanced digest (r ∷ rs) db b =
    run-IsBalanced digest rs (serve digest db r) (serve-IsBalanced digest db r b)
