-- ===== src/Budget/Parallel.antt =====
-- The bound on parallel calls, through every method and every history.
use agentic_works.Base.{
  ◌≤◌, eq_iff, ℕ, String, ◌≡◌, refl, inl, inr, false, ◌||◌, some, List, [], ◌∷◌, arith, ok, subst,
  sym,
}
use agentic_works.Budget.Admit
use agentic_works.Budget.Calls
use agentic_works.Budget.Slots.{
  IsCapped, active, limit_of, sweep_active, active-mark, active-le-slots, hold_active,
  settle_active,
}
use agentic_works.Ledger.{
  Setting, Ledger, is_setting, reconciled, dispatching, uncertain, is_reserved, is_sent,
}
use agentic_works.Host.{Host}
use agentic_works.Base.Table.{first}
use agentic_works.Budget.Balance.{IsBalanced, row_after_sweep, expire_slots-IsBalanced}
use agentic_works.Budget.{expire_slots, settle_row, Reservation, Status}
use agentic_works.Budget.Admit.{Digest, put_setting, admit}
use agentic_works.Budget.Calls.{dispatch}
use agentic_works.Budget.Outcomes.{
  mark_uncertain-ok, reconcile-ok, configure-ok, reserve-ok, dispatch-ok, admit-ok,
}

limit_of-put_setting :
    (t : String) (s : Setting) (rows : List Setting) (m : ℕ)
    → s.max_inflight ≤ m
    → limit_of (first (is_setting t) rows) ≤ m
    → limit_of (first (is_setting t) (put_setting s rows)) ≤ m
limit_of-put_setting t s [] m c h = ground arith
limit_of-put_setting t s (r ∷ rows) m c h = ground (arith, limit_of-put_setting t s rows m c)

-- A step that leaves the settings alone and makes no new call.
fewer-IsCapped :
    {tenant : String} {m : ℕ} {a b : Ledger}
    → b.settings ≡ a.settings
    → active tenant b ≤ active tenant a
    → IsCapped tenant m a
    → IsCapped tenant m b
fewer-IsCapped same le c = record { limit = rw same c.limit; calls = omega (arith, le, c.calls) }

pub IsCapped-cong : {t : String} {m : ℕ} {a b : Ledger} → a ≡ b → IsCapped t m b → IsCapped t m a
IsCapped-cong {t} {m} e c = subst (IsCapped t m) (sym e) c

module _ (h : Host) (t : String) (db : Ledger) (b : IsBalanced db) {tenant : String} {m : ℕ}
    (c : IsCapped tenant m db) where
  swept-calls : active tenant (expire_slots h t db) ≤ m
  swept-calls = omega (arith, sweep_active h t tenant db, c.calls)

  swept-settings : (expire_slots h t db).settings ≡ db.settings
  unfolding expire_slots
  swept-settings = refl

  admit-IsCapped :
      (key full : String) (estimate : ℕ) (s : Setting) {i : String} {db' : Ledger}
      → first (is_setting t) db.settings ≡ some s
      → admit h t key full estimate s db ≡ ok (i, db')
      → IsCapped tenant m db'
  admit-IsCapped key full estimate s f e =
      let (room, _, _, _, _, eq) = admit-ok h t key full estimate s db e in
      IsCapped-cong eq (record {
        limit = rw swept-settings c.limit;
        calls = ground (
          arith,
          eq_iff t tenant,
          swept-calls,
          c.limit,
          active-le-slots h t db,
          hold_active h t key full tenant estimate s.limit_micro (expire_slots h t db),
        );
      })

  pub reserve-IsCapped :
      (digest : Digest) (key fingerprint : String) (estimate : ℕ) (currency : String) (i : String)
      (db' : Ledger)
      → Admit.reserve digest h t key fingerprint estimate currency db ≡ ok (i, db')
      → IsCapped tenant m db'
  reserve-IsCapped digest key fingerprint estimate currency i db' e =
      let (s, f, out) = reserve-ok digest h t key fingerprint estimate currency db e in
      elim out [
        | inl (_, _, _, _, eq) ↦ IsCapped-cong eq c
        | inr (_, admitted) ↦ admit-IsCapped key _ estimate s f admitted
      ]

  pub dispatch-IsCapped :
      (id : String) (u : Unit {0}) (db' : Ledger)
      → Calls.dispatch h t id db ≡ ok (u, db')
      → IsCapped tenant m db'
  dispatch-IsCapped id u db' e =
      let (row, _, _, f, r, _, _, _, _, _, eq) = dispatch-ok h t id db e in
      let swept = expire_slots h t db in
      IsCapped-cong eq (record {
        limit = rw swept-settings c.limit;
        calls = omega (
          arith,
          swept-calls,
          active-mark h t id tenant dispatching swept (row_after_sweep h t id db f (rw r refl))
              (rw r refl) ((expire_slots-IsBalanced h t db b).rows_unique t id),
        );
      })

  pub uncertain-IsCapped :
      (id : String) (u : Unit {0}) (db' : Ledger)
      → Calls.mark_uncertain h t id db ≡ ok (u, db')
      → IsCapped tenant m db'
  uncertain-IsCapped id u db' e =
      let (row, f, out) = mark_uncertain-ok h t id db e in
      elim out [
        | inl (_, eq) ↦ IsCapped-cong eq c
        | inr (r, eq) ↦ IsCapped-cong eq (record {
          limit = c.limit;
          calls = omega (
            arith,
            c.calls,
            active-mark h t id tenant uncertain db f (rw r refl) (b.rows_unique t id),
          );
        })
      ]

  pub settled-IsCapped :
      (row : Reservation) (actual : ℕ) (status : Status) (action actor reason : String)
      → (is_reserved status || is_sent status) ≡ false
      → IsCapped tenant m (settle_row h t row actual status action actor reason db)
  unfolding settle_row
  settled-IsCapped row actual status action actor reason closed = record {
    limit = c.limit;
    calls =
        omega (
          arith,
          c.calls,
          settle_active h t tenant row actual status action actor reason db closed,
        );
  }

  pub reconcile-IsCapped :
      (id actor : String) (actual : ℕ) (text : String) (u : Unit {0}) (db' : Ledger)
      → Calls.reconcile h t id actor actual text db ≡ ok (u, db')
      → IsCapped tenant m db'
  reconcile-IsCapped id actor actual text u db' e =
      let (row, f, _, live, eq) = reconcile-ok h t id actor actual text db e in
      let done = settled-IsCapped row actual reconciled "budget.reconciled" actor "" refl in
      IsCapped-cong eq (record { limit = done.limit; calls = done.calls })

  pub configure-IsCapped :
      (actor currency : String) (limit_micro max_inflight : ℕ)
      → max_inflight ≤ m
      → (u : Unit {0}) (db' : Ledger)
      → Admit.configure h t actor currency limit_micro max_inflight db ≡ ok (u, db')
      → IsCapped tenant m db'
  configure-IsCapped actor currency limit_micro max_inflight le u db' e =
      let (_, _, es, _, er) = configure-ok h t actor currency limit_micro max_inflight db e in
      record {
        limit = rw es (limit_of-put_setting tenant _ db.settings m le c.limit);
        calls = rw er c.calls;
      }
