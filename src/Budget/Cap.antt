-- ===== src/Budget/Cap.antt =====
-- The bound on parallel calls, and the bound that an admitted call meets.
use agentic_works.Base.{
  ◌+◌, ◌≤◌, commit-cases, All, ℕ, String, ◌≡◌, refl, ◌⊎◌, inl, inr, none, some, List, [], ◌∷◌, ok,
  ◌∙◌, true, arith, ap, eq_refl,
}
use agentic_works.Base.Table.{first, count, first_sound, weight, total-weight_found}
use agentic_works.Host.{Host}
use agentic_works.Ledger.{
  Ledger, has_key, Setting, is_setting, Account, cancelled, released, settled,
}
use agentic_works.Budget.Requests.{serve, run, Request}
use agentic_works.Budget.Admit.{Digest, reserve, has_room, open_account}
use agentic_works.Budget.Slots.{IsCapped, active, active-le-slots, hold_active}
use agentic_works.Budget.Balance.{
  IsBalanced, charged_micro, held_micro, expire_slots-IsBalanced, account_sum, expire_slots-held,
  held_in,
}
use agentic_works.Budget.Invariant.{serve-IsBalanced}
use agentic_works.Budget.Parallel.{
  IsCapped-cong, configure-IsCapped, reserve-IsCapped, dispatch-IsCapped, uncertain-IsCapped,
  settled-IsCapped, reconcile-IsCapped,
}
use agentic_works.Budget.Outcomes.{
  reserve-ok, admit-ok, cancel-ok, with_hold, release-ok, settle-ok,
}
use agentic_works.Budget.{expire_slots, is_row, is_account, Reservation}
use agentic_works.Budget.Hold.{with_hold-IsBalanced, room, grown_rows, grown_accounts}
use agentic_works.Budget.Keep.{open_account-count}

-- The request configures no more than `m` parallel calls.
abbrev pub Allows : ℕ → Host × Request → Type 0
Allows m (h, Request.configure t a c l n) = n ≤ m
Allows m (h, _) = Unit

settle_or_same :
    {tenant : String} {m : ℕ} {db db' done : Ledger} {P Q : Type 0}
    → IsCapped tenant m db
    → IsCapped tenant m done
    → (P × (db' ≡ db)) ⊎ (Q × (db' ≡ done))
    → IsCapped tenant m db'
settle_or_same c d (inl (_, eq)) = IsCapped-cong eq c
settle_or_same c d (inr (_, eq)) = IsCapped-cong eq d

serve-IsCapped :
    (digest : Digest) (tenant : String) (m : ℕ) (db : Ledger) (r : Host × Request)
    → IsBalanced db
    → Allows m r
    → IsCapped tenant m db
    → IsCapped tenant m (serve digest db r)
unfolding serve
serve-IsCapped digest tenant m db (h, Request.configure t a y l n) b le c =
    commit-cases (IsCapped tenant m) db _ c (configure-IsCapped h t db b c a y l n le)
serve-IsCapped digest tenant m db (h, Request.reserve t k f e y) b le c =
    commit-cases (IsCapped tenant m) db _ c (reserve-IsCapped h t db b c digest k f e y)
serve-IsCapped digest tenant m db (h, Request.dispatch t i) b le c =
    commit-cases (IsCapped tenant m) db _ c (dispatch-IsCapped h t db b c i)
serve-IsCapped digest tenant m db (h, Request.uncertain t i) b le c =
    commit-cases (IsCapped tenant m) db _ c (uncertain-IsCapped h t db b c i)
serve-IsCapped digest tenant m db (h, Request.cancel t i) b le c =
    commit-cases (IsCapped tenant m) db _ c λ u db' e.
      let (row, _, out) = cancel-ok h t i db e in
      settle_or_same c (settled-IsCapped h t db b c row 0 cancelled _ _ _ refl) out
serve-IsCapped digest tenant m db (h, Request.release t i x) b le c =
    commit-cases (IsCapped tenant m) db _ c λ u db' e.
      let (row, _, out) = release-ok h t i x db e in
      settle_or_same c (settled-IsCapped h t db b c row 0 released _ _ _ refl) out
serve-IsCapped digest tenant m db (h, Request.settle t i n) b le c =
    commit-cases (IsCapped tenant m) db _ c λ u db' e.
      let (row, _, out) = settle-ok h t i n db e in
      elim out [
        | inl (_, _, eq) ↦ IsCapped-cong eq c
        | inr (_, eq) ↦ IsCapped-cong eq (settled-IsCapped h t db b c row n settled _ _ _ refl)
      ]
serve-IsCapped digest tenant m db (h, Request.reconcile t i a n x) b le c =
    commit-cases (IsCapped tenant m) db _ c (reconcile-IsCapped h t db b c i a n x)

-- A tenant's calls that are reserved, dispatching or uncertain, of whatever age, never outnumber
-- `m`, through any history in which no `configure` asks for more than `m` parallel calls, from a
-- balanced ledger that starts within that bound.
pub run-IsCapped :
    (digest : Digest) (tenant : String) (m : ℕ) (requests : List (Host × Request)) (db : Ledger)
    → IsBalanced db
    → All (Allows m) requests
    → IsCapped tenant m db
    → active tenant (run digest db requests) ≤ m
unfolding run
run-IsCapped digest tenant m [] db b a c = c.calls
run-IsCapped digest tenant m (r ∷ rs) db b a c =
    run-IsCapped digest tenant m rs (serve digest db r) (serve-IsBalanced digest db r b) a.1
      (serve-IsCapped digest tenant m db r b a.0 c)

-- The account with room for the new hold, seen through the sums of the reservations.
module _ (h : Host) (tenant key full : String) (estimate limit : ℕ) (db : Ledger)
    (b : IsBalanced db)
    (fits : count
        (has_room tenant h.period estimate limit)
        (open_account tenant h.period db.accounts)
      ≡ 1)
    (fresh : count (is_row tenant h.fresh) db.reservations ≡ 0) where
  abbrev held_db : Ledger
  held_db = with_hold h tenant key full estimate limit db

  account_within :
      (a : Account) × (a.spent_micro + a.reserved_micro + estimate ≤ limit)
      × (account_sum (λ x. x.spent_micro) tenant h.period held_db ≡ a.spent_micro)
      × (account_sum (λ x. x.reserved_micro) tenant h.period held_db ≡ a.reserved_micro + estimate)
  account_within =
      let (a, e, et, ep) = room h tenant key full estimate limit db b fits fresh in
      let xs = open_account tenant h.period db.accounts in
      let q = has_room tenant h.period estimate limit in
      let fit = first_sound q xs e in
      let mine : is_account tenant h.period a ≡ true = ground arith in
      let one = open_account-count tenant h.period db.accounts tenant h.period b.accounts_unique in
      let sum =
        λ (g : Account → ℕ). total-weight_found (is_account tenant h.period) q g xs e mine one in
      let grow = grown_accounts h tenant key full estimate limit db b fits fresh in
      (
        a,
        ground arith,
        ground (
          arith,
          mine,
          sum (λ (x : Account). x.spent_micro),
          grow (weight (is_account tenant h.period) (λ (x : Account). x.spent_micro)),
        ),
        ground (
          arith,
          mine,
          sum (λ (x : Account). x.reserved_micro),
          grow (weight (is_account tenant h.period) (λ (x : Account). x.reserved_micro)),
        ),
      )

  pub held_within :
      (charged_micro tenant h.period held_db + held_micro tenant h.period held_db ≤ limit)
      × (held_micro tenant h.period held_db ≡ held_micro tenant h.period db + estimate)
  held_within =
      let (a, le, es, er) = account_within in
      let c = with_hold-IsBalanced h tenant key full estimate limit db b fits fresh in
      (
        omega (arith, le, es, er, c.spent_sum tenant h.period, c.reserved_sum tenant h.period),
        ground (
          arith,
          eq_refl tenant,
          eq_refl h.period,
          grown_rows h tenant key full estimate limit db b fits fresh
              (weight (held_in tenant h.period) (λ (r : Reservation). r.amount_micro)),
        ),
      )

-- Where `reserve` makes a new hold, the tenant's budget is configured in the call's currency, and
-- afterwards the month's charges and holds together are within the limit, the new estimate included,
-- and the calls in flight are within `max_inflight`.
pub reserve_within_limits :
    (digest : Digest) (h : Host) (tenant key fingerprint : String) (estimate : ℕ)
    (currency i : String) (db db' : Ledger)
    → IsBalanced db
    → first (has_key tenant key) db.reservations ≡ none
    → reserve digest h tenant key fingerprint estimate currency db ≡ ok (i, db')
    → (s : Setting) × (first (is_setting tenant) db.settings ≡ some s)
      × (charged_micro tenant h.period db' + held_micro tenant h.period db' ≤ s.limit_micro)
      × (held_micro tenant h.period db' ≡ held_micro tenant h.period db + estimate)
      × (active tenant db' ≤ s.max_inflight)
reserve_within_limits digest h tenant key fingerprint estimate currency i db db' b new e =
    let (s, f, out) = reserve-ok digest h tenant key fingerprint estimate currency db e in
    let full = digest fingerprint estimate currency in
    let swept = expire_slots h tenant db in
    elim out [
      | inl (_, g, _, _, _) ↦ absurd (cc)
      | inr (_, admitted) ↦
          let (slot, fits, fresh, _, _, eq) = admit-ok h tenant key full estimate s db admitted in
          let (within, more) =
            held_within h tenant key full estimate s.limit_micro swept
              (expire_slots-IsBalanced h tenant db b) fits fresh in
          (
            s,
            f,
            rw eq within,
            rw eq (
                more
                ∙ ap (λ n. n + estimate)
                    (expire_slots-held h tenant tenant h.period (λ r. r.amount_micro) db
                      (λ r. refl))),
            ground (
              arith,
              eq_refl tenant,
              active-le-slots h tenant db,
              hold_active h tenant key full tenant estimate s.limit_micro swept,
            ),
          )
    ]
