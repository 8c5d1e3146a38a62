-- ===== src/Budget/Replay.antt =====
-- A request key is an idempotency key, over any history; and a budget keeps its currency.
use agentic_works.Base.{
  ◌≤◌, eq_iff, ℕ, String, ◌≡◌, refl, ◌≢◌, true, some, List, [], ◌∷◌, arith, ok, err, conflict, ◌∙◌,
  ◌⊎◌, inl, inr, ◌==◌, Bool-cases, ap, eq_refl, commit-cases,
}
use agentic_works.Ledger.{
  Setting, Ledger, is_setting, Reservation, has_key, is_bounded, is_fingerprint, max_amount,
}
use agentic_works.Budget.Admit.{reserve, Digest, put_setting}
use agentic_works.Base.Table.{first}
use agentic_works.Host.{Host, require_active}
use agentic_works.Budget.Requests.{Request, run, serve}
use agentic_works.Budget.Balance.{IsBalanced}
use agentic_works.Budget.History.{Extends-first}
use agentic_works.Budget.Final.{run-Extends}
use agentic_works.Budget.{settle_row, expire_slots}
use agentic_works.Budget.Outcomes.{
  configure-ok, reserve-ok, admit-ok, dispatch-ok, mark_uncertain-ok, cancel-ok, release-ok,
  settle-ok, reconcile-ok,
}

put_setting-currency :
    (t : String) (row : Setting) (rows : List Setting) {s : Setting}
    → first (is_setting t) rows ≡ some s
    → (s' : Setting) × (first (is_setting t) (put_setting row rows) ≡ some s')
      × (s'.currency ≡ s.currency)
put_setting-currency t row [] f = absurd (cc)
put_setting-currency t row (r ∷ rows) {s} f = elim (Bool-cases (r.tenant == t)) [
  | inl m ↦ elim (Bool-cases (r.tenant == row.tenant)) [
    | inl e ↦ (
      record r {
        limit_micro = row.limit_micro;
        max_inflight = row.max_inflight;
        generation = row.generation;
      },
      ground arith,
      ground arith,
    )
    | inr e ↦ (r, ground arith, ground arith)
  ]
  | inr m ↦
      let (s', g, c) = put_setting-currency t row rows {s = s} (ground arith) in
      elim (Bool-cases (r.tenant == row.tenant)) [
        | inl e ↦ (s, ground arith, refl)
        | inr e ↦ (s', ground arith, c)
      ]
]

-- The tenant's budget is configured in the currency.
abbrev HasCurrency : String → String → Ledger → Type 0
HasCurrency t c db = (s : Setting) × (first (is_setting t) db.settings ≡ some s) × (s.currency ≡ c)

module _ (t c : String) (db : Ledger) (k : HasCurrency t c db) where
  moved : {db' done : Ledger} → done.settings ≡ db.settings → db' ≡ done → HasCurrency t c db'
  moved e eq = (
    k.0,
    ap (λ (x : Ledger). first (is_setting t) x.settings) eq ∙ ap (first (is_setting t)) e ∙ k.1,
    k.2,
  )

  moved_or_same :
      {P Q : Type 0} {db' done : Ledger}
      → done.settings ≡ db.settings
      → (P × (db' ≡ db)) ⊎ (Q × (db' ≡ done))
      → HasCurrency t c db'
  moved_or_same d (inl (_, eq)) = moved refl eq
  moved_or_same d (inr (_, eq)) = moved d eq

serve-currency :
    (digest : Digest) (t c : String) (db : Ledger) (r : Host × Request)
    → HasCurrency t c db
    → HasCurrency t c (serve digest db r)
unfolding serve settle_row expire_slots
serve-currency digest t c db (h, Request.configure tenant a y l n) k =
    commit-cases (HasCurrency t c) db _ k λ u db' e.
      let (_, _, es, _, _) = configure-ok h tenant a y l n db e in
      let (s', g, same) = put_setting-currency t _ db.settings k.1 in
      (s', ap (first (is_setting t)) es ∙ g, same ∙ k.2)
serve-currency digest t c db (h, Request.reserve tenant key f e y) k =
    commit-cases (HasCurrency t c) db _ k λ i db' x.
      let (s, _, out) = reserve-ok digest h tenant key f e y db x in
      elim out [
        | inl (_, _, _, _, eq) ↦ moved t c db k refl eq
        | inr (_, admitted) ↦
            let (_, _, _, _, _, eq) = admit-ok h tenant key _ e s db admitted in
            moved t c db k refl eq
      ]
serve-currency digest t c db (h, Request.dispatch tenant i) k =
    commit-cases (HasCurrency t c) db _ k λ u db' e.
      let (_, _, _, _, _, _, _, _, _, _, eq) = dispatch-ok h tenant i db e in moved t c db k refl eq
serve-currency digest t c db (h, Request.uncertain tenant i) k =
    commit-cases (HasCurrency t c) db _ k
      λ u db' e. moved_or_same t c db k refl (mark_uncertain-ok h tenant i db e).2
serve-currency digest t c db (h, Request.cancel tenant i) k =
    commit-cases (HasCurrency t c) db _ k
      λ u db' e. moved_or_same t c db k refl (cancel-ok h tenant i db e).2
serve-currency digest t c db (h, Request.release tenant i x) k =
    commit-cases (HasCurrency t c) db _ k
      λ u db' e. moved_or_same t c db k refl (release-ok h tenant i x db e).2
serve-currency digest t c db (h, Request.settle tenant i n) k =
    commit-cases (HasCurrency t c) db _ k λ u db' e. elim (settle-ok h tenant i n db e).2 [
      | inl (_, _, eq) ↦ moved t c db k refl eq
      | inr (_, eq) ↦ moved t c db k refl eq
    ]
serve-currency digest t c db (h, Request.reconcile tenant i a n x) k =
    commit-cases (HasCurrency t c) db _ k
      λ u db' e. moved t c db k refl (reconcile-ok h tenant i a n x db e).4

run-currency :
    (digest : Digest) (t c : String) (requests : List (Host × Request)) (db : Ledger)
    → HasCurrency t c db
    → HasCurrency t c (run digest db requests)
unfolding run
run-currency digest t c [] db k = k
run-currency digest t c (r ∷ rs) db k =
    run-currency digest t c rs (serve digest db r) (serve-currency digest t c db r k)

-- `reserve` is idempotent over time: whatever happened since a request's key was reserved, the same
-- request (key, fingerprint, estimate and currency) gets the same reservation id and changes nothing,
-- as long as the tenant is active; and a request with the same key
-- whose digest differs is refused as a conflict.
pub reserve_again :
    (digest : Digest) (h : Host) (tenant key fingerprint other : String) (estimate more : ℕ)
    (currency : String) (s : Setting) (requests : List (Host × Request)) (db : Ledger)
    (row : Reservation)
    → IsBalanced db
    → first (has_key tenant key) db.reservations ≡ some row
    → row.fingerprint ≡ digest fingerprint estimate currency
    → is_bounded tenant 256 ≡ true
    → is_bounded key 256 ≡ true
    → is_fingerprint fingerprint ≡ true
    → is_fingerprint other ≡ true
    → estimate ≤ max_amount
    → more ≤ max_amount
    → require_active h tenant ≡ ok tt
    → first (is_setting tenant) db.settings ≡ some s
    → s.currency ≡ currency
    → digest other more currency ≢ digest fingerprint estimate currency
    → let now = run digest db requests in
      (reserve digest h tenant key fingerprint estimate currency now ≡ ok (row.id, now))
      × (reserve digest h tenant key other more currency now ≡ err conflict)
unfolding reserve
reserve_again digest h tenant key fingerprint other estimate more currency s requests db row b f fp
      bt bk bf bo le le' act fs cur ne =
    let now = run digest db requests in
    let (row', f', l) =
      Extends-first (has_key tenant key) db.reservations now.reservations
        (λ x y l. rw (l.tenant, l.request_key) refl) (run-Extends digest requests db b) f in
    let (s', g, c) = run-currency digest tenant currency requests db (s, fs, cur) in
    (
      ground (
        arith,
        l.fingerprint,
        l.id,
        eq_refl currency,
        eq_refl (digest fingerprint estimate currency),
      ),
      ground (
        arith,
        l.fingerprint,
        eq_refl currency,
        eq_iff row'.fingerprint (digest other more currency),
      ),
    )
