-- ===== src/Budget/Outcomes.antt =====
-- What a method has done when it returns: the facts that its checks left, and the tables it wrote.
use agentic_works.Base.{
  ℕ, ◌+◌, ◌≤◌, ◌<◌, String, ◌≡◌, ◌⊎◌, inl, inr, true, none, some, arith, eq_iff, ok, Option-cases,
  [], ◌∷◌, ◌++◌,
}
use agentic_works.Base.Table.{first, count, update_where}
use agentic_works.Host.{Host, owners}
use agentic_works.Ledger.{
  reserved, dispatching, uncertain, cancelled, released, settled, reconciled, Setting, Account,
  Reservation, Ledger, call, held, evidence, is_held, is_setting, is_account, is_row, has_key,
}
use agentic_works.Budget.{log, slots, expire_slots, settle_row}
use agentic_works.Budget.Admit.{
  configure, put_setting, same_currency, next_generation, open_account, has_room, hold, admit,
  reserve, Digest,
}
use agentic_works.Budget.Calls.{mark, dispatch, mark_uncertain, cancel, release, settle, reconcile}

-- The row that `reserve` inserts.
abbrev pub new_row : Host → String → String → String → ℕ → Reservation
new_row h tenant key full estimate = record {
  tenant = tenant;
  id = h.fresh;
  request_key = key;
  fingerprint = full;
  period = h.period;
  amount_micro = estimate;
  actual_micro = none;
  status = reserved;
  created = h.now;
  updated = h.now;
}

-- The tables with the hold on the account and the new row, before the audit.
abbrev pub with_hold : Host → String → String → String → ℕ → ℕ → Ledger → Ledger
with_hold h tenant key full estimate limit db = record db {
  accounts =
      update_where (has_room tenant h.period estimate limit) (hold estimate)
        (open_account tenant h.period db.accounts);
  reservations = db.reservations ++ new_row h tenant key full estimate ∷ [];
}

pub admit-ok :
    (h : Host) (tenant key full : String) (estimate : ℕ) (s : Setting) (db : Ledger) {i : String}
    {db' : Ledger}
    → admit h tenant key full estimate s db ≡ ok (i, db')
    → let swept = expire_slots h tenant db in
      (slots h tenant swept < s.max_inflight)
      × (count
            (has_room tenant h.period estimate s.limit_micro)
            (open_account tenant h.period swept.accounts)
          ≡ 1)
      × (count (is_row tenant h.fresh) swept.reservations ≡ 0)
      × (count (has_key tenant key) swept.reservations ≡ 0)
      × (i ≡ h.fresh)
      × (db'
          ≡ log
              (with_hold h tenant key full estimate s.limit_micro swept)
              tenant
              "budget.reserved"
              "budget"
              (held h.fresh estimate h.period))
unfolding admit
admit-ok h tenant key full estimate s db e = ground arith

-- A call of `reserve` that returns has found its key, or has admitted a new hold.
pub reserve-ok :
    (digest : Digest) (h : Host) (tenant key fingerprint : String) (estimate : ℕ)
    (currency : String) (db : Ledger) {i : String} {db' : Ledger}
    → reserve digest h tenant key fingerprint estimate currency db ≡ ok (i, db')
    → (s : Setting) × (first (is_setting tenant) db.settings ≡ some s)
      × (((old : Reservation) × (first (has_key tenant key) db.reservations ≡ some old)
            × (old.fingerprint ≡ digest fingerprint estimate currency)
            × (i ≡ old.id)
            × (db' ≡ db))
          ⊎ ((first (has_key tenant key) db.reservations ≡ none)
              × (admit h tenant key (digest fingerprint estimate currency) estimate s db
                  ≡ ok (i, db'))))
unfolding reserve
reserve-ok digest h tenant key fingerprint estimate currency db {i} {db'} e =
    elim (Option-cases (first (is_setting tenant) db.settings)) [
      | inl n ↦ absurd (ground arith)
      | inr (s, f) ↦ (
        s,
        f,
        elim (Option-cases (first (has_key tenant key) db.reservations)) [
          | inl fresh ↦ inr (fresh, ground arith)
          | inr (old, g) ↦ inl (
            old,
            g,
            ground (arith, eq_iff old.fingerprint (digest fingerprint estimate currency)),
            ground arith,
            ground arith,
          )
        ],
      )
    ]

pub dispatch-ok :
    (h : Host) (tenant id : String) (db : Ledger) {db' : Ledger}
    → dispatch h tenant id db ≡ ok (tt, db')
    → (row : Reservation) × (s : Setting) × (a : Account) × (first
          (is_row tenant id)
          db.reservations
        ≡ some row)
      × (row.status ≡ reserved)
      × (row.period ≡ h.period)
      × (first (is_setting tenant) db.settings ≡ some s)
      × (first (is_account tenant row.period) db.accounts ≡ some a)
      × (a.spent_micro + a.reserved_micro ≤ s.limit_micro)
      × (slots h tenant (expire_slots h tenant db) ≤ s.max_inflight)
      × (db'
          ≡ log
              (mark h tenant id dispatching (expire_slots h tenant db))
              tenant
              "budget.dispatched"
              "budget"
              (call id))
unfolding dispatch
dispatch-ok h tenant id db {db'} e =
    elim (Option-cases (first (is_row tenant id) db.reservations)) [
      | inl n ↦ absurd (ground arith)
      | inr (row, f) ↦ elim (Option-cases (first (is_setting tenant) db.settings)) [
        | inl n ↦ absurd (ground arith)
        | inr (s, g) ↦ elim (Option-cases (first (is_account tenant row.period) db.accounts)) [
          | inl n ↦ absurd (ground arith)
          | inr (a, k) ↦ (
            row,
            s,
            a,
            f,
            ground arith,
            ground (arith, eq_iff row.period h.period),
            g,
            k,
            ground arith,
            ground arith,
            ground arith,
          )
        ]
      ]
    ]

-- The other methods find the row first: they leave the tables alone, or the row had the status
-- that they ask for, and it is marked or settled.
pub mark_uncertain-ok :
    (h : Host) (tenant id : String) (db : Ledger) {db' : Ledger}
    → mark_uncertain h tenant id db ≡ ok (tt, db')
    → (row : Reservation) × (first (is_row tenant id) db.reservations ≡ some row)
      × (((row.status ≡ uncertain) × (db' ≡ db))
          ⊎ ((row.status ≡ dispatching)
              × (db'
                  ≡ log
                      (mark h tenant id uncertain db)
                      tenant
                      "budget.uncertain"
                      "budget"
                      (call id))))
unfolding mark_uncertain
mark_uncertain-ok h tenant id db e =
    elim (Option-cases (first (is_row tenant id) db.reservations)) [
      | inl n ↦ absurd (ground arith)
      | inr (row, f) ↦ (row, f, ground arith)
    ]

pub cancel-ok :
    (h : Host) (tenant id : String) (db : Ledger) {db' : Ledger}
    → cancel h tenant id db ≡ ok (tt, db')
    → (row : Reservation) × (first (is_row tenant id) db.reservations ≡ some row)
      × (((row.status ≡ cancelled) × (db' ≡ db))
          ⊎ ((row.status ≡ reserved)
              × (db' ≡ settle_row h tenant row 0 cancelled "budget.cancelled" "budget" "" db)))
unfolding cancel
cancel-ok h tenant id db e = elim (Option-cases (first (is_row tenant id) db.reservations)) [
  | inl n ↦ absurd (ground arith)
  | inr (row, f) ↦ (row, f, ground arith)
]

pub release-ok :
    (h : Host) (tenant id reason : String) (db : Ledger) {db' : Ledger}
    → release h tenant id reason db ≡ ok (tt, db')
    → (row : Reservation) × (first (is_row tenant id) db.reservations ≡ some row)
      × (((row.status ≡ released) × (db' ≡ db))
          ⊎ ((row.status ≡ dispatching)
              × (db' ≡ settle_row h tenant row 0 released "budget.released" "budget" reason db)))
unfolding release
release-ok h tenant id reason db e =
    elim (Option-cases (first (is_row tenant id) db.reservations)) [
      | inl n ↦ absurd (ground arith)
      | inr (row, f) ↦ (row, f, ground arith)
    ]

pub settle-ok :
    (h : Host) (tenant id : String) (actual : ℕ) (db : Ledger) {db' : Ledger}
    → settle h tenant id actual db ≡ ok (tt, db')
    → (row : Reservation) × (first (is_row tenant id) db.reservations ≡ some row)
      × (((row.status ≡ settled) × (row.actual_micro ≡ some actual) × (db' ≡ db))
          ⊎ ((row.status ≡ dispatching)
              × (db' ≡ settle_row h tenant row actual settled "budget.settled" "budget" "" db)))
unfolding settle
settle-ok h tenant id actual db e = elim (Option-cases (first (is_row tenant id) db.reservations)) [
  | inl n ↦ absurd (ground arith)
  | inr (row, f) ↦ (row, f, ground arith)
]

pub reconcile-ok :
    (h : Host) (tenant id actor : String) (actual : ℕ) (text : String) (db : Ledger) {db' : Ledger}
    → reconcile h tenant id actor actual text db ≡ ok (tt, db')
    → (row : Reservation) × (first (is_row tenant id) db.reservations ≡ some row)
      × (h.authority tenant "web" actor owners ≡ true)
      × (is_held row.status ≡ true)
      × (db'
          ≡ log
              (settle_row h tenant row actual reconciled "budget.reconciled" actor "" db)
              tenant
              "budget.reconciliation_evidence"
              actor
              (evidence id text))
unfolding reconcile
reconcile-ok h tenant id actor actual text db e =
    elim (Option-cases (first (is_row tenant id) db.reservations)) [
      | inl n ↦ absurd (ground arith)
      | inr (row, f) ↦ (row, f, ground arith, ground arith, ground arith)
    ]

-- A configured budget: the tenant's currency is the old one, and only the settings change.
pub configure-ok :
    (h : Host) (tenant actor currency : String) (limit_micro max_inflight : ℕ) (db : Ledger)
    {db' : Ledger}
    → configure h tenant actor currency limit_micro max_inflight db ≡ ok (tt, db')
    → let old = first (is_setting tenant) db.settings in
      (h.authority tenant "web" actor owners ≡ true)
      × (same_currency currency old ≡ true)
      × (db'.settings
          ≡ put_setting
              (record {
                tenant = tenant;
                currency = currency;
                limit_micro = limit_micro;
                max_inflight = max_inflight;
                generation = next_generation old;
              })
              db.settings)
      × (db'.accounts ≡ db.accounts)
      × (db'.reservations ≡ db.reservations)
unfolding configure
configure-ok h tenant actor currency limit_micro max_inflight db e = ground arith
