-- ===== src/Metering/Charge.antt =====
-- What an attempt of `metered_completion` (api-python/platform_runtime/usage_budget.py) leaves of its
-- reservation.
use agentic_works.Base.{
  Option, ok_injective, ◌&&◌, ◌||◌, ℕ, String, ◌≡◌, ◌≤◌, refl, Result, ok, err, Error, some, true,
  arith, leb, ◌==◌, ◌∙◌, inl, inr, Bool-cases, ap, sym,
}
use agentic_works.Base.Table.{first, first-update_self, first_sound}
use agentic_works.Host.{Host}
use agentic_works.Ledger.{
  Ledger, Reservation, Status, is_row, dispatching, uncertain, released, settled, call, max_amount,
}
use agentic_works.Budget.{log, settle_row, expire_slots}
use agentic_works.Budget.Calls.{mark_uncertain, release, settle, mark, dispatch}
use agentic_works.Budget.Balance.{is_row_sound, row_after_sweep}
use agentic_works.Transport.{
  Answer, returned, raised, request_failed, local_rejected, http_error, url_error,
  broken_connection, unclassified, not_sent, unknown, rejected, classify, Failure, Outcome,
}
use agentic_works.Budget.Admit.{Digest, reserve}
use agentic_works.Metering.{Meter, then_answer, charge_or, metered_attempt, request_key, end_call}
use agentic_works.Budget.Outcomes.{dispatch-ok}

-- The hold is given back, and nothing is charged.
abbrev IsFreed : Reservation → Type 0
IsFreed r = (r.status ≡ released) × (r.actual_micro ≡ some 0)

-- What must become of the reservation. A response is charged at its cost, and keeps the hold where
-- its receipt has no cost. A call that was not sent, or that the provider rejected, is free; and one
-- whose outcome is not known keeps its hold.
abbrev pub EndsAs : {A : Type 0} → (A → Result ℕ) → Answer A → Reservation → Type 0
EndsAs cost (returned a) r =
    ((n : ℕ) → cost a ≡ ok n → n ≤ max_amount → (r.status ≡ settled) × (r.actual_micro ≡ some n))
    × ((e : Error) → cost a ≡ err e → r.status ≡ uncertain)
EndsAs cost (raised (request_failed f)) r =
    (f.outcome ≡ unknown → r.status ≡ uncertain) × (¬ (f.outcome ≡ unknown) → IsFreed r)
EndsAs cost (raised (local_rejected code)) r = IsFreed r
EndsAs cost (raised (http_error code after)) r = IsFreed r
EndsAs cost (raised url_error) r = IsFreed r
EndsAs cost (raised broken_connection) r = r.status ≡ uncertain
EndsAs cost (raised unclassified) r = r.status ≡ uncertain

-- The row of that id has the property.
abbrev pub Reads : String → String → Ledger → (Reservation → Type 0) → Type 0
Reads t id db P = (r : Reservation) × (first (is_row t id) db.reservations ≡ some r) × P r

module _ {A : Type 0} (m : Meter A) (h : Host) (id : String) (db : Ledger) (row : Reservation)
    (f : first (is_row m.tenant id) db.reservations ≡ some row)
    (sent : row.status ≡ dispatching) where
  marked :
      (answer : Answer A)
      → Reads m.tenant id
          (then_answer db (mark_uncertain h m.tenant id db) answer).0
          (λ r. r.status ≡ uncertain)
  unfolding mark_uncertain
  marked answer =
      let done : mark_uncertain h m.tenant id db
          ≡ ok (
            tt,
            log (mark h m.tenant id uncertain db) m.tenant "budget.uncertain" "budget" (call id),
          ) =
        rw f (rw sent refl) in
      rw done (
        record row { status = uncertain; updated = h.now },
        first-update_self (is_row m.tenant id)
            (λ r. record r { status = uncertain; updated = h.now }) db.reservations (λ x p. p) f,
        refl,
      )

  settled_row :
      (actual : ℕ) (status : Status) (action actor reason : String)
      → Reads m.tenant id
          (settle_row h m.tenant row actual status action actor reason db)
          (λ r. (r.status ≡ status) × (r.actual_micro ≡ some actual))
  unfolding settle_row
  settled_row actual status action actor reason =
      let (_, same) =
        is_row_sound m.tenant id row (first_sound (is_row m.tenant id) db.reservations f) in
      rw same (
        record row { status = status; actual_micro = some actual; updated = h.now },
        first-update_self (is_row m.tenant id)
            (λ r. record r { status = status; actual_micro = some actual; updated = h.now })
            db.reservations (λ x p. p) f,
        (refl, refl),
      )

  freed :
      (reason : String) (answer : Answer A)
      → (reason == "not_sent" || reason == "rejected") ≡ true
      → Reads m.tenant id (then_answer db (release h m.tenant id reason db) answer).0 IsFreed
  unfolding release
  freed reason answer known =
      let done : release h m.tenant id reason db
          ≡ ok (tt, settle_row h m.tenant row 0 released "budget.released" "budget" reason db) =
        rw known (rw f (rw sent refl)) in
      rw done (settled_row 0 released "budget.released" "budget" reason)

  charged :
      (n : ℕ) (answer : Answer A)
      → n ≤ max_amount
      → Reads m.tenant id
          (then_answer db (settle h m.tenant id n db) answer).0
          (λ r. (r.status ≡ settled) × (r.actual_micro ≡ some n))
  unfolding settle
  charged n answer small =
      let fits : (leb 0 n && leb n max_amount) ≡ true = ground (arith, small) in
      let done : settle h m.tenant id n db
          ≡ ok (tt, settle_row h m.tenant row n settled "budget.settled" "budget" "" db) =
        rw fits (rw f (rw sent refl)) in
      rw done (settled_row n settled "budget.settled" "budget" "")

  answered :
      (a : A) (c : Result ℕ)
      → m.cost a ≡ c
      → Reads m.tenant id (charge_or m h id c a db).0 (EndsAs m.cost (returned a))
  unfolding settle
  answered a (err e) i =
      let (r, g, s) = marked (raised unclassified) in
      (r, g, ((λ n j l. absurd (cc (i, j))), (λ x j. s)))
  answered a (ok n) i = elim (Bool-cases (leb 0 n && leb n max_amount)) [
    | inl fits ↦
        let (r, g, (s, c)) = charged n (returned a) (ground (arith, fits)) in
        (
          r,
          g,
          ((λ k j l. (s, c ∙ ap some (ok_injective (sym i ∙ j)))), (λ x j. absurd (cc (i, j)))),
        )
    | inr large ↦ rw large (
      row,
      f,
      (
        (λ k j l.
            let same : n ≡ k = ok_injective (sym i ∙ j) in absurd (ground (arith, large, same, l))),
        (λ x j. absurd (cc (i, j))),
      ),
    )
  ]

  failed :
      (o : Outcome) (after : Option ℕ)
      → (let x : Failure = record { outcome = o; retry_after = after } in
          Reads m.tenant id
            (end_call m h id (raised (request_failed x)) db).0
            (EndsAs m.cost (raised (request_failed x))))
  unfolding classify
  failed not_sent after =
      let x : Failure = record { outcome = not_sent; retry_after = after } in
      let (r, g, s) = freed "not_sent" (raised (request_failed x)) refl in
      (r, g, ((λ e. absurd (cc)), (λ n. s)))
  failed unknown after =
      let x : Failure = record { outcome = unknown; retry_after = after } in
      let (r, g, s) = marked (raised (request_failed x)) in
      (r, g, ((λ e. s), (λ n. absurd (n refl))))
  failed (rejected status) after =
      let x : Failure = record { outcome = rejected status; retry_after = after } in
      let (r, g, s) = freed "rejected" (raised (request_failed x)) refl in
      (r, g, ((λ e. absurd (cc)), (λ n. s)))

  end_call-EndsAs :
      (answer : Answer A) → Reads m.tenant id (end_call m h id answer db).0 (EndsAs m.cost answer)
  unfolding classify
  end_call-EndsAs (returned a) = answered a (m.cost a) refl
  end_call-EndsAs (raised (request_failed x)) = failed x.outcome x.retry_after
  end_call-EndsAs (raised (local_rejected code)) =
      freed "rejected" (raised (local_rejected code)) refl
  end_call-EndsAs (raised (http_error code after)) =
      freed "rejected" (raised (http_error code after)) refl
  end_call-EndsAs (raised url_error) = freed "not_sent" (raised url_error) refl
  end_call-EndsAs (raised broken_connection) = marked (raised broken_connection)
  end_call-EndsAs (raised unclassified) = marked (raised unclassified)

-- A dispatched call's row.
dispatch-row :
    (h : Host) (t id : String) (held sent : Ledger)
    → dispatch h t id held ≡ ok (tt, sent)
    → Reads t id sent (λ r. r.status ≡ dispatching)
dispatch-row h t id held sent e =
    let (row, _, _, f, waits, _, _, _, _, _, eq) = dispatch-ok h t id held e in
    let swept = expire_slots h t held in
    let change : Reservation → Reservation =
      λ r. record r { status = dispatching; updated = h.now } in
    let found : first (is_row t id) (mark h t id dispatching swept).reservations
        ≡ some (change row) =
      first-update_self (is_row t id) change swept.reservations (λ x p. p)
        (row_after_sweep h t id held f (rw waits refl)) in
    rw eq (change row, found, refl)

-- An attempt of a metered call whose hold was reserved and dispatched leaves the reservation by the
-- outcome of the transport: a response is settled at its cost, if that is an amount, and marked
-- uncertain where its receipt gives no cost; a request that was not sent or that the provider rejected
-- is released and charged nothing; and where the outcome is unknown, or the exception is of no known
-- kind, the reservation is marked uncertain.
pub metered_attempt-EndsAs :
    {A : Type 0} (digest : Digest) (m : Meter A) (host : ℕ → Host) (transport : ℕ → Answer A)
    (index : ℕ) (db held sent : Ledger) (id : String)
    → reserve digest
        (host 0)
        m.tenant
        (request_key m.key index)
        m.fingerprint
        m.estimate
        m.currency
        db
      ≡ ok (id, held)
    → dispatch (host 1) m.tenant id held ≡ ok (tt, sent)
    → Reads m.tenant id
        (metered_attempt digest m host transport index db).0
        (EndsAs m.cost (transport index))
unfolding metered_attempt
metered_attempt-EndsAs digest m host transport index db held sent id r d =
    let (row, f, s) = dispatch-row (host 1) m.tenant id held sent d in
    rw (r, d) (end_call-EndsAs m (host 2) id sent row f s (transport index))
