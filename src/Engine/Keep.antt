-- ===== src/Engine/Keep.antt =====
-- Every operation keeps the invariant of tasks and steps.
use agentic_works.Base.{
  eq_iff, ℕ, String, ◌≡◌, refl, inl, inr, true, ◌||◌, Option, arith, ok, Option-cases, Bool-cases,
  not, subst, Bool, ◌&&◌, some, ◌==◌, subst₂,
}
use agentic_works.Base.Rows.{All-first, All-mono}
use agentic_works.Base.Table.{update_where, first, weight, select, first_sound}
use agentic_works.Engine.{
  Db, refresh, World, Step, StepStatus, is_step, stopped, log, put_step, staff, is_task, is_step_of,
}
use agentic_works.Engine.Operate.{reconcile, cancel, is_uncertain, is_settlement, stopped_status}
use agentic_works.Engine.Claim.{
  finish, claim, in_order, ready, expire_steps, is_expired, holds_claim, clip, is_waiting,
  outcome_action, is_outcome, is_open,
}
use agentic_works.Engine.Sound.{
  first_narrow, Sound, one_step-Sound, AtMostOnce, count_narrow, task_steps-Sound, IsSound,
}
use agentic_works.Engine.Grant.{LoopState, claim_loop-Sound}
use agentic_works.Engine.Loop.{ready-All, in_order-All, steps_of, in_order-count, ready-count}
use agentic_works.Engine.Expire.{rows-Listed, sweep-Sound, Listed}

pub start-LoopState :
    (t device : String) (db : Db)
    → Sound db
    → LoopState t (in_order (ready t device db.tasks db.steps db.steps)) db
start-LoopState t device db v =
    let cs = ready t device db.tasks db.steps db.steps in
    let known = ready-All t device db.tasks db.steps db.steps (rows-Listed db.steps v.ids) in
    record {
      sound = v;
      listed = in_order-All (Listed db.steps) cs (All-mono (steps_of cs) (λ s p. p.0) known);
      mine =
          in_order-All (λ s. (s.tenant ≡ t) × (is_waiting s.status ≡ true)) cs
            (All-mono (steps_of cs)
              (λ s p. (ground (arith, p.1, eq_iff s.tenant t), ground (arith, p.1))) known);
      once = λ i. omega (
        arith,
        in_order-count (weight (is_step i) (λ (_ : Step). 1)) cs,
        ready-count i t device db.tasks db.steps db.steps,
        v.ids i,
      );
    }

pub claim-Sound :
    (w : World) (t worker device : String) (seconds : ℕ) (db : Db)
    → Sound db
    → (granted : Option Step) (db' : Db) → claim w t worker device seconds db ≡ ok (granted, db')
    → Sound db'
unfolding claim
claim-Sound w t worker device seconds db v granted db' e =
    let swept = expire_steps t (select (is_expired t w.now) db.steps) db in
    let sv : Sound swept = sweep-Sound t w.now db v in
    elim (Bool-cases (stopped t swept.freezes || not (w.authority t "" "" staff))) [
      | inl m ↦ let same : swept ≡ db' = ground arith in subst Sound same sv
      | inr m ↦
          claim_loop-Sound w t worker seconds
            (in_order (ready t device swept.tasks swept.steps swept.steps)) swept granted db'
            (start-LoopState t device swept sv) (ground arith)
    ]

-- The row that a query with an id finds is the row of that id.
pub row_of :
    (id : String) (q : Step → Bool) (db : Db) {r : Step}
    → Sound db
    → first q db.steps ≡ some r
    → r.id ≡ id
    → first (is_step id) db.steps ≡ some r
row_of id q db {r} v f e =
    subst (λ i. first (is_step i) db.steps ≡ some r) e
      (All-first (Listed db.steps) q db.steps (rows-Listed db.steps v.ids) f)

pub finish-Sound :
    (w : World) (t id token result : String) (status : StepStatus) (error : String) (db : Db)
    → Sound db
    → (u : Unit {0}) (db' : Db) → finish w t id token result status error db ≡ ok (u, db')
    → Sound db'
unfolding finish refresh
finish-Sound w t id token result status error db v u db' e =
    elim (Option-cases (first (holds_claim w t id token) db.steps)) [
      | inl n ↦ absurd (ground arith)
      | inr (r, f) ↦
          let held = first_sound (holds_claim w t id token) db.steps f in
          let outcome : is_outcome status ≡ true = ground arith in
          let change : Step → Step = λ s. record s {
            status = status;
            result = result;
            error = clip 200 error;
            claim = "";
            lease = 0;
          } in
          let same : refresh t r.task
                (log (put_step id change db) t r.task (outcome_action status) r.worker id)
              ≡ db' =
            ground arith in
          let kept : Sound (refresh t r.task (put_step id change db)) =
            one_step-Sound t r.task (is_step id) change (λ s. refl) (λ s. refl) (λ s. refl) db v
              (row_of id (holds_claim w t id token) db v f (ground (arith, held, eq_iff r.id id)))
              (v.ids id) (ground (arith, held, eq_iff r.tenant t)) refl
              (λ o. (o.0, λ x. ground (arith, outcome, x))) in
          subst Sound same (record { ids = kept.ids; once = kept.once; rolled = kept.rolled })
    ]

-- A step that is found by tenant and id, changed and its task refreshed.
pub named-Sound :
    (t id : String) (f : Step → Step) (db : Db) (v : Sound db) {r : Step}
    → ((s : Step) → (f s).id ≡ s.id)
    → ((s : Step) → (f s).tenant ≡ s.tenant)
    → ((s : Step) → (f s).task ≡ s.task)
    → first (is_step id) db.steps ≡ some r
    → r.tenant ≡ t
    → (AtMostOnce r → AtMostOnce (f r))
    → Sound (
        refresh t r.task
          (record db { steps = update_where (λ x. x.tenant == t && x.id == id) f db.steps }))
named-Sound t id f db v {r} ki kt kx e rt h =
    one_step-Sound t r.task (λ x. x.tenant == t && x.id == id) f ki kt kx db v
      (first_narrow id (λ x. x.tenant == t && x.id == id) db.steps (λ s m. ground arith) e
        (ground (arith, rt, eq_iff r.tenant t, first_sound (is_step id) db.steps e)))
      (omega (
        arith,
        count_narrow id (λ x. x.tenant == t && x.id == id) db.steps (λ s m. ground arith),
        v.ids id,
      ))
      rt refl h

pub reconcile-Sound :
    (w : World) (t id actor role : String) (outcome : StepStatus) (evidence : String) (db : Db)
    → Sound db
    → (u : Unit {0}) (db' : Db) → reconcile w t id actor role outcome evidence db ≡ ok (u, db')
    → Sound db'
unfolding reconcile refresh
reconcile-Sound w t id actor role outcome evidence db v u db' e =
    elim (Option-cases (first (is_uncertain t id) db.steps)) [
      | inl n ↦ absurd (ground arith)
      | inr (r, f) ↦
          let held = first_sound (is_uncertain t id) db.steps f in
          let done : is_settlement outcome ≡ true = ground arith in
          let change : Step → Step =
            λ s. record s { status = outcome; error = "operator_reconciled" } in
          let same : refresh t r.task (
                log
                  (record db {
                    steps = update_where (λ x. x.tenant == t && x.id == id) change db.steps;
                  })
                  t r.task "step.reconciled" actor id)
              ≡ db' =
            ground arith in
          let kept =
            named-Sound t id change db v (λ s. refl) (λ s. refl) (λ s. refl)
              (row_of id (is_uncertain t id) db v f (ground (arith, held, eq_iff r.id id)))
              (ground (arith, held, eq_iff r.tenant t))
              (λ o. (o.0, λ x. ground (arith, done, x))) in
          subst Sound same (record { ids = kept.ids; once = kept.once; rolled = kept.rolled })
    ]

pub cancel-Sound :
    (w : World) (t id actor : String) (db : Db)
    → Sound db
    → (u : Unit {0}) (db' : Db) → cancel w t id actor db ≡ ok (u, db')
    → Sound db'
unfolding cancel refresh
cancel-Sound w t id actor db v u db' e = elim (Option-cases (first (is_task t id) db.tasks)) [
  | inl n ↦ absurd (ground arith)
  | inr (k, f) ↦
      let change : Step → Step = λ s. record s { status = stopped_status s.status; claim = "" } in
      let q : Step → Bool = λ s. is_step_of t id s && is_open s.status in
      let same : (refresh t id (record db { steps = update_where q change db.steps })).tasks
          ≡ db'.tasks =
        ground arith in
      let same' : (refresh t id (record db { steps = update_where q change db.steps })).steps
          ≡ db'.steps =
        ground arith in
      let kept : Sound (refresh t id (record db { steps = update_where q change db.steps })) =
        task_steps-Sound t id q change (λ s. refl) (λ s. refl) (λ s. refl) db v
          (λ s m. (ground (arith, m, eq_iff s.tenant t), ground (arith, m, eq_iff s.task id)))
          (λ s m o. (o.0, λ x. ground (arith, x))) in
      subst₂ IsSound same same' kept
]
