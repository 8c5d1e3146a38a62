-- ===== src/Plans/Outcome.antt =====
-- What a tick leaves behind.
use agentic_works.Base.{
  value_error, conflict, forbidden, not_found, rate_limited, runtime_error, integrity_error,
  type_error, String, Bool, true, false, some, Result, ok, err, ◌≡◌, refl, inl, inr, arith, All,
  Result-cases, Option-cases, subst, ◌&&◌, List, ◌==◌, require-ok, not, call-ok, ◌∙◌, if◌then◌else◌,
  sym, ap,
}
use agentic_works.Engine.{
  read, write, destructive, physical, Risk, World, Db, Step, failed, refresh, is_step, StepStatus,
  Risk, uncertain, read, succeeded,
}
use agentic_works.Engine.Claim.{claim, finish, holds_claim, clip}
use agentic_works.Engine.Sound.{Sound}
use agentic_works.Plans.{
  Realm, Spec, first, Ask, Event, operator_channel, origin_of, validated, is_read,
}
use agentic_works.Plans.Dispatch.{
  handled, delivery_rejected, handler_raised, tick, Handled, with_claim, with_spec, run_step,
  end_step, dispatch_allowed, result_of, status_of, error_of, Handler, refuse_step, Others,
}
use agentic_works.Base.Table.{update_where}
use agentic_works.Base.Rows.{All-change, All-rows, All-mono}
use agentic_works.Plans.Submission.{submit, all_reach}
use agentic_works.Inbox.{is_identity}
use agentic_works.Engine.Create.{create_task-Sound}

-- What `finish` wrote.
finish-rows :
    (w : World) (t id token result : String) (status : StepStatus) (error : String) (db db' : Db)
    (u : Unit {0})
    → finish w t id token result status error db ≡ ok (u, db')
    → All (λ x. is_step id x ≡ true → x.status ≡ status) db'.steps
unfolding finish refresh
finish-rows w t id token result status error db db' u e =
    elim (Option-cases (first (holds_claim w t id token) db.steps)) [
      | inl m ↦ absurd (ground arith)
      | inr (r, f) ↦
          let change : Step → Step = λ s. record s {
            status = status;
            result = result;
            error = clip 200 error;
            claim = "";
            lease = 0;
          } in
          let same : update_where (is_step id) change db.steps ≡ db'.steps = ground arith in
          subst (All (λ (x : Step). is_step id x ≡ true → x.status ≡ status)) same (
            All-change (λ _. Unit {0}) (λ (x : Step). is_step id x ≡ true → x.status ≡ status)
              (is_step id) change db.steps (λ x m _ _. refl) (λ x m _ y. absurd (cc))
              (All-rows db.steps (λ _. tt)))
    ]

-- How a step must end, by what its handler came to: a result is a success, a definite refusal of the
-- provider a failure, and any other exception leaves it open what an external tool did, unless that
-- only reads.
abbrev pub EndsAs : Spec → Handled → StepStatus → Type 0
EndsAs spec (handled result) status = status ≡ succeeded
EndsAs spec (delivery_rejected reason) status = status ≡ failed
EndsAs spec (handler_raised name) status =
    (spec.external ≡ true → ¬ (spec.risk ≡ read) → status ≡ uncertain)
    × (spec.external ≡ false → status ≡ failed)
    × (spec.risk ≡ read → status ≡ failed)

raised-EndsAs :
    (external : Bool) (risk : Risk)
    → (let status = if external && not (is_read risk) then uncertain else failed in
        (external ≡ true → ¬ (risk ≡ read) → status ≡ uncertain)
        × (external ≡ false → status ≡ failed)
        × (risk ≡ read → status ≡ failed))
raised-EndsAs false risk = ((λ e n. absurd (cc)), (λ e. refl), (λ e. refl))
raised-EndsAs true read = ((λ e n. absurd (n refl)), (λ e. absurd (cc)), (λ e. refl))
raised-EndsAs true write = ((λ e n. refl), (λ e. absurd (cc)), (λ e. absurd (cc)))
raised-EndsAs true destructive = ((λ e n. refl), (λ e. absurd (cc)), (λ e. absurd (cc)))
raised-EndsAs true physical = ((λ e n. refl), (λ e. absurd (cc)), (λ e. absurd (cc)))

status_of-EndsAs : (spec : Spec) (o : Handled) → EndsAs spec o (status_of spec o)
status_of-EndsAs spec (handled result) = refl
status_of-EndsAs spec (delivery_rejected reason) = refl
status_of-EndsAs spec (handler_raised name) = raised-EndsAs spec.external spec.risk

end_step-status :
    (w : World) (t : String) (spec : Spec) (o : Handled) (s : Step) (db db' : Db)
    → end_step w t spec o s db ≡ (db', ok true)
    → All (λ x. is_step s.id x ≡ true → EndsAs spec o x.status) db'.steps
end_step-status w t spec o s db db' e =
    elim (Result-cases (finish w t s.id s.claim (result_of o) (status_of spec o) (error_of o) db)) [
      | inr (x, i) ↦ absurd (ground arith)
      | inl ((u, db''), i) ↦
          let same : db'' ≡ db' = ground arith in
          subst (λ (d : Db). All (λ x. is_step s.id x ≡ true → EndsAs spec o x.status) d.steps) same
            (All-mono db''.steps
              (λ x f m. subst (EndsAs spec o) (sym (f m)) (status_of-EndsAs spec o))
              (finish-rows w t s.id s.claim (result_of o) (status_of spec o) (error_of o) db db'' u
                i))
    ]

-- Only a fence that let the step through returns `True`.
ran_through :
    (w : World) (t : String) (spec : Spec) (handler : Handler) (others : Others) (s : Step)
    (db db' : Db) (fence : Result Bool)
    → run_step w t spec handler others s db fence ≡ (db', ok true)
    → (fence ≡ ok true) × (end_step w t spec (handler s db).0 s (handler s db).1 ≡ (db', ok true))
ran_through w t spec handler others s db db' (ok true) e = (refl, e)
ran_through w t spec handler others s db db' (ok false) e = absurd (ground arith)
ran_through w t spec handler others s db db' (err value_error) e = absurd (ground arith)
ran_through w t spec handler others s db db' (err conflict) e = absurd (ground arith)
ran_through w t spec handler others s db db' (err forbidden) e = absurd (ground arith)
ran_through w t spec handler others s db db' (err not_found) e = absurd (ground arith)
ran_through w t spec handler others s db db' (err rate_limited) e = absurd (ground arith)
ran_through w t spec handler others s db db' (err runtime_error) e = absurd (ground arith)
ran_through w t spec handler others s db db' (err integrity_error) e = absurd (ground arith)
ran_through w t spec handler others s db db' (err type_error) e = absurd (ground arith)

-- A tick that has claimed a step of a known tool is at the fence.
tick-run_step :
    (r : Realm) (w w' w'' : World) (tenant worker : String) (agent_of : Step → String)
    (handler : Handler) (others : Others) (db db' : Db) (s : Step) (spec : Spec)
    → claim w tenant worker "" 90 db ≡ ok (some s, db')
    → r.registry s.tool ≡ some spec
    → tick r w w' w'' tenant worker agent_of handler others db
      ≡ run_step w'' tenant spec handler others s
          (others 0 db')
          (dispatch_allowed w' tenant (agent_of s) s (others 0 db'))
unfolding tick
tick-run_step r w w' w'' tenant worker agent_of handler others db db' s spec c k =
    ap (with_claim r w' w'' tenant agent_of handler others db) c
    ∙ ap (with_spec w' w'' tenant agent_of handler others s db') k

-- A tick that returns `True` has run its handler behind the last fence, on the tables that this
-- passed, and each row of the step that it had claimed then has the status of the handler's outcome:
-- succeeded where it returned; failed where the provider definitely refused; and where it raised
-- anything else, uncertain if the tool is external and its risk is not `read`, failed if it is not
-- external or its risk is `read`.
pub tick-status :
    (r : Realm) (w w' w'' : World) (tenant worker : String) (agent_of : Step → String)
    (handler : Handler) (others : Others) (db db' db'' : Db) (s : Step) (spec : Spec)
    → claim w tenant worker "" 90 db ≡ ok (some s, db')
    → r.registry s.tool ≡ some spec
    → tick r w w' w'' tenant worker agent_of handler others db ≡ (db'', ok true)
    → (dispatch_allowed w' tenant (agent_of s) s (others 0 db') ≡ ok true)
      × All
          (λ x. is_step s.id x ≡ true → EndsAs spec (handler s (others 0 db')).0 x.status)
          db''.steps
tick-status r w w' w'' tenant worker agent_of handler others db db' db'' s spec c k e =
    let (fence, ended) =
      ran_through w'' tenant spec handler others s (others 0 db') db''
        (dispatch_allowed w' tenant (agent_of s) s (others 0 db'))
        (sym (tick-run_step r w w' w'' tenant worker agent_of handler others db db' s spec c k)
          ∙ e) in
    (
      fence,
      end_step-status w'' tenant spec (handler s (others 0 db')).0 s (handler s (others 0 db')).1
          db'' ended,
    )

-- Where the fence did not return `True`, the handler makes no difference.
unheard :
    (w : World) (t : String) (spec : Spec) (handler handler' : Handler) (others : Others) (s : Step)
    (db : Db) (fence : Result Bool)
    → ¬ (fence ≡ ok true)
    → run_step w t spec handler others s db fence ≡ run_step w t spec handler' others s db fence
unheard w t spec handler handler' others s db (ok true) n = absurd (n refl)
unheard w t spec handler handler' others s db (ok false) n = refl
unheard w t spec handler handler' others s db (err value_error) n = refl
unheard w t spec handler handler' others s db (err conflict) n = refl
unheard w t spec handler handler' others s db (err forbidden) n = refl
unheard w t spec handler handler' others s db (err not_found) n = refl
unheard w t spec handler handler' others s db (err rate_limited) n = refl
unheard w t spec handler handler' others s db (err runtime_error) n = refl
unheard w t spec handler handler' others s db (err integrity_error) n = refl
unheard w t spec handler handler' others s db (err type_error) n = refl

-- A refused step whose claim is still held is written as failed.
refused-rows :
    (w : World) (t : String) (s r : Step) (db : Db)
    → first (holds_claim w t s.id s.claim) db.steps ≡ some r
    → All (λ x. is_step s.id x ≡ true → x.status ≡ failed) (refuse_step w t s db).0.steps
unfolding finish
refused-rows w t s r db h =
    elim (Result-cases
      (finish w t s.id s.claim "{}" failed "authority_revoked_before_dispatch" db)) [
        | inr (x, i) ↦ absurd (ground (arith, h))
        | inl ((u, db'), i) ↦ rw i (
            finish-rows w t s.id s.claim "{}" failed "authority_revoked_before_dispatch" db db' u i)
      ]

-- A step of a known tool that a tick has claimed, and that the last fence does not let through, never
-- reaches its handler: the tables and the answer are the same for any two handlers, and the answer is
-- not `True`. If the fence raised `Forbidden` and the claim is still held, each row of the step has
-- then failed.
pub refused_tick :
    (r : Realm) (w w' w'' : World) (tenant worker : String) (agent_of : Step → String)
    (handler handler' : Handler) (others : Others) (db db' : Db) (s : Step) (spec : Spec)
    → claim w tenant worker "" 90 db ≡ ok (some s, db')
    → r.registry s.tool ≡ some spec
    → ¬ (dispatch_allowed w' tenant (agent_of s) s (others 0 db') ≡ ok true)
    → (tick r w w' w'' tenant worker agent_of handler others db
        ≡ tick r w w' w'' tenant worker agent_of handler' others db)
      × ¬ ((tick r w w' w'' tenant worker agent_of handler others db).1 ≡ ok true)
      × (dispatch_allowed w' tenant (agent_of s) s (others 0 db') ≡ err forbidden
          → (row : Step)
          → first (holds_claim w'' tenant s.id s.claim) (others 1 (others 0 db')).steps ≡ some row
          → All
              (λ x. is_step s.id x ≡ true → x.status ≡ failed)
              (tick r w w' w'' tenant worker agent_of handler others db).0.steps)
refused_tick r w w' w'' tenant worker agent_of handler handler' others db db' s spec c k n =
    let fence = dispatch_allowed w' tenant (agent_of s) s (others 0 db') in
    let here = tick-run_step r w w' w'' tenant worker agent_of handler others db db' s spec c k in
    let there = tick-run_step r w w' w'' tenant worker agent_of handler' others db db' s spec c k in
    (
      here ∙ unheard w'' tenant spec handler handler' others s (others 0 db') fence n ∙ sym there,
      λ yes.
          let x = run_step w'' tenant spec handler others s (others 0 db') fence in
          n
            (ran_through w'' tenant spec handler others s (others 0 db') x.0 fence (
              ap (λ (b : Result Bool). (x.0, b))
                (sym (ap (λ (y : Db × Result Bool). y.1) here) ∙ yes))).0,
      λ no row held.
          subst
            (λ (y : Db × Result Bool).
              All (λ x. is_step s.id x ≡ true → x.status ≡ failed) y.0.steps)
            (sym (here ∙ ap (run_step w'' tenant spec handler others s (others 0 db')) no))
            (refused-rows w'' tenant s row (others 1 (others 0 db')) held),
    )

-- A submitted plan keeps the tables sound.
pub submit-Sound :
    (r : Realm) (w : World) (tenant channel key agent : String) (asks : List Ask) (actor : String)
    (events : List Event) (db : Db)
    → Sound db
    → (id : String) (db' : Db)
    → submit r w tenant channel key agent asks actor events db ≡ ok (id, db')
    → Sound db'
unfolding submit
submit-Sound r w tenant channel key agent asks actor events db v id db' e =
    let (_, e1) =
      require-ok
        (is_identity tenant
          && (is_identity channel && (is_identity key && (is_identity agent && is_identity actor))))
        value_error _ e in
    let (_, e2) = require-ok (not (channel == operator_channel)) forbidden _ e1 in
    let origin = origin_of r tenant channel key events in
    let (ps, _, e3) = call-ok (validated r tenant agent asks origin) _ e2 in
    let (_, e4) = require-ok (all_reach r tenant agent channel origin asks) forbidden _ e3 in
    create_task-Sound w tenant channel key agent (r.plan_digest agent asks) actor ps "" db v id db'
      e4
