-- ===== src/Engine/Contract.antt =====
-- What a step that `claim` grants has passed: the fences of its tenant, its turn in the task, and the
-- second check of its plan, its submitter and its approval.
use agentic_works.Base.{
  value_error, conflict, forbidden, not_found, rate_limited, runtime_error, integrity_error,
  type_error, ℕ, String, ◌≡◌, ◌≤◌, ◌<◌, refl, ◌∙◌, inl, inr, true, ◌&&◌, Option, none, some, List,
  [], ◌∷◌, arith, ok, All, eq_iff, Result-cases, ap, false, Error, sym, eq_refl,
}
use agentic_works.Base.Table.{first, count, select}
use agentic_works.Engine.{
  Approval, Candidate, Db, Step, World, is_step, staff, rejected, put_step, refresh,
  waiting_approval, refresh, stopped,
}
use agentic_works.Engine.Claim.{
  claim_loop, verdict, approval_verdict, is_approval, is_approved, approvers, claimed, retire_step,
  is_undecided, Verdict-cases, is_inactive, is_invalid, is_wait, is_run, is_raised,
  validation_error, run, expire_step, is_expired, fail_step, run, expire_steps, claim, ready,
  in_order,
}
use agentic_works.Engine.Loop.{steps_of}
use agentic_works.Engine.Joined.{IsCandidate, in_order-Each, ready-Each}
use agentic_works.Base.Rows.{first-update_disjoint, All-rows}
use agentic_works.Engine.Sound.{Sound}
use agentic_works.Engine.Expire.{sweep-Sound, rows-Listed}
use agentic_works.Engine.Keep.{start-LoopState}
use agentic_works.Engine.Fences.{expire-freezes}

-- The second check of a candidate passed.
pub record IsPermitted (w : World) (t : String) (c : Candidate) (approvals : List Approval)
    : Type 0 where
  pub parent : w.task_parent t c.step.task ≡ true
  pub creator : w.authority t c.channel c.creator staff ≡ true
  pub plan : w.validated c ≡ ok c.step.fingerprint
  pub approval :
      c.step.approval_needed ≡ true
      → (a : Approval) × (first (is_approval t c.step.id) approvals ≡ some a)
        × (is_approved a ≡ true)
        × (a.fingerprint ≡ c.step.fingerprint)
        × (w.now < a.expires)
        × (w.authority t "approval" a.actor (approvers (w.policy t c.agent)) ≡ true)

approval_of :
    (w : World) (t : String) (c : Candidate) (o : Option Approval)
    → approval_verdict w t c o ≡ run
    → (a : Approval) × (o ≡ some a)
      × (is_approved a ≡ true)
      × (a.fingerprint ≡ c.step.fingerprint)
      × (w.now < a.expires)
      × (w.authority t "approval" a.actor (approvers (w.policy t c.agent)) ≡ true)
unfolding approval_verdict
approval_of w t c none e = absurd (ground (arith, e))
approval_of w t c (some a) e = (
  a,
  refl,
  ground arith,
  ground (arith, eq_iff a.fingerprint c.step.fingerprint),
  ground arith,
  ground arith,
)

refused : (e : Error) → ¬ (validation_error e ≡ run)
refused value_error e = cc
refused conflict e = cc
refused forbidden e = cc
refused not_found e = cc
refused rate_limited e = cc
refused runtime_error e = cc
refused integrity_error e = cc
refused type_error e = cc

run-IsPermitted :
    (w : World) (t : String) (c : Candidate) (db : Db)
    → verdict w t c db ≡ run
    → IsPermitted w t c db.approvals
unfolding verdict
run-IsPermitted w t c db e = elim (Result-cases (w.validated c)) [
  | inr (x, i) ↦ absurd (refused x (ground (arith, e)))
  | inl (full, i) ↦
      let same : full ≡ c.step.fingerprint = ground (arith, eq_iff full c.step.fingerprint) in
      record {
        parent = ground arith;
        creator = ground arith;
        plan = i ∙ ap ok same;
        approval =
            λ n. approval_of w t c (first (is_approval t c.step.id) db.approvals) (ground arith);
      }
]

-- The approvals of these steps read as before.
abbrev Undisturbed : String → List Approval → List Approval → List Step → Type 0
Undisturbed t xs ys = All (λ s. first (is_approval t s.id) ys ≡ first (is_approval t s.id) xs)

retire-Undisturbed :
    (w : World) (t : String) (s : Step) (xs : List Approval) (db : Db) (ss : List Step)
    → count (is_step s.id) ss ≡ 0
    → Undisturbed t xs db.approvals ss
    → Undisturbed t xs (retire_step w t s db).approvals ss
unfolding refresh
retire-Undisturbed w t s xs db [] z a = tt
retire-Undisturbed w t s xs db (r ∷ ss) z a = (
  first-update_disjoint (is_approval t r.id) (λ b. is_approval t s.id b && is_undecided b)
        (λ b. record b { status = rejected; actor = "agent-loop"; decided = some w.now })
        db.approvals
        (λ b m. ground (arith, eq_iff b.step s.id, eq_iff b.step r.id, eq_iff r.id s.id))
        (λ b. refl)
      ∙ a.0,
  retire-Undisturbed w t s xs db ss (ground arith) a.1,
)

undisturbed_IsPermitted :
    (w : World) (t : String) (c : Candidate) (xs ys : List Approval)
    → first (is_approval t c.step.id) ys ≡ first (is_approval t c.step.id) xs
    → IsPermitted w t c ys
    → IsPermitted w t c xs
undisturbed_IsPermitted w t c xs ys e v = record {
  parent = v.parent;
  creator = v.creator;
  plan = v.plan;
  approval = λ n.
      let (a, f, decided, same, live, who) = v.approval n in
      (a, sym e ∙ f, decided, same, live, who);
}

claim_loop-IsPermitted :
    (P : Candidate → Type 0) (w : World) (t worker : String) (seconds : ℕ) (xs : List Approval)
    (cs : List Candidate) (db : Db)
    → ((i : String) → count (is_step i) (steps_of cs) ≤ 1)
    → Undisturbed t xs db.approvals (steps_of cs)
    → All P cs
    → (s : Step) (db' : Db) → claim_loop w t worker seconds cs db ≡ ok (some s, db')
    → (c : Candidate) × P c × IsPermitted w t c xs × (s ≡ claimed w worker seconds c.step)
unfolding claim_loop refresh
claim_loop-IsPermitted P w t worker seconds xs [] db u a p s db' e = absurd (ground arith)
claim_loop-IsPermitted P w t worker seconds xs (c ∷ cs) db u a p s db' e =
    let rest : (i : String) → count (is_step i) (steps_of cs) ≤ 1 = λ i. ground (arith, u i) in
    elim (Verdict-cases (verdict w t c db)) [
      | is_inactive m ↦
          claim_loop-IsPermitted P w t worker seconds xs cs (retire_step w t c.step db) rest
            (retire-Undisturbed w t c.step xs db (steps_of cs)
              (ground (arith, u c.step.id, eq_refl c.step.id)) a.1)
            p.1 s db' (ground arith)
      | is_invalid error m ↦
          claim_loop-IsPermitted P w t worker seconds xs cs (fail_step t c.step error db) rest a.1
            p.1 s db' (ground arith)
      | is_wait m ↦
          claim_loop-IsPermitted P w t worker seconds xs cs
            (refresh t c.step.task
              (put_step c.step.id (λ r. record r { status = waiting_approval }) db))
            rest a.1 p.1 s db' (ground arith)
      | is_run m ↦ (
        c,
        p.0,
        undisturbed_IsPermitted w t c xs db.approvals a.0 (run-IsPermitted w t c db m),
        ground arith,
      )
      | is_raised error m ↦ absurd (ground arith)
    ]

expire-approvals :
    (t : String) (ss : List Step) (db : Db) → (expire_steps t ss db).approvals ≡ db.approvals
unfolding expire_steps refresh
expire-approvals t [] db = refl
expire-approvals t (s ∷ ss) db = expire-approvals t ss (expire_step t s db)

-- A step that `claim` grants on sound tables was, once the expired leases were given up, the row of
-- its id: the tenant's, on the asked device, queued or waiting for approval, and behind no step of
-- its task that has not succeeded. Its task is open, and the agent, the submitter, the channel and the
-- key that the second check reads are that task's. The tenant is not frozen, its agent run and that
-- submitter are still authorised, its plan was validated again to the fingerprint that it was submitted with, and,
-- if it needs an approval, there is one for that fingerprint, approved, unexpired, and by an actor
-- who may still approve.
pub claim-IsPermitted :
    (w : World) (t worker device : String) (seconds : ℕ) (db : Db)
    → Sound db
    → (s : Step) (db' : Db) → claim w t worker device seconds db ≡ ok (some s, db')
    → (c : Candidate) × (s ≡ claimed w worker seconds c.step)
      × IsCandidate t device
          (expire_steps t (select (is_expired t w.now) db.steps) db).tasks
          (expire_steps t (select (is_expired t w.now) db.steps) db).steps
          c
      × (stopped t db.freezes ≡ false)
      × IsPermitted w t c db.approvals
unfolding claim
claim-IsPermitted w t worker device seconds db v s db' e =
    let swept = expire_steps t (select (is_expired t w.now) db.steps) db in
    let sv : Sound swept = sweep-Sound t w.now db v in
    let cs = ready t device swept.tasks swept.steps swept.steps in
    let P : Candidate → Type 0 = IsCandidate t device swept.tasks swept.steps in
    let loop = start-LoopState t device swept sv in
    let calm : Undisturbed t db.approvals swept.approvals (steps_of (in_order cs)) =
      All-rows (steps_of (in_order cs)) (λ r.
        ap (first (is_approval t r.id))
          (expire-approvals t (select (is_expired t w.now) db.steps) db)) in
    let active : stopped t swept.freezes ≡ false = ground arith in
    let (c, p, permitted, same) =
      claim_loop-IsPermitted P w t worker seconds db.approvals (in_order cs) swept loop.once calm
        (in_order-Each P cs (
          ready-Each t device swept.tasks swept.steps swept.steps (rows-Listed swept.steps sv.ids)))
        s db' (ground arith) in
    (
      c,
      same,
      p,
      rw (sym (expire-freezes t (select (is_expired t w.now) db.steps) db)) active,
      permitted,
    )
