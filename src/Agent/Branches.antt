-- ===== src/Agent/Branches.antt =====
-- The branches of `_reserve` and `_commit` of api-python/platform_runtime/agent_loop.py: a property
-- of the state before, and of every state that a branch reaches, is one of the state after.
use agentic_works.Engine
use agentic_works.Agent.Machine.{is_stop, is_planning, is_answer}
use agentic_works.Agent.{
  planning, pending, waiting_task, succeeded, needs_input, escalated, uncertain, cancelled, final,
  question, malformed, tool_call, Office, Desk, Run, RunStatus, is_active, stop, Step, Decision,
  StepStatus, leb, is_open, Args, observations,
}
use agentic_works.Agent.Commit.{
  decided, failed, reserve_repair, commit_answer, check_decision, commit_tool, rejected_decision,
  decide, Outcome, with_history, Proposal, is_repairable, is_rejection, with_result, commit_held,
  has_authority, committed,
}
use agentic_works.Base.{
  ◌<◌, String, ◌≡◌, refl, inl, inr, Bool, true, false, ◌&&◌, ◌||◌, Option, none, some, List, [],
  arith, if◌then◌else◌, Error, Result, ok, err, Bool-cases, then-ok, subst, ltb, ok_injective,
  Result-cases,
}
use agentic_works.Agent.Reserve.{
  reserve_call, due_run, Reserved, thaw, look_at, run_status, after_task,
}
use agentic_works.Engine.{stopped, staff}

module _ (P : Office → Type 0) (d : Desk) (r : Run) (o : Office) (same : P o)
    (stopping : (status : RunStatus) (reason : String)
      → is_active r.status ≡ true
      → is_stop status ≡ true
      → P (stop d.world r status reason "agent-loop" o)) where
  module _
      (calling : (seen : List Step)
        → is_active r.status ≡ true
        → is_planning r.status ≡ false
        → r.calls < r.max_calls
        → P (reserve_call d r (ok seen) o).1) where
    reserve_call_branches :
        (seen : Result (List Step))
        → is_active r.status ≡ true
        → is_planning r.status ≡ false
        → r.calls < r.max_calls
        → P (reserve_call d r seen o).1
    reserve_call_branches (err x) live idle left = stopping _ _ live refl
    reserve_call_branches (ok seen) live idle left = calling seen live idle left

    due_run_branches :
        is_active r.status ≡ true → is_planning r.status ≡ false → P (due_run d r o).1
    due_run_branches live idle = elim (Bool-cases (leb r.max_calls r.calls)) [
      | inl c ↦ rw c (stopping _ _ live refl)
      | inr c ↦ rw c (reserve_call_branches (observations d r o) live idle (ground (arith, c)))
    ]

    run_status-is_stop : (s : StepStatus) → is_stop (run_status s) ≡ true
    run_status-is_stop s = ground arith

    after_task_branches :
        (s : Option StepStatus)
        → is_active r.status ≡ true
        → is_planning r.status ≡ false
        → P (after_task d r s o).1
    after_task_branches none live idle = stopping _ _ live refl
    after_task_branches (some s) live idle = elim (Bool-cases (is_open s)) [
      | inl c ↦ rw c same
      | inr c ↦ elim (Bool-cases (Engine.same_status s Engine.succeeded)) [
        | inl b ↦ rw c (rw b (due_run_branches live idle))
        | inr b ↦ rw c (rw b (stopping _ _ live (run_status-is_stop s)))
      ]
    ]

    stopped_branches :
        (x : Reserved × Office)
        → P x.1
        → P (if stopped r.tenant o.db.freezes then ((false, none), o) else x).1
    stopped_branches x h = elim (Bool-cases (stopped r.tenant o.db.freezes)) [
      | inl c ↦ rw c same
      | inr c ↦ rw c h
    ]

    -- `status` is the row's
    thaw_branches :
        (status : RunStatus)
        → status ≡ r.status
        → is_active r.status ≡ true
        → P (thaw d r status o).1
    thaw_branches planning m live = elim (Bool-cases (leb r.lease d.world.now)) [
      | inl c ↦ rw c (stopping _ _ live refl)
      | inr c ↦ rw c same
    ]
    thaw_branches waiting_task m live =
        stopped_branches _ (after_task_branches _ live (ground (arith, m)))
    thaw_branches pending m live = stopped_branches _ (due_run_branches live (ground (arith, m)))
    thaw_branches succeeded m live = stopped_branches _ (due_run_branches live (ground (arith, m)))
    thaw_branches needs_input m live =
        stopped_branches _ (due_run_branches live (ground (arith, m)))
    thaw_branches escalated m live = stopped_branches _ (due_run_branches live (ground (arith, m)))
    thaw_branches uncertain m live = stopped_branches _ (due_run_branches live (ground (arith, m)))
    thaw_branches cancelled m live = stopped_branches _ (due_run_branches live (ground (arith, m)))

    pub look_at_branches : P (look_at d r o).1
    look_at_branches = elim (Bool-cases (is_active r.status)) [
      | inr c ↦ rw c same
      | inl live ↦ elim (Bool-cases (leb r.deadline d.world.now)) [
        | inl late ↦ rw live (rw late (stopping _ _ live refl))
        | inr late ↦ elim (Bool-cases (d.world.authority r.tenant r.channel r.actor staff)) [
          | inr a ↦ rw live (rw late (rw a (stopping _ _ live refl)))
          | inl a ↦ rw live (rw late (rw a (thaw_branches r.status refl live)))
        ]
      ]
    ]

-- A decision that the savepoint keeps is an answer or a linked task.
module _ (P : Office → Type 0) (d : Desk) (r : Run) (o : Office) (seen : List Step)
    (answering : (status : RunStatus) (answer : String) (evidence : List String)
      → is_answer status ≡ true
      → P (commit_answer r status answer evidence o))
    (linking : (name : String) (args : Args)
      → check_decision d r seen (tool_call name args) ≡ ok tt
      → (o' : Office) → commit_tool d r name args o ≡ ok o'
      → P o') where
  pub decide_branches :
      (decision : Decision) (o' : Office) → decide d r seen decision o ≡ ok o' → P o'
  unfolding decide
  decide_branches (tool_call name args) o' h =
      let (c, h1) = then-ok (check_decision d r seen (tool_call name args)) _ h in
      linking name args c o' h1
  decide_branches (final answer evidence) o' h =
      let (c, h1) = then-ok (check_decision d r seen (final answer evidence)) _ h in
      subst P (ok_injective h1) (answering succeeded answer evidence refl)
  decide_branches (question text) o' h =
      let (c, h1) = then-ok (check_decision d r seen (question text)) _ h in
      subst P (ok_injective h1) (answering needs_input text [] refl)
  decide_branches malformed o' h =
      let (c, h1) = then-ok (check_decision d r seen malformed) _ h in absurd (cc)

-- The outcome and the state after a call that returns.
abbrev pub Ends : (Outcome → Office → Type 0) → Result (Outcome × Office) → Type 0
Ends P x = (out : Outcome) (o' : Office) → x ≡ ok (out, o') → P out o'

module _ (P : Outcome → Office → Type 0) (d : Desk) (r : Run) (o : Office) (may_repair : Bool)
    (stopping : (reason : String) → P committed (stop d.world r escalated reason "agent-loop" o))
    (repairing : may_repair ≡ true
      → r.calls < r.max_calls
      → (seen : List Step) (decision : Decision) (x : Error)
      → P (reserve_repair d r seen decision x o).0 (reserve_repair d r seen decision x o).1)
    (deciding : (seen : List Step)
      → observations d r o ≡ ok seen
      → (decision : Decision) (o' : Office) → decide d r seen decision o ≡ ok o'
      → P committed o') where
  rejected_branches :
      (seen : List Step) (decision : Decision) (x : Error)
      → P
          (rejected_decision d r may_repair seen decision x o).0
          (rejected_decision d r may_repair seen decision x o).1
  rejected_branches seen decision x =
      elim (Bool-cases (may_repair && (is_repairable x && ltb r.calls r.max_calls))) [
        | inl c ↦ rw c (repairing (ground (arith, c)) (ground (arith, c)) seen decision x)
        | inr c ↦ rw c (stopping "planner_decision_rejected")
      ]

  ended : (x : Outcome × Office) → P x.0 x.1 → Ends P (ok x)
  ended x m out o' h = subst (λ (z : Outcome × Office). P z.0 z.1) (ok_injective h) m

  history_branches :
      (decision : Decision) (seen : Result (List Step))
      → observations d r o ≡ seen
      → Ends P (with_history d r may_repair decision o seen)
  history_branches decision (err x) s = elim (Bool-cases (is_rejection x)) [
    | inl c ↦ rw c (ended _ (stopping "planner_decision_rejected"))
    | inr c ↦ rw c (λ out o' h. absurd (cc))
  ]
  history_branches decision (ok seen) s = elim (Result-cases (decide d r seen decision o)) [
    | inl (o1, g) ↦ rw g (ended _ (deciding seen s decision o1 g))
    | inr (x, g) ↦ elim (Bool-cases (is_rejection x)) [
      | inl c ↦ rw g (rw c (ended _ (rejected_branches seen decision x)))
      | inr c ↦ rw g (rw c (λ out o' h. absurd (cc)))
    ]
  ]

  result_branches : (result : Proposal) → Ends P (with_result d r may_repair result o)
  result_branches failed = ended _ (stopping "planner_failed_no_retry")
  result_branches (decided decision) = history_branches decision (observations d r o) refl

  pub held-Ends : (result : Proposal) → Ends P (commit_held d r may_repair result o)
  held-Ends result = elim (Bool-cases (leb r.deadline d.world.now || leb r.lease d.world.now)) [
    | inl c ↦ rw c (ended _ (stopping "planner_result_arrived_after_deadline"))
    | inr c ↦ elim (Bool-cases (has_authority d r o)) [
      | inr a ↦ rw c (rw a (ended _ (stopping "authority_or_freeze_changed_during_planning")))
      | inl a ↦ rw c (rw a (result_branches result))
    ]
  ]
