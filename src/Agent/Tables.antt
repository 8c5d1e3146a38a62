-- ===== src/Agent/Tables.antt =====
-- What the transactions of api-python/platform_runtime/agent_loop.py leave of the engine's tables.
use agentic_works.Base.{
  String, refl, inl, inr, Option, none, some, arith, ◌==◌, Bool-cases, eq_iff, ℕ, ◌≡◌, ok,
  some_or-ok, not_found, subst, ok_injective, Bool, ◌&&◌, List, [], ◌∷◌, then-ok, require-ok, ltb,
  rate_limited, call-ok, forbidden, integrity_error, conflict, commit-cases,
}
use agentic_works.Agent.{
  end_steps, stop, Db, Run, RunStatus, StepStatus, Office, is_ending, stop_task, stopped_status,
  is_open, linked_status, Desk, first, is_run, Args, eqb, value_error, leb, cancelled, is_active,
  is_turn_task, log, escalated,
}
use agentic_works.Engine.{World, require_active, require_authority, staff}
use agentic_works.Engine.Sound.{Sound, task_steps-Sound}
use agentic_works.Agent.Reserve.{reserve, Reserved, look_at}
use agentic_works.Agent.Branches.{look_at_branches, Ends, held-Ends, decide_branches}
use agentic_works.Agent.History.{
  Transaction, create_run, reserve_run, commit_run, cancel_run, engine_call, transact, transact_all,
}
use agentic_works.Agent.Runs.{
  answer_request, create, cancel, is_text, is_queued, has_run_id, new_run, is_request,
}
use agentic_works.Plans.Submission.{submit}
use agentic_works.Agent.Commit.{
  commit_tool, commit_result, Proposal, is_held, is_repeat, is_position,
}
use agentic_works.Base.Table.{count}
use agentic_works.Plans.{is_ladder}
use agentic_works.Plans.Outcome.{submit-Sound}
use agentic_works.Engine.Histories.{perform-Sound}

end_steps-Sound : (t x reason : String) (db : Db) → Sound db → Sound (end_steps t x reason db)
unfolding end_steps
end_steps-Sound t x reason db v =
    task_steps-Sound t x (is_ending t x)
      (λ s. record s { status = stopped_status s.status; claim = ""; lease = 0; error = reason })
      (λ s. refl) (λ s. refl) (λ s. refl) db v
      (λ s m. (ground (arith, m, eq_iff s.tenant t), ground (arith, m, eq_iff s.task x)))
      (λ s m o. (o.0, λ y. ground (arith, y)))

stop_task-Sound :
    (w : World) (r : Run) (status : RunStatus) (reason actor : String) (s : Option StepStatus)
    (db : Db)
    → Sound db
    → Sound (stop_task w r status reason actor s db).2
stop_task-Sound w r status reason actor none db v = v
stop_task-Sound w r status reason actor (some s) db v = elim (Bool-cases (is_open s)) [
  | inl c ↦ rw c (end_steps-Sound r.tenant r.current_task reason db v)
  | inr c ↦ rw c v
]

stop-Sound :
    (w : World) (r : Run) (status : RunStatus) (reason actor : String) (o : Office)
    → Sound o.db
    → Sound (stop w r status reason actor o).db
unfolding stop
stop-Sound w r status reason actor o v = elim (Bool-cases (r.current_task == "")) [
  | inl c ↦ rw c v
  | inr c ↦ rw c (stop_task-Sound w r status reason actor (linked_status r o) o.db v)
]

answer_request-Sound :
    (d : Desk) (r : Run) (o : Office)
    → Sound o.db
    → (old : Option Run) (id : String) (o' : Office) → answer_request d r o old ≡ ok (id, o')
    → Sound o'.db
answer_request-Sound d r o v none id o' h =
    let (_, h1) = then-ok (require_active d.world r.tenant o.db) _ h in
    let (_, h2) = require-ok (ltb (count (is_queued r.tenant) o.runs) 100) rate_limited _ h1 in
    let (_, h3) = require-ok (eqb (count (has_run_id r.id) o.runs) 0) integrity_error _ h2 in
    let same : log o.db r.tenant "" "agent_run.created" r.actor r.id ≡ o'.db = ground (arith, h3) in
    subst Sound same v
answer_request-Sound d r o v (some old) id o' h =
    let (_, h1) = require-ok (old.fingerprint == r.fingerprint) conflict _ h in
    let same : o ≡ o' = ground (arith, h1) in subst (λ z. Sound z.db) same v

pub create-Sound :
    (d : Desk) (tenant key agent input actor full : String) (max_steps max_seconds : ℕ)
    (channel : String) (o : Office)
    → Sound o.db
    → (id : String) (o' : Office)
    → create d tenant key agent input actor full max_steps max_seconds channel o ≡ ok (id, o')
    → Sound o'.db
unfolding create
create-Sound d tenant key agent input actor full max_steps max_seconds channel o v id o' h =
    let (_, h1) =
      require-ok
        (is_text tenant 64
          && (is_text key 256 && (is_text agent 128 && (is_text actor 128 && is_text channel 32))))
        value_error _ h in
    let (_, h2) = require-ok (is_text input 4000) value_error _ h1 in
    let (_, h3) = require-ok (leb 1 max_steps && leb max_steps 12) value_error _ h2 in
    let (_, h4) = require-ok (leb 60 max_seconds && leb max_seconds 86400) value_error _ h3 in
    let (_, h5) = require-ok (is_ladder (d.realm.policy tenant agent).ladder) forbidden _ h4 in
    let (_, h6) = then-ok (require_authority d.world tenant channel actor staff) _ h5 in
    answer_request-Sound d
      (new_run d tenant key agent input actor full max_steps max_seconds channel) o v
      (first (is_request tenant key) o.runs) id o' h6

pub reserve-Sound :
    (d : Desk) (t i : String) (o : Office)
    → Sound o.db
    → (x : Reserved) (o' : Office) → reserve d t i o ≡ ok (x, o')
    → Sound o'.db
unfolding reserve
reserve-Sound d t i o v x o' h =
    let (r, _, done) = some_or-ok (first (is_run t i) o.runs) not_found _ h in
    let kept : Sound (look_at d r o).1.db =
      look_at_branches (λ z. Sound z.db) d r o v
        (λ status reason live h. stop-Sound d.world r status reason "agent-loop" o v)
        (λ seen live idle left. v) in
    subst (λ (z : Reserved × Office). Sound z.1.db) (ok_injective done) kept

pub cancel-Sound :
    (d : Desk) (t i actor : String) (o : Office)
    → Sound o.db
    → (x : RunStatus) (o' : Office) → cancel d t i actor o ≡ ok (x, o')
    → Sound o'.db
unfolding cancel
cancel-Sound d t i actor o v x o' h =
    let (_, h1) = then-ok (require_authority d.world t "web" actor staff) _ h in
    let (r, e, h2) = some_or-ok (first (is_run t i) o.runs) not_found _ h1 in
    let ended = stop d.world r cancelled "operator_cancelled" actor o in
    elim (Bool-cases (is_active r.status)) [
      | inl live ↦
          let same : ended ≡ o' = ground (arith, live, h2) in
          subst (λ z. Sound z.db) same
            (stop-Sound d.world r cancelled "operator_cancelled" actor o v)
      | inr done ↦ let same : o ≡ o' = ground (arith, done, h2) in subst (λ z. Sound z.db) same v
    ]

tool-Sound :
    (d : Desk) (r : Run) (name : String) (args : Args) (o : Office)
    → Sound o.db
    → (o' : Office) → commit_tool d r name args o ≡ ok o'
    → Sound o'.db
unfolding commit_tool
tool-Sound d r name args o v o' h =
    let (_, h1) =
      require-ok (eqb (count (is_repeat r.tenant r.id (d.action_digest name args)) o.turns) 0)
        value_error _ h in
    let ((task, db), g, h2) =
      call-ok
        (submit d.realm d.world r.tenant r.channel (d.turn_key r.id r.steps) r.agent
          (record { tool = name; args = args; device = "" } ∷ []) r.actor d.events o.db)
        _ h1 in
    let (_, h3) =
      require-ok
        (eqb (count (is_position r.id r.steps) o.turns) 0
          && eqb (count (is_turn_task r.tenant task) o.turns) 0)
        integrity_error _ h2 in
    let same : log db r.tenant task "agent_run.task_linked" r.actor r.id ≡ o'.db =
      ground (arith, h3) in
    subst Sound same (
      submit-Sound d.realm d.world r.tenant r.channel (d.turn_key r.id r.steps) r.agent
        (record { tool = name; args = args; device = "" } ∷ []) r.actor d.events o.db v task db g)

pub commit_result-Sound :
    (d : Desk) (t i claim : String) (result : Proposal) (may_repair : Bool) (o : Office)
    → Sound o.db
    → Ends (λ _ z. Sound z.db) (commit_result d t i claim result may_repair o)
unfolding commit_result
commit_result-Sound d t i claim result may_repair o v out o' h =
    let (r, _, h1) = some_or-ok (first (is_run t i) o.runs) not_found _ h in
    elim (Bool-cases (is_held claim r)) [
      | inr c ↦ let same : o ≡ o' = ground (arith, c, h1) in subst (λ z. Sound z.db) same v
      | inl c ↦
          held-Ends (λ _ z. Sound z.db) d r o may_repair
            (λ reason. stop-Sound d.world r escalated reason "agent-loop" o v)
            (λ on left seen decision x. v)
            (λ seen s.
              decide_branches (λ z. Sound z.db) d r o seen (λ status answer evidence a. v)
                (λ name args c o1 g. tool-Sound d r name args o v o1 g))
            result out o' (ground (arith, c, h1))
    ]

transact-Sound : (o : Office) (x : Desk × Transaction) → Sound o.db → Sound (transact o x).db
unfolding transact
transact-Sound o (d, create_run t k a x u f n m c) v =
    commit-cases (λ z. Sound z.db) o _ v (create-Sound d t k a x u f n m c o v)
transact-Sound o (d, reserve_run t i) v =
    commit-cases (λ z. Sound z.db) o _ v (reserve-Sound d t i o v)
transact-Sound o (d, commit_run t i k p b) v =
    commit-cases (λ z. Sound z.db) o _ v (commit_result-Sound d t i k p b o v)
transact-Sound o (d, cancel_run t i a) v =
    commit-cases (λ z. Sound z.db) o _ v (cancel-Sound d t i a o v)
transact-Sound o (d, engine_call op) v = perform-Sound o.db (d.world, op) v

-- The transactions of the agent loop, in any order with those of the engine, keep the engine's tables
-- sound: step ids are unique, no step is claimed twice, and each task has the status of its steps.
pub transact_all-Sound :
    (history : List (Desk × Transaction)) (o : Office)
    → Sound o.db
    → Sound (transact_all o history).db
unfolding transact_all
transact_all-Sound [] o v = v
transact_all-Sound (x ∷ xs) o v = transact_all-Sound xs (transact o x) (transact-Sound o x v)
