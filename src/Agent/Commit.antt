-- ===== src/Agent/Commit.antt =====
-- `_decision`, `_commit` and `_repair` of api-python/platform_runtime/agent_loop.py: one planner
-- result, checked and committed under the claim of its reservation.
use agentic_works.Base.{
  ℕ, ◌+◌, String, Bool, true, false, ◌&&◌, ◌||◌, none, List, [], ◌∷◌, ◌++◌, ◌==◌, if◌then◌else◌,
  Error, Result, ◌>>=◌, ◌>>◌, Check, require, ok, err, not, any, all, length, min, ltb, leb, eqb,
  some_or, forbidden, not_found, integrity_error, value_error, conflict, rate_limited,
}
use agentic_works.Base.Table.{first, count, update_where}
use agentic_works.Engine.{Step, World, require_active, staff, log}
use agentic_works.Engine.Operate.{is_one_of}
use agentic_works.Plans.{outbound_tools, validated, Args}
use agentic_works.Plans.Submission.{submit}
use agentic_works.Agent.{
  Decision, tool_call, final, question, malformed, Desk, Turn, Run, RunStatus, planning,
  waiting_task, succeeded, needs_input, escalated, stop, is_turn_of, Office, observations,
  action_of, is_run, is_turn_task,
}
use agentic_works.Agent.Runs.{is_text}
use agentic_works.Agent.Reserve.{planner_lease_seconds, context, Reservation, evidence_id}

-- What the planner answered, or that its call failed.
pub data Proposal : Type 0 where
  decided : (decision : Decision) → Proposal
  failed : Proposal

-- What `_commit` returns: False, True, or the context of the repair call.
pub data Outcome : Type 0 where
  discarded committed : Outcome
  repair : (again : Reservation) (rejected : Decision) (reason : Error) → Outcome

abbrev pub is_evidence : List Step → String → Bool
is_evidence seen x = any (λ s. x == evidence_id s) seen

unfoldable pub is_distinct : List String → Bool
is_distinct [] = true
is_distinct (x ∷ xs) = not (is_one_of x xs) && is_distinct xs

-- an action through a tool
abbrev pub check_tool : Desk → Run → String → Args → Check
check_tool d r name args = do
  require (ltb r.steps r.max_steps) value_error
  require (not (not (r.channel == "agent") && is_one_of name outbound_tools)) forbidden
  spec ← some_or (d.realm.registry name) not_found
  require (not spec.runner) forbidden
  _ ←
      validated d.realm r.tenant r.agent (record { tool = name; args = args; device = "" } ∷ [])
        none
  ok tt

abbrev pub check_final : List Step → String → List String → Check
check_final seen answer evidence = do
  require (is_text answer 8000) value_error
  require (leb 1 (length evidence) && leb (length evidence) 12) value_error
  require (all (is_evidence seen) evidence) value_error
  require (is_distinct evidence) value_error

abbrev pub check_action : Desk → Run → List Step → Decision → Check
check_action d r seen (tool_call name args) = check_tool d r name args
check_action d r seen (final answer evidence) = check_final seen answer evidence
check_action d r seen (question text) = require (is_text text 1000) value_error
check_action d r seen malformed = err value_error

-- `_decision`
unfoldable pub check_decision : Desk → Run → List Step → Decision → Check
unfolding is_text is_distinct
check_decision d r seen decision = do
  require (leb (d.decision_size decision) 20000) value_error
  check_action d r seen decision

abbrev pub is_repeat : String → String → String → Turn → Bool
is_repeat tenant run fingerprint t = is_turn_of tenant run t && t.action_fingerprint == fingerprint

abbrev pub is_position : String → ℕ → Turn → Bool
is_position run position t = t.run_id == run && eqb t.position position

abbrev pub linked_run : String → Run → Run
linked_run task r = record r {
  status = waiting_task;
  steps = r.steps + 1;
  current_task = task;
  claim = "";
  lease = 0;
}

-- an action becomes a task of the engine, linked to the run
unfoldable pub commit_tool : Desk → Run → String → Args → Office → Result Office
commit_tool d r name args o = do
  let fingerprint = d.action_digest name args
  require (eqb (count (is_repeat r.tenant r.id fingerprint) o.turns) 0) value_error
  (task, db) ←
      submit d.realm d.world r.tenant r.channel (d.turn_key r.id r.steps) r.agent
        (record { tool = name; args = args; device = "" } ∷ []) r.actor d.events o.db
  require
      (eqb (count (is_position r.id r.steps) o.turns) 0
        && eqb (count (is_turn_task r.tenant task) o.turns) 0)
      integrity_error
  let turn : Turn = record {
    tenant = r.tenant;
    run_id = r.id;
    position = r.steps;
    task = task;
    action_fingerprint = fingerprint;
  }
  ok (record {
    db = log db r.tenant task "agent_run.task_linked" r.actor r.id;
    runs = update_where (is_run r.tenant r.id) (linked_run task) o.runs;
    turns = o.turns ++ turn ∷ [];
  })

abbrev pub answered_run : RunStatus → String → List String → Run → Run
answered_run status answer evidence r = record r {
  status = status;
  answer = answer;
  evidence_ids = evidence;
  claim = "";
  lease = 0;
}

abbrev pub commit_answer : Run → RunStatus → String → List String → Office → Office
commit_answer r status answer evidence o = record o {
  db = log o.db r.tenant r.current_task (action_of status) r.actor r.id;
  runs = update_where (is_run r.tenant r.id) (answered_run status answer evidence) o.runs;
}

abbrev pub carry_out : Desk → Run → Decision → Office → Result Office
carry_out d r (tool_call name args) o = commit_tool d r name args o
carry_out d r (final answer evidence) o = ok (commit_answer r succeeded answer evidence o)
carry_out d r (question text) o = ok (commit_answer r needs_input text [] o)
carry_out d r malformed o = err value_error

-- the statements between the savepoint and its release
unfoldable pub decide : Desk → Run → List Step → Decision → Office → Result Office
unfolding check_decision commit_tool
decide d r seen decision o = do check_decision d r seen decision; carry_out d r decision o

-- `_repairable`, of the exceptions that the savepoint catches
abbrev pub is_repairable : Error → Bool
is_repairable value_error = true
is_repairable not_found = true
is_repairable _ = false

-- what `except` names
abbrev pub is_rejection : Error → Bool
is_rejection value_error = true
is_rejection conflict = true
is_rejection forbidden = true
is_rejection not_found = true
is_rejection rate_limited = true
is_rejection _ = false

abbrev pub repairing_run : World → Run → Run
repairing_run w r = record r {
  calls = r.calls + 1;
  lease = min r.deadline (w.now + planner_lease_seconds);
}

-- `_repair`
abbrev pub reserve_repair : Desk → Run → List Step → Decision → Error → Office → Outcome × Office
reserve_repair d r seen decision e o = (
  repair (context r.claim r seen) decision e,
  record o {
    db = log o.db r.tenant r.current_task "agent_run.planner_repair" r.actor r.id;
    runs = update_where (is_run r.tenant r.id) (repairing_run d.world) o.runs;
  },
)

abbrev pub end_run : Desk → Run → String → Office → Outcome × Office
end_run d r reason o = (committed, stop d.world r escalated reason "agent-loop" o)

-- the savepoint is rolled back: a repair is reserved, or the run ends
abbrev pub rejected_decision :
    Desk → Run → Bool → List Step → Decision → Error → Office → Outcome × Office
rejected_decision d r may_repair seen decision e o =
    if may_repair && (is_repairable e && ltb r.calls r.max_calls)
    then reserve_repair d r seen decision e o
    else end_run d r "planner_decision_rejected" o

abbrev pub with_decision :
    Desk → Run → Bool → List Step → Decision → Office → Result Office → Result (Outcome × Office)
with_decision d r may_repair seen decision o (ok o') = ok (committed, o')
with_decision d r may_repair seen decision o (err e) =
    if is_rejection e then ok (rejected_decision d r may_repair seen decision e o) else err e

abbrev pub with_history :
    Desk → Run → Bool → Decision → Office → Result (List Step) → Result (Outcome × Office)
with_history d r may_repair decision o (err e) =
    if is_rejection e then ok (end_run d r "planner_decision_rejected" o) else err e
with_history d r may_repair decision o (ok seen) =
    with_decision d r may_repair seen decision o (decide d r seen decision o)

abbrev pub with_result : Desk → Run → Bool → Proposal → Office → Result (Outcome × Office)
with_result d r may_repair failed o = ok (end_run d r "planner_failed_no_retry" o)
with_result d r may_repair (decided decision) o =
    with_history d r may_repair decision o (observations d r o)

-- the run still waits for the planner under this claim
abbrev pub is_held : String → Run → Bool
is_held claim r = (elim r.status [ planning ↦ true | _ ↦ false ]) && r.claim == claim

abbrev pub has_authority : Desk → Run → Office → Bool
has_authority d r o =
    (elim (require_active d.world r.tenant o.db) [ ok _ ↦ true | err _ ↦ false ])
    && d.world.authority r.tenant r.channel r.actor staff

abbrev pub commit_held : Desk → Run → Bool → Proposal → Office → Result (Outcome × Office)
commit_held d r may_repair result o =
    if leb r.deadline d.world.now || leb r.lease d.world.now
    then ok (end_run d r "planner_result_arrived_after_deadline" o)
    else if not (has_authority d r o)
    then ok (end_run d r "authority_or_freeze_changed_during_planning" o)
    else with_result d r may_repair result o

-- `_commit`
unfoldable pub commit_result :
    Desk → String → String → String → Proposal → Bool → Office → Result (Outcome × Office)
unfolding stop observations decide
commit_result d tenant id claim result may_repair o = do
  r ← some_or (first (is_run tenant id) o.runs) not_found
  if is_held claim r then commit_held d r may_repair result o else ok (discarded, o)
