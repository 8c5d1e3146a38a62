-- ===== src/Agent/Reserve.antt =====
-- `_reserve` of api-python/platform_runtime/agent_loop.py: what a run is due, and the reservation of
-- its next planner call.
use Prim.Native.String.{◌++◌}
use agentic_works.Base.{
  ℕ, ◌+◌, ◌-◌, String, Bool, true, false, not, Option, none, some, List, Result, ok, err, some_or,
  ◌>>=◌, not_found, leb, min, if◌then◌else◌,
}
use agentic_works.Base.Table.{first, update_where}
use agentic_works.Engine.{Step, StepStatus, World, is_task, log, staff, stopped}
use agentic_works.Engine.Claim.{is_open}
use agentic_works.Engine
use agentic_works.Agent.{
  planning, waiting_task, escalated, uncertain, cancelled, Run, RunStatus, Office, Desk, is_run,
  is_active, stop, observations, status_in,
}

-- the id that evidence names a step by
abbrev pub evidence_id : Step → String
evidence_id s = "step:" ++ s.id

-- What the planner is called with, under the claim.
pub record Reservation : Type 0 where
  pub claim : String
  pub call_index : ℕ
  pub remaining_steps : ℕ
  pub remaining_calls : ℕ
  pub seen : List Step

abbrev pub Reserved : Type 0
Reserved = Bool × Option Reservation

abbrev pub planner_lease_seconds : ℕ
planner_lease_seconds = 180

-- `_context`, of the row before its `calls+1`
abbrev pub context : String → Run → List Step → Reservation
context claim r seen = record {
  claim = claim;
  call_index = r.calls + 1;
  remaining_steps = r.max_steps - r.steps;
  remaining_calls = r.max_calls - r.calls - 1;
  seen = seen;
}

abbrev pub planning_run : World → Run → Run
planning_run w r = record r {
  status = planning;
  claim = w.fresh 0;
  lease = min r.deadline (w.now + planner_lease_seconds);
  calls = r.calls + 1;
}

abbrev pub retire : Desk → Run → RunStatus → String → Office → Reserved × Office
retire d r status reason o = ((true, none), stop d.world r status reason "agent-loop" o)

-- the budget of calls, the history, and the claim
abbrev pub reserve_call : Desk → Run → Result (List Step) → Office → Reserved × Office
reserve_call d r (err e) o = retire d r escalated "observation_unavailable_or_too_large" o
reserve_call d r (ok seen) o = (
  (true, some (context (d.world.fresh 0) r seen)),
  record o {
    db = log o.db r.tenant r.current_task "agent_run.planner_reserved" r.actor r.id;
    runs = update_where (is_run r.tenant r.id) (planning_run d.world) o.runs;
  },
)

abbrev pub due_run : Desk → Run → Office → Reserved × Office
due_run d r o =
    if leb r.max_calls r.calls
    then retire d r escalated "planner_call_budget_exhausted" o
    else reserve_call d r (observations d r o) o

-- the status of a run whose task did not succeed, and its reason
abbrev pub run_status : StepStatus → RunStatus
run_status s =
    if Engine.same_status s Engine.uncertain
    then uncertain
    else if Engine.same_status s Engine.cancelled
    then cancelled
    else escalated

abbrev pub task_reason : StepStatus → String
task_reason s = elim s [
  | Engine.uncertain ↦ "task_uncertain"
  | Engine.cancelled ↦ "task_cancelled"
  | _ ↦ "task_failed"
]

abbrev pub after_task : Desk → Run → Option StepStatus → Office → Reserved × Office
after_task d r none o = retire d r escalated "task_missing" o
after_task d r (some s) o =
    if is_open s
    then ((false, none), o)
    else if Engine.same_status s Engine.succeeded
    then due_run d r o
    else retire d r (run_status s) (task_reason s) o

abbrev pub thaw : Desk → Run → RunStatus → Office → Reserved × Office
thaw d r planning o =
    if leb r.lease d.world.now
    then retire d r escalated "planner_lease_expired_no_retry" o
    else ((false, none), o)
thaw d r waiting_task o =
    if stopped r.tenant o.db.freezes
    then ((false, none), o)
    else after_task d r (status_in (first (is_task r.tenant r.current_task) o.db.tasks)) o
thaw d r status o = if stopped r.tenant o.db.freezes then ((false, none), o) else due_run d r o

abbrev pub look_at : Desk → Run → Office → Reserved × Office
look_at d r o =
    if not (is_active r.status)
    then ((false, none), o)
    else if leb r.deadline d.world.now
    then retire d r escalated "wall_deadline_exceeded" o
    else if not (d.world.authority r.tenant r.channel r.actor staff)
    then retire d r escalated "creator_authority_revoked" o
    else thaw d r r.status o

-- `_reserve`
unfoldable pub reserve : Desk → String → String → Office → Result (Reserved × Office)
unfolding stop observations
reserve d tenant id o = do
  r ← some_or (first (is_run tenant id) o.runs) not_found
  ok (look_at d r o)
