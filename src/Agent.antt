-- ===== src/Agent.antt =====
-- Agent runs (api-python/platform_runtime/agent_loop.py): the rows of p_agent_runs and p_agent_turns
-- beside the engine's, what a transaction reads, `_stop` and `_observations`. The operations stand in
-- `Runs`, `Reserve` and `Commit`.
pub mod Runs
pub mod Reserve
pub mod Commit
pub mod Machine
mod Branches
pub mod Effects
mod Decided
pub mod History
pub mod Tables
pub mod Planning
pub mod Settled
pub mod Grounded
use agentic_works.Base.{
  ℕ, String, Bool, true, false, ◌&&◌, not, Option, none, some, List, [], ◌∷◌, ◌++◌, Result, ok,
  require, ◌>>◌, value_error, leb, eqb, length, all, ◌==◌, if◌then◌else◌,
}
use agentic_works.Base.Table.{first, select, update_where}
use agentic_works.Engine.{
  World, Db, Step, StepStatus, Task, is_task, is_step_of, log, refresh, rejected,
}
use agentic_works.Engine.Claim.{is_open, is_undecided}
use agentic_works.Engine.Operate.{stopped_status, any_step}
use agentic_works.Engine
use agentic_works.Inbox.{Event}
use agentic_works.Plans.{Realm, Args}

-- The column `status` of p_agent_runs.
pub data RunStatus : Type 0 where
  pending planning waiting_task succeeded needs_input escalated uncertain cancelled : RunStatus

pub record Run : Type 0 where
  pub id : String
  pub tenant : String
  pub request_key : String
  pub fingerprint : String
  pub agent : String
  pub actor : String
  pub input : String
  pub status : RunStatus
  pub created : ℕ
  pub deadline : ℕ
  pub max_steps : ℕ
  pub max_calls : ℕ
  pub calls : ℕ
  pub steps : ℕ
  pub current_task : String
  pub claim : String
  pub lease : ℕ
  pub answer : String
  pub evidence_ids : List String
  pub error : String
  pub channel : String

pub record Turn : Type 0 where
  pub tenant : String
  pub run_id : String
  pub position : ℕ
  pub task : String
  pub action_fingerprint : String

-- The engine's tables with those of the runs.
pub record Office : Type 0 where
  pub db : Db
  pub runs : List Run
  pub turns : List Turn

-- A planner's decision; `malformed` is an object of any other shape.
pub data Decision : Type 0 where
  tool_call : (name : String) (args : Args) → Decision
  final : (answer : String) (evidence : List String) → Decision
  question : (text : String) → Decision
  malformed : Decision

-- What a transaction of the loop reads: the engine's world, the packs and the inbound events, the
-- sizes and digests of what it encodes, and the key of a turn's task, `agent-run:<run>:<position>`.
pub record Desk : Type 0 where
  pub world : World
  pub realm : Realm
  pub events : List Event
  pub step_size : Step → ℕ
  pub history_size : List Step → ℕ
  pub decision_size : Decision → ℕ
  pub action_digest : String → Args → String
  pub turn_key : String → ℕ → String

abbrev pub is_run : String → String → Run → Bool
is_run tenant id r = r.tenant == tenant && r.id == id

-- ACTIVE
abbrev pub is_active : RunStatus → Bool
is_active pending = true
is_active planning = true
is_active waiting_task = true
is_active _ = false

-- the turn that links a run to a task
abbrev pub is_link : String → String → String → Turn → Bool
is_link tenant run task t = t.tenant == tenant && (t.run_id == run && t.task == task)

abbrev pub status_in : Option Task → Option StepStatus
status_in none = none
status_in (some k) = some k.status

abbrev pub linked_in : Option Turn → Option Task → Option StepStatus
linked_in none k = none
linked_in (some t) k = status_in k

-- the status of the run's current task, if the run is linked to it
abbrev pub linked_status : Run → Office → Option StepStatus
linked_status r o =
    linked_in (first (is_link r.tenant r.id r.current_task) o.turns)
      (first (is_task r.tenant r.current_task) o.db.tasks)

-- the steps of a task that `_stop` ends
abbrev pub is_ending : String → String → Step → Bool
is_ending tenant task s = is_step_of tenant task s && is_open s.status

unfoldable pub end_steps : String → String → String → Db → Db
end_steps tenant task reason db = refresh tenant task (record db {
  steps =
      update_where (is_ending tenant task)
        (λ s. record s { status = stopped_status s.status; claim = ""; lease = 0; error = reason })
        db.steps;
})

-- unused approvals of the task are retired
abbrev pub reject_unused : World → String → String → String → Db → Db
reject_unused w tenant task actor db = record db {
  approvals =
      update_where
        (λ a.
          a.tenant == tenant && (is_undecided a && any_step (is_step_of tenant task) db.steps a))
        (λ a. record a { status = rejected; actor = actor; decided = some w.now }) db.approvals;
}

abbrev pub is_unknown : Option StepStatus → Bool
is_unknown none = false
is_unknown (some s) = Engine.same_status s Engine.uncertain

-- What the current task makes of the end of its run: the status, the reason, and the engine's tables.
abbrev pub stop_task :
    World → Run → RunStatus → String → String → Option StepStatus → Db → RunStatus × String × Db
stop_task w r status reason actor none db = (escalated, "run_task_link_invalid", db)
stop_task w r status reason actor (some s) db =
    let ended = if is_open s then end_steps r.tenant r.current_task reason db else db in
    let unknown = is_unknown (status_in (first (is_task r.tenant r.current_task) ended.tasks)) in
    (
      if unknown then uncertain else status,
      reason,
      reject_unused w r.tenant r.current_task actor ended,
    )

abbrev pub stopped_run : RunStatus → String → Run → Run
stopped_run status reason r = record r { status = status; error = reason; claim = ""; lease = 0 }

abbrev pub action_of : RunStatus → String
action_of escalated = "agent_run.escalated"
action_of uncertain = "agent_run.uncertain"
action_of cancelled = "agent_run.cancelled"
action_of succeeded = "agent_run.succeeded"
action_of needs_input = "agent_run.needs_input"
action_of _ = "agent_run"

abbrev pub ending : World → Run → RunStatus → String → String → Office → RunStatus × String × Db
ending w r status reason actor o =
    if r.current_task == ""
    then (status, reason, o.db)
    else stop_task w r status reason actor (linked_status r o) o.db

-- `_stop`
unfoldable pub stop : World → Run → RunStatus → String → String → Office → Office
unfolding end_steps
stop w r status reason actor o =
    let (status', reason', db) = ending w r status reason actor o in
    record o {
      db = log db r.tenant r.current_task (action_of status') actor r.id;
      runs = update_where (is_run r.tenant r.id) (stopped_run status' reason') o.runs;
    }

-- A row of the join that `_observations` runs.
pub record Observed : Type 0 where
  pub task_status : StepStatus
  pub step : Step

abbrev pub is_first_step : String → String → Step → Bool
is_first_step tenant task s = is_step_of tenant task s && eqb s.position 0

abbrev pub join_step : Task → Option Step → List Observed
join_step k none = []
join_step k (some s) = record { task_status = k.status; step = s } ∷ []

abbrev pub join_task : Turn → Option Task → Db → List Observed
join_task t none db = []
join_task t (some k) db = join_step k (first (is_first_step t.tenant t.task) db.steps)

unfoldable pub join_turns : Db → List Turn → List Observed
join_turns db [] = []
join_turns db (t ∷ ts) =
    join_task t (first (is_task t.tenant t.task) db.tasks) db ++ join_turns db ts

-- `ORDER BY l.position`
unfoldable pub insert_turn : Turn → List Turn → List Turn
insert_turn t [] = t ∷ []
insert_turn t (u ∷ us) =
    let rest = insert_turn t us in if leb t.position u.position then t ∷ u ∷ us else u ∷ rest

unfoldable pub by_position : List Turn → List Turn
unfolding insert_turn
by_position [] = []
by_position (t ∷ ts) = insert_turn t (by_position ts)

abbrev pub is_turn_of : String → String → Turn → Bool
is_turn_of tenant run t = t.tenant == tenant && t.run_id == run

abbrev pub is_success : Observed → Bool
is_success ob =
    Engine.same_status ob.step.status Engine.succeeded
    && Engine.same_status ob.task_status Engine.succeeded

abbrev pub steps_seen : List Observed → List Step
steps_seen [] = []
steps_seen (ob ∷ obs) = ob.step ∷ steps_seen obs

-- `_observations`, with the bounds MAX_OBSERVATION_BYTES and MAX_HISTORY_BYTES
unfoldable pub observations : Desk → Run → Office → Result (List Step)
unfolding join_turns by_position
observations d r o = do
  let rows = join_turns o.db (by_position (select (is_turn_of r.tenant r.id) o.turns))
  require (eqb (length rows) r.steps) value_error
  require (all (λ ob. is_success ob && leb (d.step_size ob.step) 12000) rows) value_error
  require (leb (d.history_size (steps_seen rows)) 48000) value_error
  ok (steps_seen rows)

-- `Engine.require_task_parent`: the run that a task belongs to still waits for it
abbrev pub is_parent : World → String → Run → Bool
is_parent w task r =
    (elim r.status [ waiting_task ↦ true | _ ↦ false ])
    && (r.current_task == task && not (leb r.deadline w.now))

abbrev pub parent_in : World → String → Option Run → Bool
parent_in w task none = true
parent_in w task (some r) = is_parent w task r

abbrev pub parent_of : World → String → Option Turn → List Run → Bool
parent_of w task none runs = true
parent_of w task (some t) runs = parent_in w task (first (is_run t.tenant t.run_id) runs)

abbrev pub is_turn_task : String → String → Turn → Bool
is_turn_task tenant task t = t.tenant == tenant && t.task == task

unfoldable pub task_parent : World → Office → String → String → Bool
task_parent w o tenant task = parent_of w task (first (is_turn_task tenant task) o.turns) o.runs
