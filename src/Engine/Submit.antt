-- ===== src/Engine/Submit.antt =====
-- `_create_task` of api-python/platform_runtime/engine.py: the idempotent insertion of a validated
-- plan.
use agentic_works.Base.{
  ◌+◌, ℕ, String, Bool, ◌&&◌, ◌||◌, none, some, List, [], ◌∷◌, ◌++◌, ◌==◌, if◌then◌else◌, Result,
  ◌>>=◌, ◌>>◌, require, ok, not, eqb, integrity_error, conflict, ltb, rate_limited,
}
use agentic_works.Base.Table.{first, count}
use agentic_works.Engine.{
  Risk, Task, World, Step, Approval, same_status, queued, pending, Audit, Db, running, approved,
  require_authority, waiting_approval, is_step, staff, require_active, refresh, log,
}

-- A tuple that `_validated` returns.
pub record Planned : Type 0 where
  pub tool : String
  pub args : String
  pub risk : Risk
  pub needed : Bool
  pub fingerprint : String
  pub device : String

abbrev pub is_origin : String → String → String → Task → Bool
is_origin tenant channel key k = k.tenant == tenant && (k.channel == channel && k.event_key == key)

abbrev pub is_open_task : String → Task → Bool
is_open_task tenant k =
    k.tenant == tenant
    && (same_status k.status queued
        || same_status k.status running
        || same_status k.status waiting_approval)

abbrev pub max_pending : ℕ
max_pending = 1000

abbrev pub approval_seconds : ℕ
approval_seconds = 86400

abbrev pub new_step : World → String → String → ℕ → Planned → Step
new_step w tenant task position p = record {
  id = w.fresh (position + 1);
  task = task;
  tenant = tenant;
  position = position;
  tool = p.tool;
  args = p.args;
  risk = p.risk;
  approval_needed = p.needed;
  fingerprint = p.fingerprint;
  status = queued;
  claim = "";
  worker = "";
  lease = 0;
  attempts = 0;
  result = "{}";
  error = "";
  device = p.device;
}

-- the approval row of a step that needs one: decided by `approver`, if there is one
abbrev pub new_approval : World → String → String → Step → Approval
new_approval w tenant approver s =
    if approver == ""
    then record {
      step = s.id;
      tenant = tenant;
      fingerprint = s.fingerprint;
      status = pending;
      actor = "";
      expires = w.now + approval_seconds;
      decided = none;
    }
    else record {
      step = s.id;
      tenant = tenant;
      fingerprint = s.fingerprint;
      status = approved;
      actor = approver;
      expires = w.now + approval_seconds;
      decided = some w.now;
    }

abbrev pub approval_row : World → String → String → Step → List Approval
approval_row w tenant approver s =
    if s.approval_needed then new_approval w tenant approver s ∷ [] else []

abbrev pub approval_note : String → String → String → Step → List Audit
approval_note tenant task approver s =
    if s.approval_needed && not (approver == "")
    then record {
      tenant = tenant;
      task = task;
      action = "approval.approved";
      actor = approver;
      detail = s.id;
    }
      ∷ []
    else []

abbrev pub has_approval : String → Approval → Bool
has_approval step a = a.step == step

-- the loop over the validated steps; the ids are primary keys
unfoldable pub insert_steps : World → String → String → String → ℕ → List Planned → Db → Result Db
insert_steps w tenant task approver position [] db = ok db
insert_steps w tenant task approver position (p ∷ ps) db = do
  let s = new_step w tenant task position p
  require (eqb (count (is_step s.id) db.steps) 0) integrity_error
  require (eqb (count (has_approval s.id) db.approvals) 0) integrity_error
  insert_steps w tenant task approver (position + 1) ps (record db {
    steps = db.steps ++ s ∷ [];
    approvals = db.approvals ++ approval_row w tenant approver s;
    audit = db.audit ++ approval_note tenant task approver s;
  })

abbrev pub new_task : World → String → String → String → String → String → String → Task
new_task w tenant channel key agent actor full = record {
  id = w.fresh 0;
  tenant = tenant;
  channel = channel;
  event_key = key;
  fingerprint = full;
  agent = agent;
  actor = actor;
  status = queued;
  created = w.now;
}

abbrev pub has_id : String → Task → Bool
has_id id k = k.id == id

-- `full` is `digest({'agent': agent, 'steps': steps})`
unfoldable pub create_task :
    World
    → String
    → String
    → String
    → String
    → String
    → String
    → List Planned
    → String
    → Db
    → Result (String × Db)
create_task w tenant channel key agent full actor validated approver db = do
  require_authority w tenant channel actor staff
  elim (first (is_origin tenant channel key) db.tasks) [
    | some old ↦ (do require (old.fingerprint == full) conflict; ok (old.id, db))
    | none ↦ (do
      require_active w tenant db
      require (ltb (count (is_open_task tenant) db.tasks) max_pending) rate_limited
      let task = w.fresh 0
      require (eqb (count (has_id task) db.tasks) 0) integrity_error
      stored ←
          insert_steps w tenant task approver 0 validated
            (record db { tasks = db.tasks ++ new_task w tenant channel key agent actor full ∷ [] })
      ok (task, refresh tenant task (log stored tenant task "task.created" actor agent)))
  ]
