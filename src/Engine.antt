-- ===== src/Engine.antt =====
-- The durable task engine (api-python/platform_runtime/engine.py): the rows of its tables, what a
-- transaction reads of the world, and the helpers that its operations share. The operations stand in
-- `Submit`, `Claim` and `Operate`.
pub mod Joined
pub mod Submit
pub mod Claim
pub mod Operate
pub mod Rollup
pub mod Sound
pub mod Expire
pub mod Loop
pub mod Grant
pub mod Keep
pub mod Bulk
pub mod Decide
pub mod Create
pub mod Histories
pub mod Fences
pub mod Again
pub mod Contract
use agentic_works.Base.{
  ℕ, String, Bool, true, false, ◌&&◌, ◌||◌, Option, List, [], ◌∷◌, ◌++◌, ◌==◌, if◌then◌else◌,
  Result, ◌>>◌, Check, require, forbidden, not,
}
use agentic_works.Base.Table.{update_where}

-- The column `status` of p_steps.
pub data StepStatus : Type 0 where
  queued waiting_approval running succeeded failed cancelled uncertain : StepStatus

-- The column `status` of p_approvals.
pub data ApprovalStatus : Type 0 where
  pending approved rejected consumed : ApprovalStatus

pub data Risk : Type 0 where
  read write destructive physical : Risk

-- A row of p_tasks, without `updated`: `_refresh` and `_create_task` write that column, and no operation
-- of the engine decides by it.
pub record Task : Type 0 where
  pub id : String
  pub tenant : String
  pub channel : String
  pub event_key : String
  pub fingerprint : String
  pub agent : String
  pub actor : String
  pub status : StepStatus
  pub created : ℕ

pub record Step : Type 0 where
  pub id : String
  pub task : String
  pub tenant : String
  pub position : ℕ
  pub tool : String
  pub args : String
  pub risk : Risk
  pub approval_needed : Bool
  pub fingerprint : String
  pub status : StepStatus
  pub claim : String
  pub worker : String
  pub lease : ℕ
  pub attempts : ℕ
  pub result : String
  pub error : String
  pub device : String

pub record Approval : Type 0 where
  pub step : String
  pub tenant : String
  pub fingerprint : String
  pub status : ApprovalStatus
  pub actor : String
  pub expires : ℕ
  pub decided : Option ℕ

pub record Device : Type 0 where
  pub tenant : String
  pub id : String
  pub revoked : Bool
  pub generation : ℕ

-- A row of p_audit; `detail` is the step, the outcome or the device that its `data` names.
pub record Audit : Type 0 where
  pub tenant : String
  pub task : String
  pub action : String
  pub actor : String
  pub detail : String

pub record Db : Type 0 where
  pub tasks : List Task
  pub steps : List Step
  pub approvals : List Approval
  pub devices : List Device
  pub freezes : List (String × Bool)
  pub audit : List Audit

-- The keys of an agent's policy that these operations read.
pub record Policy : Type 0 where
  -- `policy.get('approver_role', 'operator')`
  pub approver_role : String
  pub independent_approval : Bool

-- A row of the join that `claim` runs.
pub record Candidate : Type 0 where
  pub step : Step
  pub agent : String
  pub creator : String
  pub channel : String
  pub event_key : String
  pub created : ℕ

-- What a transaction reads of the world: the clock, `uuid4` (a supply), the authority callback,
-- whether a linked agent run still authorises a task (`require_task_parent`, over the tables of
-- agent_loop.py), the agent's policy, and the fingerprint of a step that is validated again, or the
-- exception of that (`_task_origin` and `_validated`).
pub record World : Type 0 where
  pub now : ℕ
  pub fresh : ℕ → String
  pub authority : String → String → String → List String → Bool
  pub task_parent : String → String → Bool
  pub policy : String → String → Policy
  pub validated : Candidate → Result String

abbrev pub staff : List String
staff = "owner" ∷ "operator" ∷ []

abbrev pub owners : List String
owners = "owner" ∷ []

-- `Engine.require_authority`
abbrev pub require_authority : World → String → String → String → List String → Check
require_authority w tenant channel actor roles =
    require (w.authority tenant channel actor roles) forbidden

abbrev pub stopped : String → List (String × Bool) → Bool
stopped tenant [] = false
stopped tenant ((t, s) ∷ rows) = if t == tenant then s else stopped tenant rows

-- `Engine.require_active`
abbrev pub require_active : World → String → Db → Check
require_active w tenant db = do
  require_authority w tenant "" "" staff
  require (not (stopped tenant db.freezes)) forbidden

abbrev pub log : Db → String → String → String → String → String → Db
log db tenant task action actor detail = record db {
  audit =
      db.audit
      ++ record { tenant = tenant; task = task; action = action; actor = actor; detail = detail }
        ∷ [];
}

abbrev pub is_task : String → String → Task → Bool
is_task tenant id k = k.tenant == tenant && k.id == id

abbrev pub is_step : String → Step → Bool
is_step id s = s.id == id

abbrev pub is_step_of : String → String → Step → Bool
is_step_of tenant task s = s.tenant == tenant && s.task == task

abbrev pub same_status : StepStatus → StepStatus → Bool
same_status queued queued = true
same_status waiting_approval waiting_approval = true
same_status running running = true
same_status succeeded succeeded = true
same_status failed failed = true
same_status cancelled cancelled = true
same_status uncertain uncertain = true
same_status _ _ = false

-- some step of the task has the status, or all have
abbrev pub some_step : StepStatus → String → String → List Step → Bool
some_step status tenant task [] = false
some_step status tenant task (s ∷ ss) =
    (is_step_of tenant task s && same_status s.status status) || some_step status tenant task ss

abbrev pub every_step : StepStatus → String → String → List Step → Bool
every_step status tenant task [] = true
every_step status tenant task (s ∷ ss) =
    (not (is_step_of tenant task s) || same_status s.status status)
    && every_step status tenant task ss

-- the ladder of `_refresh`
unfoldable pub rollup : String → String → List Step → StepStatus
rollup tenant task steps =
    if some_step uncertain tenant task steps
    then uncertain
    else if some_step failed tenant task steps
    then failed
    else if some_step cancelled tenant task steps
    then cancelled
    else if every_step succeeded tenant task steps
    then succeeded
    else if some_step running tenant task steps
    then running
    else if some_step waiting_approval tenant task steps
    then waiting_approval
    else queued

-- `_refresh`
unfoldable pub refresh : String → String → Db → Db
refresh tenant task db = record db {
  tasks =
      update_where (is_task tenant task) (λ k. record k { status = rollup tenant task db.steps })
        db.tasks;
}

-- `UPDATE p_steps SET … WHERE id=?`
abbrev pub put_step : String → (Step → Step) → Db → Db
put_step id f db = record db { steps = update_where (is_step id) f db.steps }
