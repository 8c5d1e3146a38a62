-- ===== src/Plans/Dispatch.antt =====
-- `dispatch_allowed` and `tick` of api-python/platform_runtime/engine.py: the last fence before a
-- step's handler, and what becomes of the step.
use Prim.Native.String.{◌++◌}
use agentic_works.Base.{
  ℕ, String, Bool, true, false, ◌&&◌, not, Option, none, some, Result, ok, err, require, some_or,
  ◌>>=◌, ◌>>◌, forbidden, if◌then◌else◌, commit, not_found,
}
use agentic_works.Base.Table.{first}
use agentic_works.Engine.{
  World, Db, Step, StepStatus, Approval, succeeded, failed, uncertain, require_active,
  require_authority, is_task, staff,
}
use agentic_works.Engine.Claim.{claim, finish, holds_claim, approvers, is_approval}
use agentic_works.Plans.{Realm, Spec, is_read}

abbrev pub actor_of : Option Approval → String
actor_of none = ""
actor_of (some a) = a.actor

abbrev pub is_step_held : Option Step → Bool
is_step_held none = false
is_step_held (some s) = true

-- the approver's authority, for a step that needed one
abbrev pub approver_check : World → String → String → Step → Db → Result (Unit {0})
approver_check w tenant agent s db =
    if s.approval_needed
    then require_authority w tenant "approval"
        (actor_of (first (is_approval tenant s.id) db.approvals))
        (approvers (w.policy tenant agent))
    else ok tt

unfoldable pub dispatch_allowed : World → String → String → Step → Db → Result Bool
dispatch_allowed w tenant agent s db = do
  require_active w tenant db
  require (w.task_parent tenant s.task) forbidden
  k ← some_or (first (is_task tenant s.task) db.tasks) forbidden
  require_authority w tenant k.channel k.actor staff
  approver_check w tenant agent s db
  ok (is_step_held (first (holds_claim w tenant s.id s.claim) db.steps))

-- What a handler comes to: a result, a definite rejection with its reason, or another exception with
-- the name of its type.
pub data Handled : Type 0 where
  handled : (result : String) → Handled
  delivery_rejected : (reason : String) → Handled
  handler_raised : (type_name : String) → Handled

-- how the step is finished
abbrev pub status_of : Spec → Handled → StepStatus
status_of spec (handled result) = succeeded
status_of spec (delivery_rejected reason) = failed
status_of spec (handler_raised name) =
    if spec.external && not (is_read spec.risk) then uncertain else failed

abbrev pub result_of : Handled → String
result_of (handled result) = result
result_of _ = "{}"

abbrev pub error_of : Handled → String
error_of (handled result) = ""
error_of (delivery_rejected reason) = "DeliveryRejected: " ++ reason
error_of (handler_raised name) = name

abbrev pub reply_with : {A : Type 0} → A → Result (Unit {0} × Db) → Result A
reply_with a (ok (u, db)) = ok a
reply_with a (err e) = err e

-- The handler ran: its outcome is written under the claim.
abbrev pub end_step : World → String → Spec → Handled → Step → Db → Db × Result Bool
end_step w tenant spec outcome s db =
    let written =
      finish w tenant s.id s.claim (result_of outcome) (status_of spec outcome) (error_of outcome)
        db in
    (commit db written, reply_with true written)

-- the end of a step whose fence failed; a `Conflict` of `finish` is passed over
abbrev pub refuse_step : World → String → Step → Db → Db × Result Bool
refuse_step w tenant s db = (
  commit db (finish w tenant s.id s.claim "{}" failed "authority_revoked_before_dispatch" db),
  ok false,
)

-- The handler gets the engine: the tables after it have its own writes and those of the transactions
-- that others made meanwhile.
abbrev pub Handler : Type 0
Handler = Step → Db → Handled × Db

-- What other transactions make of the tables between two of the tick's.
abbrev pub Others : Type 0
Others = ℕ → Db → Db

abbrev pub run_step :
    World → String → Spec → Handler → Others → Step → Db → Result Bool → Db × Result Bool
run_step w tenant spec handler others s db (ok true) =
    end_step w tenant spec (handler s db).0 s (handler s db).1
run_step w tenant spec handler others s db (ok false) = (db, ok false)
run_step w tenant spec handler others s db (err forbidden) = refuse_step w tenant s (others 1 db)
run_step w tenant spec handler others s db (err e) = (db, err e)

abbrev pub with_spec :
    World
    → World
    → String
    → (Step → String)
    → Handler
    → Others
    → Step
    → Db
    → Option Spec
    → Db × Result Bool
with_spec w w' tenant agent_of handler others s db none = (db, err not_found)
with_spec w w' tenant agent_of handler others s db (some spec) =
    run_step w' tenant spec handler others s (others 0 db)
      (dispatch_allowed w tenant (agent_of s) s (others 0 db))

abbrev pub with_claim :
    Realm
    → World
    → World
    → String
    → (Step → String)
    → Handler
    → Others
    → Db
    → Result (Option Step × Db)
    → Db × Result Bool
with_claim r w w' tenant agent_of handler others db (err e) = (db, err e)
with_claim r w w' tenant agent_of handler others db (ok (none, db')) = (db', ok false)
with_claim r w w' tenant agent_of handler others db (ok (some s, db')) =
    with_spec w w' tenant agent_of handler others s db' (r.registry s.tool)

-- `tick`: the claim, the last fence and the end are three transactions, each with its own reading of
-- the world, and others may come between them. `agent_of` is the agent that the claim read with the
-- step.
unfoldable pub tick :
    Realm
    → World
    → World
    → World
    → String
    → String
    → (Step → String)
    → Handler
    → Others
    → Db
    → Db × Result Bool
unfolding dispatch_allowed
tick r w w' w'' tenant worker agent_of handler others db =
    with_claim r w' w'' tenant agent_of handler others db (claim w tenant worker "" 90 db)
