-- ===== src/Engine/Operate.antt =====
-- What people do to tasks and steps: `approve`, `cancel`, `reconcile`, `freeze` and `device` of
-- api-python/platform_runtime/engine.py.
use agentic_works.Base.{
  value_error, conflict, forbidden, not_found, String, Bool, true, false, ◌&&◌, ◌||◌, Option, none,
  some, List, [], ◌∷◌, ◌==◌, if◌then◌else◌, Result, ◌>>=◌, ◌>>◌, require, ok, some_or, leb, length,
  not, ltb, ℕ, ◌+◌, eqb, all,
}
use agentic_works.Base.Table.{first, select, update_where}
use agentic_works.Base.Text.{codes, has_text}
use agentic_works.Engine.{
  queued, running, succeeded, failed, cancelled, uncertain, pending, approved, rejected, Approval,
  ApprovalStatus, Db, World, StepStatus, Step, Task, require_authority, same_status, refresh,
  is_step, require_active, staff, owners, is_task, log, is_step_of, Device,
}
use agentic_works.Engine.Claim.{
  is_approval, is_running, has_task_id, approvers, is_waiting, is_open, is_undecided, is_device,
}

abbrev pub is_one_of : String → List String → Bool
is_one_of s [] = false
is_one_of s (t ∷ ts) = s == t || is_one_of s ts

abbrev pub is_pending : Approval → Bool
is_pending a = elim a.status [ pending ↦ true | _ ↦ false ]

abbrev pub decision_status : Bool → ApprovalStatus
decision_status true = approved
decision_status false = rejected

-- the row of the approval joined with its step and its task
abbrev pub Row : Type 0
Row = Approval × Step × Task

abbrev pub with_task : Approval → Step → Option Task → Option Row
with_task a s none = none
with_task a s (some k) = some (a, s, k)

abbrev pub with_step : Approval → Option Step → List Task → Option Row
with_step a none tasks = none
with_step a (some s) tasks = with_task a s (first (has_task_id s.task) tasks)

abbrev pub find_approval : String → String → Db → Option Row
find_approval tenant id db = elim (first (is_approval tenant id) db.approvals) [
  | none ↦ none
  | some a ↦ with_step a (first (is_step a.step) db.steps) db.tasks
]

-- what the decision on a pending approval writes
abbrev pub decide : World → String → String → String → Bool → String → Db → Db
decide w tenant id actor yes_to task db = refresh tenant task (
    log
      (record db {
        approvals =
            update_where (is_approval tenant id)
              (λ x. record x {
                status = decision_status yes_to;
                actor = actor;
                decided = some w.now;
              })
              db.approvals;
        steps =
            update_where (λ x. x.tenant == tenant && x.id == id)
              (λ x. record x { status = if yes_to then queued else cancelled }) db.steps;
      })
      tenant task (if yes_to then "approval.approved" else "approval.rejected") actor id)

unfoldable pub approve :
    World → String → String → String → String → String → Db → Result (Unit {0} × Db)
approve w tenant id actor decision role db = do
  require (is_one_of role ("owner" ∷ "operator" ∷ "super-admin" ∷ [])) forbidden
  require (is_one_of decision ("approved" ∷ "rejected" ∷ [])) value_error
  row ← some_or (find_approval tenant id db) not_found
  let (a, s, k) = row
  require_active w tenant db
  require (w.task_parent tenant s.task) forbidden
  let policy = w.policy tenant k.agent
  let yes_to = decision == "approved"
  require_authority w tenant "approval" actor (approvers policy)
  require (not (yes_to && (policy.independent_approval && actor == k.actor))) forbidden
  require (is_one_of policy.approver_role ("operator" ∷ "owner" ∷ [])) forbidden
  require (not (policy.approver_role == "owner") || is_one_of role ("owner" ∷ "super-admin" ∷ []))
      forbidden
  require (is_pending a && (is_waiting s.status && ltb w.now a.expires)) conflict
  ok (tt, decide w tenant id actor yes_to s.task db)

-- `CASE WHEN status='running' THEN 'uncertain' ELSE 'cancelled' END`
abbrev pub stopped_status : StepStatus → StepStatus
stopped_status running = uncertain
stopped_status _ = cancelled

-- `step IN (SELECT id FROM p_steps WHERE …)`
abbrev pub any_step : (Step → Bool) → List Step → Approval → Bool
any_step p [] a = false
any_step p (s ∷ ss) a = (p s && a.step == s.id) || any_step p ss a

abbrev pub is_terminal : StepStatus → Bool
is_terminal succeeded = true
is_terminal failed = true
is_terminal cancelled = true
is_terminal _ = false

unfoldable pub cancel : World → String → String → String → Db → Result (Unit {0} × Db)
cancel w tenant id actor db = do
  require_authority w tenant "web" actor staff
  k ← some_or (first (is_task tenant id) db.tasks) not_found
  require (not (is_terminal k.status)) conflict
  let steps =
      update_where (λ s. is_step_of tenant id s && is_open s.status)
        (λ s. record s { status = stopped_status s.status; claim = "" }) db.steps
  ok (
    tt,
    refresh tenant id (
        log
          (record db {
            steps = steps;
            approvals =
                update_where
                  (λ a.
                    a.tenant == tenant && (any_step (λ s. s.task == id) steps a && is_undecided a))
                  (λ a. record a { status = rejected }) db.approvals;
          })
          tenant id "task.cancel_requested" actor id),
  )

abbrev pub is_uncertain : String → String → Step → Bool
is_uncertain tenant id s = s.tenant == tenant && (s.id == id && same_status s.status uncertain)

abbrev pub is_settlement : StepStatus → Bool
is_settlement succeeded = true
is_settlement failed = true
is_settlement _ = false

unfoldable pub reconcile :
    World → String → String → String → String → StepStatus → String → Db → Result (Unit {0} × Db)
unfolding has_text
reconcile w tenant id actor role outcome evidence db = do
  require (is_one_of role ("owner" ∷ "super-admin" ∷ [])) forbidden
  require
      (is_settlement outcome && (has_text (codes evidence) && leb (length (codes evidence)) 500))
      value_error
  require_authority w tenant "web" actor owners
  s ← some_or (first (is_uncertain tenant id) db.steps) conflict
  ok (
    tt,
    refresh tenant s.task (
        log
          (record db {
            steps =
                update_where (λ x. x.tenant == tenant && x.id == id)
                  (λ x. record x { status = outcome; error = "operator_reconciled" }) db.steps;
          })
          tenant s.task "step.reconciled" actor id),
  )

-- `SELECT DISTINCT task`
unfoldable pub tasks_of : List Step → List String
tasks_of [] = []
tasks_of (s ∷ ss) = let rest = tasks_of ss in if is_one_of s.task rest then rest else s.task ∷ rest

unfoldable pub refresh_all : String → List String → Db → Db
refresh_all tenant [] db = db
refresh_all tenant (t ∷ ts) db = refresh_all tenant ts (refresh tenant t db)

abbrev pub set_freeze : String → Bool → List (String × Bool) → List (String × Bool)
set_freeze tenant value [] = (tenant, value) ∷ []
set_freeze tenant value ((t, s) ∷ rows) =
    if t == tenant then (t, value) ∷ rows else (t, s) ∷ set_freeze tenant value rows

abbrev pub runs_for : String → Step → Bool
runs_for tenant s = s.tenant == tenant && is_running s

unfoldable pub freeze_running : String → Db → Db
unfolding refresh_all tasks_of
freeze_running tenant db =
    refresh_all tenant (tasks_of (select (runs_for tenant) db.steps)) (record db {
      steps =
          update_where (runs_for tenant)
            (λ s. record s {
              status = uncertain;
              claim = "";
              error = "tenant_frozen_during_execution";
            })
            db.steps;
    })

unfoldable pub freeze : World → String → Bool → String → Db → Result (Unit {0} × Db)
freeze w tenant value actor db = do
  require_authority w tenant "web" actor owners
  let marked = record db { freezes = set_freeze tenant value db.freezes }
  let done = if value then freeze_running tenant marked else marked
  ok (tt, log done tenant "" (if value then "tenant.freeze" else "tenant.resume") actor "")

-- `re.fullmatch(r'[A-Za-z0-9_-]{1,128}', device)`
abbrev pub is_device_char : ℕ → Bool
is_device_char c =
    (leb b'A' c && leb c b'Z')
    || (leb b'a' c && leb c b'z')
    || (leb b'0' c && leb c b'9')
    || eqb c b'_'
    || eqb c b'-'

unfoldable pub is_device_name : String → Bool
is_device_name text =
    all is_device_char (codes text)
    && (leb 1 (length (codes text)) && leb (length (codes text)) 128)

abbrev pub open_on : String → String → Step → Bool
open_on tenant device s = s.tenant == tenant && (s.device == device && is_open s.status)

-- `INSERT … ON CONFLICT(tenant,id) DO UPDATE`
abbrev pub put_device : String → String → Bool → List Device → List Device
put_device tenant id revoked [] =
    record { tenant = tenant; id = id; revoked = revoked; generation = 1 } ∷ []
put_device tenant id revoked (d ∷ ds) =
    if is_device tenant id d
    then record d { revoked = revoked; generation = d.generation + 1 } ∷ ds
    else d ∷ put_device tenant id revoked ds

abbrev pub generation_of : Option Device → ℕ
generation_of none = 0
generation_of (some d) = d.generation

unfoldable pub change_device : World → String → String → Bool → String → Db → Db
unfolding refresh_all tasks_of
change_device w tenant id revoked actor db =
    let opened = select (open_on tenant id) db.steps in
    let stopped_db = refresh_all tenant (tasks_of opened) (record db {
      approvals =
          update_where
            (λ a. a.tenant == tenant && (is_undecided a && any_step (open_on tenant id) db.steps a))
            (λ a. record a { status = rejected; actor = actor; decided = some w.now }) db.approvals;
      steps =
          update_where (open_on tenant id)
            (λ s. record s {
              status = stopped_status s.status;
              claim = "";
              lease = 0;
              error = "device_enrollment_changed";
            })
            db.steps;
    }) in
    record stopped_db { devices = put_device tenant id revoked stopped_db.devices }

unfoldable pub enroll : World → String → String → Bool → String → Db → Result (ℕ × Db)
unfolding change_device is_device_name
enroll w tenant id revoked actor db = do
  require (is_device_name id) value_error
  require_authority w tenant "web" actor owners
  (if revoked then ok tt else require_active w tenant db)
  let done = change_device w tenant id revoked actor db
  ok (
    generation_of (first (is_device tenant id) done.devices),
    log done tenant "" (if revoked then "device.revoked" else "device.enrolled") actor id,
  )
