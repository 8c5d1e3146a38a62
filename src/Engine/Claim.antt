-- ===== src/Engine/Claim.antt =====
-- `claim` and `finish` of api-python/platform_runtime/engine.py: the lease of the next step that may
-- run, and its end.
use agentic_works.Base.{
  refl, ◌≡◌, ◌+◌, ℕ, zero, suc, String, Bool, true, false, ◌&&◌, ◌||◌, Option, none, some, List, [],
  ◌∷◌, ◌++◌, ◌==◌, if◌then◌else◌, Error, Result, ◌>>=◌, ◌>>◌, Check, require, ok, err, leb, ltb,
  not, forbidden, eqb, value_error, length, some_or, conflict,
}
use agentic_works.Base.Table.{first, select, update_where}
use agentic_works.Base.Text.{codes}
use agentic_works.Engine.{
  Approval, Candidate, Db, Device, Policy, Step, StepStatus, Task, World, approved, cancelled,
  consumed, failed, log, owners, pending, put_step, queued, refresh, rejected, running, same_status,
  staff, stopped, succeeded, uncertain, waiting_approval,
}
use agentic_works.Base.{value_error, conflict, forbidden, not_found}

abbrev pub is_running : Step → Bool
is_running s = same_status s.status running

abbrev pub is_expired : String → ℕ → Step → Bool
is_expired tenant now s = s.tenant == tenant && (is_running s && leb s.lease now)

-- a running step whose lease ran out: nobody knows what it did
abbrev pub expire_step : String → Step → Db → Db
expire_step tenant s db = refresh tenant s.task (
    log
      (record db {
        steps =
            update_where (λ r. r.tenant == tenant && r.id == s.id)
              (λ r. record r { status = uncertain; error = "lease_expired"; claim = "" }) db.steps;
      })
      tenant s.task "step.uncertain" "recovery" s.id)

unfoldable pub expire_steps : String → List Step → Db → Db
expire_steps tenant [] db = db
expire_steps tenant (s ∷ ss) db = expire_steps tenant ss (expire_step tenant s db)

abbrev pub is_waiting : StepStatus → Bool
is_waiting queued = true
is_waiting waiting_approval = true
is_waiting _ = false

abbrev pub is_open : StepStatus → Bool
is_open queued = true
is_open running = true
is_open waiting_approval = true
is_open _ = false

-- `EXISTS(… prev.task=s.task AND prev.position<s.position AND prev.status!='succeeded')`
abbrev pub is_blocked : Step → List Step → Bool
is_blocked s [] = false
is_blocked s (p ∷ ps) =
    (p.task == s.task && (ltb p.position s.position && not (same_status p.status succeeded)))
    || is_blocked s ps

-- the join of a step with its task, if that is open
abbrev pub candidate : Step → Option Task → List Candidate
candidate s none = []
candidate s (some k) =
    if is_open k.status
    then record {
      step = s;
      agent = k.agent;
      creator = k.actor;
      channel = k.channel;
      event_key = k.event_key;
      created = k.created;
    }
      ∷ []
    else []

abbrev pub has_task_id : String → Task → Bool
has_task_id id k = k.id == id

abbrev pub is_ready : String → String → List Step → Step → Bool
is_ready tenant device steps s =
    s.tenant == tenant && (s.device == device && (is_waiting s.status && not (is_blocked s steps)))

unfoldable pub ready : String → String → List Task → List Step → List Step → List Candidate
ready tenant device tasks steps [] = []
ready tenant device tasks steps (s ∷ ss) =
    let rest = ready tenant device tasks steps ss in
    if is_ready tenant device steps s
    then candidate s (first (has_task_id s.task) tasks) ++ rest
    else rest

-- `ORDER BY t.created, s.position`
abbrev pub comes_first : Candidate → Candidate → Bool
comes_first a b =
    ltb a.created b.created || (eqb a.created b.created && leb a.step.position b.step.position)

unfoldable pub place : Candidate → List Candidate → List Candidate
place c [] = c ∷ []
place c (d ∷ ds) = let rest = place c ds in if comes_first c d then c ∷ d ∷ ds else d ∷ rest

unfoldable pub in_order : List Candidate → List Candidate
unfolding place
in_order [] = []
in_order (c ∷ cs) = place c (in_order cs)

abbrev pub fail_step : String → Step → String → Db → Db
fail_step tenant s error db =
    refresh tenant s.task (put_step s.id (λ r. record r { status = failed; error = error }) db)

abbrev pub is_undecided : Approval → Bool
is_undecided a = elim a.status [ pending ↦ true | approved ↦ true | _ ↦ false ]

abbrev pub is_approval : String → String → Approval → Bool
is_approval tenant step a = a.tenant == tenant && a.step == step

-- a step whose agent run no longer authorises it
abbrev pub retire_step : World → String → Step → Db → Db
retire_step w tenant s db = refresh tenant s.task (
    log
      (record db {
        steps =
            update_where (λ r. r.tenant == tenant && r.id == s.id)
              (λ r. record r {
                status = cancelled;
                claim = "";
                lease = 0;
                error = "agent_run_inactive";
              })
              db.steps;
        approvals =
            update_where (λ a. is_approval tenant s.id a && is_undecided a)
              (λ a. record a { status = rejected; actor = "agent-loop"; decided = some w.now })
              db.approvals;
      })
      tenant s.task "step.cancelled" "agent-loop" s.id)

-- What the checks of one candidate come to.
pub data Verdict : Type 0 where
  inactive : Verdict
  invalid : String → Verdict
  wait : Verdict
  run : Verdict
  raised : Error → Verdict

-- To split on a computed verdict and keep the equation.
pub data VerdictCase (v : Verdict) : Type 0 where
  is_inactive : v ≡ inactive → VerdictCase v
  is_invalid : (error : String) → v ≡ invalid error → VerdictCase v
  is_wait : v ≡ wait → VerdictCase v
  is_run : v ≡ run → VerdictCase v
  is_raised : (error : Error) → v ≡ raised error → VerdictCase v

pub Verdict-cases : (v : Verdict) → VerdictCase v
Verdict-cases inactive = is_inactive refl
Verdict-cases (invalid error) = is_invalid error refl
Verdict-cases wait = is_wait refl
Verdict-cases run = is_run refl
Verdict-cases (raised error) = is_raised error refl

-- the roles that may decide an approval
abbrev pub approvers : Policy → List String
approvers p = if p.approver_role == "owner" then owners else staff

abbrev pub is_approved : Approval → Bool
is_approved a = elim a.status [ approved ↦ true | _ ↦ false ]

-- the approval that the step needs
unfoldable pub approval_verdict : World → String → Candidate → Option Approval → Verdict
approval_verdict w tenant c none = invalid "approval_expired_or_invalid"
approval_verdict w tenant c (some a) =
    if not (a.fingerprint == c.step.fingerprint) || leb a.expires w.now
    then invalid "approval_expired_or_invalid"
    else if not (is_approved a)
    then wait
    else if w.authority tenant "approval" a.actor (approvers (w.policy tenant c.agent))
    then run
    else invalid "approver_revoked"

-- the `except` clauses round the second validation; a `RateLimited` or another `RuntimeError` is
-- caught by neither
abbrev pub validation_error : Error → Verdict
validation_error not_found = invalid "conversation_unknown"
validation_error value_error = invalid "policy_changed"
validation_error conflict = invalid "policy_changed"
validation_error forbidden = invalid "policy_changed"
validation_error e = raised e

abbrev pub checked : World → String → Candidate → Db → Result String → Verdict
checked w tenant c db (err e) = validation_error e
checked w tenant c db (ok full) =
    if not (full == c.step.fingerprint)
    then invalid "policy_changed"
    else if c.step.approval_needed
    then approval_verdict w tenant c (first (is_approval tenant c.step.id) db.approvals)
    else run

unfoldable pub verdict : World → String → Candidate → Db → Verdict
unfolding approval_verdict
verdict w tenant c db =
    if not (w.task_parent tenant c.step.task)
    then inactive
    else if not (w.authority tenant c.channel c.creator staff)
    then invalid "authority_revoked"
    else checked w tenant c db (w.validated c)

-- `UPDATE p_approvals SET status='consumed'`, for a step that needed its approval
abbrev pub consume : Step → Db → Db
consume s db = record db {
  approvals =
      if s.approval_needed
      then update_where (λ a. a.step == s.id) (λ a. record a { status = consumed }) db.approvals
      else db.approvals;
}

abbrev pub lease_to : World → String → ℕ → Step → Step
lease_to w worker lease_seconds s = record s {
  status = running;
  claim = w.fresh 0;
  worker = worker;
  lease = w.now + lease_seconds;
  attempts = s.attempts + 1;
}

-- the row that `claim` returns: the one that it read, with the claim written in
abbrev pub claimed : World → String → ℕ → Step → Step
claimed w worker lease_seconds s = record s {
  claim = w.fresh 0;
  worker = worker;
  lease = w.now + lease_seconds;
}

abbrev pub start_step : World → String → String → ℕ → Step → Db → Db
start_step w tenant worker lease_seconds s db = refresh tenant s.task (
    log (put_step s.id (lease_to w worker lease_seconds) (consume s db)) tenant s.task
      "step.claimed" worker s.id)

-- the loop over the candidates: the first that may run is claimed
unfoldable pub claim_loop :
    World → String → String → ℕ → List Candidate → Db → Result (Option Step × Db)
unfolding verdict
claim_loop w tenant worker lease_seconds [] db = ok (none, db)
claim_loop w tenant worker lease_seconds (c ∷ cs) db = elim (verdict w tenant c db) [
  | inactive ↦ claim_loop w tenant worker lease_seconds cs (retire_step w tenant c.step db)
  | invalid error ↦ claim_loop w tenant worker lease_seconds cs (fail_step tenant c.step error db)
  | wait ↦ claim_loop w tenant worker lease_seconds cs (
      refresh tenant c.step.task
        (put_step c.step.id (λ r. record r { status = waiting_approval }) db))
  | run ↦ ok (
    some (claimed w worker lease_seconds c.step),
    start_step w tenant worker lease_seconds c.step db,
  )
  | raised e ↦ err e
]

abbrev pub is_device : String → String → Device → Bool
is_device tenant id d = d.tenant == tenant && d.id == id

-- a device that is named must be enrolled
abbrev pub device_check : String → String → List Device → Check
device_check tenant device devices =
    if device == "" then ok tt else elim (first (is_device tenant device) devices) [
      | none ↦ err forbidden
      | some d ↦ require (not d.revoked) forbidden
    ]

unfoldable pub claim : World → String → String → String → ℕ → Db → Result (Option Step × Db)
claim w tenant worker device lease_seconds db = do
  require (not (worker == "") && (leb 5 lease_seconds && leb lease_seconds 600)) value_error
  let swept = expire_steps tenant (select (is_expired tenant w.now) db.steps) db
  if stopped tenant swept.freezes || not (w.authority tenant "" "" staff)
      then ok (none, swept)
      else do
        device_check tenant device swept.devices
        claim_loop w tenant worker lease_seconds
            (in_order (ready tenant device swept.tasks swept.steps swept.steps)) swept

-- `error[:200]`
abbrev pub clip : ℕ → String → String
clip zero s = ""
clip (suc n) String.[] = ""
clip (suc n) (String.◌∷◌ c s) = String.◌∷◌ c (clip n s)

abbrev pub is_outcome : StepStatus → Bool
is_outcome succeeded = true
is_outcome failed = true
is_outcome uncertain = true
is_outcome _ = false

-- the claim that `finish` must still hold
abbrev pub holds_claim : World → String → String → String → Step → Bool
holds_claim w tenant id token s =
    s.tenant == tenant && (s.id == id && (s.claim == token && (is_running s && ltb w.now s.lease)))

abbrev pub outcome_action : StepStatus → String
outcome_action succeeded = "step.succeeded"
outcome_action failed = "step.failed"
outcome_action _ = "step.uncertain"

abbrev pub max_result : ℕ
max_result = 100_000

-- `result` is the encoded result
unfoldable pub finish :
    World → String → String → String → String → StepStatus → String → Db → Result (Unit {0} × Db)
finish w tenant id token result status error db = do
  require (is_outcome status) value_error
  require (leb (length (codes result)) max_result) value_error
  r ← some_or (first (holds_claim w tenant id token) db.steps) conflict
  ok (
    tt,
    refresh tenant r.task (
        log
          (put_step id
            (λ s. record s {
              status = status;
              result = result;
              error = clip 200 error;
              claim = "";
              lease = 0;
            })
            db)
          tenant r.task (outcome_action status) r.worker id),
  )
