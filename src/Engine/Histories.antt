-- ===== src/Engine/Histories.antt =====
-- Histories of the engine: any sequence of calls, each in its own transaction with what it reads of
-- the world. SQLite lets one write transaction run at a time, so every history is such a sequence.
use agentic_works.Base.{ℕ, String, Bool, List, [], ◌∷◌, commit, commit-cases}
use agentic_works.Engine.{Db, World, StepStatus}
use agentic_works.Engine.Submit.{Planned, create_task}
use agentic_works.Engine.Claim
use agentic_works.Engine.Operate
use agentic_works.Engine.Sound.{Sound}
use agentic_works.Engine.Create.{create_task-Sound}
use agentic_works.Engine.Keep.{claim-Sound, finish-Sound, reconcile-Sound, cancel-Sound}
use agentic_works.Engine.Bulk.{freeze-Sound, enroll-Sound}
use agentic_works.Engine.Decide.{approve-Sound}

-- The arguments of each operation.
pub data Operation : Type 0 where
  create :
      (tenant channel key agent full actor : String) (validated : List Planned) (approver : String)
      → Operation
  approve : (tenant id actor decision role : String) → Operation
  claim : (tenant worker device : String) (lease_seconds : ℕ) → Operation
  finish : (tenant id token result : String) (status : StepStatus) (error : String) → Operation
  cancel : (tenant id actor : String) → Operation
  reconcile : (tenant id actor role : String) (outcome : StepStatus) (evidence : String) → Operation
  freeze : (tenant : String) (value : Bool) (actor : String) → Operation
  device : (tenant id : String) (revoked : Bool) (actor : String) → Operation

-- The tables after a call, whether it returns or raises.
unfoldable pub perform : Db → World × Operation → Db
perform db (w, create t c k a f u vs p) = commit db (create_task w t c k a f u vs p db)
perform db (w, approve t i a d r) = commit db (Operate.approve w t i a d r db)
perform db (w, claim t k d n) = commit db (Claim.claim w t k d n db)
perform db (w, finish t i k r s e) = commit db (Claim.finish w t i k r s e db)
perform db (w, cancel t i a) = commit db (Operate.cancel w t i a db)
perform db (w, reconcile t i a r o x) = commit db (Operate.reconcile w t i a r o x db)
perform db (w, freeze t v a) = commit db (Operate.freeze w t v a db)
perform db (w, device t i r a) = commit db (Operate.enroll w t i r a db)

unfoldable pub perform_all : Db → List (World × Operation) → Db
perform_all db [] = db
perform_all db (o ∷ os) = perform_all (perform db o) os

pub perform-Sound : (db : Db) (o : World × Operation) → Sound db → Sound (perform db o)
unfolding perform
perform-Sound db (w, create t c k a f u vs p) v =
    commit-cases Sound db _ v (create_task-Sound w t c k a f u vs p db v)
perform-Sound db (w, approve t i a d r) v =
    commit-cases Sound db _ v (approve-Sound w t i a d r db v)
perform-Sound db (w, claim t k d n) v = commit-cases Sound db _ v (claim-Sound w t k d n db v)
perform-Sound db (w, finish t i k r s e) v =
    commit-cases Sound db _ v (finish-Sound w t i k r s e db v)
perform-Sound db (w, cancel t i a) v = commit-cases Sound db _ v (cancel-Sound w t i a db v)
perform-Sound db (w, reconcile t i a r o x) v =
    commit-cases Sound db _ v (reconcile-Sound w t i a r o x db v)
perform-Sound db (w, freeze t s a) v = commit-cases Sound db _ v (freeze-Sound w t s a db v)
perform-Sound db (w, device t i r a) v = commit-cases Sound db _ v (enroll-Sound w t i r a db v)

-- From sound tables, over every sequence of submissions, approvals, claims, finishes, cancellations,
-- reconciliations, freezes and device changes, with any clock, ids, policies and authority: step ids
-- stay unique, a step has been claimed at most once, and not at all while it waits, and each task's
-- status is the roll-up of its steps' statuses.
pub perform_all-Sound :
    (operations : List (World × Operation)) (db : Db) → Sound db → Sound (perform_all db operations)
unfolding perform_all
perform_all-Sound [] db v = v
perform_all-Sound (o ∷ os) db v = perform_all-Sound os (perform db o) (perform-Sound db o v)
