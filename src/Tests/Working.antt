-- ===== src/Tests/Working.antt =====
-- Runs of the engine: a task with one step that needs an approval is created, approved, claimed and
-- finished.
use agentic_works.Base.{
  ℕ, String, true, false, List, [], ◌∷◌, ok, refl, arith, zero, suc, ◌≡◌, none, some, ◌==◌, Error,
  err, ap, reply,
}
use agentic_works.Engine.{
  queued, succeeded, failed, World, Db, write, refresh, rollup, Step, Candidate, stopped,
}
use agentic_works.Engine.Submit
use agentic_works.Engine.Submit.{Planned, insert_steps}
use agentic_works.Engine.Claim
use agentic_works.Engine.Claim.{
  expire_steps, ready, in_order, place, verdict, approval_verdict, claim_loop, claimed, is_expired,
}
use agentic_works.Engine.Operate
use agentic_works.Engine.Histories.{Operation, perform, perform_all, perform_all-Sound}
use agentic_works.Engine.Sound.{Sound}
use agentic_works.Engine.Contract.{claim-IsPermitted, IsPermitted}
use agentic_works.Engine.Fences.{finish_once, frozen_grants_nothing}
use agentic_works.Engine.Joined.{IsCandidate}
use agentic_works.Base.Table.{select}

abbrev id_of : String → ℕ → String
id_of prefix zero = prefix
id_of prefix (suc n) = "st"

abbrev pub world : ℕ → String → World
world now prefix = record {
  now = now;
  fresh = id_of prefix;
  authority = λ _ _ _ _. true;
  task_parent = λ _ _. true;
  policy = λ _ _. record { approver_role = "operator"; independent_approval = false };
  validated = λ _. ok "print";
}

abbrev plan : Planned
plan = record {
  tool = "send";
  args = "{}";
  risk = write;
  needed = true;
  fingerprint = "print";
  device = "";
}

abbrev pub nothing : Db
nothing = record { tasks = []; steps = []; approvals = []; devices = []; freezes = []; audit = [] }

pub nothing-Sound : Sound nothing
nothing-Sound = record { ids = λ i. omega arith; once = tt; rolled = tt }

abbrev asked : List (World × Operation)
asked =
    (world 10 "t", Operation.create "acme" "web" "e1" "shop" "full" "ann" (plan ∷ []) "")
    ∷ (world 20 "u", Operation.approve "acme" "st" "bob" "approved" "owner")
    ∷ []

abbrev begun : List (World × Operation)
begun =
    (world 10 "t", Operation.create "acme" "web" "e1" "shop" "full" "ann" (plan ∷ []) "")
    ∷ (world 20 "u", Operation.approve "acme" "st" "bob" "approved" "owner")
    ∷ (world 30 "c", Operation.claim "acme" "cloud" "" 90)
    ∷ []

perform_all-Sound_example : Sound (perform_all nothing begun)
perform_all-Sound_example = perform_all-Sound begun nothing nothing-Sound

abbrev asked_db : Db
asked_db = perform_all nothing asked

abbrev begun_db : Db
begun_db = perform_all nothing begun

abbrev granted : Step
granted = record {
  id = "st";
  task = "t";
  tenant = "acme";
  position = 0;
  tool = "send";
  args = "{}";
  risk = write;
  approval_needed = true;
  fingerprint = "print";
  status = queued;
  claim = "c";
  worker = "cloud";
  lease = 120;
  attempts = 0;
  result = "{}";
  error = "";
  device = "";
}

first_claim : Claim.claim (world 30 "c") "acme" "cloud" "" 90 asked_db ≡ ok (some granted, begun_db)
unfolding perform_all perform Submit.create_task insert_steps refresh rollup Operate.approve
    Claim.claim expire_steps ready in_order place verdict approval_verdict claim_loop
first_claim = refl

claim-IsPermitted_example :
    (c : Candidate) × (granted ≡ claimed (world 30 "c") "cloud" 90 c.step)
    × IsCandidate "acme" ""
        (expire_steps "acme" (select (is_expired "acme" 30) asked_db.steps) asked_db).tasks
        (expire_steps "acme" (select (is_expired "acme" 30) asked_db.steps) asked_db).steps
        c
    × (stopped "acme" asked_db.freezes ≡ false)
    × IsPermitted (world 30 "c") "acme" c asked_db.approvals
claim-IsPermitted_example =
    claim-IsPermitted (world 30 "c") "acme" "cloud" "" 90 asked_db
      (perform_all-Sound asked nothing nothing-Sound) granted begun_db first_claim

abbrev ended_db : Db
ended_db = perform begun_db (world 40 "f", Operation.finish "acme" "st" "c" "{}" succeeded "")

first_finish :
    Claim.finish (world 40 "f") "acme" "st" "c" "{}" succeeded "" begun_db ≡ ok (tt, ended_db)
unfolding perform_all perform Submit.create_task insert_steps refresh rollup Operate.approve
    Claim.claim expire_steps ready in_order place verdict approval_verdict claim_loop Claim.finish
first_finish = refl

token_named : ¬ (◌≡◌ {A = String} "c" "")
token_named e = let same : true ≡ false = ap (λ (p : String). p == "c") e in absurd (cc)

finish_once_example :
    (e : Error) × (Claim.finish (world 50 "g") "acme" "st" "c" "{}" failed "late" ended_db ≡ err e)
finish_once_example =
    finish_once (world 40 "f") (world 50 "g") "acme" "st" "c" "{}" "{}" succeeded failed "" "late"
      begun_db token_named tt ended_db first_finish

abbrev frozen_db : Db
frozen_db = perform asked_db (world 40 "z", Operation.freeze "acme" true "ann")

first_freeze : Operate.freeze (world 40 "z") "acme" true "ann" asked_db ≡ ok (tt, frozen_db)
unfolding perform_all perform Operate.freeze
first_freeze = refl

frozen_grants_nothing_example :
    reply (Claim.claim (world 50 "c") "acme" "cloud" "" 90 frozen_db) ≡ ok none
frozen_grants_nothing_example =
    frozen_grants_nothing (world 40 "z") (world 50 "c") "acme" "ann" "cloud" "" 90 asked_db tt
      frozen_db first_freeze refl (omega arith) (omega arith)
