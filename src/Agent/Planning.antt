-- ===== src/Agent/Planning.antt =====
-- `plan`, `reserve_next` and `_planner_dispatch_allowed` of
-- api-python/platform_runtime/agent_loop.py: the planner's calls behind the fence. The planner is not
-- this code's: it is a parameter that answers a context.
use agentic_works.Engine.{require_active, require_authority, staff}
use agentic_works.Agent.Commit.{repair, failed, Proposal, commit_result, Outcome, is_held}
use agentic_works.Base.{
  ℕ, zero, suc, ◌+◌, String, Bool, true, false, ◌||◌, Option, none, some, List, [], ◌∷◌,
  if◌then◌else◌, Error, Result, ◌>>=◌, ◌>>◌, ok, err, some_or, not_found,
}
use agentic_works.Agent.{Desk, Office, first, is_run, Decision, not, leb}
use agentic_works.Agent.Reserve.{Reserved, Reservation, reserve}
use agentic_works.Engine.Operate.{is_one_of}

-- What the planner is called with: the reservation and, for the repair call, the decision that was
-- rejected and why.
pub record Context : Type 0 where
  pub reservation : Reservation
  pub rejected : Option (Decision × Error)

-- `_planner_dispatch_allowed`
unfoldable pub planner_dispatch_allowed : Desk → String → String → String → Office → Result Bool
planner_dispatch_allowed d tenant id claim o = do
  r ← some_or (first (is_run tenant id) o.runs) not_found
  if not (is_held claim r) || (leb r.lease d.world.now || leb r.deadline d.world.now)
      then ok false
      else (do
        require_active d.world tenant o.db
        require_authority d.world tenant r.channel r.actor staff
        ok true)

-- the planner's answer, where the fence lets the call through
abbrev pub call_planner : (Context → Proposal) → Context → Result Bool → Proposal
call_planner planner x (ok true) = planner x
call_planner planner x (ok false) = failed
call_planner planner x (err e) = failed

-- What a plan came to: the calls of `_commit` that it made, how it ended, and the tables.
pub record Planned : Type 0 where
  pub commits : ℕ
  pub ended : Result (Unit {0})
  pub office : Office

-- a repair is the next round; with none left, no repair is returned
abbrev pub next_round : (Context → Office → Planned) → Office → Result (Outcome × Office) → Planned
next_round again o (ok (repair reservation decision reason, o')) =
    let p = again (record { reservation = reservation; rejected = some (decision, reason) }) o' in
    record p { commits = p.commits + 1 }
next_round again o (ok (out, o')) = record { commits = 1; ended = ok tt; office = o' }
next_round again o (err e) = record { commits = 1; ended = err e; office = o }

-- The loop of `plan`, with the repairs that are left. Each transaction reads the world of its own
-- moment, and other transactions run while the planner is called.
unfoldable pub plan :
    (ℕ → Desk)
    → (ℕ → Office → Office)
    → String
    → String
    → String
    → (Context → Proposal)
    → ℕ
    → Context
    → Office
    → Planned
unfolding planner_dispatch_allowed commit_result
plan desk others tenant id claim planner zero x o =
    let result = call_planner planner x (planner_dispatch_allowed (desk 0) tenant id claim o) in
    let o' = others 0 o in
    next_round (λ _ o''. record { commits = 0; ended = ok tt; office = o'' }) o'
      (commit_result (desk 1) tenant id claim result false o')
plan desk others tenant id claim planner (suc repairs) x o =
    let result = call_planner planner x (planner_dispatch_allowed (desk 0) tenant id claim o) in
    let o' = others 0 o in
    next_round (plan (λ n. desk (n + 2)) (λ n. others (n + 1)) tenant id claim planner repairs) o'
      (commit_result (desk 1) tenant id claim result true o')

-- `_repairs`
abbrev pub repairs_of : Bool → ℕ
repairs_of true = 1
repairs_of false = 0

-- What `reserve_next` returns: whether a run changed, and the reservation with its run.
abbrev pub Next : Type 0
Next = Bool × Option (String × Reservation)

abbrev pub with_reserved :
    (Office → Bool → Result Next × Office)
    → Office
    → Bool
    → String
    → Result (Reserved × Office)
    → Result Next × Office
with_reserved rest o changed id (err e) = (err e, o)
with_reserved rest o changed id (ok ((moved, some reservation), o')) =
    (ok (true, some (id, reservation)), o')
with_reserved rest o changed id (ok ((moved, none), o')) = rest o' (changed || moved)

-- The loop of `reserve_next` over the ids that `_candidates` read; each `_reserve` is a transaction.
unfoldable pub reserve_next :
    Desk → String → List String → List String → Bool → Office → Result Next × Office
unfolding reserve
reserve_next d tenant skip [] changed o = (ok (changed, none), o)
reserve_next d tenant skip (id ∷ ids) changed o =
    if is_one_of id skip
    then reserve_next d tenant skip ids changed o
    else with_reserved (λ o' c. reserve_next d tenant skip ids c o') o changed id
        (reserve d tenant id o)
