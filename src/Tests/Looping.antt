-- ===== src/Tests/Looping.antt =====
-- Runs of the agent loop: a run is created and reserved, its planner asks for a message, the task runs,
-- and the next answer ends the run.
use agentic_works.Engine.Histories.{Operation}
use agentic_works.Engine.Sound.{Sound}
use agentic_works.Engine
use agentic_works.Engine.{Step, Task}
use agentic_works.Agent.Commit.{committed, Outcome, commit_result}
use agentic_works.Agent.Grounded.{IsGrounded, commit_result-IsGrounded}
use agentic_works.Tests.Working.{world, nothing, nothing-Sound}
use agentic_works.Tests.Planning.{realm, message}
use agentic_works.Agent.{Office, Run, Desk, tool_call, final, is_run, succeeded, planning, question}
use agentic_works.Agent.Commit.{decided, Proposal}
use agentic_works.Agent.Machine.{IsBounded, Life}
use agentic_works.Agent.Effects.{Keyed}
use agentic_works.Agent.Tables.{transact_all-Sound}
use agentic_works.Agent.History.{
  Transaction, create_run, reserve_run, commit_run, engine_call, transact_all,
  transact_all-IsBounded, cancel_run, transact_all_final, Born, transact_all-Lives,
}
use agentic_works.Base.{
  ℕ, String, ◌≡◌, refl, false, some, List, [], ◌∷◌, arith, All, ◌+◌, inl, inr, none, ◌==◌,
  Bool-cases, Result, ok, commit,
}
use agentic_works.Base.Table.{first}
use agentic_works.Base.Growth.{Grows}
use agentic_works.Agent.Planning.{Context, plan}
use agentic_works.Agent.Settled.{IsSettled, plan-IsSettled}

abbrev desk : ℕ → String → Desk
desk now prefix = record {
  world = world now prefix;
  realm = realm;
  events = [];
  step_size = λ _. 100;
  history_size = λ _. 100;
  decision_size = λ _. 100;
  action_digest = λ _ _. "action";
  turn_key = λ _ _. "agent-run:r:0";
}

abbrev empty_office : Office
empty_office = record { db = nothing; runs = []; turns = [] }

empty-Keyed : Keyed empty_office.runs
empty-Keyed i = omega arith

-- one turn: a message is asked for, sent, and the run answers
abbrev turn : List (Desk × Transaction)
turn =
    (desk 10 "r", create_run "acme" "k" "shop" "hello" "ann" "full" 6 1800 "agent")
    ∷ (desk 20 "c", reserve_run "acme" "r")
    ∷ (desk 30 "t", commit_run "acme" "r" "c" (decided (tool_call "telegram.send" message)) false)
    ∷ (desk 40 "w", engine_call (Operation.claim "acme" "cloud" "" 90))
    ∷ (desk 50 "f", engine_call (Operation.finish "acme" "st" "w" "{}" Engine.succeeded ""))
    ∷ (desk 60 "c2", reserve_run "acme" "r")
    ∷ (desk 70 "x", commit_run "acme" "r" "c2" (decided (final "done" ("step:st" ∷ []))) false)
    ∷ []

transact_all-Sound_example : Sound (transact_all empty_office turn).db
transact_all-Sound_example = transact_all-Sound turn empty_office nothing-Sound

transact_all-IsBounded_example : All IsBounded (transact_all empty_office turn).runs
transact_all-IsBounded_example = transact_all-IsBounded turn empty_office empty-Keyed tt

abbrev ended_run : Run
ended_run = record {
  id = "r";
  tenant = "acme";
  request_key = "k";
  fingerprint = "full";
  agent = "shop";
  actor = "ann";
  input = "hello";
  status = succeeded;
  created = 10;
  deadline = 1810;
  max_steps = 6;
  max_calls = 7;
  calls = 2;
  steps = 1;
  current_task = "t";
  claim = "";
  lease = 0;
  answer = "done";
  evidence_ids = "step:st" ∷ [];
  error = "";
  channel = "agent";
}

abbrev ended_office : Office
ended_office = record { db = nothing; runs = ended_run ∷ []; turns = [] }

ended-Keyed : Keyed ended_office.runs
ended-Keyed i = elim (Bool-cases ("r" == i)) [
  | inl c ↦ rw c (omega arith)
  | inr c ↦ rw c (omega arith)
]

abbrev late : List (Desk × Transaction)
late = (desk 80 "c3", reserve_run "acme" "r") ∷ (desk 90 "z", cancel_run "acme" "r" "ann") ∷ []

transact_all_final_example :
    first (is_run "acme" "r") (transact_all ended_office late).runs ≡ some ended_run
transact_all_final_example =
    transact_all_final late ended_office "acme" "r" ended_run ended-Keyed refl refl

transact_all-Lives_example :
    Grows Life Born ended_office.runs (transact_all ended_office late).runs
    × Keyed (transact_all ended_office late).runs
transact_all-Lives_example = transact_all-Lives late ended_office ended-Keyed

-- a run whose planner call is out
abbrev planning_office : Office
planning_office = record {
  db = nothing;
  runs =
      record ended_run {
        status = planning;
        claim = "c";
        lease = 200;
        answer = "";
        evidence_ids = [];
        steps = 0;
        calls = 1;
        current_task = "";
      }
      ∷ [];
  turns = [];
}

-- first an answer without evidence, then a question
abbrev answer_twice : Context → Proposal
answer_twice x = elim x.rejected [
  | none ↦ decided (final "done" [])
  | some d ↦ decided (question "which one?")
]

abbrev first_context : Context
first_context = record {
  reservation = record {
    claim = "c";
    call_index = 1;
    remaining_steps = 6;
    remaining_calls = 6;
    seen = [];
  };
  rejected = none;
}

plan-IsSettled_example : IsSettled "acme" "r" "c" 1 (
    plan
      (λ n. desk (30 + n) "x")
      (λ _ o. o)
      "acme"
      "r"
      "c"
      answer_twice
      1
      first_context
      planning_office)
plan-IsSettled_example =
    plan-IsSettled "acme" "r" "c" (λ n. desk (30 + n) "x") (λ _ o. o) answer_twice 1 first_context
      planning_office

-- the first answer is rejected and repaired, and the question ends the run
planned_twice :
    (plan
      (λ n. desk (30 + n) "x")
      (λ _ o. o)
      "acme"
      "r"
      "c"
      answer_twice
      1
      first_context
      planning_office).commits
    ≡ 2
unfolding plan
planned_twice = refl

-- a run that has seen one step, and whose second call is out
abbrev seen_run : Run
seen_run = record ended_run {
  status = planning;
  claim = "c";
  lease = 200;
  answer = "";
  evidence_ids = [];
}

abbrev seen_step : Step
seen_step = record {
  id = "st";
  task = "t";
  tenant = "acme";
  position = 0;
  tool = "catalog.read";
  args = "{}";
  risk = Engine.read;
  approval_needed = false;
  fingerprint = "print";
  status = Engine.succeeded;
  claim = "";
  worker = "cloud";
  lease = 0;
  attempts = 1;
  result = "{}";
  error = "";
  device = "";
}

abbrev seen_task : Task
seen_task = record {
  id = "t";
  tenant = "acme";
  channel = "agent";
  event_key = "agent-run:r:0";
  fingerprint = "full";
  agent = "shop";
  actor = "ann";
  status = Engine.succeeded;
  created = 30;
}

abbrev seen_office : Office
seen_office = record {
  db = record nothing { tasks = seen_task ∷ []; steps = seen_step ∷ [] };
  runs = seen_run ∷ [];
  turns =
      record {
        tenant = "acme";
        run_id = "r";
        position = 0;
        task = "t";
        action_fingerprint = "look";
      }
      ∷ [];
}

abbrev cited : Result (Outcome × Office)
cited =
    commit_result (desk 70 "x") "acme" "r" "c" (decided (final "done" ("step:st" ∷ []))) false
      seen_office

abbrev answered_office : Office
answered_office = commit seen_office cited

abbrev answered_found : Run
answered_found = record seen_run {
  status = succeeded;
  claim = "";
  lease = 0;
  answer = "done";
  evidence_ids = "step:st" ∷ [];
}

committed_once : cited ≡ ok (committed, answered_office)
unfolding commit_result
committed_once = refl

found_answered : first (is_run "acme" "r") answered_office.runs ≡ some answered_found
unfolding commit_result
found_answered = refl

commit_result-IsGrounded_example : IsGrounded (desk 70 "x") seen_run seen_office answered_found
commit_result-IsGrounded_example =
    commit_result-IsGrounded (desk 70 "x") "acme" "r" "c" (decided (final "done" ("step:st" ∷ [])))
      false seen_office seen_run refl refl committed answered_office committed_once answered_found
      found_answered refl
