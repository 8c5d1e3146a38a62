-- ===== src/Agent/Machine.antt =====
-- The life of an agent run (api-python/platform_runtime/agent_loop.py) as a machine: the moves that
-- its row makes, whatever the transaction, and what every sequence of moves keeps.
use agentic_works.Base.{
  ℕ, ◌≤◌, ◌<◌, String, ◌≡◌, Bool, true, false, List, ◌+◌, refl, ◌∙◌, arith, subst, ap, sym,
}
use agentic_works.Agent.{
  planning, succeeded, needs_input, escalated, uncertain, cancelled, RunStatus, Run, World, Desk,
  is_active, stopped_run,
}
use agentic_works.Agent.Runs.{new_run}
use agentic_works.Agent.Reserve.{planning_run}
use agentic_works.Agent.Commit.{linked_run, answered_run, repairing_run}

-- The statuses that end a run (TERMINAL), but those that only an answer gives.
abbrev pub is_stop : RunStatus → Bool
is_stop escalated = true
is_stop uncertain = true
is_stop cancelled = true
is_stop _ = false

abbrev pub is_answer : RunStatus → Bool
is_answer succeeded = true
is_answer needs_input = true
is_answer _ = false

abbrev pub is_planning : RunStatus → Bool
is_planning planning = true
is_planning _ = false

-- One transaction's effect on the row of a run.
pub data Move (r s : Run) : Type 0 where
  stays : s ≡ r → Move r s
  -- `_reserve`
  reserves :
      (w : World)
      → is_active r.status ≡ true
      → is_planning r.status ≡ false
      → r.calls < r.max_calls
      → s ≡ planning_run w r
      → Move r s
  -- `_commit`, of a tool call
  links :
      (task : String)
      → is_planning r.status ≡ true
      → r.steps < r.max_steps
      → s ≡ linked_run task r
      → Move r s
  -- `_commit`, of an answer or a question
  answers :
      (status : RunStatus) (answer : String) (evidence : List String)
      → is_planning r.status ≡ true
      → is_answer status ≡ true
      → s ≡ answered_run status answer evidence r
      → Move r s
  -- `_repair`
  repairs :
      (w : World)
      → is_planning r.status ≡ true
      → r.calls < r.max_calls
      → s ≡ repairing_run w r
      → Move r s
  -- `_stop`
  stops :
      (status : RunStatus) (reason : String)
      → is_active r.status ≡ true
      → is_stop status ≡ true
      → s ≡ stopped_run status reason r
      → Move r s

-- The rows that `create` inserts.
pub data IsNew (r : Run) : Type 0 where
  created :
      (d : Desk) (tenant key agent input actor full : String) (max_steps max_seconds : ℕ)
      (channel : String)
      → max_steps ≤ 12
      → r ≡ new_run d tenant key agent input actor full max_steps max_seconds channel
      → IsNew r

-- Sequences of moves.
pub data Life : Run → Run → Type 0 where
  rest : (r : Run) → Life r r
  move : {r s t : Run} → Move r s → Life s t → Life r t

-- A run within its budgets: each turn has had its planner call, and there is one call more than there
-- are steps.
pub record IsBounded (r : Run) : Type 0 where
  pub steps : r.steps ≤ r.max_steps
  pub calls : r.calls ≤ r.max_calls
  pub turns : r.steps ≤ r.calls
  pub ahead : is_planning r.status ≡ true → r.steps < r.calls
  pub budget : r.max_calls ≡ r.max_steps + 1
  pub most : r.max_steps ≤ 12

pub new-IsBounded : {r : Run} → IsNew r → IsBounded r
new-IsBounded (created d tenant key agent input actor full max_steps max_seconds channel m e) =
    subst IsBounded (sym e) (record {
      steps = omega arith;
      calls = omega arith;
      turns = omega arith;
      ahead = λ x. absurd (cc);
      budget = refl;
      most = m;
    })

answer_not_planning : (s : RunStatus) → is_answer s ≡ true → is_planning s ≡ false
answer_not_planning s h = ground (arith, h)

stop_not_planning : (s : RunStatus) → is_stop s ≡ true → is_planning s ≡ false
stop_not_planning s h = ground (arith, h)

pub move-IsBounded : (r s : Run) → Move r s → IsBounded r → IsBounded s
move-IsBounded r s (stays e) b = subst IsBounded (sym e) b
move-IsBounded r s (reserves w live idle left e) b = subst IsBounded (sym e) (record {
  steps = b.steps;
  calls = omega (arith, left);
  turns = omega (arith, b.turns);
  ahead = λ x. omega (arith, b.turns);
  budget = b.budget;
  most = b.most;
})
move-IsBounded r s (links task p left e) b = subst IsBounded (sym e) (record {
  steps = omega (arith, left);
  calls = b.calls;
  turns = omega (arith, b.ahead p);
  ahead = λ x. absurd (cc);
  budget = b.budget;
  most = b.most;
})
move-IsBounded r s (answers status answer evidence p a e) b = subst IsBounded (sym e) (record {
  steps = b.steps;
  calls = b.calls;
  turns = b.turns;
  ahead = λ x. absurd (cc (x, answer_not_planning status a));
  budget = b.budget;
  most = b.most;
})
move-IsBounded r s (repairs w p left e) b = subst IsBounded (sym e) (record {
  steps = b.steps;
  calls = omega (arith, left);
  turns = omega (arith, b.turns);
  ahead = λ x. omega (arith, b.turns);
  budget = b.budget;
  most = b.most;
})
move-IsBounded r s (stops status reason live a e) b = subst IsBounded (sym e) (record {
  steps = b.steps;
  calls = b.calls;
  turns = b.turns;
  ahead = λ x. absurd (cc (x, stop_not_planning status a));
  budget = b.budget;
  most = b.most;
})

pub planning-is_active : (s : RunStatus) → is_planning s ≡ true → is_active s ≡ true
planning-is_active s h = ground (arith, h)

-- A run that has ended makes no move.
move_final : (r s : Run) → Move r s → is_active r.status ≡ false → s ≡ r
move_final r s (stays e) h = e
move_final r s (reserves w live idle left e) h = absurd (cc)
move_final r s (links task p left e) h = absurd (cc (h, planning-is_active r.status p))
move_final r s (answers status answer evidence p a e) h =
    absurd (cc (h, planning-is_active r.status p))
move_final r s (repairs w p left e) h = absurd (cc (h, planning-is_active r.status p))
move_final r s (stops status reason live a e) h = absurd (cc)

pub Life-final : (r s : Run) → Life r s → is_active r.status ≡ false → s ≡ r
Life-final r s (rest r') h = refl
Life-final r s (move {s = m} a l) h =
    let same = move_final r m a h in
    Life-final m s l (subst (λ (x : Run). is_active x.status ≡ false) (sym same) h) ∙ same

pub Life-IsBounded : (r s : Run) → Life r s → IsBounded r → IsBounded s
Life-IsBounded r s (rest r') b = b
Life-IsBounded r s (move {s = m} a l) b = Life-IsBounded m s l (move-IsBounded r m a b)

pub Life-trans : (r s t : Run) → Life r s → Life s t → Life r t
Life-trans r s t (rest r') b = b
Life-trans r s t (move {s = m} a l) b = move a (Life-trans m s t l b)

same_key : (r s : Run) → s ≡ r → (s.tenant ≡ r.tenant) × (s.id ≡ r.id)
same_key r s e = (ap (λ (x : Run). x.tenant) e, ap (λ (x : Run). x.id) e)

Move-key : (r s : Run) → Move r s → (s.tenant ≡ r.tenant) × (s.id ≡ r.id)
Move-key r s (stays e) = same_key r s e
Move-key r s (reserves w live idle left e) =
    (ap (λ (x : Run). x.tenant) e, ap (λ (x : Run). x.id) e)
Move-key r s (links task p left e) = (ap (λ (x : Run). x.tenant) e, ap (λ (x : Run). x.id) e)
Move-key r s (answers status answer evidence p a e) =
    (ap (λ (x : Run). x.tenant) e, ap (λ (x : Run). x.id) e)
Move-key r s (repairs w p left e) = (ap (λ (x : Run). x.tenant) e, ap (λ (x : Run). x.id) e)
Move-key r s (stops status reason live a e) =
    (ap (λ (x : Run). x.tenant) e, ap (λ (x : Run). x.id) e)

pub Life-key : (r s : Run) → Life r s → (s.tenant ≡ r.tenant) × (s.id ≡ r.id)
Life-key r s (rest r') = (refl, refl)
Life-key r s (move {s = m} a l) =
    let (t1, i1) = Move-key r m a in let (t2, i2) = Life-key m s l in (t2 ∙ t1, i2 ∙ i1)
