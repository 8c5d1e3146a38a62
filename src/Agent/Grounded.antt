-- ===== src/Agent/Grounded.antt =====
-- That an answer of api-python/platform_runtime/agent_loop.py rests on what the run has seen.
use agentic_works.Engine
use agentic_works.Agent.Runs.{is_text}
use agentic_works.Engine.{Step}
use agentic_works.Agent.{
  tool_call, question, malformed, Run, Office, Desk, is_run, observations, steps_seen, is_success,
  Observed, final, succeeded, all, first, leb, length, update_where, value_error, RunStatus, stop,
  Args, planning, escalated, Decision, ending, stopped_run, needs_input,
}
use agentic_works.Agent.Commit.{
  commit_held, discarded, reserve_repair, is_evidence, check_decision, answered_run, commit_answer,
  is_distinct, is_held, decide, commit_result, commit_tool, Proposal, Outcome, linked_run,
  repairing_run,
}
use agentic_works.Agent.Settled.{updated_row, commit_tool-runs}
use agentic_works.Base.{
  ◌≤◌, String, ◌≡◌, refl, ◌∙◌, true, ◌&&◌, some, List, [], ◌∷◌, arith, ok, All, require-ok, sym,
  subst, ap, ok_injective, Bool, require-holds, some_or-ok, not_found, if◌then◌else◌, then-ok,
}
use agentic_works.Agent.Machine.{is_stop}
use agentic_works.Agent.Effects.{ending-is_stop}
use agentic_works.Agent.Branches.{held-Ends}

abbrev pub Succeeded : Step → Type 0
Succeeded s = Engine.same_status s.status Engine.succeeded ≡ true

seen-Succeeded :
    (d : Desk) (rows : List Observed)
    → all (λ ob. is_success ob && leb (d.step_size ob.step) 12000) rows ≡ true
    → All Succeeded (steps_seen rows)
seen-Succeeded d [] h = tt
seen-Succeeded d (ob ∷ rows) h = (ground (arith, h), seen-Succeeded d rows (ground (arith, h)))

observations-Succeeded :
    (d : Desk) (r : Run) (o : Office) (seen : List Step)
    → observations d r o ≡ ok seen
    → All Succeeded seen
unfolding observations
observations-Succeeded d r o seen h =
    let (_, h1) = require-ok _ value_error _ h in
    let (good, h2) = require-ok _ value_error _ h1 in
    let (_, h3) = require-ok _ value_error _ h2 in
    subst (All Succeeded) (ok_injective h3) (seen-Succeeded d _ good)

all-Evidence :
    (seen : List Step) (xs : List String)
    → all (is_evidence seen) xs ≡ true
    → All (λ x. is_evidence seen x ≡ true) xs
all-Evidence seen [] h = tt
all-Evidence seen (x ∷ xs) h = (ground (arith, h), all-Evidence seen xs (ground (arith, h)))

-- An answer with the steps that it rests on.
pub record IsGrounded (d : Desk) (r : Run) (o : Office) (r' : Run) : Type 0 where
  pub seen : List Step
  pub observed : observations d r o ≡ ok seen
  pub succeeded_steps : All Succeeded seen
  pub cited : All (λ x. is_evidence seen x ≡ true) r'.evidence_ids
  pub some_cited : 1 ≤ length r'.evidence_ids
  pub distinct : is_distinct r'.evidence_ids ≡ true

abbrev pub Grounds : Desk → String → String → Run → Office → Office → Type 0
Grounds d t i r o o' =
    (r' : Run) → first (is_run t i) o'.runs ≡ some r' → r'.status ≡ succeeded → IsGrounded d r o r'

not_answered : (status : RunStatus) → is_stop status ≡ true → status ≡ succeeded → ⊥
not_answered status h s = absurd (cc (h, ap is_stop s))

held_planning : (claim : String) (r : Run) → is_held claim r ≡ true → r.status ≡ planning
held_planning claim r h = ground (arith, h)

module _ (d : Desk) (t i : String) (r : Run) (o : Office)
    (e : first (is_run t i) o.runs ≡ some r) where
  other_end :
      (f : Run → Run) (o' : Office)
      → ((x : Run) → is_run t i (f x) ≡ is_run t i x)
      → o'.runs ≡ update_where (is_run r.tenant r.id) f o.runs
      → ((f r).status ≡ succeeded → ⊥)
      → Grounds d t i r o o'
  other_end f o' same u unlike r' g s =
      let found : some r' ≡ some (f r) = sym g ∙ updated_row t i f o.runs o'.runs e same u in
      let row : r' ≡ f r = ground (arith, found) in
      absurd (unlike (ap (λ (x : Run). x.status) (sym row) ∙ s))

  final_end :
      (seen : List Step) (answer : String) (evidence : List String)
      → observations d r o ≡ ok seen
      → check_decision d r seen (final answer evidence) ≡ ok tt
      → Grounds d t i r o (commit_answer r succeeded answer evidence o)
  unfolding check_decision
  final_end seen answer evidence s c r' g x =
      let (_, c1) =
        require-ok (leb (d.decision_size (final answer evidence)) 20000) value_error _ c in
      let (_, c2) = require-ok (is_text answer 8000) value_error _ c1 in
      let (many, c3) =
        require-ok (leb 1 (length evidence) && leb (length evidence) 12) value_error _ c2 in
      let (cites, c4) = require-ok (all (is_evidence seen) evidence) value_error _ c3 in
      let f : Run → Run = answered_run succeeded answer evidence in
      let found : some r' ≡ some (f r) = sym g ∙ updated_row t i f o.runs _ e (λ y. refl) refl in
      let row : f r ≡ r' = ground (arith, found) in
      let grounded : IsGrounded d r o (f r) = record {
        seen = seen;
        observed = s;
        succeeded_steps = observations-Succeeded d r o seen s;
        cited = all-Evidence seen evidence cites;
        some_cited = ground (arith, many);
        distinct = require-holds (is_distinct evidence) value_error c4;
      } in
      subst (IsGrounded d r o) row grounded

  stop_end : (reason : String) → Grounds d t i r o (stop d.world r escalated reason "agent-loop" o)
  unfolding stop
  stop_end reason =
      let (status', reason', db) = ending d.world r escalated reason "agent-loop" o in
      other_end (stopped_run status' reason') (stop d.world r escalated reason "agent-loop" o)
        (λ x. refl) refl
        (not_answered status' (ending-is_stop d.world r escalated reason "agent-loop" o refl))

  tool_end :
      (name : String) (args : Args) (o' : Office)
      → commit_tool d r name args o ≡ ok o'
      → Grounds d t i r o o'
  tool_end name args o' h =
      let (task, u) = commit_tool-runs d r name args o o' h in
      other_end (linked_run task) o' (λ x. refl) u (λ s. absurd (cc))

  decide_end :
      (seen : List Step)
      → observations d r o ≡ ok seen
      → (decision : Decision) (o' : Office) → decide d r seen decision o ≡ ok o'
      → Grounds d t i r o o'
  unfolding decide
  decide_end seen s (tool_call name args) o' h =
      let (_, h1) = then-ok (check_decision d r seen (tool_call name args)) _ h in
      tool_end name args o' h1
  decide_end seen s (final answer evidence) o' h =
      let (c, h1) = then-ok (check_decision d r seen (final answer evidence)) _ h in
      subst (Grounds d t i r o) (ok_injective h1) (final_end seen answer evidence s c)
  decide_end seen s (question text) o' h =
      let (_, h1) = then-ok (check_decision d r seen (question text)) _ h in
      subst (Grounds d t i r o) (ok_injective h1) (
        other_end (answered_run needs_input text []) (commit_answer r needs_input text [] o)
          (λ x. refl) refl (λ x. absurd (cc)))
  decide_end seen s malformed o' h =
      let (c, h1) = then-ok (check_decision d r seen malformed) _ h in absurd (cc)

-- A run that waits for the planner has succeeded after a commit only with an answer that is grounded:
-- it cites one or more different pieces of evidence, each of them a step of the run's own history, and
-- every step of that history had succeeded.
pub commit_result-IsGrounded :
    (d : Desk) (t i claim : String) (result : Proposal) (may_repair : Bool) (o : Office) (r : Run)
    → first (is_run t i) o.runs ≡ some r
    → is_held claim r ≡ true
    → (out : Outcome) (o' : Office) → commit_result d t i claim result may_repair o ≡ ok (out, o')
    → (r' : Run) → first (is_run t i) o'.runs ≡ some r'
    → r'.status ≡ succeeded
    → IsGrounded d r o r'
unfolding commit_result
commit_result-IsGrounded d t i claim result may_repair o r e held out o' h =
    let (s, f, h1) = some_or-ok (first (is_run t i) o.runs) not_found _ h in
    let row : s ≡ r = ground (arith, f, e) in
    let h2 : (if is_held claim r then commit_held d r may_repair result o else ok (discarded, o))
        ≡ ok (out, o') =
      subst
        (λ (z : Run).
          (if is_held claim z then commit_held d z may_repair result o else ok (discarded, o))
          ≡ ok (out, o'))
        row h1 in
    let waits : r.status ≡ planning = held_planning claim r held in
    held-Ends (λ _. Grounds d t i r o) d r o may_repair (stop_end d t i r o e)
      (λ on left seen decision x.
        other_end d t i r o e (repairing_run d.world) (reserve_repair d r seen decision x o).1
          (λ y. refl) refl (λ y. absurd (cc (waits, y))))
      (λ seen s. decide_end d t i r o e seen s) result out o' (ground (arith, held, h2))
