-- ===== src/Agent/Decided.antt =====
-- What `create` and `_commit` of api-python/platform_runtime/agent_loop.py do to the rows of runs.
use agentic_works.Base.{
  ℕ, String, ◌≡◌, inl, inr, ◌&&◌, arith, ok, require-ok, forbidden, then-ok, ◌<◌, refl, Bool, true,
  Option, none, some, List, [], ◌∷◌, ◌++◌, ◌==◌, conflict, subst, Bool-cases, ltb, call-ok,
  integrity_error, ◌≤◌, rate_limited, some_or-ok, not_found, eq_iff,
}
use agentic_works.Agent.Runs.{
  create, is_text, insert_run, answer_request, new_run, has_run_id, is_queued, is_request,
}
use agentic_works.Engine.{require_active, require_authority, staff}
use agentic_works.Agent.Machine.{created, stays, planning-is_active}
use agentic_works.Agent.{
  tool_call, Desk, Office, value_error, leb, Run, first, is_run, Step, Args, eqb, is_turn_task,
  update_where, tool_call, escalated,
}
use agentic_works.Agent.Effects.{Keyed, Moved, unmoved, stop-Moved, moves_row}
use agentic_works.Plans.{is_ladder}
use agentic_works.Agent.Machine.{IsNew, is_planning, answers, repairs, Move, links}
use agentic_works.Agent.Commit.{
  commit_tool, answered_run, is_repeat, repairing_run, is_position, linked_run, check_decision,
  Proposal, commit_result, is_held,
}
use agentic_works.Base.Table.{count, total-append, weight}
use agentic_works.Base.Growth.{Grows, Grows-append}
use agentic_works.Plans.Submission.{submit}
use agentic_works.Agent.Branches.{Ends, held-Ends, decide_branches}

insert_key :
    (r : Run) (runs : List Run) (i : String)
    → Keyed runs
    → count (has_run_id r.id) runs ≡ 0
    → count (has_run_id i) (runs ++ r ∷ []) ≤ 1
insert_key r runs i k free = elim (Bool-cases (r.id == i)) [
  | inr c ↦ ground (arith, c, k i, total-append (weight (has_run_id i) (λ _. 1)) runs (r ∷ []))
  | inl c ↦
      let same : r.id ≡ i = ground (arith, c, eq_iff r.id i) in
      let absent : count (has_run_id i) runs ≡ 0 =
        subst (λ j. count (has_run_id j) runs ≡ 0) same free in
      ground (arith, c, absent, total-append (weight (has_run_id i) (λ _. 1)) runs (r ∷ []))
]

insert_run-Moved :
    (d : Desk) (r : Run) (o : Office)
    → Keyed o.runs
    → IsNew r
    → (id : String) (o' : Office) → insert_run d r o ≡ ok (id, o')
    → Moved o o'
insert_run-Moved d r o k n id o' h =
    let (_, h1) = then-ok (require_active d.world r.tenant o.db) _ h in
    let (_, h2) = require-ok (ltb (count (is_queued r.tenant) o.runs) 100) rate_limited _ h1 in
    let (free, h3) = require-ok (eqb (count (has_run_id r.id) o.runs) 0) integrity_error _ h2 in
    let same : o.runs ++ r ∷ [] ≡ o'.runs = ground (arith, h3) in
    subst (λ (rows : List Run). Grows Move IsNew o.runs rows × Keyed rows) same
      (
        Grows-append Move IsNew o.runs (r ∷ []) (λ x. stays refl) (n, tt),
        λ i. insert_key r o.runs i k (ground (arith, free)),
      )

answer_request-Moved :
    (d : Desk) (r : Run) (o : Office)
    → Keyed o.runs
    → IsNew r
    → (old : Option Run) (id : String) (o' : Office) → answer_request d r o old ≡ ok (id, o')
    → Moved o o'
answer_request-Moved d r o k n none id o' h = insert_run-Moved d r o k n id o' h
answer_request-Moved d r o k n (some old) id o' h =
    let (_, h1) = require-ok (old.fingerprint == r.fingerprint) conflict _ h in
    let same : o ≡ o' = ground (arith, h1) in subst (Moved o) same (unmoved o k)

pub create-Moved :
    (d : Desk) (tenant key agent input actor full : String) (max_steps max_seconds : ℕ)
    (channel : String) (o : Office)
    → Keyed o.runs
    → (id : String) (o' : Office)
    → create d tenant key agent input actor full max_steps max_seconds channel o ≡ ok (id, o')
    → Moved o o'
unfolding create
create-Moved d tenant key agent input actor full max_steps max_seconds channel o k id o' h =
    let (_, h1) =
      require-ok
        (is_text tenant 64
          && (is_text key 256 && (is_text agent 128 && (is_text actor 128 && is_text channel 32))))
        value_error _ h in
    let (_, h2) = require-ok (is_text input 4000) value_error _ h1 in
    let (bound, h3) = require-ok (leb 1 max_steps && leb max_steps 12) value_error _ h2 in
    let (_, h4) = require-ok (leb 60 max_seconds && leb max_seconds 86400) value_error _ h3 in
    let (_, h5) = require-ok (is_ladder (d.realm.policy tenant agent).ladder) forbidden _ h4 in
    let (_, h6) = then-ok (require_authority d.world tenant channel actor staff) _ h5 in
    let r = new_run d tenant key agent input actor full max_steps max_seconds channel in
    answer_request-Moved d r o k
      (created d tenant key agent input actor full max_steps max_seconds channel
        (ground (arith, bound)) refl)
      (first (is_request tenant key) o.runs) id o' h6

module _ (d : Desk) (t i : String) (r : Run) (o : Office) (k : Keyed o.runs)
    (e : first (is_run t i) o.runs ≡ some r) (p : is_planning r.status ≡ true) where
  tool-Moved :
      (name : String) (args : Args)
      → r.steps < r.max_steps
      → (o' : Office) → commit_tool d r name args o ≡ ok o'
      → Moved o o'
  unfolding commit_tool
  tool-Moved name args left o' h =
      let (_, h1) =
        require-ok (eqb (count (is_repeat r.tenant r.id (d.action_digest name args)) o.turns) 0)
          value_error _ h in
      let ((task, db), _, h2) =
        call-ok
          (submit d.realm d.world r.tenant r.channel (d.turn_key r.id r.steps) r.agent
            (record { tool = name; args = args; device = "" } ∷ []) r.actor d.events o.db)
          _ h1 in
      let (_, h3) =
        require-ok
          (eqb (count (is_position r.id r.steps) o.turns) 0
            && eqb (count (is_turn_task r.tenant task) o.turns) 0)
          integrity_error _ h2 in
      let same : update_where (is_run r.tenant r.id) (linked_run task) o.runs ≡ o'.runs =
        ground (arith, h3) in
      subst (λ (rows : List Run). Grows Move IsNew o.runs rows × Keyed rows) same
        (moves_row t i (linked_run task) o.runs k e (λ x. refl) (links task p left refl))

  tool_steps :
      (seen : List Step) (name : String) (args : Args)
      → check_decision d r seen (tool_call name args) ≡ ok tt
      → r.steps < r.max_steps
  unfolding check_decision
  tool_steps seen name args h =
      let (_, h1) =
        require-ok (leb (d.decision_size (tool_call name args)) 20000) value_error _ h in
      let (left, _) = require-ok (ltb r.steps r.max_steps) value_error _ h1 in ground (arith, left)

pub commit_result-Moved :
    (d : Desk) (t i claim : String) (result : Proposal) (may_repair : Bool) (o : Office)
    → Keyed o.runs
    → Ends (λ _. Moved o) (commit_result d t i claim result may_repair o)
unfolding commit_result
commit_result-Moved d t i claim result may_repair o k out o' h =
    let (r, e, h1) = some_or-ok (first (is_run t i) o.runs) not_found _ h in
    elim (Bool-cases (is_held claim r)) [
      | inr c ↦ let same : o ≡ o' = ground (arith, c, h1) in subst (Moved o) same (unmoved o k)
      | inl c ↦
          let p : is_planning r.status ≡ true = ground (arith, c) in
          held-Ends (λ _. Moved o) d r o may_repair
            (λ reason.
              stop-Moved d.world t i r escalated reason "agent-loop" o k e
                (planning-is_active r.status p) refl)
            (λ on left seen decision x.
              moves_row t i (repairing_run d.world) o.runs k e (λ x. refl)
                (repairs d.world p left refl))
            (λ seen s.
              decide_branches (Moved o) d r o seen
                (λ status answer evidence a.
                  moves_row t i (answered_run status answer evidence) o.runs k e (λ x. refl)
                    (answers status answer evidence p a refl))
                (λ name args c o1 g.
                  tool-Moved d t i r o k e p name args (tool_steps d t i r o k e p seen name args c)
                    o1 g))
            result out o' (ground (arith, c, h1))
    ]
