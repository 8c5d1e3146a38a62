-- ===== src/Agent/Settled.antt =====
-- How `plan` of api-python/platform_runtime/agent_loop.py ends: its claim is released.
use agentic_works.Engine.{Step}
use agentic_works.Agent.{
  Run, RunStatus, Office, Desk, is_run, escalated, stop, stopped_run, ending, first, update_where,
  Decision, eqb, value_error, is_turn_task,
}
use agentic_works.Agent.Commit.{
  is_held, Outcome, discarded, committed, repair, commit_result, commit_tool, Proposal, linked_run,
  answered_run, decide, commit_answer, is_repeat, is_position,
}
use agentic_works.Agent.Machine.{is_stop, is_answer}
use agentic_works.Agent.Effects.{ending-is_stop}
use agentic_works.Agent.Branches.{Ends, held-Ends, decide_branches}
use agentic_works.Agent.Planning.{
  Planned, Context, next_round, plan, planner_dispatch_allowed, call_planner,
}
use agentic_works.Plans.{Args}
use agentic_works.Plans.Submission.{submit}
use agentic_works.Base.{
  String, ◌≡◌, refl, ◌∙◌, inl, inr, Bool, true, false, ◌&&◌, some, List, [], ◌∷◌, arith, ok,
  some_or-ok, require-ok, not_found, Bool-cases, eq_iff, subst, ok_injective, subst₂, sym, call-ok,
  ap, integrity_error, ℕ, zero, suc, ◌+◌, ◌≤◌, Result, err,
}
use agentic_works.Base.Table.{first_sound, count, first-update_self}

-- The run no longer waits for the planner under this claim.
abbrev pub Released : String → String → String → Office → Type 0
Released t i claim o = (r : Run) → first (is_run t i) o.runs ≡ some r → is_held claim r ≡ false

-- A commit releases the claim, or it reserves a repair that it was allowed.
abbrev pub Settled : Bool → String → String → String → Outcome → Office → Type 0
Settled may_repair t i claim discarded o = Released t i claim o
Settled may_repair t i claim committed o = Released t i claim o
Settled may_repair t i claim (repair again decision reason) o = may_repair ≡ true

-- A run that one statement has changed is found as what it was changed to.
pub updated_row :
    (t i : String) (f : Run → Run) (runs runs' : List Run) {r : Run}
    → first (is_run t i) runs ≡ some r
    → ((x : Run) → is_run t i (f x) ≡ is_run t i x)
    → runs' ≡ update_where (is_run r.tenant r.id) f runs
    → first (is_run t i) runs' ≡ some (f r)
updated_row t i f runs runs' {r} e same u =
    let m = first_sound (is_run t i) runs e in
    let rt : r.tenant ≡ t = ground (arith, m, eq_iff r.tenant t) in
    let ri : r.id ≡ i = ground (arith, m, eq_iff r.id i) in
    let own : runs' ≡ update_where (is_run t i) f runs =
      subst₂ (λ (a b : String). runs' ≡ update_where (is_run a b) f runs) rt ri u in
    ap (first (is_run t i)) own ∙ first-update_self (is_run t i) f runs (λ x h. rw (same x) h) e

updated-Released :
    (t i claim : String) (f : Run → Run) (runs : List Run) (o : Office) {r : Run}
    → first (is_run t i) runs ≡ some r
    → ((x : Run) → is_run t i (f x) ≡ is_run t i x)
    → is_held claim (f r) ≡ false
    → o.runs ≡ update_where (is_run r.tenant r.id) f runs
    → Released t i claim o
updated-Released t i claim f runs o {r} e same free u s g =
    let found : some s ≡ some (f r) = sym g ∙ updated_row t i f runs o.runs e same u in
    let same_row : f r ≡ s = ground (arith, found) in
    subst (λ x. is_held claim x ≡ false) same_row free

-- A status that is not `planning` is not held.
stopped_free :
    (claim : String) (status : RunStatus) (reason : String) (r : Run)
    → is_stop status ≡ true
    → is_held claim (stopped_run status reason r) ≡ false
stopped_free claim status reason r h = ground (arith, h)

answered_free :
    (claim : String) (status : RunStatus) (answer : String) (evidence : List String) (r : Run)
    → is_answer status ≡ true
    → is_held claim (answered_run status answer evidence r) ≡ false
answered_free claim status answer evidence r h = ground (arith, h)

-- What a committed tool call writes of the runs.
pub commit_tool-runs :
    (d : Desk) (r : Run) (name : String) (args : Args) (o o' : Office)
    → commit_tool d r name args o ≡ ok o'
    → (task : String) × (o'.runs ≡ update_where (is_run r.tenant r.id) (linked_run task) o.runs)
unfolding commit_tool
commit_tool-runs d r name args o o' h =
    let (_, h1) =
      require-ok (eqb (count (is_repeat r.tenant r.id (d.action_digest name args)) o.turns) 0)
        value_error _ h in
    let ((task, db), g, h2) =
      call-ok
        (submit d.realm d.world r.tenant r.channel (d.turn_key r.id r.steps) r.agent
          (record { tool = name; args = args; device = "" } ∷ []) r.actor d.events o.db)
        _ h1 in
    let (_, h3) =
      require-ok
        (eqb (count (is_position r.id r.steps) o.turns) 0
          && eqb (count (is_turn_task r.tenant task) o.turns) 0)
        integrity_error _ h2 in
    (task, ground (arith, h3))

module _ (t i claim : String) (r : Run) (d : Desk) (o : Office)
    (e : first (is_run t i) o.runs ≡ some r) where
  stop-Released :
      (reason : String) → Released t i claim (stop d.world r escalated reason "agent-loop" o)
  unfolding stop
  stop-Released reason =
      let (status', reason', db) = ending d.world r escalated reason "agent-loop" o in
      updated-Released t i claim (stopped_run status' reason') o.runs
        (stop d.world r escalated reason "agent-loop" o) e (λ x. refl)
        (stopped_free claim status' reason' r
          (ending-is_stop d.world r escalated reason "agent-loop" o refl))
        refl

  tool-Released :
      (name : String) (args : Args) (o' : Office)
      → commit_tool d r name args o ≡ ok o'
      → Released t i claim o'
  tool-Released name args o' h =
      let (task, u) = commit_tool-runs d r name args o o' h in
      updated-Released t i claim (linked_run task) o.runs o' e (λ x. refl) refl u

  decided-Released :
      (seen : List Step) (decision : Decision) (o' : Office)
      → decide d r seen decision o ≡ ok o'
      → Released t i claim o'
  decided-Released seen =
      decide_branches (Released t i claim) d r o seen
        (λ status answer evidence a.
          updated-Released t i claim (answered_run status answer evidence) o.runs
            (commit_answer r status answer evidence o) e (λ x. refl)
            (answered_free claim status answer evidence r a) refl)
        (λ name args c o1 g. tool-Released name args o1 g)

pub commit_result-Settled :
    (d : Desk) (t i claim : String) (result : Proposal) (may_repair : Bool) (o : Office)
    → Ends (Settled may_repair t i claim) (commit_result d t i claim result may_repair o)
unfolding commit_result
commit_result-Settled d t i claim result may_repair o out o' h =
    let (r, e, h1) = some_or-ok (first (is_run t i) o.runs) not_found _ h in
    elim (Bool-cases (is_held claim r)) [
      | inr c ↦
          let free : Released t i claim o = λ s g.
            let same : r ≡ s = ground (arith, e, g) in
            subst (λ x. is_held claim x ≡ false) same c in
          let pair : (discarded, o) ≡ (out, o') = ok_injective (ground (arith, c, h1)) in
          subst (λ (z : Outcome × Office). Settled may_repair t i claim z.0 z.1) pair free
      | inl c ↦
          held-Ends (Settled may_repair t i claim) d r o may_repair
            (stop-Released t i claim r d o e) (λ on left seen decision x. on)
            (λ seen s decision o1 g. decided-Released t i claim r d o e seen decision o1 g) result
            out o' (ground (arith, c, h1))
    ]

-- What `plan` promises when it returns: the claim is released, after at most one commit for each call
-- that it may make.
pub record IsSettled (t i claim : String) (repairs : ℕ) (p : Planned) : Type 0 where
  pub released : p.ended ≡ ok tt → Released t i claim p.office
  pub some_commit : 1 ≤ p.commits
  pub few_commits : p.commits ≤ repairs + 1

module _ (t i claim : String) where
  last-IsSettled :
      (o : Office) (x : Result (Outcome × Office))
      → Ends (Settled false t i claim) x
      → IsSettled t i claim 0
          (next_round (λ _ o'. record { commits = 0; ended = ok tt; office = o' }) o x)
  last-IsSettled o (ok (discarded, o')) s = record {
    released = λ e. s discarded o' refl;
    some_commit = omega arith;
    few_commits = omega arith;
  }
  last-IsSettled o (ok (committed, o')) s = record {
    released = λ e. s committed o' refl;
    some_commit = omega arith;
    few_commits = omega arith;
  }
  last-IsSettled o (ok (repair again decision reason, o')) s =
      absurd (cc (s (repair again decision reason) o' refl))
  last-IsSettled o (err e) s = record {
    released = λ x. absurd (cc);
    some_commit = omega arith;
    few_commits = omega arith;
  }

  round-IsSettled :
      (n : ℕ) (again : Context → Office → Planned) (o : Office) (x : Result (Outcome × Office))
      → Ends (Settled true t i claim) x
      → ((c : Context) (o' : Office) → IsSettled t i claim n (again c o'))
      → IsSettled t i claim (suc n) (next_round again o x)
  round-IsSettled n again o (ok (discarded, o')) s k = record {
    released = λ e. s discarded o' refl;
    some_commit = omega arith;
    few_commits = omega arith;
  }
  round-IsSettled n again o (ok (committed, o')) s k = record {
    released = λ e. s committed o' refl;
    some_commit = omega arith;
    few_commits = omega arith;
  }
  round-IsSettled n again o (ok (repair reservation decision reason, o')) s k =
      let c : Context = record { reservation = reservation; rejected = some (decision, reason) } in
      let v = k c o' in
      record {
        released = v.released;
        some_commit = omega arith;
        few_commits = omega (arith, v.few_commits);
      }
  round-IsSettled n again o (err e) s k = record {
    released = λ x. absurd (cc);
    some_commit = omega arith;
    few_commits = omega arith;
  }

  -- Whatever the planner answers and whatever other transactions run meanwhile, `plan` ends after at
  -- most one commit more than the repairs it is allowed, and when it returns without an exception the
  -- run no longer waits for the planner under the claim.
  pub plan-IsSettled :
      (desk : ℕ → Desk) (others : ℕ → Office → Office) (planner : Context → Proposal) (repairs : ℕ)
      (x : Context) (o : Office)
      → IsSettled t i claim repairs (plan desk others t i claim planner repairs x o)
  unfolding plan
  plan-IsSettled desk others planner zero x o = last-IsSettled (others 0 o) _ (
      commit_result-Settled (desk 1) t i claim
        (call_planner planner x (planner_dispatch_allowed (desk 0) t i claim o)) false (others 0 o))
  plan-IsSettled desk others planner (suc n) x o =
      round-IsSettled n _ (others 0 o) _
        (commit_result-Settled (desk 1) t i claim
          (call_planner planner x (planner_dispatch_allowed (desk 0) t i claim o)) true
          (others 0 o))
        (λ c o'. plan-IsSettled (λ m. desk (m + 2)) (λ m. others (m + 1)) planner n c o')
