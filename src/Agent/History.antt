-- ===== src/Agent/History.antt =====
-- Histories of the agent loop (api-python/platform_runtime/agent_loop.py): any sequence of
-- transactions of the loop and of the engine, each with its own reading of the world.
use agentic_works.Agent.Reserve.{reserve}
use agentic_works.Agent.Runs.{create, cancel}
use agentic_works.Engine.Histories.{Operation, perform}
use agentic_works.Base.{
  ℕ, String, ◌≡◌, refl, Bool, false, some, List, [], ◌∷◌, commit, All, commit-cases, subst,
}
use agentic_works.Agent.Commit.{Proposal, commit_result}
use agentic_works.Agent.{Office, Run, Desk, is_run, first, is_active}
use agentic_works.Agent.Effects.{Keyed, Moved, unmoved, reserve-Moved, cancel-Moved}
use agentic_works.Agent.Machine.{
  IsNew, Life, IsBounded, rest, Life-trans, Life-IsBounded, new-IsBounded, Life-key, move,
  Life-final,
}
use agentic_works.Base.Growth.{Grows, Grows-same, Grows-All, Grows-trans, Grows-first, Grows-map}
use agentic_works.Agent.Decided.{create-Moved, commit_result-Moved}

pub data Transaction : Type 0 where
  create_run :
      (tenant key agent input actor full : String) (max_steps max_seconds : ℕ) (channel : String)
      → Transaction
  reserve_run : (tenant id : String) → Transaction
  commit_run : (tenant id claim : String) (result : Proposal) (may_repair : Bool) → Transaction
  cancel_run : (tenant id actor : String) → Transaction
  -- a transaction of the engine
  engine_call : (operation : Operation) → Transaction

-- The tables after a transaction, whether it returns or raises.
unfoldable pub transact : Office → Desk × Transaction → Office
transact o (d, create_run t k a x u f n m c) = commit o (create d t k a x u f n m c o)
transact o (d, reserve_run t i) = commit o (reserve d t i o)
transact o (d, commit_run t i k p b) = commit o (commit_result d t i k p b o)
transact o (d, cancel_run t i a) = commit o (cancel d t i a o)
transact o (d, engine_call op) = record o { db = perform o.db (d.world, op) }

unfoldable pub transact_all : Office → List (Desk × Transaction) → Office
transact_all o [] = o
transact_all o (x ∷ xs) = transact_all (transact o x) xs

pub transact-Moved : (o : Office) (x : Desk × Transaction) → Keyed o.runs → Moved o (transact o x)
unfolding transact
transact-Moved o (d, create_run t k a x u f n m c) v =
    commit-cases (Moved o) o _ (unmoved o v) (create-Moved d t k a x u f n m c o v)
transact-Moved o (d, reserve_run t i) v =
    commit-cases (Moved o) o _ (unmoved o v) (reserve-Moved d t i o v)
transact-Moved o (d, commit_run t i k p b) v =
    commit-cases (Moved o) o _ (unmoved o v) (commit_result-Moved d t i k p b o v)
transact-Moved o (d, cancel_run t i a) v =
    commit-cases (Moved o) o _ (unmoved o v) (cancel-Moved d t i a o v)
transact-Moved o (d, engine_call op) v = unmoved o v

-- A row that some `create` of the history inserted, and what became of it.
pub record Born (r : Run) : Type 0 where
  pub first_row : Run
  pub new : IsNew first_row
  pub life : Life first_row r

new-Born : (r : Run) → IsNew r → Born r
new-Born r n = record { first_row = r; new = n; life = rest r }

older-Born : (r s : Run) → Life r s → Born r → Born s
older-Born r s l b = record {
  first_row = b.first_row;
  new = b.new;
  life = Life-trans b.first_row r s b.life l;
}

-- Over every history of the loop and the engine, each row of p_agent_runs goes through moves of the
-- machine only, rows are never removed, and every new row comes from a `create`.
pub transact_all-Lives :
    (history : List (Desk × Transaction)) (o : Office)
    → Keyed o.runs
    → Grows Life Born o.runs (transact_all o history).runs × Keyed (transact_all o history).runs
unfolding transact_all
transact_all-Lives [] o k = (Grows-same Life Born o.runs rest, k)
transact_all-Lives (x ∷ xs) o k =
    let (g, k1) = transact-Moved o x k in
    let (l, k2) = transact_all-Lives xs (transact o x) k1 in
    (
      Grows-trans Life Born o.runs (transact o x).runs (transact_all (transact o x) xs).runs
          Life-trans older-Born
          (Grows-map o.runs (transact o x).runs (λ r s m. move m (rest s)) new-Born g) l,
      k2,
    )

Born-IsBounded : (r : Run) → Born r → IsBounded r
Born-IsBounded r b = Life-IsBounded b.first_row r b.life (new-IsBounded b.new)

-- Over every history of the loop and the engine, every run stays within its budgets: at most
-- `max_steps` steps and `max_calls` planner calls, which are one more than the steps and at most 13;
-- never more steps than calls, and strictly fewer while a call is out.
pub transact_all-IsBounded :
    (history : List (Desk × Transaction)) (o : Office)
    → Keyed o.runs
    → All IsBounded o.runs
    → All IsBounded (transact_all o history).runs
transact_all-IsBounded history o k b =
    Grows-All Life Born IsBounded o.runs (transact_all o history).runs Life-IsBounded Born-IsBounded
      (transact_all-Lives history o k).0 b

found_again : (t i : String) (r s : Run) → Life r s → is_run t i s ≡ is_run t i r
found_again t i r s l = rw (Life-key r s l).0 (rw (Life-key r s l).1 refl)

-- A run that has ended is found unchanged after every history: no transaction revives it, and its
-- answer, its evidence and its reason stay.
pub transact_all_final :
    (history : List (Desk × Transaction)) (o : Office) (t i : String) (r : Run)
    → Keyed o.runs
    → first (is_run t i) o.runs ≡ some r
    → is_active r.status ≡ false
    → first (is_run t i) (transact_all o history).runs ≡ some r
transact_all_final history o t i r k e ended =
    let (s, f, l) =
      Grows-first Life Born (is_run t i) o.runs (transact_all o history).runs (found_again t i)
        (transact_all-Lives history o k).0 e in
    subst (λ x. first (is_run t i) (transact_all o history).runs ≡ some x) (Life-final r s l ended)
      f
