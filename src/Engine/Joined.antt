-- ===== src/Engine/Joined.antt =====
-- The candidates of `claim` in api-python/platform_runtime/engine.py: the rows of the join of steps and
-- tasks.
use agentic_works.Base.{
  String, ◌≡◌, refl, inl, inr, true, some, List, [], ◌∷◌, ◌++◌, All, Bool-cases, Option-cases,
}
use agentic_works.Base.Table.{first}
use agentic_works.Engine.{Candidate, Step, Task}
use agentic_works.Engine.Claim.{
  place, in_order, ready, comes_first, candidate, is_ready, is_open, has_task_id,
}
use agentic_works.Engine.Expire.{Listed}

-- The candidate has its agent, submitter, channel and key from the task of its step, which is open.
pub record IsJoined (tasks : List Task) (c : Candidate) : Type 0 where
  pub task : Task
  pub found : first (has_task_id c.step.task) tasks ≡ some task
  pub open_task : is_open task.status ≡ true
  pub agent : c.agent ≡ task.agent
  pub creator : c.creator ≡ task.actor
  pub channel : c.channel ≡ task.channel
  pub event_key : c.event_key ≡ task.event_key
  pub created : c.created ≡ task.created

-- What `claim` knows of a candidate: its step is a row that is ready, and the rest is its task's.
pub record IsCandidate (tenant device : String) (tasks : List Task) (steps : List Step)
    (c : Candidate) : Type 0 where
  pub listed : Listed steps c.step
  pub is_ready : is_ready tenant device steps c.step ≡ true
  pub joined : IsJoined tasks c

module _ (Q : Candidate → Type 0) where
  place-Each : (c : Candidate) (cs : List Candidate) → Q c → All Q cs → All Q (place c cs)
  unfolding place
  place-Each c [] p a = (p, tt)
  place-Each c (d ∷ ds) p a = elim (Bool-cases (comes_first c d)) [
    | inl e ↦ rw e (p, a)
    | inr e ↦ rw e (a.0, place-Each c ds p a.1)
  ]

  pub in_order-Each : (cs : List Candidate) → All Q cs → All Q (in_order cs)
  unfolding in_order
  in_order-Each [] a = tt
  in_order-Each (c ∷ cs) a = place-Each c (in_order cs) a.0 (in_order-Each cs a.1)

candidate-Each :
    (tenant device : String) (tasks : List Task) (steps : List Step) (s : Step)
    (rest : List Candidate)
    → Listed steps s
    → is_ready tenant device steps s ≡ true
    → All (IsCandidate tenant device tasks steps) rest
    → All
        (IsCandidate tenant device tasks steps)
        (candidate s (first (has_task_id s.task) tasks) ++ rest)
candidate-Each tenant device tasks steps s rest l r a =
    elim (Option-cases (first (has_task_id s.task) tasks)) [
      | inl f ↦ rw f a
      | inr (k, f) ↦ rw f (elim (Bool-cases (is_open k.status)) [
        | inl o ↦ rw o (
          record {
            listed = l;
            is_ready = r;
            joined = record {
              task = k;
              found = f;
              open_task = o;
              agent = refl;
              creator = refl;
              channel = refl;
              event_key = refl;
              created = refl;
            };
          },
          a,
        )
        | inr o ↦ rw o a
      ])
    ]

pub ready-Each :
    (tenant device : String) (tasks : List Task) (steps ss : List Step)
    → All (Listed steps) ss
    → All (IsCandidate tenant device tasks steps) (ready tenant device tasks steps ss)
unfolding ready
ready-Each tenant device tasks steps [] a = tt
ready-Each tenant device tasks steps (s ∷ ss) a =
    let rest = ready-Each tenant device tasks steps ss a.1 in
    elim (Bool-cases (is_ready tenant device steps s)) [
      | inl e ↦ rw e (
          candidate-Each tenant device tasks steps s (ready tenant device tasks steps ss) a.0 e
            rest)
      | inr e ↦ rw e rest
    ]
