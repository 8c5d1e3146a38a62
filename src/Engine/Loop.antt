-- ===== src/Engine/Loop.antt =====
-- The candidates of `claim`, and the invariant through its loop.
use agentic_works.Base.{
  ◌+◌, ◌≤◌, All, ℕ, String, ◌≡◌, refl, ◌∙◌, inl, inr, true, Option, none, some, List, [], ◌∷◌, ◌++◌,
  arith, Bool-cases, ap,
}
use agentic_works.Base.Table.{first, count, total}
use agentic_works.Engine.{Candidate, Step, Task, is_step}
use agentic_works.Engine.Claim.{
  place, in_order, ready, is_waiting, comes_first, candidate, is_ready, is_open, has_task_id,
}
use agentic_works.Engine.Expire.{Listed}

abbrev pub steps_of : List Candidate → List Step
steps_of [] = []
steps_of (c ∷ cs) = c.step ∷ steps_of cs

-- What the loop knows of a candidate's step.
abbrev pub Ready : String → List Step → Step → Type 0
Ready tenant steps s = Listed steps s × (s.tenant ≡ tenant) × (is_waiting s.status ≡ true)

-- The order of the candidates does not matter to what holds of each, nor to how often one stands.
module _ (P : Step → Type 0) where
  place-All :
      (c : Candidate) (cs : List Candidate)
      → P c.step
      → All P (steps_of cs)
      → All P (steps_of (place c cs))
  unfolding place
  place-All c [] p a = (p, tt)
  place-All c (d ∷ ds) p a = elim (Bool-cases (comes_first c d)) [
    | inl e ↦ rw e (p, a)
    | inr e ↦ rw e (a.0, place-All c ds p a.1)
  ]

  pub in_order-All : (cs : List Candidate) → All P (steps_of cs) → All P (steps_of (in_order cs))
  unfolding in_order
  in_order-All [] a = tt
  in_order-All (c ∷ cs) a = place-All c (in_order cs) a.0 (in_order-All cs a.1)

place-count :
    (w : Step → ℕ) (c : Candidate) (cs : List Candidate)
    → total w (steps_of (place c cs)) ≡ w c.step + total w (steps_of cs)
unfolding place
place-count w c [] = refl
place-count w c (d ∷ ds) = ground (arith, place-count w c ds)

pub in_order-count :
    (w : Step → ℕ) (cs : List Candidate) → total w (steps_of (in_order cs)) ≡ total w (steps_of cs)
unfolding in_order
in_order-count w [] = refl
in_order-count w (c ∷ cs) =
    place-count w c (in_order cs) ∙ ap (λ n. w c.step + n) (in_order-count w cs)

pub ready-count :
    (i tenant device : String) (tasks : List Task) (steps ss : List Step)
    → count (is_step i) (steps_of (ready tenant device tasks steps ss)) ≤ count (is_step i) ss
unfolding ready
ready-count i tenant device tasks steps [] = omega arith
ready-count i tenant device tasks steps (s ∷ ss) =
    ground (arith, ready-count i tenant device tasks steps ss)

candidate-All :
    (P : Step → Type 0) (s : Step) (o : Option Task) (rest : List Candidate)
    → P s
    → All P (steps_of rest)
    → All P (steps_of (candidate s o ++ rest))
candidate-All P s none rest p a = a
candidate-All P s (some k) rest p a = elim (Bool-cases (is_open k.status)) [
  | inl e ↦ rw e (p, a)
  | inr e ↦ rw e a
]

pub ready-All :
    (tenant device : String) (tasks : List Task) (steps ss : List Step)
    → All (Listed steps) ss
    → All
        (λ s. Listed steps s × (is_ready tenant device steps s ≡ true))
        (steps_of (ready tenant device tasks steps ss))
unfolding ready
ready-All tenant device tasks steps [] a = tt
ready-All tenant device tasks steps (s ∷ ss) a =
    let rest = ready-All tenant device tasks steps ss a.1 in
    elim (Bool-cases (is_ready tenant device steps s)) [
      | inl e ↦ rw e (
          candidate-All (λ r. Listed steps r × (is_ready tenant device steps r ≡ true)) s
            (first (has_task_id s.task) tasks) (ready tenant device tasks steps ss) (a.0, e) rest)
      | inr e ↦ rw e rest
    ]
