-- ===== src/Engine/Rollup.antt =====
-- A task's status is the roll-up of its steps' statuses: what a change of steps does to it, and how
-- `_refresh` restores it.
use agentic_works.Base.{
  ◌≤◌, eq_iff, All, String, ◌≡◌, refl, inl, inr, Bool, true, false, some, List, [], ◌∷◌, arith,
  Bool-cases, ap, ◌∙◌, sym,
}
use agentic_works.Base.Table.{first, count, update_where, update_none}
use agentic_works.Engine.{
  Task, Db, Step, refresh, rollup, is_step_of, is_task, StepStatus, some_step, every_step,
}
use agentic_works.Base.Rows.{All-rows, All-change, All-mono}

-- Tasks outside `p` have the status that their steps give them.
abbrev pub RolledBut : (Task → Bool) → Db → Type 0
RolledBut p db = All (λ k. p k ≡ false → k.status ≡ rollup k.tenant k.id db.steps) db.tasks

abbrev pub IsRolled : Db → Type 0
IsRolled = RolledBut (λ _. false)

-- A change of steps that no step of the task `(t, x)` takes part in.
module _ (p : Step → Bool) (f : Step → Step) (t x : String)
    (stay : (s : Step) → is_step_of t x (f s) ≡ is_step_of t x s) where
  abbrev Apart : List Step → Type 0
  Apart = All (λ s. p s ≡ true → is_step_of t x s ≡ false)

  some_step-update :
      (st : StepStatus) (ss : List Step)
      → Apart ss
      → some_step st t x (update_where p f ss) ≡ some_step st t x ss
  some_step-update st [] a = refl
  some_step-update st (s ∷ ss) a = ground (arith, stay s, some_step-update st ss a.1)

  every_step-update :
      (st : StepStatus) (ss : List Step)
      → Apart ss
      → every_step st t x (update_where p f ss) ≡ every_step st t x ss
  every_step-update st [] a = refl
  every_step-update st (s ∷ ss) a = ground (arith, stay s, every_step-update st ss a.1)

  pub rollup-update :
      (ss : List Step)
      → All (λ s. p s ≡ true → is_step_of t x s ≡ false) ss
      → rollup t x (update_where p f ss) ≡ rollup t x ss
  unfolding rollup
  rollup-update ss a =
      let some_same = λ (st : StepStatus). some_step-update st ss a in
      let every_same = λ (st : StepStatus). every_step-update st ss a in
      simp (some_same, every_same)

-- So too for one row that is found.
module _ (p : Step → Bool) (f : Step → Step) (t x : String)
    (stay : (s : Step) → is_step_of t x (f s) ≡ is_step_of t x s) where
  some_step-update_one :
      (st : StepStatus) (ss : List Step) {r : Step}
      → first p ss ≡ some r
      → count p ss ≤ 1
      → is_step_of t x r ≡ false
      → some_step st t x (update_where p f ss) ≡ some_step st t x ss
  some_step-update_one st [] e u a = refl
  some_step-update_one st (s ∷ ss) {r} e u a = elim (Bool-cases (p s)) [
    | inl m ↦ ground (
      arith,
      stay s,
      update_none p f ss,
      ap (some_step st t x) (update_none p f ss (ground arith)),
    )
    | inr m ↦ ground (arith, some_step-update_one st ss {r = r})
  ]

  every_step-update_one :
      (st : StepStatus) (ss : List Step) {r : Step}
      → first p ss ≡ some r
      → count p ss ≤ 1
      → is_step_of t x r ≡ false
      → every_step st t x (update_where p f ss) ≡ every_step st t x ss
  every_step-update_one st [] e u a = refl
  every_step-update_one st (s ∷ ss) {r} e u a = elim (Bool-cases (p s)) [
    | inl m ↦ ground (
      arith,
      stay s,
      update_none p f ss,
      ap (every_step st t x) (update_none p f ss (ground arith)),
    )
    | inr m ↦ ground (arith, every_step-update_one st ss {r = r})
  ]

  pub rollup-update_one :
      (ss : List Step) {r : Step}
      → first p ss ≡ some r
      → count p ss ≤ 1
      → is_step_of t x r ≡ false
      → rollup t x (update_where p f ss) ≡ rollup t x ss
  unfolding rollup
  rollup-update_one ss {r} e u a =
      let some_same = λ (st : StepStatus). some_step-update_one st ss {r = r} e u a in
      let every_same = λ (st : StepStatus). every_step-update_one st ss {r = r} e u a in
      simp (some_same, every_same)

pub is_task_sound : (t x : String) (k : Task) → is_task t x k ≡ true → (k.tenant ≡ t) × (k.id ≡ x)
is_task_sound t x k h = ground (arith, eq_iff k.tenant t, eq_iff k.id x)

-- `_refresh` rolls its own task up, and leaves the others as they are.
pub refresh-RolledBut :
    (t x : String) (p q : Task → Bool) (db : Db)
    → ((k : Task) → is_task t x k ≡ false → q k ≡ false → p k ≡ false)
    → RolledBut p db
    → RolledBut q (refresh t x db)
unfolding refresh
refresh-RolledBut t x p q db out r =
    All-change (λ k. p k ≡ false → k.status ≡ rollup k.tenant k.id db.steps)
      (λ k. q k ≡ false → k.status ≡ rollup k.tenant k.id db.steps) (is_task t x)
      (λ k. record k { status = rollup t x db.steps }) db.tasks
      (λ k m _ _.
        let (et, ei) = is_task_sound t x k m in λ i. rollup (sym et i) (sym ei i) db.steps)
      (λ k m h c. h (out k m c)) r

-- What a change of the steps leaves rolled up: the tasks whose roll-up it keeps.
pub steps-RolledBut :
    (p : Task → Bool) (steps : List Step) (db : Db)
    → ((k : Task) → p k ≡ false → rollup k.tenant k.id steps ≡ rollup k.tenant k.id db.steps)
    → IsRolled db
    → RolledBut p (record db { steps = steps })
steps-RolledBut p steps db same r = All-mono db.tasks (λ k h c. h refl ∙ sym (same k c)) r

-- One step is changed and its task refreshed.
module _ (t x : String) (q : Step → Bool) (f : Step → Step)
    (keep : (s : Step) → (f s).tenant ≡ s.tenant) (keep' : (s : Step) → (f s).task ≡ s.task)
    (db : Db) where
  pub one_step-IsRolled :
      {r : Step}
      → first q db.steps ≡ some r
      → count q db.steps ≤ 1
      → r.tenant ≡ t
      → r.task ≡ x
      → IsRolled db
      → IsRolled (refresh t x (record db { steps = update_where q f db.steps }))
  one_step-IsRolled {r} e u rt rx v =
      refresh-RolledBut t x (is_task t x) (λ _. false)
        (record db { steps = update_where q f db.steps }) (λ k m _. m)
        (steps-RolledBut (is_task t x) (update_where q f db.steps) db
          (λ k c.
            rollup-update_one q f k.tenant k.id (λ s. rw (keep s, keep' s) refl) db.steps e u
              (ground (
                arith,
                eq_iff r.tenant k.tenant,
                eq_iff r.task k.id,
                eq_iff k.tenant t,
                eq_iff k.id x,
              )))
          v)

  -- Steps of one task are changed and the task refreshed.
  pub task_steps-IsRolled :
      ((s : Step) → q s ≡ true → (s.tenant ≡ t) × (s.task ≡ x))
      → IsRolled db
      → IsRolled (refresh t x (record db { steps = update_where q f db.steps }))
  task_steps-IsRolled within v =
      refresh-RolledBut t x (is_task t x) (λ _. false)
        (record db { steps = update_where q f db.steps }) (λ k m _. m)
        (steps-RolledBut (is_task t x) (update_where q f db.steps) db
          (λ k c.
            rollup-update q f k.tenant k.id (λ s. rw (keep s, keep' s) refl) db.steps
              (All-rows db.steps λ s m.
                let (st, sx) = within s m in
                ground (
                  arith,
                  st,
                  sx,
                  eq_iff s.tenant k.tenant,
                  eq_iff s.task k.id,
                  eq_iff k.tenant t,
                  eq_iff k.id x,
                )))
          v)
