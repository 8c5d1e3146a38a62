-- ===== src/Engine/Sound.antt =====
-- The invariant of tasks and steps: step ids are unique, a step has been claimed at most once and not
-- at all while it waits, and every task has the status that its steps give it.
use agentic_works.Base.{
  inl, inr, Bool-cases, false, ◌≤◌, All, String, ◌≡◌, refl, Bool, true, some, List, [], ◌∷◌, arith,
}
use agentic_works.Base.Rows.{All-update, All-update_one, All-mono}
use agentic_works.Base.Table.{first, count, weight, update_where, total-update_same}
use agentic_works.Engine.{Step, Task, Db, rollup, is_step, refresh}
use agentic_works.Engine.Claim.{is_waiting}
use agentic_works.Engine.Rollup.{
  refresh-RolledBut, IsRolled, one_step-IsRolled, task_steps-IsRolled,
}

abbrev pub AtMostOnce : Step → Type 0
AtMostOnce s = (s.attempts ≤ 1) × (is_waiting s.status ≡ true → s.attempts ≡ 0)

abbrev pub Rolled : List Step → Task → Type 0
Rolled steps k = k.status ≡ rollup k.tenant k.id steps

pub record IsSound (tasks : List Task) (steps : List Step) : Type 0 where
  pub ids : (i : String) → count (is_step i) steps ≤ 1
  pub once : All AtMostOnce steps
  pub rolled : All (Rolled steps) tasks

abbrev pub Sound : Db → Type 0
Sound db = IsSound db.tasks db.steps

pub as_IsRolled : (db : Db) → All (Rolled db.steps) db.tasks → IsRolled db
as_IsRolled db = All-mono db.tasks (λ k e _. e)

pub of_IsRolled : (db : Db) → IsRolled db → All (Rolled db.steps) db.tasks
of_IsRolled db = All-mono db.tasks (λ k e. e refl)

module _ (t x : String) (q : Step → Bool) (f : Step → Step) (keep_id : (s : Step) → (f s).id ≡ s.id)
    (keep_tenant : (s : Step) → (f s).tenant ≡ s.tenant)
    (keep_task : (s : Step) → (f s).task ≡ s.task) (db : Db) (v : Sound db) where
  abbrev changed : Db
  changed = record db { steps = update_where q f db.steps }

  changed_ids : (i : String) → count (is_step i) changed.steps ≤ 1
  changed_ids i =
      rw (total-update_same q f (weight (is_step i) (λ _. 1)) db.steps (λ s m. rw (keep_id s) refl))
        (v.ids i)

  -- The one step that is found changes, and its task is refreshed.
  pub one_step-Sound :
      {r : Step}
      → first q db.steps ≡ some r
      → count q db.steps ≤ 1
      → r.tenant ≡ t
      → r.task ≡ x
      → (AtMostOnce r → AtMostOnce (f r))
      → Sound (refresh t x (record db { steps = update_where q f db.steps }))
  unfolding refresh
  one_step-Sound e u rt rx h = record {
    ids = changed_ids;
    once = All-update_one AtMostOnce q f db.steps e u h v.once;
    rolled =
        of_IsRolled (refresh t x changed)
          (one_step-IsRolled t x q f keep_tenant keep_task db e u rt rx (as_IsRolled db v.rolled));
  }

  -- Steps of one task change, and it is refreshed.
  pub task_steps-Sound :
      ((s : Step) → q s ≡ true → (s.tenant ≡ t) × (s.task ≡ x))
      → ((s : Step) → q s ≡ true → AtMostOnce s → AtMostOnce (f s))
      → Sound (refresh t x (record db { steps = update_where q f db.steps }))
  unfolding refresh
  task_steps-Sound within h = record {
    ids = changed_ids;
    once = All-update AtMostOnce q f db.steps h v.once;
    rolled =
        of_IsRolled (refresh t x changed)
          (task_steps-IsRolled t x q f keep_tenant keep_task db within (as_IsRolled db v.rolled));
  }

-- The row of a step's id is the only one that a narrower test can match.
pub count_narrow :
    (i : String) (q : Step → Bool) (ss : List Step)
    → ((s : Step) → q s ≡ true → is_step i s ≡ true)
    → count q ss ≤ count (is_step i) ss
count_narrow i q [] h = omega arith
count_narrow i q (s ∷ ss) h = ground (arith, h s, count_narrow i q ss h)

pub first_narrow :
    (i : String) (q : Step → Bool) (ss : List Step) {s : Step}
    → ((r : Step) → q r ≡ true → is_step i r ≡ true)
    → first (is_step i) ss ≡ some s
    → q s ≡ true
    → first q ss ≡ some s
first_narrow i q [] m e t = cc
first_narrow i q (r ∷ ss) {s} m e t = elim (Bool-cases (is_step i r)) [
  | inl a ↦ ground arith
  | inr a ↦ ground (arith, m r, first_narrow i q ss {s = s} m)
]

-- A refresh alone.
pub refresh-Sound : (t x : String) (db : Db) → Sound db → Sound (refresh t x db)
unfolding refresh
refresh-Sound t x db v = record {
  ids = v.ids;
  once = v.once;
  rolled = of_IsRolled (refresh t x db) (
      refresh-RolledBut t x (λ _. false) (λ _. false) db (λ k _ _. refl) (as_IsRolled db v.rolled));
}
