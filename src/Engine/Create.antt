-- ===== src/Engine/Create.antt =====
-- `_create_task` keeps the invariant of tasks and steps.
use agentic_works.Base.{
  String, ℕ, ◌+◌, ◌≤◌, ◌≡◌, refl, ◌∙◌, inl, inr, false, List, [], ◌∷◌, ◌++◌, arith, ok, subst,
  Option-cases, All, eq_iff, subst₂, sym, none, eq_refl, Result-cases,
}
use agentic_works.Engine.{
  Db, Step, World, is_step_of, refresh, StepStatus, rollup, is_step, some_step, every_step, is_task,
  log,
}
use agentic_works.Engine.Submit.{
  insert_steps, create_task, Planned, new_step, approval_row, is_origin, approval_note, new_task,
}
use agentic_works.Engine.Sound.{Sound, AtMostOnce, of_IsRolled}
use agentic_works.Base.Table.{count, total-append, first, weight}
use agentic_works.Engine.Rollup.{RolledBut, refresh-RolledBut}
use agentic_works.Base.Rows.{All-append, All-mono}

-- A step of another task is appended.
module _ (t x : String) (s : Step) (other : is_step_of t x s ≡ false) where
  some_step-append :
      (st : StepStatus) (ss : List Step) → some_step st t x (ss ++ s ∷ []) ≡ some_step st t x ss
  some_step-append st [] = ground arith
  some_step-append st (r ∷ ss) = ground (arith, some_step-append st ss)

  every_step-append :
      (st : StepStatus) (ss : List Step) → every_step st t x (ss ++ s ∷ []) ≡ every_step st t x ss
  every_step-append st [] = ground arith
  every_step-append st (r ∷ ss) = ground (arith, every_step-append st ss)

  rollup-append : (ss : List Step) → rollup t x (ss ++ s ∷ []) ≡ rollup t x ss
  unfolding rollup
  rollup-append ss =
      let some_same = λ (st : StepStatus). some_step-append st ss in
      let every_same = λ (st : StepStatus). every_step-append st ss in simp (some_same, every_same)

-- The tables while a task's steps are inserted: only its own status may lag.
record Filling (t x : String) (db : Db) : Type 0 where
  ids : (i : String) → count (is_step i) db.steps ≤ 1
  once : All AtMostOnce db.steps
  rolled : RolledBut (is_task t x) db

insert_step-Filling :
    (t x : String) (s : Step) (db base : Db)
    → s.tenant ≡ t
    → s.task ≡ x
    → AtMostOnce s
    → count (is_step s.id) db.steps ≡ 0
    → base.tasks ≡ db.tasks
    → base.steps ≡ db.steps ++ s ∷ []
    → Filling t x db
    → Filling t x base
insert_step-Filling t x s db base st sx o z et es v = record {
  ids = λ i.
      rw (es, total-append (weight (is_step i) (λ (_ : Step). 1)) db.steps (s ∷ []))
        (ground (arith, v.ids i, z, eq_iff s.id i));
  once = rw es (All-append AtMostOnce db.steps (s ∷ []) v.once (o, tt));
  rolled =
      subst₂ (λ ks ss. All (λ k. is_task t x k ≡ false → k.status ≡ rollup k.tenant k.id ss) ks)
        (sym et) (sym es)
        (All-mono db.tasks
          (λ k h c.
            h c
            ∙ sym (
                rollup-append k.tenant k.id s
                  (ground (
                    arith,
                    c,
                    st,
                    sx,
                    eq_iff s.tenant k.tenant,
                    eq_iff s.task k.id,
                    eq_iff k.tenant t,
                    eq_iff k.id x,
                  ))
                  db.steps))
          v.rolled);
}

insert_steps-Filling :
    (w : World) (t x approver : String) (n : ℕ) (ps : List Planned) (db db' : Db)
    → insert_steps w t x approver n ps db ≡ ok db'
    → Filling t x db
    → Filling t x db'
unfolding insert_steps
insert_steps-Filling w t x approver n [] db db' e v =
    let same : db ≡ db' = ground arith in subst (Filling t x) same v
insert_steps-Filling w t x approver n (p ∷ ps) db db' e v =
    let s = new_step w t x n p in
    let base : Db = record db {
      steps = db.steps ++ s ∷ [];
      approvals = db.approvals ++ approval_row w t approver s;
      audit = db.audit ++ approval_note t x approver s;
    } in
    insert_steps-Filling w t x approver (n + 1) ps base db' (ground arith) (
      insert_step-Filling t x s db base refl refl (omega arith, λ _. refl) (ground arith) refl refl
        v)

pub create_task-ok :
    (w : World) (t channel key agent full actor : String) (validated : List Planned)
    (approver : String) (db : Db)
    → first (is_origin t channel key) db.tasks ≡ none
    → (id : String) (db' : Db)
    → create_task w t channel key agent full actor validated approver db ≡ ok (id, db')
    → (stored : Db) × (insert_steps w t
          (w.fresh 0)
          approver
          0
          validated
          (record db { tasks = db.tasks ++ new_task w t channel key agent actor full ∷ [] })
        ≡ ok stored)
      × (refresh t (w.fresh 0) (log stored t (w.fresh 0) "task.created" actor agent) ≡ db')
unfolding create_task
create_task-ok w t channel key agent full actor validated approver db f id db' e =
    elim (Result-cases (
      insert_steps w t (w.fresh 0) approver 0 validated
        (record db { tasks = db.tasks ++ new_task w t channel key agent actor full ∷ [] }))) [
          | inl (stored, i) ↦ (stored, i, ground arith)
          | inr (x, i) ↦ absurd (ground arith)
        ]

pub create_task-Sound :
    (w : World) (t channel key agent full actor : String) (validated : List Planned)
    (approver : String) (db : Db)
    → Sound db
    → (id : String) (db' : Db)
    → create_task w t channel key agent full actor validated approver db ≡ ok (id, db')
    → Sound db'
unfolding create_task refresh
create_task-Sound w t channel key agent full actor validated approver db v id db' e =
    elim (Option-cases (first (is_origin t channel key) db.tasks)) [
      | inr (old, f) ↦ let same : db ≡ db' = ground arith in subst Sound same v
      | inl f ↦
          let task = new_task w t channel key agent actor full in
          let base : Db = record db { tasks = db.tasks ++ task ∷ [] } in
          let start : Filling t (w.fresh 0) base = record {
            ids = v.ids;
            once = v.once;
            rolled =
                All-append
                  (λ k. is_task t (w.fresh 0) k ≡ false → k.status ≡ rollup k.tenant k.id db.steps)
                  db.tasks (task ∷ []) (All-mono db.tasks (λ k h c. h) v.rolled)
                  (λ c. absurd (ground (arith, c, eq_refl t, eq_refl (w.fresh 0))), tt);
          } in
          let (stored, i, same) =
            create_task-ok w t channel key agent full actor validated approver db f id db' e in
          let filled =
            insert_steps-Filling w t (w.fresh 0) approver 0 validated base stored i start in
          let kept : Sound (refresh t (w.fresh 0) stored) = record {
            ids = filled.ids;
            once = filled.once;
            rolled = of_IsRolled (refresh t (w.fresh 0) stored) (
                refresh-RolledBut t (w.fresh 0) (is_task t (w.fresh 0)) (λ _. false) stored
                  (λ k m _. m) filled.rolled);
          } in
          subst Sound same (record { ids = kept.ids; once = kept.once; rolled = kept.rolled })
    ]
