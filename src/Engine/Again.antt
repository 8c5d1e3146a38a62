-- ===== src/Engine/Again.antt =====
-- That a plan is submitted once: what a second submission under the same key comes to.
use agentic_works.Engine.{World, Db, Task, staff, refresh, rollup, is_task}
use agentic_works.Engine.Submit.{
  Planned, create_task, insert_steps, new_step, approval_row, approval_note, is_origin, new_task,
}
use agentic_works.Base.{
  ℕ, ◌+◌, String, ◌≡◌, refl, inl, inr, true, some, List, [], ◌∷◌, ◌++◌, arith, ◌==◌, ok,
  Option-cases, if◌then◌else◌, subst, eq_refl,
}
use agentic_works.Base.Table.{first, first-append_new, first-update_kept}
use agentic_works.Engine.Create.{create_task-ok}

insert_steps-tasks :
    (w : World) (t x approver : String) (n : ℕ) (ps : List Planned) (db db' : Db)
    → insert_steps w t x approver n ps db ≡ ok db'
    → db.tasks ≡ db'.tasks
unfolding insert_steps
insert_steps-tasks w t x approver n [] db db' e = ground (arith, e)
insert_steps-tasks w t x approver n (p ∷ ps) db db' e =
    let s = new_step w t x n p in
    let base : Db = record db {
      steps = db.steps ++ s ∷ [];
      approvals = db.approvals ++ approval_row w t approver s;
      audit = db.audit ++ approval_note t x approver s;
    } in
    insert_steps-tasks w t x approver (n + 1) ps base db' (ground arith)

-- The task that a submission leaves under its key.
record IsFiled (t channel key full id : String) (db : Db) : Type 0 where
  pub task : Task
  pub found : first (is_origin t channel key) db.tasks ≡ some task
  pub named : task.id ≡ id
  pub same : (task.fingerprint == full) ≡ true

create_task-IsFiled :
    (w : World) (t channel key agent full actor : String) (validated : List Planned)
    (approver : String) (db : Db) (id : String) (db' : Db)
    → create_task w t channel key agent full actor validated approver db ≡ ok (id, db')
    → IsFiled t channel key full id db'
unfolding create_task refresh
create_task-IsFiled w t channel key agent full actor validated approver db id db' e =
    elim (Option-cases (first (is_origin t channel key) db.tasks)) [
      | inr (old, f) ↦
          let same : db ≡ db' = ground arith in
          record {
            task = old;
            found = subst (λ (d : Db). first (is_origin t channel key) d.tasks ≡ some old) same f;
            named = ground arith;
            same = ground arith;
          }
      | inl f ↦
          let (stored, i, done) =
            create_task-ok w t channel key agent full actor validated approver db f id db' e in
          let task = new_task w t channel key agent actor full in
          let x = w.fresh 0 in
          let status : Task → Task = λ k. record k { status = rollup t x stored.steps } in
          let rows : db.tasks ++ task ∷ [] ≡ stored.tasks =
            insert_steps-tasks w t x approver 0 validated _ stored i in
          let mine : is_origin t channel key task ≡ true =
            ground (arith, eq_refl t, eq_refl channel, eq_refl key) in
          let there : first (is_origin t channel key) stored.tasks ≡ some task =
            subst (λ (ks : List Task). first (is_origin t channel key) ks ≡ some task) rows
              (first-append_new (is_origin t channel key) db.tasks task f mine) in
          let this : is_task t x task ≡ true = ground (arith, eq_refl t, eq_refl x) in
          let kept : first (is_origin t channel key) (refresh t x stored).tasks
              ≡ some (if is_task t x task then status task else task) =
            first-update_kept (is_origin t channel key) (is_task t x) status stored.tasks
              (λ k. refl) there in
          let after : first (is_origin t channel key) db'.tasks ≡ some (status task) =
            subst (λ (d : Db). first (is_origin t channel key) d.tasks ≡ some (status task)) done
              (subst
                (λ b.
                  first (is_origin t channel key) (refresh t x stored).tasks
                  ≡ some (if b then status task else task))
                this kept) in
          record {
            task = status task;
            found = after;
            named = ground (arith, f, i);
            same = eq_refl full;
          }
    ]

pub create_task_again :
    (w w' : World) (t channel key agent agent' full actor actor' : String)
    (validated validated' : List Planned) (approver approver' : String) (db : Db) (id : String)
    (db' : Db)
    → create_task w t channel key agent full actor validated approver db ≡ ok (id, db')
    → w'.authority t channel actor' staff ≡ true
    → create_task w' t channel key agent' full actor' validated' approver' db' ≡ ok (id, db')
unfolding create_task
create_task_again w w' t channel key agent agent' full actor actor' validated validated' approver
      approver' db id db' e a =
    let k = create_task-IsFiled w t channel key agent full actor validated approver db id db' e in
    rw a (rw k.found (rw k.same (rw k.named refl)))
