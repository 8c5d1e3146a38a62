-- ===== src/Engine/Bulk.antt =====
-- `freeze` and `device` change the steps of many tasks, then refresh each of those tasks.
use agentic_works.Base.{
  false, some, ok, eq_iff, subst₂, sym, ℕ, All, String, ◌≡◌, refl, ◌∙◌, Bool, true, ◌&&◌, List, [],
  ◌∷◌, arith, ◌==◌, eq_refl,
}
use agentic_works.Base.Rows.{All-mono, All-update}
use agentic_works.Base.Table.{weight, select, update_where, total-update_same}
use agentic_works.Engine.Operate.{
  freeze, enroll, set_freeze, runs_for, open_on, stopped_status, any_step, tasks_of, refresh_all,
  is_one_of, freeze_running, change_device,
}
use agentic_works.Engine.{World, rejected, uncertain, rollup, Task, Step, Db, refresh, is_step}
use agentic_works.Engine.Claim.{is_undecided}
use agentic_works.Engine.Rollup.{
  rollup-update, steps-RolledBut, RolledBut, IsRolled, refresh-RolledBut,
}
use agentic_works.Engine.Sound.{AtMostOnce, Sound, IsSound, as_IsRolled, of_IsRolled}

-- Every step that matches has its task in the list.
listed_tasks :
    (q : Step → Bool) (ss : List Step)
    → All (λ s. q s ≡ true → is_one_of s.task (tasks_of (select q ss)) ≡ true) ss
unfolding tasks_of
listed_tasks q [] = tt
listed_tasks q (s ∷ ss) = (
  λ m. ground (arith, eq_refl s.task),
  All-mono ss (λ r h m. ground (arith, h m)) (listed_tasks q ss),
)

abbrev pub among : String → List String → Task → Bool
among t xs k = k.tenant == t && is_one_of k.id xs

refresh_all-IsRolled :
    (t : String) (xs : List String) (db : Db)
    → RolledBut (among t xs) db
    → IsRolled (refresh_all t xs db)
unfolding refresh_all
refresh_all-IsRolled t [] db r = All-mono db.tasks (λ k h _. h (ground arith)) r
refresh_all-IsRolled t (x ∷ xs) db r =
    refresh_all-IsRolled t xs (refresh t x db)
      (refresh-RolledBut t x (among t (x ∷ xs)) (among t xs) db (λ k a b. ground arith) r)

refresh_all-steps :
    (t : String) (xs : List String) (db : Db) → (refresh_all t xs db).steps ≡ db.steps
unfolding refresh_all refresh
refresh_all-steps t [] db = refl
refresh_all-steps t (x ∷ xs) db = refresh_all-steps t xs (refresh t x db)

-- Any change of a tenant's steps that keeps the three names of a step.
pub bulk-Sound :
    (t : String) (q : Step → Bool) (f : Step → Step) (db base : Db)
    → ((s : Step) → (f s).id ≡ s.id)
    → ((s : Step) → (f s).tenant ≡ s.tenant)
    → ((s : Step) → (f s).task ≡ s.task)
    → ((s : Step) → q s ≡ true → s.tenant ≡ t)
    → ((s : Step) → q s ≡ true → AtMostOnce s → AtMostOnce (f s))
    → base.tasks ≡ db.tasks
    → base.steps ≡ update_where q f db.steps
    → Sound db
    → Sound (refresh_all t (tasks_of (select q db.steps)) base)
bulk-Sound t q f db base ki kt kx own once et es v =
    let xs = tasks_of (select q db.steps) in
    let changed = update_where q f db.steps in
    let kept : RolledBut (among t xs) (record db { steps = changed }) =
      steps-RolledBut (among t xs) changed db
        (λ k c.
          rollup-update q f k.tenant k.id (λ s. rw (kt s, kx s) refl) db.steps
            (All-mono db.steps
              (λ s l m.
                let named = l m in
                let mine = own s m in
                ground (
                  arith,
                  named,
                  mine,
                  c,
                  eq_iff s.tenant k.tenant,
                  eq_iff s.task k.id,
                  eq_iff k.tenant t,
                ))
              (listed_tasks q db.steps)))
        (as_IsRolled db v.rolled) in
    let rolled : RolledBut (among t xs) base =
      subst₂ (λ ks ss. All (λ k. among t xs k ≡ false → k.status ≡ rollup k.tenant k.id ss) ks)
        (sym et) (sym es) kept in
    let steps = refresh_all-steps t xs base ∙ es in
    record {
      ids = λ i.
          rw
            (
              steps,
              total-update_same q f (weight (is_step i) (λ _. 1)) db.steps (λ s m. rw (ki s) refl),
            )
            (v.ids i);
      once = rw steps (All-update AtMostOnce q f db.steps once v.once);
      rolled = of_IsRolled (refresh_all t xs base) (refresh_all-IsRolled t xs base rolled);
    }

open_stays : (t device : String) (s : Step) → open_on t device s ≡ true → s.tenant ≡ t
open_stays t device s m = ground (arith, m, eq_iff s.tenant t)

pub freeze-Sound :
    (w : World) (t : String) (value : Bool) (actor : String) (db : Db)
    → Sound db
    → (u : Unit {0}) (db' : Db) → freeze w t value actor db ≡ ok (u, db')
    → Sound db'
unfolding freeze freeze_running
freeze-Sound w t false actor db v u db' e =
    let same : db.tasks ≡ db'.tasks = ground arith in
    let same' : db.steps ≡ db'.steps = ground arith in subst₂ IsSound same same' v
freeze-Sound w t true actor db v u db' e =
    let change : Step → Step =
      λ s. record s { status = uncertain; claim = ""; error = "tenant_frozen_during_execution" } in
    let base : Db = record db {
      freezes = set_freeze t true db.freezes;
      steps = update_where (runs_for t) change db.steps;
    } in
    let done = refresh_all t (tasks_of (select (runs_for t) db.steps)) base in
    let kept : Sound done =
      bulk-Sound t (runs_for t) change db base (λ s. refl) (λ s. refl) (λ s. refl)
        (λ s m. ground (arith, m, eq_iff s.tenant t)) (λ s m o. (o.0, λ x. cc)) refl refl v in
    let same : done.tasks ≡ db'.tasks = ground arith in
    let same' : done.steps ≡ db'.steps = ground arith in subst₂ IsSound same same' kept

pub enroll-Sound :
    (w : World) (t id : String) (revoked : Bool) (actor : String) (db : Db)
    → Sound db
    → (g : ℕ) (db' : Db) → enroll w t id revoked actor db ≡ ok (g, db')
    → Sound db'
unfolding enroll change_device
enroll-Sound w t id revoked actor db v g db' e =
    let change : Step → Step = λ s. record s {
      status = stopped_status s.status;
      claim = "";
      lease = 0;
      error = "device_enrollment_changed";
    } in
    let base : Db = record db {
      approvals =
          update_where
            (λ a. a.tenant == t && (is_undecided a && any_step (open_on t id) db.steps a))
            (λ a. record a { status = rejected; actor = actor; decided = some w.now }) db.approvals;
      steps = update_where (open_on t id) change db.steps;
    } in
    let done = refresh_all t (tasks_of (select (open_on t id) db.steps)) base in
    let kept : Sound done =
      bulk-Sound t (open_on t id) change db base (λ s. refl) (λ s. refl) (λ s. refl)
        (open_stays t id) (λ s m o. (o.0, λ x. ground (arith, x))) refl refl v in
    let same : done.tasks ≡ db'.tasks = ground arith in
    let same' : done.steps ≡ db'.steps = ground arith in subst₂ IsSound same same' kept
