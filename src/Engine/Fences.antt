-- ===== src/Engine/Fences.antt =====
-- What stops a worker of api-python/platform_runtime/engine.py: a claim that it has given up, and
-- a frozen tenant.
use agentic_works.Base.{
  ℕ, String, ◌≡◌, ◌≤◌, refl, Bool, true, false, none, List, [], ◌∷◌, arith, ◌==◌, Error, ok, err,
  eq_iff, eq_refl, reply, inl, inr, Option-cases, subst, sym, Result-cases,
}
use agentic_works.Base.Table.{count, update_where, select, first, count-zero}
use agentic_works.Engine.{uncertain, Db, Step, World, StepStatus, is_step, stopped, refresh}
use agentic_works.Engine.Claim.{
  finish, claim, holds_claim, expire_steps, expire_step, is_expired, clip,
}
use agentic_works.Engine.Operate.{
  freeze, set_freeze, freeze_running, refresh_all, tasks_of, runs_for,
}

-- No row holds a claim, once the rows of that id hold none.
released :
    (w : World) (t id token : String) (f : Step → Step) (ss : List Step)
    → ¬ (token ≡ "")
    → ((s : Step) → (f s).claim ≡ "")
    → count (holds_claim w t id token) (update_where (is_step id) f ss) ≡ 0
released w t id token f [] n c = refl
released w t id token f (s ∷ ss) n c =
    ground (arith, c s, n, eq_iff (f s).claim token, released w t id token f ss n c)

-- A claim ends once: on the tables that a `finish` left, a second `finish` with that step and token,
-- at any clock and with whatever outcome, raises instead of writing a second result.
pub finish_once :
    (w w' : World) (t id token result result' : String) (status status' : StepStatus)
    (error error' : String) (db : Db)
    → ¬ (token ≡ "")
    → (u : Unit {0}) (db' : Db) → finish w t id token result status error db ≡ ok (u, db')
    → (e : Error) × (finish w' t id token result' status' error' db' ≡ err e)
unfolding finish refresh
finish_once w w' t id token result result' status status' error error' db n u db' e =
    elim (Option-cases (first (holds_claim w t id token) db.steps)) [
      | inl m ↦ absurd (ground arith)
      | inr (r, f) ↦
          let change : Step → Step = λ s. record s {
            status = status;
            result = result;
            error = clip 200 error;
            claim = "";
            lease = 0;
          } in
          let same : update_where (is_step id) change db.steps ≡ db'.steps = ground arith in
          let gone : first (holds_claim w' t id token) db'.steps ≡ none =
            subst (λ ss. first (holds_claim w' t id token) ss ≡ none) same
              (count-zero (holds_claim w' t id token) (update_where (is_step id) change db.steps)
                (released w' t id token change db.steps n (λ s. refl))) in
          elim (Result-cases (finish w' t id token result' status' error' db')) [
            | inl (x, i) ↦ absurd (ground (arith, gone))
            | inr (x, i) ↦ (x, i)
          ]
    ]

pub expire-freezes :
    (t : String) (ss : List Step) (db : Db) → (expire_steps t ss db).freezes ≡ db.freezes
unfolding expire_steps refresh
expire-freezes t [] db = refl
expire-freezes t (s ∷ ss) db = expire-freezes t ss (expire_step t s db)

refresh_all-freezes :
    (t : String) (xs : List String) (db : Db) → (refresh_all t xs db).freezes ≡ db.freezes
unfolding refresh_all refresh
refresh_all-freezes t [] db = refl
refresh_all-freezes t (x ∷ xs) db = refresh_all-freezes t xs (refresh t x db)

stopped-set_freeze :
    (t : String) (v : Bool) (rows : List (String × Bool)) → stopped t (set_freeze t v rows) ≡ v
stopped-set_freeze t v [] = ground (arith, eq_refl t)
stopped-set_freeze t v ((x, s) ∷ rows) = ground (arith, stopped-set_freeze t v rows)

-- When an owner's `freeze` has returned, no claim of the tenant is granted, from any device, until
-- the tables change again: with a worker's name and a lease of 5 to 600 seconds `claim` returns no
-- step.
pub frozen_grants_nothing :
    (w w' : World) (t actor worker device : String) (seconds : ℕ) (db : Db)
    → (u : Unit {0}) (db' : Db) → freeze w t true actor db ≡ ok (u, db')
    → (worker == "") ≡ false
    → 5 ≤ seconds
    → seconds ≤ 600
    → reply (claim w' t worker device seconds db') ≡ ok none
unfolding freeze freeze_running claim
frozen_grants_nothing w w' t actor worker device seconds db u db' e k lo hi =
    let swept = expire_steps t (select (is_expired t w'.now) db'.steps) db' in
    let marked = record db { freezes = set_freeze t true db.freezes } in
    let written : (freeze_running t marked).freezes ≡ db'.freezes = ground arith in
    let kept : (freeze_running t marked).freezes ≡ set_freeze t true db.freezes =
      refresh_all-freezes t (tasks_of (select (runs_for t) db.steps)) (record marked {
        steps =
            update_where (runs_for t)
              (λ s. record s {
                status = uncertain;
                claim = "";
                error = "tenant_frozen_during_execution";
              })
              db.steps;
      }) in
    let still : stopped t swept.freezes ≡ true =
      rw (expire-freezes t (select (is_expired t w'.now) db'.steps) db', sym written, kept)
        (stopped-set_freeze t true db.freezes) in
    ground (arith, still)
