-- ===== src/Engine/Grant.antt =====
-- `claim` keeps the invariant of tasks and steps, whichever candidates it retires, fails, parks or
-- starts.
use agentic_works.Base.{
  ◌≤◌, All, String, ◌≡◌, refl, Bool, true, List, [], ◌∷◌, arith, ℕ, ◌&&◌, ◌==◌, subst₂, eq_refl,
  sym, subst, eq_iff, Option, ok,
}
use agentic_works.Base.Table.{count, update_where}
use agentic_works.Engine.{
  Step, Candidate, is_step, Db, refresh, World, put_step, cancelled, failed, waiting_approval,
}
use agentic_works.Engine.Sound.{
  first_narrow, Sound, AtMostOnce, one_step-Sound, count_narrow, IsSound,
}
use agentic_works.Engine.Loop.{steps_of}
use agentic_works.Engine.Expire.{Listed, Listed-update}
use agentic_works.Engine.Claim.{
  Verdict-cases, is_inactive, is_invalid, is_wait, is_run, is_raised, claim_loop, verdict,
  is_waiting, retire_step, fail_step, start_step, lease_to, claim_loop, verdict,
}

-- The invariant, and what the loop knows of the candidates that are left.
pub record LoopState (t : String) (cs : List Candidate) (db : Db) : Type 0 where
  pub sound : Sound db
  pub listed : All (Listed db.steps) (steps_of cs)
  pub mine : All (λ s. (s.tenant ≡ t) × (is_waiting s.status ≡ true)) (steps_of cs)
  pub once : (i : String) → count (is_step i) (steps_of cs) ≤ 1

-- One candidate's step is changed, its task refreshed, and the loop goes on.
module _ (t : String) (c : Candidate) (cs : List Candidate) (db : Db) (q : Step → Bool)
    (f : Step → Step) (narrow : (s : Step) → q s ≡ true → is_step c.step.id s ≡ true)
    (hit : c.step.tenant ≡ t → q c.step ≡ true) (keep_id : (s : Step) → (f s).id ≡ s.id)
    (keep_tenant : (s : Step) → (f s).tenant ≡ s.tenant)
    (keep_task : (s : Step) → (f s).task ≡ s.task) (v : LoopState t (c ∷ cs) db) where
  pub step-Sound :
      (AtMostOnce c.step → AtMostOnce (f c.step))
      → Sound (refresh t c.step.task (record db { steps = update_where q f db.steps }))
  step-Sound h =
      let mine = v.mine.0.0 in
      one_step-Sound t c.step.task q f keep_id keep_tenant keep_task db v.sound
        (first_narrow c.step.id q db.steps narrow v.listed.0 (hit mine))
        (omega (arith, count_narrow c.step.id q db.steps narrow, v.sound.ids c.step.id)) mine refl h

  pub next-LoopState :
      (AtMostOnce c.step → AtMostOnce (f c.step))
      → LoopState t cs (refresh t c.step.task (record db { steps = update_where q f db.steps }))
  unfolding refresh
  next-LoopState h = record {
    sound = step-Sound h;
    listed =
        Listed-update c.step.id q f db.steps (steps_of cs) narrow keep_id
          (ground (arith, v.once c.step.id, eq_refl c.step.id)) v.listed.1;
    mine = v.mine.1;
    once = λ i. ground (arith, v.once i);
  }

LoopState-cong :
    {t : String} {cs : List Candidate} {a b : Db}
    → b.tasks ≡ a.tasks
    → b.steps ≡ a.steps
    → LoopState t cs a
    → LoopState t cs b
LoopState-cong {t} {cs} et es v = record {
  sound = subst₂ IsSound (sym et) (sym es) v.sound;
  listed = subst (λ steps. All (Listed steps) (steps_of cs)) (sym es) v.listed;
  mine = v.mine;
  once = v.once;
}

-- What each verdict does to the candidate's step.
module _ (w : World) (t : String) (c : Candidate) (cs : List Candidate) (db : Db)
    (v : LoopState t (c ∷ cs) db) where
  pub retire-LoopState : LoopState t cs (retire_step w t c.step db)
  unfolding refresh
  retire-LoopState = LoopState-cong refl refl (
      next-LoopState t c cs db (λ r. r.tenant == t && r.id == c.step.id)
        (λ r. record r { status = cancelled; claim = ""; lease = 0; error = "agent_run_inactive" })
        (λ s m. ground arith) (λ m. ground (arith, eq_iff c.step.tenant t, eq_refl c.step.id))
        (λ s. refl) (λ s. refl) (λ s. refl) v (λ o. (o.0, λ x. cc)))

  pub fail-LoopState : (error : String) → LoopState t cs (fail_step t c.step error db)
  unfolding refresh
  fail-LoopState error = LoopState-cong refl refl (
      next-LoopState t c cs db (is_step c.step.id)
        (λ r. record r { status = failed; error = error }) (λ s m. m) (λ m. eq_refl c.step.id)
        (λ s. refl) (λ s. refl) (λ s. refl) v (λ o. (o.0, λ x. cc)))

  pub wait-LoopState :
      LoopState t cs (
        refresh t c.step.task (put_step c.step.id (λ r. record r { status = waiting_approval }) db))
  unfolding refresh
  wait-LoopState = LoopState-cong refl refl (
      next-LoopState t c cs db (is_step c.step.id) (λ r. record r { status = waiting_approval })
        (λ s m. m) (λ m. eq_refl c.step.id) (λ s. refl) (λ s. refl) (λ s. refl) v
        (λ o. (o.0, λ x. o.1 v.mine.0.1)))

  pub start-Sound :
      (worker : String) (seconds : ℕ) → Sound (start_step w t worker seconds c.step db)
  unfolding refresh
  start-Sound worker seconds =
      let done =
        step-Sound t c cs db (is_step c.step.id) (lease_to w worker seconds) (λ s m. m)
          (λ m. eq_refl c.step.id) (λ s. refl) (λ s. refl) (λ s. refl) v
          (λ o. (omega (arith, o.1 v.mine.0.1), λ x. cc)) in
      record { ids = done.ids; once = done.once; rolled = done.rolled }

-- The loop ends in a sound state, whatever the candidates' checks say.
pub claim_loop-Sound :
    (w : World) (t worker : String) (seconds : ℕ) (cs : List Candidate) (db : Db)
    (granted : Option Step) (db' : Db)
    → LoopState t cs db
    → claim_loop w t worker seconds cs db ≡ ok (granted, db')
    → Sound db'
unfolding claim_loop
claim_loop-Sound w t worker seconds [] db granted db' v e =
    let same : db ≡ db' = ground arith in subst Sound same v.sound
claim_loop-Sound w t worker seconds (c ∷ cs) db granted db' v e =
    elim (Verdict-cases (verdict w t c db)) [
      | is_inactive m ↦
          claim_loop-Sound w t worker seconds cs (retire_step w t c.step db) granted db'
            (retire-LoopState w t c cs db v) (ground arith)
      | is_invalid error m ↦
          claim_loop-Sound w t worker seconds cs (fail_step t c.step error db) granted db'
            (fail-LoopState w t c cs db v error) (ground arith)
      | is_wait m ↦
          claim_loop-Sound w t worker seconds cs _ granted db' (wait-LoopState w t c cs db v)
            (ground arith)
      | is_run m ↦
          let same : start_step w t worker seconds c.step db ≡ db' = ground arith in
          subst Sound same (start-Sound w t c cs db v worker seconds)
      | is_raised error m ↦ absurd (ground arith)
    ]
