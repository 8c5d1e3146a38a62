-- ===== src/Engine/Expire.antt =====
-- Lists of steps that a transaction read and then works off: they stay true to the table while the
-- rows of other steps change. The first use is the sweep of expired leases at the head of `claim`.
use agentic_works.Base.{
  ◌&&◌, ◌==◌, ◌≤◌, eq_iff, All, String, ◌≡◌, refl, ◌∙◌, Bool, true, some, List, [], ◌∷◌, arith,
  eq_refl, ℕ,
}
use agentic_works.Base.Rows.{first-update_disjoint, All-mono, All-select}
use agentic_works.Base.Table.{first, count, weight, select, update_where, total-first}
use agentic_works.Engine.{Step, is_step, Db, refresh, uncertain}
use agentic_works.Engine.Claim.{expire_steps, is_expired, expire_step}
use agentic_works.Engine.Sound.{first_narrow, count_narrow, Sound, one_step-Sound}

-- A listed step is the row of its id.
abbrev pub Listed : List Step → Step → Type 0
Listed steps s = first (is_step s.id) steps ≡ some s

pub rows-Listed : (ss : List Step) → ((i : String) → count (is_step i) ss ≤ 1) → All (Listed ss) ss
rows-Listed [] u = tt
rows-Listed (s ∷ ss) u = (
  ground (arith, eq_refl s.id),
  All-mono ss
      (λ r f. ground (
        arith,
        u r.id,
        eq_iff s.id r.id,
        total-first (is_step r.id) (weight (is_step r.id) (λ (_ : Step). 1)) ss f,
        eq_refl r.id,
      ))
      (rows-Listed ss (λ i. ground (arith, u i))),
)

-- A change of another row.
pub Listed-update :
    (i : String) (q : Step → Bool) (f : Step → Step) (steps ss : List Step)
    → ((s : Step) → q s ≡ true → is_step i s ≡ true)
    → ((s : Step) → (f s).id ≡ s.id)
    → count (is_step i) ss ≡ 0
    → All (Listed steps) ss
    → All (Listed (update_where q f steps)) ss
Listed-update i q f steps [] m k z a = tt
Listed-update i q f steps (s ∷ ss) m k z a = (
  first-update_disjoint (is_step s.id) q f steps
        (λ r e. ground (arith, m r e, eq_iff r.id i, eq_iff r.id s.id, eq_iff s.id i))
        (λ r. rw (k r) refl)
      ∙ a.0,
  Listed-update i q f steps ss m k (ground arith) a.1,
)

pub count-select :
    (i : String) (p : Step → Bool) (ss : List Step)
    → count (is_step i) (select p ss) ≤ count (is_step i) ss
count-select i p [] = omega arith
count-select i p (s ∷ ss) = ground (arith, count-select i p ss)

-- The sweep keeps the invariant, given rows of the tenant, each once.
pub expire_steps-Sound :
    (tenant : String) (ss : List Step) (db : Db)
    → Sound db
    → All (Listed db.steps) ss
    → All (λ s. s.tenant ≡ tenant) ss
    → ((i : String) → count (is_step i) ss ≤ 1)
    → Sound (expire_steps tenant ss db)
unfolding expire_steps refresh
expire_steps-Sound tenant [] db v l t u = v
expire_steps-Sound tenant (s ∷ ss) db v l t u =
    let change : Step → Step =
      λ r. record r { status = uncertain; error = "lease_expired"; claim = "" } in
    let q : Step → Bool = λ r. r.tenant == tenant && r.id == s.id in
    let narrow : (r : Step) → q r ≡ true → is_step s.id r ≡ true = λ r m. ground arith in
    expire_steps-Sound tenant ss (expire_step tenant s db)
      (one_step-Sound tenant s.task q change (λ r. refl) (λ r. refl) (λ r. refl) db v
        (first_narrow s.id q db.steps narrow l.0
          (ground (arith, t.0, eq_refl s.id, eq_iff s.tenant tenant)))
        (omega (arith, count_narrow s.id q db.steps narrow, v.ids s.id)) t.0 refl
        (λ o. (o.0, λ w. cc)))
      (Listed-update s.id q change db.steps ss narrow (λ r. refl)
        (ground (arith, u s.id, eq_refl s.id)) l.1)
      t.1 (λ i. ground (arith, u i))

-- The rows that `claim` sweeps.
pub sweep-Sound :
    (tenant : String) (now : ℕ) (db : Db)
    → Sound db
    → Sound (expire_steps tenant (select (is_expired tenant now) db.steps) db)
sweep-Sound tenant now db v =
    let read =
      All-select (Listed db.steps) (is_expired tenant now) db.steps (rows-Listed db.steps v.ids) in
    let rows = select (is_expired tenant now) db.steps in
    expire_steps-Sound tenant rows db v (All-mono rows (λ s p. p.0) read)
      (All-mono rows (λ s p. ground (arith, p.1, eq_iff s.tenant tenant)) read)
      (λ i. omega (arith, count-select i (is_expired tenant now) db.steps, v.ids i))
