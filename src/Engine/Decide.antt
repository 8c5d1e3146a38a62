-- ===== src/Engine/Decide.antt =====
-- `approve` keeps the invariant of tasks and steps.
use agentic_works.Base.{
  String, ◌≡◌, inl, inr, ◌&&◌, some, arith, ◌==◌, Option-cases, eq_iff, sym, Bool-cases, ◌≤◌, refl,
  Bool, true, false, List, [], ◌∷◌, if◌then◌else◌, ok, subst₂, subst, require-ok, some_or-ok,
  then-ok, ap, ◌||◌, require, forbidden, value_error, not_found, not, ltb, conflict, commit,
}
use agentic_works.Base.Table.{first, first_sound, update_where, count, update_none}
use agentic_works.Engine.{
  Db, Step, Approval, Task, is_step, refresh, World, queued, cancelled, require_active,
  require_authority,
}
use agentic_works.Engine.Operate.{find_approval, approve, decide, is_one_of, is_pending}
use agentic_works.Engine.Sound.{Sound, refresh-Sound, AtMostOnce, count_narrow}
use agentic_works.Engine.Claim.{is_approval, is_waiting, approvers}
use agentic_works.Engine.Keep.{named-Sound}

pub find_approval_sound :
    (t id : String) (db : Db) {a : Approval} {s : Step} {k : Task}
    → find_approval t id db ≡ some (a, s, k)
    → (first (is_approval t id) db.approvals ≡ some a) × (first (is_step id) db.steps ≡ some s)
find_approval_sound t id db {a} {s} {k} e =
    elim (Option-cases (first (is_approval t id) db.approvals)) [
      | inl n ↦ absurd (ground arith)
      | inr (b, f) ↦ elim (Option-cases (first (is_step b.step) db.steps)) [
        | inl n ↦ absurd (ground arith)
        | inr (r, g) ↦
            let same : b ≡ a = ground arith in
            let same' : r ≡ s = ground arith in
            let named : b.step ≡ id =
              ground (arith, eq_iff b.step id, first_sound (is_approval t id) db.approvals f) in
            (rw (sym same) f, subst₂ (λ i x. first (is_step i) db.steps ≡ some x) named same' g)
      ]
    ]

-- A narrower test misses, if it misses the row of the id.
count_other :
    (i : String) (q : Step → Bool) (ss : List Step) {r : Step}
    → ((s : Step) → q s ≡ true → is_step i s ≡ true)
    → first (is_step i) ss ≡ some r
    → count (is_step i) ss ≤ 1
    → q r ≡ false
    → count q ss ≡ 0
count_other i q [] m e u o = refl
count_other i q (s ∷ ss) {r} m e u o = elim (Bool-cases (is_step i s)) [
  | inl y ↦
      let same : s ≡ r = ground arith in
      let miss : q s ≡ false = subst (λ x. q x ≡ false) (sym same) o in
      ground (arith, count_narrow i q ss m)
  | inr n ↦ ground (arith, m s, count_other i q ss {r = r} m)
]

-- The update by tenant and id, whether the step of that id is the tenant's or not.
decided-Sound :
    (t id : String) (f : Step → Step) (db : Db) {r : Step}
    → Sound db
    → ((s : Step) → (f s).id ≡ s.id)
    → ((s : Step) → (f s).tenant ≡ s.tenant)
    → ((s : Step) → (f s).task ≡ s.task)
    → first (is_step id) db.steps ≡ some r
    → (AtMostOnce r → AtMostOnce (f r))
    → Sound (
        refresh t r.task
          (record db { steps = update_where (λ x. x.tenant == t && x.id == id) f db.steps }))
decided-Sound t id f db {r} v ki kt kx e h = elim (Bool-cases (r.tenant == t)) [
  | inl m ↦ named-Sound t id f db v ki kt kx e (ground (arith, eq_iff r.tenant t)) h
  | inr m ↦
      let none_of : count (λ x. x.tenant == t && x.id == id) db.steps ≡ 0 =
        count_other id (λ x. x.tenant == t && x.id == id) db.steps (λ x m. ground arith) e
          (v.ids id) (ground arith) in
      rw (update_none (λ x. x.tenant == t && x.id == id) f db.steps none_of)
        (refresh-Sound t r.task db v)
]

approve-ok :
    (w : World) (t id actor decision role : String) (db : Db)
    → (u : Unit {0}) (db' : Db) → approve w t id actor decision role db ≡ ok (u, db')
    → (a : Approval) × (s : Step) × (k : Task) × (find_approval t id db ≡ some (a, s, k))
      × (is_waiting s.status ≡ true)
      × (decide w t id actor (decision == "approved") s.task db ≡ db')
unfolding approve
approve-ok w t id actor decision role db u db' e =
    let (_, after_role) =
      require-ok (is_one_of role ("owner" ∷ "operator" ∷ "super-admin" ∷ [])) forbidden _ e in
    let (_, after_word) =
      require-ok (is_one_of decision ("approved" ∷ "rejected" ∷ [])) value_error _ after_role in
    let ((a, s, k), f, found) = some_or-ok (find_approval t id db) not_found _ after_word in
    let policy = w.policy t k.agent in
    let (_, after_active) = then-ok (require_active w t db) _ found in
    let (_, after_parent) = then-ok (require (w.task_parent t s.task) forbidden) _ after_active in
    let (_, after_approver) =
      then-ok (require_authority w t "approval" actor (approvers policy)) _ after_parent in
    let (_, after_independent) =
      require-ok
        (not ((decision == "approved") && (policy.independent_approval && actor == k.actor)))
        forbidden _ after_approver in
    let (_, after_policy) =
      require-ok (is_one_of policy.approver_role ("operator" ∷ "owner" ∷ [])) forbidden _
        after_independent in
    let (_, after_owner) =
      require-ok
        (not (policy.approver_role == "owner") || is_one_of role ("owner" ∷ "super-admin" ∷ []))
        forbidden _ after_policy in
    let (open_row, done) =
      require-ok (is_pending a && (is_waiting s.status && ltb w.now a.expires)) conflict _
        after_owner in
    (a, s, k, f, ground (arith, open_row), ap (commit db) done)

pub approve-Sound :
    (w : World) (t id actor decision role : String) (db : Db)
    → Sound db
    → (u : Unit {0}) (db' : Db) → approve w t id actor decision role db ≡ ok (u, db')
    → Sound db'
unfolding refresh
approve-Sound w t id actor decision role db v u db' e =
    let (a, s, k, f, waiting, same) = approve-ok w t id actor decision role db u db' e in
    let change : Step → Step =
      λ x. record x { status = if decision == "approved" then queued else cancelled } in
    let kept =
      decided-Sound t id change db {r = s} v (λ s. refl) (λ s. refl) (λ s. refl)
        (find_approval_sound t id db f).1 (λ o. (o.0, λ x. o.1 waiting)) in
    subst Sound same (record { ids = kept.ids; once = kept.once; rolled = kept.rolled })
