-- ===== src/Trust/Climb.antt =====
-- What moves an agent on the trust ladder (api-python/app/ladder.py).
use agentic_works.Trust.{
  human_led, human_assisted, autonomous, Level, Rules, judge, Entry, errors, within, is_top,
  is_bottom, raised, moved_to, lowered, entry_of, save, record_task, first, set_level, is_entry,
  record_outcome, check_id,
}
use agentic_works.Base.{
  ℕ, ◌+◌, ◌*◌, ◌≤◌, ◌<◌, ◌≡◌, refl, ◌⊎◌, inl, inr, true, false, ◌&&◌, [], arith, length, leb,
  Bool-cases, not, String, Bool, List, ◌∷◌, ◌==◌, commit, eq_iff, ok, subst, then-ok, eq_refl,
  Option-cases, sym, commit-cases, All,
}
use agentic_works.Base.Table.{first_sound}
use agentic_works.Base.Replace.{first-replace_same, first-replace_other}

abbrev pub rank : Level → ℕ
rank human_led = 0
rank human_assisted = 1
rank autonomous = 2

-- A move to another level, and what its window shows.
pub record IsRise (rules : Rules) (e e' : Entry) : Type 0 where
  pub one_up : rank e'.level ≡ rank e.level + 1
  pub enough : rules.min_tasks ≤ length e.outcomes
  pub good : errors e.outcomes * rules.max_err.whole ≤ rules.max_err.part * length e.outcomes
  pub anew : e'.outcomes ≡ []
  pub capped : rules.auto_cap ≡ true → rank e'.level ≤ 1

pub record IsFall (rules : Rules) (e e' : Entry) : Type 0 where
  pub one_down : rank e'.level + 1 ≡ rank e.level
  pub enough : rules.min_tasks ≤ length e.outcomes
  pub bad : rules.demote_err.part * length e.outcomes < errors e.outcomes * rules.demote_err.whole
  pub anew : e'.outcomes ≡ []

raised_up : (l : Level) → is_top l ≡ false → rank (raised l) ≡ rank l + 1
raised_up human_led h = refl
raised_up human_assisted h = refl
raised_up autonomous h = absurd (cc)

raised_capped : (l : Level) → is_top (raised l) ≡ false → rank (raised l) ≤ 1
raised_capped human_led h = omega arith
raised_capped human_assisted h = absurd (cc)
raised_capped autonomous h = absurd (cc)

lowered_down : (l : Level) → is_bottom l ≡ false → rank (lowered l) + 1 ≡ rank l
lowered_down human_led h = absurd (cc)
lowered_down human_assisted h = refl
lowered_down autonomous h = refl

rise :
    (rules : Rules) (e : Entry)
    → leb rules.min_tasks (length e.outcomes) ≡ true
    → (within rules.max_err (errors e.outcomes) (length e.outcomes) && not (is_top e.level)) ≡ true
    → (rules.auto_cap && is_top (raised e.level)) ≡ false
    → IsRise rules e (moved_to (raised e.level) e)
rise rules e n w c = record {
  one_up = raised_up e.level (ground (arith, w));
  enough = ground (arith, n);
  good = ground (arith, w);
  anew = refl;
  capped = λ cap. raised_capped e.level (ground (arith, c, cap));
}

fall :
    (rules : Rules) (e : Entry)
    → leb rules.min_tasks (length e.outcomes) ≡ true
    → (not (within rules.demote_err (errors e.outcomes) (length e.outcomes))
        && not (is_bottom e.level))
      ≡ true
    → IsFall rules e (moved_to (lowered e.level) e)
fall rules e n w = record {
  one_down = lowered_down e.level (ground (arith, w));
  enough = ground (arith, n);
  bad = ground (arith, w);
  anew = refl;
}

-- The window of an entry keeps its level, or moves it one level: up after at least `min_tasks`
-- outcomes with an error rate of at most `max_err`, never to the top under `auto_cap`; down after at
-- least as many with a rate above `demote_err`; and a move starts the window anew.
pub judge_moves :
    (rules : Rules) (e : Entry)
    → (judge rules e ≡ e) ⊎ (IsRise rules e (judge rules e) ⊎ IsFall rules e (judge rules e))
unfolding judge
judge_moves rules e = elim (Bool-cases (leb rules.min_tasks (length e.outcomes))) [
  | inr few ↦ inl (rw few refl)
  | inl n ↦
      elim (Bool-cases
        (within rules.max_err (errors e.outcomes) (length e.outcomes) && not (is_top e.level))) [
          | inl w ↦ elim (Bool-cases (rules.auto_cap && is_top (raised e.level))) [
            | inl c ↦ inl (rw n (rw w (rw c refl)))
            | inr c ↦ inr (inl (rw n (rw w (rw c (rise rules e n w c)))))
          ]
          | inr w ↦
              elim (Bool-cases (
                not (within rules.demote_err (errors e.outcomes) (length e.outcomes))
                && not (is_bottom e.level))) [
                  | inl b ↦ inr (inr (rw n (rw w (rw b (fall rules e n b)))))
                  | inr b ↦ inl (rw n (rw w (rw b refl)))
                ]
        ]
]

-- Under `auto_cap` no outcome makes an agent autonomous that was not.
pub judge_capped :
    (rules : Rules) (e : Entry)
    → rules.auto_cap ≡ true
    → rank e.level ≤ 1
    → rank (judge rules e).level ≤ 1
judge_capped rules e cap low = elim (judge_moves rules e) [
  | inl same ↦ rw same low
  | inr (inl up) ↦ up.capped cap
  | inr (inr down) ↦ omega (arith, down.one_down)
]

-- The table's calls: `record` and the owner's `set_level`, with their arguments.
pub data Operation : Type 0 where
  records : (id : String) (good : Bool) → Operation
  sets : (id : String) (to : Level) → Operation

unfoldable pub operate : Rules → List Entry → Operation → List Entry
operate rules store (records id good) = commit store (record_task rules id good store)
operate rules store (sets id to) = commit store (set_level id to store)

unfoldable pub operate_all : Rules → List Entry → List Operation → List Entry
operate_all rules store [] = store
operate_all rules store (o ∷ os) = operate_all rules (operate rules store o) os

-- no owner makes the agent autonomous
abbrev pub NoGrant : String → Operation → Type 0
NoGrant id (records key good) = Unit
NoGrant id (sets key to) = (key == id) ≡ true → rank to ≤ 1

abbrev pub Low : String → List Entry → Type 0
Low id store = rank (entry_of id (first (is_entry id) store)).level ≤ 1

other_key :
    (id key : String) (x : Entry)
    → (key == id) ≡ false
    → is_entry key x ≡ true
    → is_entry id x ≡ false
other_key id key x c m = let s : x.key ≡ key = ground (arith, m, eq_iff x.key key) in rw s c

-- What `save` leaves of an agent.
save-Low :
    (id : String) (e : Entry) (store : List Entry)
    → ((e.key == id) ≡ true → rank e.level ≤ 1)
    → Low id store
    → Low id (save e store)
save-Low id e store h v = elim (Bool-cases (e.key == id)) [
  | inl c ↦
      let same : e.key ≡ id = ground (arith, c, eq_iff e.key id) in
      subst (λ (i : String). rank (entry_of i (first (is_entry i) (save e store))).level ≤ 1) same
        (rw (first-replace_same (is_entry e.key) e store (eq_refl e.key)) (h c))
  | inr c ↦
      rw
        (first-replace_other (is_entry e.key) (is_entry id) e store c
          (λ x m. other_key id e.key x c m))
        v
]

pub found_key :
    (key : String) (store : List Entry) → (entry_of key (first (is_entry key) store)).key ≡ key
found_key key store = elim (Option-cases (first (is_entry key) store)) [
  | inl n ↦ rw n refl
  | inr (e, f) ↦
      let m = first_sound (is_entry key) store f in
      let s : e.key ≡ key = ground (arith, m, eq_iff e.key key) in rw f s
]

-- The entry that `record` writes.
pub record_outcome-key :
    (rules : Rules) (good : Bool) (e : Entry) → (record_outcome rules good e).key ≡ e.key
unfolding record_outcome judge
record_outcome-key rules good e = ground arith

record_task-Low :
    (rules : Rules) (id key : String) (good : Bool) (store : List Entry)
    → rules.auto_cap ≡ true
    → Low id store
    → (l : Level) (store' : List Entry) → record_task rules key good store ≡ ok (l, store')
    → Low id store'
unfolding record_task record_outcome
record_task-Low rules id key good store cap v l store' h =
    let (_, h1) = then-ok (check_id key) _ h in
    let old = entry_of key (first (is_entry key) store) in
    let e = record_outcome rules good old in
    let same : save e store ≡ store' = ground (arith, h1) in
    subst (Low id) same (
      save-Low id e store
        (λ c.
          let named : key ≡ id =
            ground
              (arith, c, record_outcome-key rules good old, found_key key store, eq_iff e.key id) in
          judge_capped rules _ cap (
            subst (λ (i : String). rank (entry_of i (first (is_entry i) store)).level ≤ 1)
              (sym named) v))
        v)

set_level-Low :
    (id key : String) (to : Level) (store : List Entry)
    → ((key == id) ≡ true → rank to ≤ 1)
    → Low id store
    → (l : Level) (store' : List Entry) → set_level key to store ≡ ok (l, store')
    → Low id store'
unfolding set_level
set_level-Low id key to store g v l store' h =
    let (_, h1) = then-ok (check_id key) _ h in
    let e : Entry = record { key = key; level = to; outcomes = [] } in
    let same : save e store ≡ store' = ground (arith, h1) in
    subst (Low id) same (save-Low id e store g v)

operate-Low :
    (rules : Rules) (id : String) (store : List Entry) (o : Operation)
    → rules.auto_cap ≡ true
    → NoGrant id o
    → Low id store
    → Low id (operate rules store o)
unfolding operate
operate-Low rules id store (records key good) cap g v =
    commit-cases (Low id) store _ v (record_task-Low rules id key good store cap v)
operate-Low rules id store (sets key to) cap g v =
    commit-cases (Low id) store _ v (set_level-Low id key to store g v)

-- Under `auto_cap` an agent that is not autonomous never becomes autonomous by its outcomes, however
-- many and of whatever agents are recorded, unless an owner sets that level for it.
pub operate_all-Low :
    (rules : Rules) (id : String) (operations : List Operation) (store : List Entry)
    → rules.auto_cap ≡ true
    → All (NoGrant id) operations
    → Low id store
    → Low id (operate_all rules store operations)
unfolding operate_all
operate_all-Low rules id [] store cap g v = v
operate_all-Low rules id (o ∷ os) store cap g v =
    operate_all-Low rules id os (operate rules store o) cap g.1
      (operate-Low rules id store o cap g.0 v)
