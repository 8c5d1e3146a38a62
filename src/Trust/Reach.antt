-- ===== src/Trust/Reach.antt =====
-- That the trust ladder (api-python/app/ladder.py) can be climbed.
use agentic_works.Trust.{
  human_led, Rules, Entry, record_outcome, errors, recent, judge, window, human_assisted, within,
  entry_of, record_task, check_id, level, is_entry, save,
}
use agentic_works.Base.{
  ℕ, zero, suc, ◌-◌, ◌≤◌, ◌<◌, ◌≡◌, refl, true, List, [], ◌∷◌, ◌++◌, arith, length, drop,
  length-append, not, leb, false, String, ◌∙◌, none, some, ok, commit, ap, subst, eq_refl,
}
use agentic_works.Base.Table.{total-append, weight, first}
use agentic_works.Trust.Climb.{record_outcome-key, found_key}
use agentic_works.Base.Replace.{first-replace_same}

-- successful tasks in a row
unfoldable pub successes : Rules → ℕ → Entry → Entry
successes rules zero e = e
successes rules (suc n) e = record_outcome rules true (successes rules n e)

-- An entry of the lowest level with nothing but successes.
pub record IsClean (n : ℕ) (e : Entry) : Type 0 where
  pub many : length e.outcomes ≡ n
  pub no_error : errors e.outcomes ≡ 0
  pub bottom : e.level ≡ human_led

recent_all : {A : Type 0} (n : ℕ) (xs : List A) → length xs ≤ n → drop (length xs - n) xs ≡ xs
recent_all n xs h = let none_dropped : length xs - n ≡ 0 = omega arith in rw none_dropped refl

grown : Rules → Entry → Entry
grown rules e = record e { outcomes = recent (window rules) (e.outcomes ++ true ∷ []) }

grown-IsClean :
    (rules : Rules) (n : ℕ) (e : Entry)
    → n < rules.min_tasks
    → IsClean n e
    → IsClean (suc n) (record e { outcomes = recent (window rules) (e.outcomes ++ true ∷ []) })
grown-IsClean rules n e h c =
    let all = e.outcomes ++ true ∷ [] in
    let len : length all ≡ suc n = omega (arith, length-append e.outcomes (true ∷ []), c.many) in
    let same : recent (window rules) all ≡ all =
      recent_all (window rules) all (ground (arith, len)) in
    let no : errors all ≡ 0 =
      omega (arith, total-append (weight not (λ _. 1)) e.outcomes (true ∷ []), c.no_error) in
    record { many = rw same len; no_error = rw same no; bottom = c.bottom }

-- Fewer successes than `min_tasks` leave a new agent on the lowest level.
successes-IsClean :
    (rules : Rules) (n : ℕ) (e : Entry)
    → n < rules.min_tasks
    → IsClean 0 e
    → IsClean n (successes rules n e)
unfolding successes record_outcome judge
successes-IsClean rules zero e h c = c
successes-IsClean rules (suc n) e h c =
    let before = successes-IsClean rules n e (omega (arith, h)) c in
    let g = grown-IsClean rules n (successes rules n e) (omega (arith, h)) before in
    let outs = recent (window rules) ((successes rules n e).outcomes ++ true ∷ []) in
    let few : leb rules.min_tasks (length outs) ≡ false = ground (arith, g.many, h) in rw few g

-- The success that fills the window raises it.
pub successes_raise :
    (rules : Rules) (n : ℕ) (e : Entry)
    → rules.min_tasks ≡ suc n
    → IsClean 0 e
    → (successes rules (suc n) e).level ≡ human_assisted
unfolding successes record_outcome judge
successes_raise rules n e h c =
    let before = successes-IsClean rules n e (omega (arith, h)) c in
    let g = grown-IsClean rules n (successes rules n e) (omega (arith, h)) before in
    let outs = recent (window rules) ((successes rules n e).outcomes ++ true ∷ []) in
    let enough : leb rules.min_tasks (length outs) ≡ true = ground (arith, g.many, h) in
    let clean : within rules.max_err (errors outs) (length outs) ≡ true =
      rw g.no_error (ground arith) in
    rw enough (rw clean (rw before.bottom (ground arith)))

-- the table after successful tasks of one agent in a row
unfoldable pub record_times : Rules → String → ℕ → List Entry → List Entry
record_times rules id zero store = store
record_times rules id (suc n) store =
    let before = record_times rules id n store in commit before (record_task rules id true before)

abbrev pub found : String → List Entry → Entry
found id store = entry_of id (first (is_entry id) store)

recorded :
    (rules : Rules) (id : String) (store : List Entry)
    → check_id id ≡ ok tt
    → found id (commit store (record_task rules id true store))
      ≡ record_outcome rules true (found id store)
unfolding record_task
recorded rules id store c =
    let e = record_outcome rules true (found id store) in
    let k : e.key ≡ id = record_outcome-key rules true (found id store) ∙ found_key id store in
    let f : first (is_entry id) (save e store) ≡ some e =
      subst (λ (i : String). first (is_entry i) (save e store) ≡ some e) k
        (first-replace_same (is_entry e.key) e store (eq_refl e.key)) in
    rw c (rw f refl)

times_entry :
    (rules : Rules) (id : String) (n : ℕ) (store : List Entry)
    → check_id id ≡ ok tt
    → found id (record_times rules id n store) ≡ successes rules n (found id store)
unfolding record_times successes
times_entry rules id zero store c = refl
times_entry rules id (suc n) store c =
    recorded rules id (record_times rules id n store) c
    ∙ ap (record_outcome rules true) (times_entry rules id n store c)

-- A new agent climbs: `min_tasks` successful tasks in a row, and no fewer, take it from the lowest
-- level to `human_assisted`, whatever `min_tasks` is, so that the window never hides the promotion.
pub record_times_reach :
    (rules : Rules) (id : String) (n : ℕ) (store : List Entry)
    → check_id id ≡ ok tt
    → first (is_entry id) store ≡ none
    → rules.min_tasks ≡ suc n
    → (level id (record_times rules id n store) ≡ ok human_led)
      × (level id (record_times rules id (suc n) store) ≡ ok human_assisted)
unfolding level
record_times_reach rules id n store c f h =
    let start : IsClean 0 (found id store) =
      rw f (record { many = refl; no_error = refl; bottom = refl }) in
    let low : (found id (record_times rules id n store)).level ≡ human_led =
      rw (times_entry rules id n store c)
        (successes-IsClean rules n (found id store) (omega (arith, h)) start).bottom in
    let high : (found id (record_times rules id (suc n) store)).level ≡ human_assisted =
      rw (times_entry rules id (suc n) store c)
        (successes_raise rules n (found id store) h start) in
    (rw c (ap ok low), rw c (ap ok high))
