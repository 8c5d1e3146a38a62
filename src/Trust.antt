-- ===== src/Trust.antt =====
-- The trust ladder (api-python/app/ladder.py): the rows of its table, `level`, `set_level` and
-- `record`. The error rates are ratios of natural numbers, compared exactly.
pub mod Climb
pub mod Reach
use agentic_works.Base.{
  ℕ, ◌-◌, ◌*◌, String, Bool, true, false, ◌&&◌, Option, none, some, List, [], ◌∷◌, ◌++◌, ◌==◌,
  if◌then◌else◌, Result, ◌>>◌, Check, require, ok, max, leb, drop, length, eqb, not, value_error,
}
use agentic_works.Base.Table.{count, first}
use agentic_works.Base.Text.{codes}
use agentic_works.Base.Replace.{replace_row}

-- LEVELS, in their order
pub data Level : Type 0 where
  human_led human_assisted autonomous : Level

-- A row of the table `ladder`.
pub record Entry : Type 0 where
  pub key : String
  pub level : Level
  pub outcomes : List Bool

-- A rate, as `part / whole`.
pub record Rate : Type 0 where
  pub part : ℕ
  pub whole : ℕ

-- The arguments of `LadderStore`.
pub record Rules : Type 0 where
  pub min_tasks : ℕ
  pub max_err : Rate
  pub demote_err : Rate
  pub auto_cap : Bool

abbrev pub min_window : ℕ
min_window = 30

-- the defaults of `LadderStore`
abbrev pub default_rules : Rules
default_rules = record {
  min_tasks = 30;
  max_err = record { part = 5; whole = 100 };
  demote_err = record { part = 20; whole = 100 };
  auto_cap = true;
}

abbrev pub window : Rules → ℕ
window rules = max min_window rules.min_tasks

abbrev pub colons : List ℕ → ℕ
colons cs = count (λ c. eqb c 58) cs

-- `_check_id`
abbrev pub check_id : String → Check
check_id id = require (leb 1 (length (codes id)) && leb (colons (codes id)) 1) value_error

abbrev pub is_entry : String → Entry → Bool
is_entry id e = e.key == id

abbrev pub entry_of : String → Option Entry → Entry
entry_of id none = record { key = id; level = human_led; outcomes = [] }
entry_of id (some e) = e

-- `_save`
abbrev pub save : Entry → List Entry → List Entry
save e store = replace_row (is_entry e.key) e store

-- `level`
unfoldable pub level : String → List Entry → Result Level
level id store = do check_id id; ok (entry_of id (first (is_entry id) store)).level

-- `set_level`, of one of LEVELS
unfoldable pub set_level : String → Level → List Entry → Result (Level × List Entry)
set_level id to store = do
  check_id id
  ok (to, save (record { key = id; level = to; outcomes = [] }) store)

-- `[-window:]`
abbrev pub recent : ℕ → List Bool → List Bool
recent n xs = drop (length xs - n) xs

abbrev pub errors : List Bool → ℕ
errors xs = count not xs

-- `errs / total <= rate`
abbrev pub within : Rate → ℕ → ℕ → Bool
within r errs total = leb (errs * r.whole) (r.part * total)

abbrev pub raised : Level → Level
raised human_led = human_assisted
raised _ = autonomous

abbrev pub lowered : Level → Level
lowered autonomous = human_assisted
lowered _ = human_led

abbrev pub is_top : Level → Bool
is_top autonomous = true
is_top _ = false

abbrev pub is_bottom : Level → Bool
is_bottom human_led = true
is_bottom _ = false

-- the entry that starts its window anew on another level
abbrev pub moved_to : Level → Entry → Entry
moved_to l e = record e { level = l; outcomes = [] }

-- what the window decides
unfoldable pub judge : Rules → Entry → Entry
judge rules e =
    let total = length e.outcomes in
    let errs = errors e.outcomes in
    if not (leb rules.min_tasks total)
    then e
    else if within rules.max_err errs total && not (is_top e.level)
    then (if rules.auto_cap && is_top (raised e.level) then e else moved_to (raised e.level) e)
    else if not (within rules.demote_err errs total) && not (is_bottom e.level)
    then moved_to (lowered e.level) e
    else e

-- the body of `record` on its entry
unfoldable pub record_outcome : Rules → Bool → Entry → Entry
unfolding judge
record_outcome rules good e =
    judge rules (record e { outcomes = recent (window rules) (e.outcomes ++ good ∷ []) })

-- `record`
unfoldable pub record_task : Rules → String → Bool → List Entry → Result (Level × List Entry)
unfolding record_outcome
record_task rules id good store = do
  check_id id
  let e = record_outcome rules good (entry_of id (first (is_entry id) store))
  ok (e.level, save e store)
