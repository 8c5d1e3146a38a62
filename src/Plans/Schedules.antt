-- ===== src/Plans/Schedules.antt =====
-- `schedule` and `run_schedules` of api-python/platform_runtime/engine.py: plans that are submitted
-- when they are due, one after another, each in a transaction of its own.
use agentic_works.Base.{
  forbidden, ℕ, ◌+◌, String, Bool, true, false, ◌&&◌, Option, none, some, List, [], ◌∷◌, ◌++◌, ◌==◌,
  if◌then◌else◌, Result, ◌>>=◌, ◌>>◌, require, ok, err, leb, value_error, eqb,
}
use agentic_works.Plans.{Ask, Realm, validated}
use agentic_works.Engine.{Db, World, log, stopped, require_active, require_authority}
use agentic_works.Base.Table.{update_where, first, select}
use agentic_works.Plans.Submission.{submit}
use agentic_works.Base.Replace.{replace_row}

-- A row of p_schedules.
pub record Schedule : Type 0 where
  pub tenant : String
  pub id : String
  pub agent : String
  pub steps : List Ask
  pub interval_seconds : ℕ
  pub next_due : ℕ
  pub enabled : Bool

-- A row of p_schedule_owners.
pub record Owner : Type 0 where
  pub tenant : String
  pub id : String
  pub actor : String

pub record Agenda : Type 0 where
  pub db : Db
  pub schedules : List Schedule
  pub owners : List Owner

abbrev pub is_schedule : String → String → Schedule → Bool
is_schedule tenant id s = s.tenant == tenant && s.id == id

abbrev pub is_owner : String → String → Owner → Bool
is_owner tenant id o = o.tenant == tenant && o.id == id

-- `ON CONFLICT(tenant,id) DO UPDATE`, which leaves `next_due`
abbrev pub put_schedule : Schedule → Option Schedule → List Schedule → List Schedule
put_schedule s none rows = rows ++ s ∷ []
put_schedule s (some old) rows =
    update_where (is_schedule s.tenant s.id)
      (λ x. record x {
        agent = s.agent;
        steps = s.steps;
        interval_seconds = s.interval_seconds;
        enabled = true;
      })
      rows

abbrev pub owners_only : List String
owners_only = "owner" ∷ []

-- `schedule`
unfoldable pub schedule :
    Realm
    → World
    → String
    → String
    → String
    → List Ask
    → ℕ
    → String
    → Agenda
    → Result (Unit {0} × Agenda)
schedule r w tenant sid agent asks interval_seconds actor a = do
  require (leb 60 interval_seconds && leb interval_seconds 31536000) value_error
  _ ← validated r tenant agent asks none
  require_active w tenant a.db
  require_authority w tenant "cron" actor owners_only
  let s : Schedule = record {
    tenant = tenant;
    id = sid;
    agent = agent;
    steps = asks;
    interval_seconds = interval_seconds;
    next_due = w.now + interval_seconds;
    enabled = true;
  }
  ok (
    tt,
    record a {
      schedules = put_schedule s (first (is_schedule tenant sid) a.schedules) a.schedules;
      owners =
          replace_row (is_owner tenant sid) (record { tenant = tenant; id = sid; actor = actor })
            a.owners;
    },
  )

abbrev pub actor_of : Option Owner → String
actor_of none = "scheduler"
actor_of (some o) = o.actor

-- the next due time, if the row has not moved meanwhile
abbrev pub advance : World → Schedule → Agenda → Agenda
advance w s a = record a {
  schedules =
      update_where (λ x. is_schedule s.tenant s.id x && eqb x.next_due s.next_due)
        (λ x. record x { next_due = w.now + s.interval_seconds }) a.schedules;
}

-- an owner without authority: the schedule is switched off
abbrev pub disable : Schedule → String → Agenda → Agenda
disable s actor a = record a {
  db = log a.db s.tenant "" "schedule.authority_denied" actor s.id;
  schedules =
      update_where (is_schedule s.tenant s.id) (λ x. record x { enabled = false }) a.schedules;
}

-- how one schedule goes on after its submission
abbrev pub after_submit :
    World → Schedule → String → Agenda → Result (String × Db) → Result ℕ × Agenda
after_submit w s actor a (ok (task, db)) = (ok 1, advance w s (record a { db = db }))
after_submit w s actor a (err forbidden) = (ok 0, disable s actor a)
after_submit w s actor a (err e) = (err e, a)

-- `due_key` is `id + ':' + str(next_due)`
abbrev pub run_one :
    Realm → World → World → (Schedule → String) → Schedule → Agenda → Result ℕ × Agenda
run_one r w w' due_key s a =
    let actor = actor_of (first (is_owner s.tenant s.id) a.owners) in
    after_submit w' s actor a (submit r w s.tenant "cron" (due_key s) s.agent s.steps actor [] a.db)

abbrev pub add_count : ℕ → Result ℕ × Agenda → Result ℕ × Agenda
add_count n (ok m, a) = (ok (n + m), a)
add_count n (err e, a) = (err e, a)

abbrev pub then_rest : Result ℕ × Agenda → (Agenda → Result ℕ × Agenda) → Result ℕ × Agenda
then_rest (ok n, a) rest = add_count n (rest a)
then_rest (err e, a) rest = (err e, a)

-- The rows that were due, in turn; an exception but `Forbidden` ends the loop.
unfoldable pub run_rows :
    Realm → (ℕ → World) → (Schedule → String) → List Schedule → Agenda → Result ℕ × Agenda
run_rows r worlds due_key [] a = (ok 0, a)
run_rows r worlds due_key (s ∷ rows) a =
    then_rest (run_one r (worlds 0) (worlds 1) due_key s a)
      (run_rows r (λ n. worlds (n + 2)) due_key rows)

abbrev pub is_due : String → ℕ → Schedule → Bool
is_due tenant now s = s.tenant == tenant && (s.enabled && leb s.next_due now)

-- `run_schedules`: the tables are read once, at `w`
unfoldable pub run_schedules :
    Realm → World → (ℕ → World) → (Schedule → String) → String → Agenda → Result ℕ × Agenda
unfolding run_rows
run_schedules r w worlds due_key tenant a =
    if stopped tenant a.db.freezes
    then (ok 0, a)
    else run_rows r worlds due_key (select (is_due tenant w.now) a.schedules) a
