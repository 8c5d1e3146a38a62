-- ===== src/Agent/Effects.antt =====
-- What each transaction of api-python/platform_runtime/agent_loop.py does to the rows of runs: every
-- row makes one move of the machine.
use agentic_works.Agent.Machine.{Move, stays, stops, IsNew, is_stop, reserves}
use agentic_works.Base.{
  ◌≤◌, String, ◌≡◌, refl, inl, inr, true, some, List, arith, ◌==◌, eq_iff, Bool-cases, subst₂, sym,
  ap, Option, none, if◌then◌else◌, ok, some_or-ok, then-ok, not_found, subst, ok_injective,
}
use agentic_works.Agent.{
  cancelled, Run, Office, stop, is_run, first, RunStatus, update_where, ending, is_active,
  stopped_run, linked_status, StepStatus, Desk, Db, stop_task, is_open, end_steps, is_unknown,
  status_in, is_task, cancelled,
}
use agentic_works.Engine.{World, staff, require_authority}
use agentic_works.Base.Table.{count, first_sound, count_le, count-update}
use agentic_works.Base.Growth.{Grows, Grows-same, Grows-update}
use agentic_works.Agent.Runs.{has_run_id, cancel}
use agentic_works.Agent.Reserve.{planning_run, Reserved, look_at, reserve}
use agentic_works.Agent.Branches.{look_at_branches}

-- The primary key of p_agent_runs.
abbrev pub Keyed : List Run → Type 0
Keyed runs = (i : String) → count (has_run_id i) runs ≤ 1

abbrev pub Moved : Office → Office → Type 0
Moved o o' = Grows Move IsNew o.runs o'.runs × Keyed o'.runs

pub unmoved : (o : Office) → Keyed o.runs → Moved o o
unmoved o k = (Grows-same Move IsNew o.runs (λ r. stays refl), k)

pub run_key : (t i : String) (r : Run) → is_run t i r ≡ true → has_run_id i r ≡ true
run_key t i r h = ground (arith, h)

-- A found row is found under its own key.
pub own_key :
    (t i : String) (runs : List Run) {r : Run}
    → first (is_run t i) runs ≡ some r
    → first (is_run r.tenant r.id) runs ≡ some r
own_key t i runs {r} e =
    let m = first_sound (is_run t i) runs e in
    let st : r.tenant ≡ t = ground (arith, m, eq_iff r.tenant t) in
    let si : r.id ≡ i = ground (arith, m, eq_iff r.id i) in
    subst₂ (λ (a b : String). first (is_run a b) runs ≡ some r) (sym st) (sym si) e

-- One statement on the row that was read.
pub moves_row :
    (t i : String) (f : Run → Run) (runs : List Run) {r : Run}
    → Keyed runs
    → first (is_run t i) runs ≡ some r
    → ((x : Run) → (f x).id ≡ x.id)
    → Move r (f r)
    → Grows Move IsNew runs (update_where (is_run r.tenant r.id) f runs)
      × Keyed (update_where (is_run r.tenant r.id) f runs)
moves_row t i f runs {r} k e same m = (
  Grows-update Move IsNew (is_run r.tenant r.id) f runs (λ x. stays refl) (own_key t i runs e)
      (omega (
        arith,
        k r.id,
        count_le (is_run r.tenant r.id) (has_run_id r.id) runs (run_key r.tenant r.id),
      ))
      m,
  λ j.
      rw
        (count-update (has_run_id j) (is_run r.tenant r.id) f runs (λ x. ap (λ z. z == j) (same x)))
        (k j),
)

stop_task-is_stop :
    (w : World) (r : Run) (status : RunStatus) (reason actor : String) (s : Option StepStatus)
    (db : Db)
    → is_stop status ≡ true
    → is_stop (stop_task w r status reason actor s db).0 ≡ true
stop_task-is_stop w r status reason actor none db h = refl
stop_task-is_stop w r status reason actor (some s) db h =
    let ended = if is_open s then end_steps r.tenant r.current_task reason db else db in
    elim (Bool-cases
      (is_unknown (status_in (first (is_task r.tenant r.current_task) ended.tasks)))) [
        | inl e ↦ rw e refl
        | inr e ↦ rw e h
      ]

pub ending-is_stop :
    (w : World) (r : Run) (status : RunStatus) (reason actor : String) (o : Office)
    → is_stop status ≡ true
    → is_stop (ending w r status reason actor o).0 ≡ true
ending-is_stop w r status reason actor o h = elim (Bool-cases (r.current_task == "")) [
  | inl e ↦ rw e h
  | inr e ↦ rw e (stop_task-is_stop w r status reason actor (linked_status r o) o.db h)
]

pub stop-Moved :
    (w : World) (t i : String) (r : Run) (status : RunStatus) (reason actor : String) (o : Office)
    → Keyed o.runs
    → first (is_run t i) o.runs ≡ some r
    → is_active r.status ≡ true
    → is_stop status ≡ true
    → Moved o (stop w r status reason actor o)
unfolding stop
stop-Moved w t i r status reason actor o k e live h =
    let (status', reason', db) = ending w r status reason actor o in
    moves_row t i (stopped_run status' reason') o.runs k e (λ x. refl)
      (stops status' reason' live (ending-is_stop w r status reason actor o h) refl)

pub reserve-Moved :
    (d : Desk) (t i : String) (o : Office)
    → Keyed o.runs
    → (x : Reserved) (o' : Office) → reserve d t i o ≡ ok (x, o')
    → Moved o o'
unfolding reserve
reserve-Moved d t i o k x o' h =
    let (r, e, done) = some_or-ok (first (is_run t i) o.runs) not_found _ h in
    let moved : Moved o (look_at d r o).1 =
      look_at_branches (Moved o) d r o (unmoved o k)
        (λ status reason live h. stop-Moved d.world t i r status reason "agent-loop" o k e live h)
        (λ seen live idle left.
          moves_row t i (planning_run d.world) o.runs k e (λ x. refl)
            (reserves d.world live idle left refl)) in
    subst (λ (z : Reserved × Office). Moved o z.1) (ok_injective done) moved

pub cancel-Moved :
    (d : Desk) (t i actor : String) (o : Office)
    → Keyed o.runs
    → (x : RunStatus) (o' : Office) → cancel d t i actor o ≡ ok (x, o')
    → Moved o o'
unfolding cancel
cancel-Moved d t i actor o k x o' h =
    let (_, h1) = then-ok (require_authority d.world t "web" actor staff) _ h in
    let (r, e, h2) = some_or-ok (first (is_run t i) o.runs) not_found _ h1 in
    let ended = stop d.world r cancelled "operator_cancelled" actor o in
    elim (Bool-cases (is_active r.status)) [
      | inl live ↦
          let same : ended ≡ o' = ground (arith, live, h2) in
          subst (Moved o) same
            (stop-Moved d.world t i r cancelled "operator_cancelled" actor o k e live refl)
      | inr done ↦
          let same : o ≡ o' = ground (arith, done, h2) in subst (Moved o) same (unmoved o k)
    ]
