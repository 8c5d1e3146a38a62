-- ===== src/Tests/Levels.antt =====
-- Runs of the trust ladder and of the daily limits.
use agentic_works.Trust.{
  Rules, Entry, human_led, human_assisted, autonomous, default_rules, judge, level,
}
use agentic_works.Trust.Climb.{
  judge_moves, IsRise, IsFall, Operation, records, sets, Low, operate_all, operate_all-Low,
}
use agentic_works.Trust.Reach.{record_times, record_times_reach}
use agentic_works.Limits.{Reading, Quotas, limit}
use agentic_works.Limits.Days.{admitted, admitted-min, calls_of, used_on}
use agentic_works.Base.{
  ◌-◌, String, ◌≡◌, refl, ◌⊎◌, true, none, some, List, [], ◌∷◌, arith, ok, min,
}

abbrev short_rules : Rules
short_rules = record default_rules { min_tasks = 3 }

abbrev busy : Entry
busy = record { key = "acme:shop"; level = human_led; outcomes = true ∷ true ∷ true ∷ [] }

judge_moves_example :
    (judge short_rules busy ≡ busy)
    ⊎ (IsRise short_rules busy (judge short_rules busy)
        ⊎ IsFall short_rules busy (judge short_rules busy))
judge_moves_example = judge_moves short_rules busy

abbrev tasks : List Operation
tasks =
    records "acme:shop" true
    ∷ sets "acme:desk" autonomous
    ∷ records "acme:shop" true
    ∷ records "acme:shop" true
    ∷ records "acme:shop" true
    ∷ []

operate_all-Low_example : Low "acme:shop" (operate_all short_rules (busy ∷ []) tasks)
operate_all-Low_example =
    operate_all-Low short_rules "acme:shop" tasks (busy ∷ []) refl
      (tt, ((λ m. absurd (cc)), (tt, (tt, (tt, tt))))) (omega arith)

record_times_reach_example :
    (level "acme:shop" (record_times short_rules "acme:shop" 2 []) ≡ ok human_led)
    × (level "acme:shop" (record_times short_rules "acme:shop" 3 []) ≡ ok human_assisted)
record_times_reach_example = record_times_reach short_rules "acme:shop" 2 [] refl refl refl

abbrev monday : Reading
monday = record { today = "2026-03-02"; setting = some 2; counter = none; flag = none }

-- a call of the day, and two of the day before
abbrev old_calls : Quotas
old_calls = record {
  limits =
      record { tenant = "zeta"; day = "2026-03-02"; hits = 1 }
      ∷ record { tenant = "acme"; day = "2026-03-01"; hits = 2 }
      ∷ [];
  warnings = [];
}

abbrev callers : List String
callers = "acme" ∷ "zeta" ∷ "acme" ∷ "acme" ∷ []

admitted-min_example :
    admitted monday "acme" callers old_calls
    ≡ min (calls_of "acme" callers) (limit monday - used_on "2026-03-02" "acme" old_calls.limits)
admitted-min_example = admitted-min monday "acme" callers old_calls refl
