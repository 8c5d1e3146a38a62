-- ===== src/Plans/Passed.antt =====
-- What a run of the schedules of api-python/platform_runtime/engine.py leaves due.
use agentic_works.Base.{ℕ, ◌≤◌, String, ◌≡◌, true, false, Bool, ◌&&◌, ◌||◌, List, [], ◌∷◌, All, eqb}
use agentic_works.Plans.Schedules.{Schedule, is_due, is_schedule}

-- The row of a schedule, with the due time that was read.
abbrev is_read_as : Schedule → Schedule → Bool
is_read_as x s = is_schedule s.tenant s.id x && eqb x.next_due s.next_due

abbrev is_among : List Schedule → Schedule → Bool
is_among [] x = false
is_among (s ∷ rows) x = is_read_as x s || is_among rows x

-- What is still due at the clock of the reading is still to come in the loop.
abbrev ToCome : String → ℕ → List Schedule → List Schedule → Type 0
ToCome t now rows = All (λ x. is_due t now x ≡ true → is_among rows x ≡ true)

abbrev HasInterval : Schedule → Type 0
HasInterval s = 1 ≤ s.interval_seconds
