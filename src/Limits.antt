-- ===== src/Limits.antt =====
-- The daily limits of a tenant (api-python/app/limits.py): the rows of its two tables,
-- `check_and_hit` and `warned`. The cache is not this code's: what a call reads of it is a parameter.
pub mod Days
use agentic_works.Base.{
  ℕ, ◌+◌, ◌*◌, ◌/◌, String, Bool, true, false, ◌&&◌, Option, none, some, List, [], ◌∷◌, ◌++◌, ◌==◌,
  if◌then◌else◌, Result, ok, err, leb, not,
}
use agentic_works.Base.Table.{first, select, count}
use agentic_works.Base.Replace.{replace_row}

-- A row of `limits`.
pub record Hits : Type 0 where
  pub tenant : String
  pub day : String
  pub hits : ℕ

-- A row of `warned`.
pub record Warning : Type 0 where
  pub tenant : String
  pub day : String

pub record Quotas : Type 0 where
  pub limits : List Hits
  pub warnings : List Warning

-- What a call reads: the day, the limit that is set, where warnings start, and, where there is a
-- cache, its answers.
pub record Reading : Type 0 where
  pub today : String
  -- `int` of DAILY_LIMIT_PER_TENANT, a negative number as 0; `none` where it is no number
  pub setting : Option ℕ
  -- `incr`, or an exception
  pub counter : Option (Result ℕ)
  -- `get` and `setnx`, or an exception
  pub flag : Option (Result (ℕ × Bool))

abbrev pub default_limit : ℕ
default_limit = 1000

abbrev pub limit_in : Option ℕ → ℕ
limit_in none = default_limit
limit_in (some v) = if leb 1 v then v else default_limit

-- `_limit`
abbrev pub limit : Reading → ℕ
limit r = limit_in r.setting

-- `math.ceil(WARN_FRACTION * limit)`
abbrev pub warn_at : ℕ → ℕ
warn_at n = (4 * n + 4) / 5

abbrev pub is_tenant : String → Hits → Bool
is_tenant tenant h = h.tenant == tenant

abbrev pub hits_in : String → Option Hits → ℕ
hits_in today none = 0
hits_in today (some h) = if h.day == today then h.hits else 0

-- the calls of the tenant today
abbrev pub hits_of : Reading → String → Quotas → ℕ
hits_of r tenant q = hits_in r.today (first (is_tenant tenant) q.limits)

-- the rows of other days are deleted
abbrev pub clean : String → Quotas → Quotas
clean today q = record {
  limits = select (λ (h : Hits). h.day == today) q.limits;
  warnings = select (λ (w : Warning). w.day == today) q.warnings;
}

abbrev pub count_hit : Reading → String → Quotas → Bool × Quotas
count_hit r tenant q =
    let n = hits_of r tenant q in
    let h : Hits = record { tenant = tenant; day = r.today; hits = n + 1 } in
    if leb (limit r) n
    then (false, q)
    else (true, record q { limits = replace_row (is_tenant tenant) h q.limits })

-- the cache's answer, or the table where there is none
abbrev pub hit_by : Option (Result ℕ) → Reading → String → Quotas → Bool × Quotas
hit_by (some (ok n)) r tenant q = (leb n (limit r), q)
hit_by (some (err e)) r tenant q = count_hit r tenant (clean r.today q)
hit_by none r tenant q = count_hit r tenant (clean r.today q)

-- `check_and_hit`
unfoldable pub check_and_hit : Reading → String → Quotas → Bool × Quotas
check_and_hit r tenant q = hit_by r.counter r tenant q

abbrev pub is_warning : String → String → Warning → Bool
is_warning tenant day w = w.tenant == tenant && w.day == day

abbrev pub warn : Reading → String → Quotas → Bool × Quotas
warn r tenant q =
    let w : Warning = record { tenant = tenant; day = r.today } in
    if not (leb (warn_at (limit r)) (hits_of r tenant q))
    then (false, q)
    else if leb 1 (count (is_warning tenant r.today) q.warnings)
    then (false, q)
    else (true, record q { warnings = q.warnings ++ w ∷ [] })

abbrev pub warn_by : Option (Result (ℕ × Bool)) → Reading → String → Quotas → Bool × Quotas
warn_by (some (ok (n, new))) r tenant q = (leb (warn_at (limit r)) n && new, q)
warn_by (some (err e)) r tenant q = warn r tenant q
warn_by none r tenant q = warn r tenant q

-- `warned`
unfoldable pub warned : Reading → String → Quotas → Bool × Quotas
warned r tenant q = warn_by r.flag r tenant q
