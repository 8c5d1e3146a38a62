-- ===== src/Agent/Runs.antt =====
-- `create` and `cancel` of api-python/platform_runtime/agent_loop.py.
use agentic_works.Base.{
  ℕ, ◌+◌, String, Bool, ◌&&◌, not, Option, none, some, [], ◌∷◌, ◌++◌, Result, ok, require, some_or,
  ◌>>=◌, ◌>>◌, value_error, forbidden, conflict, not_found, rate_limited, integrity_error, leb, ltb,
  eqb, length, ◌==◌, if◌then◌else◌,
}
use agentic_works.Base.Table.{first, count}
use agentic_works.Base.Text.{codes, has_text}
use agentic_works.Engine.{require_authority, require_active, staff, log}
use agentic_works.Plans.{is_ladder}
use agentic_works.Agent.{pending, cancelled, Run, RunStatus, Office, Desk, is_run, is_active, stop}

unfoldable pub is_text : String → ℕ → Bool
unfolding has_text
is_text value limit = has_text (codes value) && leb (length (codes value)) limit

abbrev pub is_request : String → String → Run → Bool
is_request tenant key r = r.tenant == tenant && r.request_key == key

-- the runs that the queue's bound counts
abbrev pub is_queued : String → Run → Bool
is_queued tenant r = r.tenant == tenant && is_active r.status

-- `max_calls` is one more than `max_steps`
abbrev pub new_run :
    Desk → String → String → String → String → String → String → ℕ → ℕ → String → Run
new_run d tenant key agent input actor full max_steps max_seconds channel = record {
  id = d.world.fresh 0;
  tenant = tenant;
  request_key = key;
  fingerprint = full;
  agent = agent;
  actor = actor;
  input = input;
  status = pending;
  created = d.world.now;
  deadline = d.world.now + max_seconds;
  max_steps = max_steps;
  max_calls = max_steps + 1;
  calls = 0;
  steps = 0;
  current_task = "";
  claim = "";
  lease = 0;
  answer = "";
  evidence_ids = [];
  error = "";
  channel = channel;
}

abbrev pub has_run_id : String → Run → Bool
has_run_id id r = r.id == id

-- the row, behind the queue's bound
abbrev pub insert_run : Desk → Run → Office → Result (String × Office)
insert_run d r o = do
  require_active d.world r.tenant o.db
  require (ltb (count (is_queued r.tenant) o.runs) 100) rate_limited
  require (eqb (count (has_run_id r.id) o.runs) 0) integrity_error
  ok (
    r.id,
    record o {
      db = log o.db r.tenant "" "agent_run.created" r.actor r.id;
      runs = o.runs ++ r ∷ [];
    },
  )

-- the run that the key already has, or the new one
abbrev pub answer_request : Desk → Run → Office → Option Run → Result (String × Office)
answer_request d r o none = insert_run d r o
answer_request d r o (some old) = do
  require (old.fingerprint == r.fingerprint) conflict
  ok (old.id, o)

-- `full` is the digest of the request
unfoldable pub create :
    Desk
    → String
    → String
    → String
    → String
    → String
    → String
    → ℕ
    → ℕ
    → String
    → Office
    → Result (String × Office)
unfolding is_text
create d tenant key agent input actor full max_steps max_seconds channel o = do
  require
      (is_text tenant 64
        && (is_text key 256 && (is_text agent 128 && (is_text actor 128 && is_text channel 32))))
      value_error
  require (is_text input 4000) value_error
  require (leb 1 max_steps && leb max_steps 12) value_error
  require (leb 60 max_seconds && leb max_seconds 86400) value_error
  require (is_ladder (d.realm.policy tenant agent).ladder) forbidden
  require_authority d.world tenant channel actor staff
  answer_request d (new_run d tenant key agent input actor full max_steps max_seconds channel) o
      (first (is_request tenant key) o.runs)

abbrev pub status_after : Option Run → RunStatus
status_after none = cancelled
status_after (some r) = r.status

unfoldable pub cancel : Desk → String → String → String → Office → Result (RunStatus × Office)
cancel d tenant id actor o = do
  require_authority d.world tenant "web" actor staff
  r ← some_or (first (is_run tenant id) o.runs) not_found
  let stopped_office = stop d.world r cancelled "operator_cancelled" actor o
  if not (is_active r.status)
      then ok (r.status, o)
      else ok (status_after (first (is_run tenant id) stopped_office.runs), stopped_office)
