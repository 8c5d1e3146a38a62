-- ===== src/Inbox.antt =====
-- The inbox of the engine (api-python/platform_runtime/engine.py): the rows of p_events and p_quota,
-- `accept_event`, `claim_event`, the write at the end of `settle_event`, and `retry_event`.
pub mod Lease
pub mod Replay
use agentic_works.Base.{
  ℕ, String, Bool, Option, List, Result, ok, ◌+◌, ◌/◌, true, false, ◌&&◌, ◌||◌, none, some, [], ◌∷◌,
  ◌++◌, ◌==◌, if◌then◌else◌, ◌>>◌, Check, require, eqb, not, value_error, leb, length, forbidden,
  conflict, ltb, rate_limited,
}
use agentic_works.Base.Table.{first, count, update_where}
use agentic_works.Base.Text.{codes}
use agentic_works.Engine.{World, Audit, require_authority, staff, stopped}
use agentic_works.Engine.Operate.{is_one_of}

-- The column `status` of p_events.
pub data EventStatus : Type 0 where
  pending processing done failed : EventStatus

pub record Event : Type 0 where
  pub tenant : String
  pub channel : String
  pub event_key : String
  pub fingerprint : String
  pub payload : String
  -- `sender` of the payload
  pub sender : String
  pub status : EventStatus
  pub claim : String
  pub lease : ℕ
  pub result : String
  pub error : String

pub record Quota : Type 0 where
  pub tenant : String
  pub day : ℕ
  pub used : ℕ

pub record Inbox : Type 0 where
  pub events : List Event
  pub quotas : List Quota
  pub freezes : List (String × Bool)
  pub audit : List Audit

-- What `accept_event` answers.
pub data Receipt : Type 0 where
  accepted : Receipt
  duplicate : (status : EventStatus) (result : String) → Receipt

abbrev pub is_event : String → String → String → Event → Bool
is_event tenant channel key e = e.tenant == tenant && (e.channel == channel && e.event_key == key)

abbrev pub is_unsettled : EventStatus → Bool
is_unsettled pending = true
is_unsettled processing = true
is_unsettled _ = false

abbrev pub is_pending : EventStatus → Bool
is_pending pending = true
is_pending _ = false

-- the rows that PENDING_EVENTS_SQL counts
abbrev pub is_pending_event : String → Event → Bool
is_pending_event tenant e = e.tenant == tenant && is_unsettled e.status

abbrev pub is_quota : String → ℕ → Quota → Bool
is_quota tenant day q = q.tenant == tenant && eqb q.day day

abbrev pub used_of : Option Quota → ℕ
used_of none = 0
used_of (some q) = q.used

-- `INSERT INTO p_quota … ON CONFLICT(tenant,day) DO UPDATE SET count=count+1`
abbrev pub count_up : String → ℕ → List Quota → List Quota
count_up tenant day [] = record { tenant = tenant; day = day; used = 1 } ∷ []
count_up tenant day (q ∷ qs) =
    if is_quota tenant day q
    then record q { used = q.used + 1 } ∷ qs
    else q ∷ count_up tenant day qs

abbrev pub is_identity : String → Bool
is_identity value = not (value == "") && leb (length (codes value)) 256

abbrev pub max_events : ℕ
max_events = 1000

abbrev pub max_events_a_day : ℕ
max_events_a_day = 10000

-- `Engine.require_active`
abbrev pub active_tenant : World → String → List (String × Bool) → Check
active_tenant w tenant freezes = do
  require_authority w tenant "" "" staff
  require (not (stopped tenant freezes)) forbidden

-- `INSERT INTO p_events`
abbrev pub new_event : String → String → String → String → String → String → Event
new_event tenant channel key payload sender full = record {
  tenant = tenant;
  channel = channel;
  event_key = key;
  fingerprint = full;
  payload = payload;
  sender = sender;
  status = pending;
  claim = "";
  lease = 0;
  result = "{}";
  error = "";
}

-- `payload` is the encoded payload, `full` its digest
unfoldable pub accept_event :
    World → String → String → String → String → String → String → Inbox → Result (Receipt × Inbox)
accept_event w tenant channel key payload sender full box = do
  require (is_identity tenant && (is_identity channel && is_identity key)) value_error
  require (leb (length (codes payload)) 20000) value_error
  require_authority w tenant channel sender staff
  elim (first (is_event tenant channel key) box.events) [
    | some old ↦ (do
      require (old.fingerprint == full) conflict
      ok (duplicate old.status old.result, box))
    | none ↦ (do
      active_tenant w tenant box.freezes
      let day = w.now / 86400
      let used = used_of (first (is_quota tenant day) box.quotas)
      require
          (ltb (count (is_pending_event tenant) box.events) max_events && ltb used max_events_a_day)
          rate_limited
      ok (
        accepted,
        record box {
          quotas = count_up tenant day box.quotas;
          events = box.events ++ new_event tenant channel key payload sender full ∷ [];
        },
      ))
  ]

-- `channels` is None for every channel
abbrev pub in_channels : Option (List String) → String → Bool
in_channels none c = true
in_channels (some cs) c = is_one_of c cs

-- the condition of `next_event_sql`; rows stand in the order of their `rowid`
abbrev pub is_next : String → ℕ → Option (List String) → List String → Event → Bool
is_next tenant now channels skip e =
    is_pending_event tenant e
    && ((is_pending e.status || leb e.lease now)
        && (in_channels channels e.channel && not (is_one_of e.channel skip)))

abbrev pub event_lease_seconds : ℕ
event_lease_seconds = 120

abbrev pub claimed_event : World → Event → Event
claimed_event w e = record e {
  status = processing;
  claim = w.fresh 0;
  lease = w.now + event_lease_seconds;
}

abbrev pub lease_event : World → String → Option Event → Inbox → Option Event × Inbox
lease_event w tenant none box = (none, box)
lease_event w tenant (some e) box = (
  some (claimed_event w e),
  record box {
    events = update_where (is_event tenant e.channel e.event_key) (claimed_event w) box.events;
  },
)

abbrev pub no_channels : Option (List String) → Bool
no_channels (some []) = true
no_channels _ = false

unfoldable pub claim_event :
    World → String → Option (List String) → List String → Inbox → Option Event × Inbox
claim_event w tenant channels skip box =
    if no_channels channels || stopped tenant box.freezes
    then (none, box)
    else lease_event w tenant (first (is_next tenant w.now channels skip) box.events) box

abbrev pub holds_event : String → String → String → String → Event → Bool
holds_event tenant channel key token e = is_event tenant channel key e && e.claim == token

-- the write at the end of `settle_event`: `done` with the result of the plan, or `failed` with the
-- error of an exception
unfoldable pub settle_event :
    String → String → String → String → Bool → String → String → Inbox → Inbox
settle_event tenant channel key token planned result error box = record box {
  events =
      update_where (holds_event tenant channel key token)
        (λ e. record e {
          status = if planned then done else failed;
          result = result;
          error = error;
          claim = "";
          lease = 0;
        })
        box.events;
}

abbrev pub is_failed : EventStatus → Bool
is_failed failed = true
is_failed _ = false

abbrev pub sender_check : World → String → String → Option Event → Check
sender_check w tenant channel none = ok tt
sender_check w tenant channel (some e) = require_authority w tenant channel e.sender staff

unfoldable pub retry_event :
    World → String → String → String → String → Inbox → Result (Unit {0} × Inbox)
retry_event w tenant channel key actor box = do
  active_tenant w tenant box.freezes
  require_authority w tenant "web" actor staff
  sender_check w tenant channel (first (is_event tenant channel key) box.events)
  require (leb 1 (count (λ e. is_event tenant channel key e && is_failed e.status) box.events))
      conflict
  ok (
    tt,
    record box {
      events =
          update_where (λ e. is_event tenant channel key e && is_failed e.status)
            (λ e. record e { status = pending; error = "" }) box.events;
      audit =
          box.audit
          ++ record {
            tenant = tenant;
            task = "";
            action = "event.retry";
            actor = actor;
            detail = key;
          }
            ∷ [];
    },
  )
