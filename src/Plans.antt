-- ===== src/Plans.antt =====
-- Plans and their validation: `_preauthorized`, `_validated`, `_origin` and `_operator_origin` of
-- api-python/platform_runtime/engine.py. What submits a plan stands in `Submission`, what runs its
-- steps in `Dispatch`.
pub mod Submission
pub mod Dispatch
pub mod Schedules
pub mod Passed
pub mod Repeated
pub mod Unattended
pub mod Destinations
pub mod Outcome
use Prim.Native.String.{◌++◌}
use agentic_works.Base.{
  String, Bool, true, false, ◌&&◌, ◌||◌, not, Option, none, some, List, [], ◌∷◌, Result, ok,
  require, some_or, ◌>>=◌, ◌>>◌, forbidden, value_error, not_found, leb, eqb, length, ◌==◌,
  if◌then◌else◌,
}
use agentic_works.Base.Table.{first}
use agentic_works.Base.Text.{codes}
use agentic_works.Engine.{Risk, read, write, destructive, physical, Policy}
use agentic_works.Engine.Submit.{Planned}
use agentic_works.Engine.Operate.{is_one_of}
use agentic_works.Inbox.{Event, is_event}

-- A step's arguments: what the engine reads of them, and their encoding.
pub record Args : Type 0 where
  pub conversation_id : Option String
  pub contact : Option String
  pub connection : String
  pub text : String

-- A step of a plan.
pub record Ask : Type 0 where
  pub tool : String
  pub args : Args
  pub device : String

-- The `ladder` of a policy; `unknown` is any other value.
pub data Ladder : Type 0 where
  human_led human_assisted autonomous unknown : Ladder

pub record AgentPolicy : Type 0 where
  pub ladder : Ladder
  pub tools : List String
  pub approval : List String
  pub allowed_recipients : List String
  pub allowed_connections : List String
  pub rights : Policy
  -- the policy without its descriptive keys, encoded
  pub encoded : String

-- A tool of the registry.
pub record Spec : Type 0 where
  pub risk : Risk
  pub external : Bool
  pub runner : Bool
  -- `validate` returns
  pub accepts : Args → Bool

-- What a fingerprint is taken of.
pub record Canonical : Type 0 where
  pub tool : String
  pub args : Args
  pub risk : Risk
  pub approval : Bool
  pub device : String
  pub policy : String
  pub bound : String

-- The conversation that a plan answers.
pub record Origin : Type 0 where
  pub channel : String
  pub reply_channel : String
  pub conversation_id : Option String

-- The packs, the registry and the digests; `binding` is what the connector, Google and database
-- modules bind a step to, or their exception.
pub record Realm : Type 0 where
  pub policy : String → String → AgentPolicy
  pub registry : String → Option Spec
  pub binding : String → String → String → Args → Result String
  pub digest : Canonical → String
  pub plan_digest : String → List Ask → String
  -- `json.loads(payload).get('conversation_id')`
  pub conversation : Event → Option String

-- OUTBOUND_TOOLS and OUTBOUND_CHANNELS
abbrev pub outbound_tools : List String
outbound_tools = "telegram.send" ∷ "instagram.send" ∷ "whatsapp.send" ∷ []

abbrev pub outbound_channels : List String
outbound_channels = "telegram" ∷ "instagram" ∷ "whatsapp" ∷ []

abbrev pub operator_channel : String
operator_channel = "operator"

-- `args.get(DIRECT_DESTINATION_FIELD[name])`
abbrev pub destination : String → Args → Option String
destination name args = if name == "whatsapp.send" then args.contact else args.conversation_id

abbrev pub is_listed : Option String → List String → Bool
is_listed none xs = false
is_listed (some x) xs = is_one_of x xs

abbrev pub same_text : Option String → Option String → Bool
same_text none none = true
same_text (some a) (some b) = a == b
same_text _ _ = false

abbrev pub is_autonomous : Ladder → Bool
is_autonomous autonomous = true
is_autonomous _ = false

abbrev pub is_human_led : Ladder → Bool
is_human_led human_led = true
is_human_led _ = false

abbrev pub is_ladder : Ladder → Bool
is_ladder unknown = false
is_ladder _ = true

abbrev pub is_read : Risk → Bool
is_read read = true
is_read _ = false

abbrev pub is_dangerous : Risk → Bool
is_dangerous destructive = true
is_dangerous physical = true
is_dangerous _ = false

-- the step answers the conversation that its task came from
abbrev pub answers : Option Origin → String → Option String → Bool
answers none name recipient = false
answers (some o) name recipient =
    name == (o.channel ++ ".send") && same_text recipient o.conversation_id

-- `_preauthorized`
unfoldable pub preauthorized : AgentPolicy → String → Args → Option Origin → Bool
preauthorized policy name args origin =
    is_autonomous policy.ladder
    && (is_one_of name outbound_tools
        && (is_listed (destination name args) policy.allowed_recipients
            || answers origin name (destination name args)))

abbrev pub is_operator : Option Origin → Bool
is_operator none = false
is_operator (some o) = o.channel == operator_channel

abbrev pub replies_to : Option Origin → String → Bool
replies_to none name = false
replies_to (some o) name = name == (o.reply_channel ++ ".send")

abbrev pub connection_tools : List String
connection_tools =
    "connectors.read" ∷ "database.read" ∷ "database.plan_write" ∷ "database.write" ∷ []

-- the rule that decides whether a step waits for a human
abbrev pub needs_approval : AgentPolicy → Spec → Ask → Option Origin → Bool
needs_approval policy spec ask origin =
    is_human_led policy.ladder
    || is_operator origin
    || is_one_of ask.tool policy.approval
    || is_dangerous spec.risk
    || (not (is_read spec.risk) && not (preauthorized policy ask.tool ask.args origin))

-- the body of the loop in `_validated`
unfoldable pub validate_step :
    Realm → String → String → AgentPolicy → Option Origin → Ask → Result Planned
unfolding preauthorized
validate_step r tenant agent policy origin ask = do
  spec ← some_or (r.registry ask.tool) not_found
  require (is_one_of ask.tool policy.tools) forbidden
  require (not (is_operator origin && (not (replies_to origin ask.tool) || is_dangerous spec.risk)))
      forbidden
  require (spec.accepts ask.args) value_error
  require
      (not (is_one_of ask.tool connection_tools)
        || is_one_of ask.args.connection policy.allowed_connections)
      forbidden
  bound ← r.binding tenant agent ask.tool ask.args
  require (leb (length (codes ask.device)) 128) value_error
  require (not (spec.runner && ask.device == "")) value_error
  require (spec.runner || ask.device == "") value_error
  let needed = needs_approval policy spec ask origin
  let whole : Canonical = record {
    tool = ask.tool;
    args = ask.args;
    risk = spec.risk;
    approval = needed;
    device = ask.device;
    policy = policy.encoded;
    bound = bound;
  }
  ok (record {
    tool = ask.tool;
    args = ask.args.text;
    risk = spec.risk;
    needed = needed;
    fingerprint = r.digest whole;
    device = ask.device;
  })

unfoldable pub validate_steps :
    Realm → String → String → AgentPolicy → Option Origin → List Ask → Result (List Planned)
unfolding validate_step
validate_steps r tenant agent policy origin [] = ok []
validate_steps r tenant agent policy origin (a ∷ asks) = do
  p ← validate_step r tenant agent policy origin a
  ps ← validate_steps r tenant agent policy origin asks
  ok (p ∷ ps)

-- `_validated`
unfoldable pub validated :
    Realm → String → String → List Ask → Option Origin → Result (List Planned)
unfolding validate_steps
validated r tenant agent asks origin = do
  let policy = r.policy tenant agent
  require (is_ladder policy.ladder) forbidden
  require (leb 1 (length asks) && leb (length asks) 20) value_error
  require (not (is_operator origin) || eqb (length asks) 1) value_error
  validate_steps r tenant agent policy origin asks

-- `_origin`
abbrev pub event_origin : Realm → String → Option Event → Option Origin
event_origin r channel none = none
event_origin r channel (some e) =
    some (record { channel = channel; reply_channel = ""; conversation_id = r.conversation e })

unfoldable pub origin_of : Realm → String → String → String → List Event → Option Origin
origin_of r tenant channel key events =
    if is_one_of channel outbound_channels
    then event_origin r channel (first (is_event tenant channel key) events)
    else none

-- `tool[:-len('.send')]`, for the tools that there are
abbrev pub channel_of : String → Option String
channel_of tool =
    if tool == "telegram.send"
    then some "telegram"
    else if tool == "instagram.send"
    then some "instagram"
    else if tool == "whatsapp.send"
    then some "whatsapp"
    else none

-- the tenant has an event of this conversation on the channel
abbrev pub is_conversation : Realm → String → String → String → Event → Bool
is_conversation r tenant channel target e =
    e.tenant == tenant && (e.channel == channel && same_text (r.conversation e) (some target))

abbrev pub is_found : Option Event → Bool
is_found none = false
is_found (some e) = true

-- `_operator_origin`
unfoldable pub operator_origin : Realm → String → String → Args → List Event → Result Origin
operator_origin r tenant tool args events = do
  channel ← some_or (channel_of tool) forbidden
  target ← some_or (destination tool args) value_error
  require (not (target == "")) value_error
  require (is_found (first (is_conversation r tenant channel target) events)) not_found
  ok (record { channel = operator_channel; reply_channel = channel; conversation_id = some target })
