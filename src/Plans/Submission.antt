-- ===== src/Plans/Submission.antt =====
-- `_submit` and `operator_reply` of api-python/platform_runtime/engine.py.
use Prim.Native.String.{◌++◌}
use agentic_works.Base.{
  String, Bool, ◌&&◌, ◌||◌, not, Option, none, some, List, [], ◌∷◌, Result, require, ◌>>=◌, ◌>>◌,
  forbidden, value_error, leb, length, ◌==◌, if◌then◌else◌, true, false,
}
use agentic_works.Base.Text.{codes, has_text}
use agentic_works.Engine.{World, Db, require_authority}
use agentic_works.Engine.Submit.{create_task}
use agentic_works.Engine.Claim.{approvers}
use agentic_works.Engine.Operate.{is_one_of}
use agentic_works.Inbox.{Event, is_identity}
use agentic_works.Plans.{
  Realm, Ask, Args, Origin, validated, origin_of, operator_origin, destination, is_listed,
  same_text, outbound_tools, outbound_channels, operator_channel,
}

-- a bound outbound step goes to the event's conversation
abbrev pub is_bound : String → Option Origin → Ask → Bool
is_bound channel none ask = false
is_bound channel (some o) ask =
    ask.tool == (channel ++ ".send") && same_text o.conversation_id (destination ask.tool ask.args)

-- where a step may go that reaches outside the tenant
unfoldable pub may_reach : Realm → String → String → String → Option Origin → Ask → Bool
may_reach r tenant agent channel origin ask =
    not (is_one_of ask.tool outbound_tools)
    || (if is_one_of channel outbound_channels
        then is_bound channel origin ask
        else is_listed (destination ask.tool ask.args) (r.policy tenant agent).allowed_recipients)

abbrev pub all_reach : Realm → String → String → String → Option Origin → List Ask → Bool
all_reach r tenant agent channel origin [] = true
all_reach r tenant agent channel origin (a ∷ asks) =
    may_reach r tenant agent channel origin a && all_reach r tenant agent channel origin asks

-- `_submit`
unfoldable pub submit :
    Realm
    → World
    → String
    → String
    → String
    → String
    → List Ask
    → String
    → List Event
    → Db
    → Result (String × Db)
submit r w tenant channel key agent asks actor events db = do
  require
      (is_identity tenant
        && (is_identity channel && (is_identity key && (is_identity agent && is_identity actor))))
      value_error
  require (not (channel == operator_channel)) forbidden
  let origin = origin_of r tenant channel key events
  planned ← validated r tenant agent asks origin
  require (all_reach r tenant agent channel origin asks) forbidden
  create_task w tenant channel key agent (r.plan_digest agent asks) actor planned "" db

abbrev pub operator_roles : List String
operator_roles = "owner" ∷ "operator" ∷ []

abbrev pub operator_prefix : String
operator_prefix = "operator-reply:"

-- `{DIRECT_DESTINATION_FIELD[tool]: conversation_id, 'text': text}`
abbrev pub reply_args : String → String → String → Args
reply_args tool conversation text =
    if tool == "whatsapp.send"
    then record {
      conversation_id = none;
      contact = some conversation;
      connection = "";
      text = text;
    }
    else record {
      conversation_id = some conversation;
      contact = none;
      connection = "";
      text = text;
    }

-- `operator_reply`; `encoded` is the encoding of the step's arguments
unfoldable pub operator_reply :
    Realm
    → World
    → String
    → String
    → String
    → String
    → String
    → String
    → String
    → String
    → String
    → List Event
    → Db
    → Result (String × Db)
unfolding has_text
operator_reply r w tenant channel conversation text encoded actor role key agent events db = do
  require (is_one_of channel outbound_channels) value_error
  require (is_one_of role operator_roles) forbidden
  require (is_identity actor && (is_identity agent && is_identity conversation)) value_error
  require (not (key == "") && leb (length (codes (operator_prefix ++ key))) 256) value_error
  require (has_text (codes text) && leb (length (codes text)) 4000) value_error
  let tool = channel ++ ".send"
  let asks = record { tool = tool; args = reply_args tool conversation encoded; device = "" } ∷ []
  let rights = (r.policy tenant agent).rights
  require (is_one_of role (approvers rights)) forbidden
  require_authority w tenant "approval" actor (approvers rights)
  origin ← operator_origin r tenant tool (reply_args tool conversation encoded) events
  planned ← validated r tenant agent asks (some origin)
  create_task w tenant operator_channel (operator_prefix ++ key) agent (r.plan_digest agent asks)
      actor planned (if rights.independent_approval then "" else actor) db
