-- ===== src/Plans/Destinations.antt =====
-- A submitted plan reaches only destinations that the tenant allowed.
use Prim.Native.String.{◌++◌}
use agentic_works.Base.{
  String, ◌≡◌, true, false, Option, none, some, List, [], ◌∷◌, arith, ok, All, require-ok, call-ok,
  refl, inl, inr, ◌&&◌, ◌==◌, Bool-cases, eq_iff, value_error, not, forbidden,
}
use agentic_works.Base.Table.{first}
use agentic_works.Engine.{World, Db}
use agentic_works.Inbox.{Event, is_event, is_identity}
use agentic_works.Plans.{
  Realm, Ask, destination, is_listed, same_text, outbound_tools, outbound_channels, origin_of,
  validated, is_one_of, operator_channel, event_origin,
}
use agentic_works.Plans.Submission.{submit, may_reach, all_reach, is_bound}

-- Where an outbound step goes.
pub data Reaches (r : Realm) (tenant agent channel key : String) (events : List Event) (a : Ask)
    : Type 0 where
  -- to the conversation of the event that the task answers
  replies :
      (e : Event)
      → first (is_event tenant channel key) events ≡ some e
      → is_one_of channel outbound_channels ≡ true
      → a.tool ≡ (channel ++ ".send")
      → same_text (r.conversation e) (destination a.tool a.args) ≡ true
      → Reaches r tenant agent channel key events a
  -- to a recipient on the agent's list, from a channel without an inbound stream
  listed :
      is_one_of channel outbound_channels ≡ false
      → is_listed (destination a.tool a.args) (r.policy tenant agent).allowed_recipients ≡ true
      → Reaches r tenant agent channel key events a

reach_bound :
    (r : Realm) (tenant agent channel key : String) (a : Ask) (events : List Event)
    (o : Option Event)
    → first (is_event tenant channel key) events ≡ o
    → is_one_of channel outbound_channels ≡ true
    → is_bound channel (event_origin r channel o) a ≡ true
    → Reaches r tenant agent channel key events a
reach_bound r tenant agent channel key a events none f c b = absurd (cc)
reach_bound r tenant agent channel key a events (some e) f c b =
    replies e f c (ground (arith, b, eq_iff a.tool (channel ++ ".send"))) (ground (arith, b))

may_reach-Reaches :
    (r : Realm) (tenant agent channel key : String) (events : List Event) (a : Ask)
    → may_reach r tenant agent channel (origin_of r tenant channel key events) a ≡ true
    → is_one_of a.tool outbound_tools ≡ true
    → Reaches r tenant agent channel key events a
unfolding may_reach origin_of
may_reach-Reaches r tenant agent channel key events a m out =
    elim (Bool-cases (is_one_of channel outbound_channels)) [
      | inl c ↦
          reach_bound r tenant agent channel key a events
            (first (is_event tenant channel key) events) refl c (ground (arith, m, c, out))
      | inr c ↦ listed c (ground (arith, m, c, out))
    ]

all_reach-Reaches :
    (r : Realm) (tenant agent channel key : String) (events : List Event) (asks : List Ask)
    → all_reach r tenant agent channel (origin_of r tenant channel key events) asks ≡ true
    → All
        (λ a. is_one_of a.tool outbound_tools ≡ true → Reaches r tenant agent channel key events a)
        asks
all_reach-Reaches r tenant agent channel key events [] h = tt
all_reach-Reaches r tenant agent channel key events (a ∷ asks) h = (
  may_reach-Reaches r tenant agent channel key events a (ground (arith, h)),
  all_reach-Reaches r tenant agent channel key events asks (ground (arith, h)),
)

-- Every step of a submitted plan that sends outside the tenant goes to the conversation of the
-- verified event that the task answers, by the tool of its channel, or, from a channel without an
-- inbound stream, to a recipient on the agent's list; and no plan is submitted under the channel of
-- operators' replies.
pub submit-Reaches :
    (r : Realm) (w : World) (tenant channel key agent : String) (asks : List Ask) (actor : String)
    (events : List Event) (db : Db)
    → (id : String) (db' : Db)
    → submit r w tenant channel key agent asks actor events db ≡ ok (id, db')
    → All
        (λ a. is_one_of a.tool outbound_tools ≡ true → Reaches r tenant agent channel key events a)
        asks
      × ((channel == operator_channel) ≡ false)
unfolding submit
submit-Reaches r w tenant channel key agent asks actor events db id db' e =
    let (_, e1) =
      require-ok
        (is_identity tenant
          && (is_identity channel && (is_identity key && (is_identity agent && is_identity actor))))
        value_error _ e in
    let (open_channel, e2) = require-ok (not (channel == operator_channel)) forbidden _ e1 in
    let origin = origin_of r tenant channel key events in
    let (ps, _, e3) = call-ok (validated r tenant agent asks origin) _ e2 in
    let (reach, _) = require-ok (all_reach r tenant agent channel origin asks) forbidden _ e3 in
    (all_reach-Reaches r tenant agent channel key events asks reach, ground (arith, open_channel))
