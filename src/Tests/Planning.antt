-- ===== src/Tests/Planning.antt =====
-- Runs of plans: an autonomous agent sends a message to an allowlisted recipient.
use agentic_works.Engine.{Db, Step, read, write, queued, refresh, rollup, is_step}
use agentic_works.Engine.Submit.{Planned, create_task, insert_steps}
use agentic_works.Engine.Claim.{
  claim, finish, expire_steps, ready, in_order, place, verdict, approval_verdict, claim_loop,
}
use agentic_works.Tests.Working.{world, nothing}
use agentic_works.Plans.{
  Realm, Spec, Ask, Args, AgentPolicy, autonomous, validated, outbound_tools, operator_channel,
  origin_of,
}
use agentic_works.Plans.Submission.{submit, may_reach}
use agentic_works.Plans.Dispatch.{tick, handled, dispatch_allowed}
use agentic_works.Plans.Unattended.{validated-IsGuarded, Paired, IsGuarded}
use agentic_works.Plans.Destinations.{submit-Reaches, Reaches}
use agentic_works.Plans.Outcome.{tick-status, refused_tick, EndsAs}
use agentic_works.Plans.Dispatch.{Handler, handler_raised}
use agentic_works.Base.{err, ℕ, zero, suc, forbidden}
use agentic_works.Base.Table.{first}
use agentic_works.Engine.{failed}
use agentic_works.Engine.Claim.{holds_claim}
use agentic_works.Base.{
  ◌≤◌, String, ◌≡◌, refl, Bool, true, false, Option, none, some, List, [], ◌∷◌, ◌==◌, if◌then◌else◌,
  Result, ok, length, commit, All,
}
use agentic_works.Engine.Operate.{is_one_of}

abbrev policy : AgentPolicy
policy = record {
  ladder = autonomous;
  tools = "telegram.send" ∷ "catalog.read" ∷ [];
  approval = [];
  allowed_recipients = "42" ∷ [];
  allowed_connections = [];
  rights = record { approver_role = "operator"; independent_approval = false };
  encoded = "policy";
}

abbrev sending : Spec
sending = record { risk = write; external = true; runner = false; accepts = λ _. true }

abbrev reading : Spec
reading = record { risk = read; external = false; runner = false; accepts = λ _. true }

abbrev tool_of : String → Option Spec
tool_of name =
    if name == "telegram.send"
    then some sending
    else if name == "catalog.read"
    then some reading
    else none

abbrev pub realm : Realm
realm = record {
  policy = λ _ _. policy;
  registry = tool_of;
  binding = λ _ _ _ _. ok "";
  digest = λ _. "print";
  plan_digest = λ _ _. "full";
  conversation = λ _. some "42";
}

abbrev pub message : Args
message = record { conversation_id = some "42"; contact = none; connection = ""; text = "{}" }

abbrev pub asks : List Ask
asks = record { tool = "telegram.send"; args = message; device = "" } ∷ []

abbrev steps : List Planned
steps =
    record {
      tool = "telegram.send";
      args = "{}";
      risk = write;
      needed = false;
      fingerprint = "print";
      device = "";
    }
    ∷ []

valid : validated realm "acme" "shop" asks none ≡ ok steps
unfolding validated
valid = refl

validated-IsGuarded_example :
    Paired (IsGuarded realm "acme" "shop" none) asks steps × (1 ≤ length asks) × (length asks ≤ 20)
validated-IsGuarded_example = validated-IsGuarded realm "acme" "shop" none asks steps valid

abbrev pub sent_db : Db
sent_db =
    commit nothing (submit realm (world 10 "t") "acme" "web" "e1" "shop" asks "ann" [] nothing)

pub submitted :
    submit realm (world 10 "t") "acme" "web" "e1" "shop" asks "ann" [] nothing ≡ ok ("t", sent_db)
unfolding submit create_task insert_steps validated origin_of may_reach
submitted = refl

submit-Reaches_example :
    All
      (λ a. is_one_of a.tool outbound_tools ≡ true → Reaches realm "acme" "shop" "web" "e1" [] a)
      asks
    × (("web" == operator_channel) ≡ false)
submit-Reaches_example =
    submit-Reaches realm (world 10 "t") "acme" "web" "e1" "shop" asks "ann" [] nothing "t" sent_db
      submitted

-- a handler that returns, while a device is enrolled
abbrev works : Handler
works s db = (
  handled "{}",
  record db {
    devices = record { tenant = "acme"; id = "till"; revoked = false; generation = 1 } ∷ db.devices;
  },
)

abbrev fails : Handler
fails s db = (handler_raised "TimeoutError", db)

-- the tenant is frozen between the claim and the fence
abbrev freezes : ℕ → Db → Db
freezes zero db = record db { freezes = ("acme", true) ∷ [] }
freezes (suc n) db = db

abbrev quiet : ℕ → Db → Db
quiet n db = db

abbrev claimed_db : Db
claimed_db = commit sent_db (claim (world 20 "c") "acme" "cloud" "" 90 sent_db)

abbrev granted : Step
granted = record {
  id = "st";
  task = "t";
  tenant = "acme";
  position = 0;
  tool = "telegram.send";
  args = "{}";
  risk = write;
  approval_needed = false;
  fingerprint = "print";
  status = queued;
  claim = "c";
  worker = "cloud";
  lease = 110;
  attempts = 0;
  result = "{}";
  error = "";
  device = "";
}

claimed : claim (world 20 "c") "acme" "cloud" "" 90 sent_db ≡ ok (some granted, claimed_db)
unfolding submit create_task insert_steps validated origin_of may_reach refresh rollup claim
    expire_steps ready in_order place verdict approval_verdict claim_loop
claimed = refl

abbrev ticked : Db × Result Bool
ticked =
    tick realm (world 20 "c") (world 21 "d") (world 22 "f") "acme" "cloud" (λ _. "shop") works quiet
      sent_db

ran : ticked ≡ (ticked.0, ok true)
unfolding submit create_task insert_steps validated origin_of may_reach refresh rollup claim
    expire_steps ready in_order place verdict approval_verdict claim_loop finish tick
    dispatch_allowed
ran = refl

tick-status_example :
    (dispatch_allowed (world 21 "d") "acme" "shop" granted claimed_db ≡ ok true)
    × All (λ x. is_step granted.id x ≡ true → EndsAs sending (handled "{}") x.status) ticked.0.steps
tick-status_example =
    tick-status realm (world 20 "c") (world 21 "d") (world 22 "f") "acme" "cloud" (λ _. "shop")
      works quiet sent_db claimed_db ticked.0 granted sending claimed refl ran

abbrev stopped_tick : Handler → Db × Result Bool
stopped_tick handler =
    tick realm (world 20 "c") (world 21 "d") (world 22 "f") "acme" "cloud" (λ _. "shop") handler
      freezes sent_db

fence_raises :
    dispatch_allowed (world 21 "d") "acme" "shop" granted (freezes 0 claimed_db) ≡ err forbidden
unfolding dispatch_allowed
fence_raises = refl

fence_stops :
    ¬ (dispatch_allowed (world 21 "d") "acme" "shop" granted (freezes 0 claimed_db) ≡ ok true)
fence_stops e = absurd (cc (e, fence_raises))

refused_tick_example :
    (stopped_tick works ≡ stopped_tick fails)
    × ¬ ((stopped_tick works).1 ≡ ok true)
    × (dispatch_allowed (world 21 "d") "acme" "shop" granted (freezes 0 claimed_db) ≡ err forbidden
        → (row : Step)
        → first
            (holds_claim (world 22 "f") "acme" granted.id granted.claim)
            (freezes 1 (freezes 0 claimed_db)).steps
          ≡ some row
        → All (λ x. is_step granted.id x ≡ true → x.status ≡ failed) (stopped_tick works).0.steps)
refused_tick_example =
    refused_tick realm (world 20 "c") (world 21 "d") (world 22 "f") "acme" "cloud" (λ _. "shop")
      works fails freezes sent_db claimed_db granted sending claimed refl fence_stops
