-- ===== src/Plans/Unattended.antt =====
-- A step without an approval is one that its policy lets go unattended.
use agentic_works.Base.{
  String, ◌≡◌, true, false, ◌||◌, ◌&&◌, not, Option, some, List, [], ◌∷◌, ok, ◌⊎◌, some_or-ok,
  not_found, require-ok, forbidden, value_error, ◌≤◌, refl, inl, inr, arith, ◌==◌, call-ok,
  ok_injective, leb, subst, length, eqb, Bool-cases,
}
use agentic_works.Engine.Submit.{Planned}
use agentic_works.Engine.Operate.{is_one_of}
use agentic_works.Plans.{
  Realm, AgentPolicy, Ask, Origin, Spec, validate_step, validate_steps, needs_approval,
  preauthorized, is_dangerous, is_read, is_human_led, is_operator, outbound_tools, destination,
  is_listed, answers, is_autonomous, Args, replies_to, connection_tools, validated, codes,
  is_ladder,
}

-- What the validation of a step says of it.
pub record IsGuarded (r : Realm) (tenant agent : String) (origin : Option Origin) (a : Ask)
    (p : Planned) : Type 0 where
  pub spec : Spec
  pub registered : r.registry a.tool ≡ some spec
  pub same_tool : p.tool ≡ a.tool
  pub same_risk : p.risk ≡ spec.risk
  pub allowed : is_one_of a.tool (r.policy tenant agent).tools ≡ true
  pub accepted : spec.accepts a.args ≡ true
  -- without an approval it is neither dangerous, nor of an agent that a human leads, nor by name to
  -- be approved; and it is a read, or an autonomous agent's message to an allowed destination
  pub unattended :
      p.needed ≡ false
      → (is_dangerous p.risk ≡ false)
        × (is_human_led (r.policy tenant agent).ladder ≡ false)
        × (is_operator origin ≡ false)
        × (is_one_of a.tool (r.policy tenant agent).approval ≡ false)
        × ((is_read p.risk ≡ true)
            ⊎ ((is_autonomous (r.policy tenant agent).ladder ≡ true)
                × (is_one_of a.tool outbound_tools ≡ true)
                × ((is_listed (destination a.tool a.args) (r.policy tenant agent).allowed_recipients
                      || answers origin a.tool (destination a.tool a.args))
                    ≡ true)))

-- The steps of a plan and of its validation, one by one.
abbrev pub Paired : (Ask → Planned → Type 0) → List Ask → List Planned → Type 0
Paired P [] [] = Unit
Paired P (a ∷ asks) (p ∷ ps) = P a p × Paired P asks ps
Paired P _ _ = ⊥

approval_rule :
    (policy : AgentPolicy) (spec : Spec) (a : Ask) (origin : Option Origin)
    → needs_approval policy spec a origin ≡ false
    → (is_dangerous spec.risk ≡ false)
      × (is_human_led policy.ladder ≡ false)
      × (is_operator origin ≡ false)
      × (is_one_of a.tool policy.approval ≡ false)
      × ((is_read spec.risk ≡ true) ⊎ (preauthorized policy a.tool a.args origin ≡ true))
approval_rule policy spec a origin e = (
  ground arith,
  ground arith,
  ground arith,
  ground arith,
  elim (Bool-cases (is_read spec.risk)) [ inl m ↦ inl m | inr m ↦ inr (ground arith) ],
)

preauthorized-cases :
    (policy : AgentPolicy) (name : String) (args : Args) (origin : Option Origin)
    → preauthorized policy name args origin ≡ true
    → (is_autonomous policy.ladder ≡ true)
      × (is_one_of name outbound_tools ≡ true)
      × ((is_listed (destination name args) policy.allowed_recipients
            || answers origin name (destination name args))
          ≡ true)
unfolding preauthorized
preauthorized-cases policy name args origin e = (ground arith, ground arith, ground arith)

validate_step-IsGuarded :
    (r : Realm) (tenant agent : String) (origin : Option Origin) (a : Ask) (p : Planned)
    → validate_step r tenant agent (r.policy tenant agent) origin a ≡ ok p
    → IsGuarded r tenant agent origin a p
unfolding validate_step
validate_step-IsGuarded r tenant agent origin a p e =
    let policy = r.policy tenant agent in
    let (spec, found, e1) = some_or-ok (r.registry a.tool) not_found _ e in
    let (allowed, e2) = require-ok (is_one_of a.tool policy.tools) forbidden _ e1 in
    let (_, e3) =
      require-ok
        (not (is_operator origin && (not (replies_to origin a.tool) || is_dangerous spec.risk)))
        forbidden _ e2 in
    let (accepted, e4) = require-ok (spec.accepts a.args) value_error _ e3 in
    let (_, e5) =
      require-ok
        (not (is_one_of a.tool connection_tools)
          || is_one_of a.args.connection policy.allowed_connections)
        forbidden _ e4 in
    let (bound, _, e6) = call-ok (r.binding tenant agent a.tool a.args) _ e5 in
    let (_, e7) = require-ok (leb (length (codes a.device)) 128) value_error _ e6 in
    let (_, e8) = require-ok (not (spec.runner && a.device == "")) value_error _ e7 in
    let (_, e9) = require-ok (spec.runner || a.device == "") value_error _ e8 in
    subst (IsGuarded r tenant agent origin a) (ok_injective e9) (record {
      spec = spec;
      registered = found;
      same_tool = refl;
      same_risk = refl;
      allowed = allowed;
      accepted = accepted;
      unattended = λ n.
          let (d, h, o, l, way) = approval_rule policy spec a origin n in
          (
            d,
            h,
            o,
            l,
            elim way [
              | inl m ↦ inl m
              | inr m ↦ inr (preauthorized-cases policy a.tool a.args origin m)
            ],
          );
    })

validate_steps-Paired :
    (r : Realm) (tenant agent : String) (origin : Option Origin) (asks : List Ask)
    (ps : List Planned)
    → validate_steps r tenant agent (r.policy tenant agent) origin asks ≡ ok ps
    → Paired (IsGuarded r tenant agent origin) asks ps
unfolding validate_steps
validate_steps-Paired r tenant agent origin [] ps e =
    let same : [] ≡ ps = ok_injective e in
    subst (Paired (IsGuarded r tenant agent origin) []) same tt
validate_steps-Paired r tenant agent origin (a ∷ asks) ps e =
    let (p, ep, e1) = call-ok (validate_step r tenant agent (r.policy tenant agent) origin a) _ e in
    let (rest, er, e2) =
      call-ok (validate_steps r tenant agent (r.policy tenant agent) origin asks) _ e1 in
    subst (Paired (IsGuarded r tenant agent origin) (a ∷ asks)) (ok_injective e2) (
      validate_step-IsGuarded r tenant agent origin a p ep,
      validate_steps-Paired r tenant agent origin asks rest er,
    )

-- Every step of a plan that `_validated` lets pass is of a registered tool of the agent's policy,
-- with that tool's risk and accepted arguments; and a step that does not wait for an approval is
-- neither destructive nor physical, of no agent that a human leads, of no operator's reply and of no
-- tool that the policy has approved by name, and it is a read or an autonomous agent's message to an
-- allowlisted recipient or to the conversation that the task answers. A plan has 1 to 20 steps.
pub validated-IsGuarded :
    (r : Realm) (tenant agent : String) (origin : Option Origin) (asks : List Ask)
    (ps : List Planned)
    → validated r tenant agent asks origin ≡ ok ps
    → Paired (IsGuarded r tenant agent origin) asks ps × (1 ≤ length asks) × (length asks ≤ 20)
unfolding validated
validated-IsGuarded r tenant agent origin asks ps e =
    let (_, e1) = require-ok (is_ladder (r.policy tenant agent).ladder) forbidden _ e in
    let (many, e2) = require-ok (leb 1 (length asks) && leb (length asks) 20) value_error _ e1 in
    let (_, e3) = require-ok (not (is_operator origin) || eqb (length asks) 1) value_error _ e2 in
    (
      validate_steps-Paired r tenant agent origin asks ps e3,
      ground (arith, many),
      ground (arith, many),
    )
