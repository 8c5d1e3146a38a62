-- ===== src/Tools/Registering.antt =====
-- Registrations in the registry of api-python/platform_runtime/tools.py.
use agentic_works.Base.{
  String, ◌≡◌, inl, inr, true, List, [], ◌∷◌, ◌++◌, arith, ok, require-ok, All, eq_refl, subst,
  value_error, Bool-cases, not, Result-cases, ok_injective, refl,
}
use agentic_works.Tools.{add_tool, register_once, Tool, has_tool, is_risk, is_tool}
use agentic_works.Base.Table.{total-append, weight}

-- The tools that a registration adds come behind those there are.
has_tool-append :
    (name : String) (items : List Tool) (t : Tool)
    → has_tool name items ≡ true
    → has_tool name (items ++ t ∷ []) ≡ true
has_tool-append name items t h =
    ground (arith, h, total-append (weight (is_tool name) (λ _. 1)) items (t ∷ []))

has_tool-new : (items : List Tool) (t : Tool) → has_tool t.name (items ++ t ∷ []) ≡ true
has_tool-new items t =
    ground (arith, eq_refl t.name, total-append (weight (is_tool t.name) (λ _. 1)) items (t ∷ []))

add_tool-ok :
    (t : Tool) (items items' : List Tool) → add_tool t items ≡ ok items' → items ++ t ∷ [] ≡ items'
unfolding add_tool
add_tool-ok t items items' h =
    let (_, h1) = require-ok (is_risk t.risk) value_error _ h in
    let (_, h2) = require-ok (not (has_tool t.name items)) value_error _ h1 in ok_injective h2

-- Every tool of a list is registered.
abbrev pub Registered : List Tool → List Tool → Type 0
Registered ts items = All (λ (t : Tool). has_tool t.name items ≡ true) ts

register_once-keeps :
    (name : String) (ts items items' : List Tool)
    → register_once ts items ≡ (ok tt, items')
    → has_tool name items ≡ true
    → has_tool name items' ≡ true
unfolding register_once
register_once-keeps name [] items items' e h =
    let same : items ≡ items' = ground (arith, e) in
    subst (λ (xs : List Tool). has_tool name xs ≡ true) same h
register_once-keeps name (t ∷ ts) items items' e h = elim (Bool-cases (has_tool t.name items)) [
  | inl c ↦ register_once-keeps name ts items items' (ground (arith, c, e)) h
  | inr c ↦ elim (Result-cases (add_tool t items)) [
    | inr (x, f) ↦ absurd (ground (arith, c, f, e))
    | inl (more, f) ↦ register_once-keeps name ts more items' (ground (arith, c, f, e)) (
        subst (λ (xs : List Tool). has_tool name xs ≡ true) (add_tool-ok t items more f)
          (has_tool-append name items t h))
  ]
]

register_once-Registered :
    (ts items items' : List Tool) → register_once ts items ≡ (ok tt, items') → Registered ts items'
unfolding register_once
register_once-Registered [] items items' e = tt
register_once-Registered (t ∷ ts) items items' e = elim (Bool-cases (has_tool t.name items)) [
  | inl c ↦ (
    register_once-keeps t.name ts items items' (ground (arith, c, e)) c,
    register_once-Registered ts items items' (ground (arith, c, e)),
  )
  | inr c ↦ elim (Result-cases (add_tool t items)) [
    | inr (x, f) ↦ absurd (ground (arith, c, f, e))
    | inl (more, f) ↦ (
      register_once-keeps t.name ts more items' (ground (arith, c, f, e)) (
          subst (λ (xs : List Tool). has_tool t.name xs ≡ true) (add_tool-ok t items more f)
            (has_tool-new items t)),
      register_once-Registered ts more items' (ground (arith, c, f, e)),
    )
  ]
]

nothing_new : (ts items : List Tool) → Registered ts items → register_once ts items ≡ (ok tt, items)
unfolding register_once
nothing_new [] items r = refl
nothing_new (t ∷ ts) items r = rw (r.0) (nothing_new ts items r.1)

-- Registering tools is idempotent: after it succeeds, every one of them is registered, and the same
-- registration succeeds again and changes nothing.
pub register_once_again :
    (ts items items' : List Tool)
    → register_once ts items ≡ (ok tt, items')
    → Registered ts items' × (register_once ts items' ≡ (ok tt, items'))
register_once_again ts items items' e =
    let r = register_once-Registered ts items items' e in (r, nothing_new ts items' r)
