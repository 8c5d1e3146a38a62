-- ===== src/Tests/Arguments.antt =====
-- Arguments that a schema accepts, and tools that are registered twice.
use agentic_works.Tools.{
  Value, pos, integer, array, object, no_values, value, no_fields, field, Schema, object_schema,
  array_schema, integer_schema, property, no_properties, validate_schema, Tool, read, register_once,
  add_tool,
}
use agentic_works.Tools.Depth.{nesting, accepted_nesting}
use agentic_works.Tools.Registering.{Registered, register_once_again}
use agentic_works.Base.{◌≤◌, ◌≡◌, refl, false, none, [], ◌∷◌, ok}

abbrev numbers : Value
numbers =
    object
      (field "ids" (array (value (integer (pos 3)) (value (integer (pos 4)) no_values))) no_fields)

abbrev numbers_schema : Schema
numbers_schema =
    object_schema none
      (property "ids" (array_schema none (integer_schema none (pos 0) (pos 9)) 1 5) no_properties)
      ("ids" ∷ [])

accepted : validate_schema (λ _. 20) numbers numbers_schema 0 ≡ ok tt
unfolding validate_schema
accepted = refl

accepted_nesting_example : nesting numbers ≤ 65
accepted_nesting_example = accepted_nesting (λ _. 20) numbers numbers_schema accepted

abbrev search : Tool
search = record {
  name = "products.search";
  risk = read;
  schema = numbers_schema;
  external = false;
  runner = false;
  description = "";
}

registered_once : register_once (search ∷ []) [] ≡ (ok tt, search ∷ [])
unfolding register_once add_tool
registered_once = refl

register_once_again_example :
    Registered (search ∷ []) (search ∷ [])
    × (register_once (search ∷ []) (search ∷ []) ≡ (ok tt, search ∷ []))
register_once_again_example = register_once_again (search ∷ []) [] (search ∷ []) registered_once
