-- ===== src/Tools/Depth.antt =====
-- How deep the arguments of a tool may nest (api-python/platform_runtime/tools.py).
use agentic_works.Tools.{
  Value, Values, Fields, boolean, integer, text, array, object, other, no_values, value, no_fields,
  field, Schema, object_schema, array_schema, string_schema, integer_schema, boolean_schema,
  unknown, validate_schema, validate_items, validate_fields, check_value, property_of,
}
use agentic_works.Base.{
  ℕ, ◌+◌, ◌≤◌, ◌≡◌, arith, ok, max, require-ok, leb, value_error, then-ok, some_or-ok, not_found,
}

mutual
  -- The arrays and objects inside one another, the outermost and an empty innermost one included.
  pub nesting : Value → ℕ
  nesting (array vs) = nesting_items vs + 1
  nesting (object fs) = nesting_fields fs + 1
  nesting (boolean b) = 0
  nesting (integer i) = 0
  nesting (text s) = 0
  nesting other = 0

  pub nesting_items : Values → ℕ
  nesting_items no_values = 0
  nesting_items (value v rest) = max (nesting v) (nesting_items rest)

  pub nesting_fields : Fields → ℕ
  nesting_fields no_fields = 0
  nesting_fields (field n v rest) = max (nesting v) (nesting_fields rest)

mutual
  unfolding validate_schema nesting

  -- A value that `validate_schema` lets pass at a depth nests at most as deep as 65 levels leave.
  pub validate_schema-nesting :
      (size : Value → ℕ) (v : Value) (s : Schema) (depth : ℕ)
      → validate_schema size v s depth ≡ ok tt
      → depth + nesting v ≤ 65
  validate_schema-nesting size (array vs) s depth h =
      let (d, h1) = require-ok (leb depth 64) value_error _ h in
      let (_, h2) = then-ok (check_value size (array vs) s) _ h1 in
      omega (arith, validate_items-nesting size vs s depth (ground (arith, d)) h2)
  validate_schema-nesting size (object fs) s depth h =
      let (d, h1) = require-ok (leb depth 64) value_error _ h in
      let (_, h2) = then-ok (check_value size (object fs) s) _ h1 in
      omega (arith, validate_fields-nesting size fs s depth (ground (arith, d)) h2)
  validate_schema-nesting size (boolean b) s depth h =
      let (d, _) = require-ok (leb depth 64) value_error _ h in ground (arith, d)
  validate_schema-nesting size (integer i) s depth h =
      let (d, _) = require-ok (leb depth 64) value_error _ h in ground (arith, d)
  validate_schema-nesting size (text t) s depth h =
      let (d, _) = require-ok (leb depth 64) value_error _ h in ground (arith, d)
  validate_schema-nesting size other s depth h =
      let (d, _) = require-ok (leb depth 64) value_error _ h in ground (arith, d)

  validate_items-nesting :
      (size : Value → ℕ) (vs : Values) (s : Schema) (depth : ℕ)
      → depth ≤ 64
      → validate_items size vs s (depth + 1) ≡ ok tt
      → depth + nesting_items vs ≤ 64
  validate_items-nesting size no_values s depth d h = omega (arith, d)
  validate_items-nesting size (value v rest) (array_schema enum items lo hi) depth d h =
      let (h1, h2) = then-ok (validate_schema size v items (depth + 1)) _ h in
      omega (
        arith,
        validate_schema-nesting size v items (depth + 1) h1,
        validate_items-nesting size rest (array_schema enum items lo hi) depth d h2,
      )
  validate_items-nesting size (value v rest) (object_schema enum ps required) depth d h =
      absurd (cc)
  validate_items-nesting size (value v rest) (string_schema enum lo hi) depth d h = absurd (cc)
  validate_items-nesting size (value v rest) (integer_schema enum lo hi) depth d h = absurd (cc)
  validate_items-nesting size (value v rest) (boolean_schema enum) depth d h = absurd (cc)
  validate_items-nesting size (value v rest) unknown depth d h = absurd (cc)

  validate_fields-nesting :
      (size : Value → ℕ) (fs : Fields) (s : Schema) (depth : ℕ)
      → depth ≤ 64
      → validate_fields size fs s (depth + 1) ≡ ok tt
      → depth + nesting_fields fs ≤ 64
  validate_fields-nesting size no_fields s depth d h = omega (arith, d)
  validate_fields-nesting size (field n v rest) (object_schema enum ps required) depth d h =
      let (s, _, h1) = some_or-ok (property_of n ps) not_found _ h in
      let (h2, h3) = then-ok (validate_schema size v s (depth + 1)) _ h1 in
      omega (
        arith,
        validate_schema-nesting size v s (depth + 1) h2,
        validate_fields-nesting size rest (object_schema enum ps required) depth d h3,
      )
  validate_fields-nesting size (field n v rest) (array_schema enum items lo hi) depth d h =
      absurd (cc)
  validate_fields-nesting size (field n v rest) (string_schema enum lo hi) depth d h = absurd (cc)
  validate_fields-nesting size (field n v rest) (integer_schema enum lo hi) depth d h = absurd (cc)
  validate_fields-nesting size (field n v rest) (boolean_schema enum) depth d h = absurd (cc)
  validate_fields-nesting size (field n v rest) unknown depth d h = absurd (cc)

-- The arguments that `validate_schema` accepts, whatever the schema and its own depth, have at most 65
-- arrays and objects inside one another: the outermost one, at depth 0, and MAX_SCHEMA_DEPTH (64)
-- below it.
pub accepted_nesting :
    (size : Value → ℕ) (v : Value) (s : Schema)
    → validate_schema size v s 0 ≡ ok tt
    → nesting v ≤ 65
accepted_nesting size v s h = omega (arith, validate_schema-nesting size v s 0 h)
