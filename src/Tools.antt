-- ===== src/Tools.antt =====
-- The tools' registry and the check of their arguments (api-python/platform_runtime/tools.py):
-- `validate_schema`, `Registry.add`, `Registry.get` and `register_once`.
pub mod Depth
pub mod Registering
use agentic_works.Base.{
  ℕ, ◌+◌, String, Bool, true, false, ◌&&◌, ◌||◌, Option, none, some, List, [], ◌∷◌, ◌++◌, ◌==◌,
  if◌then◌else◌, Result, ◌>>=◌, ◌>>◌, Check, require, ok, err, leb, value_error, some_or, all, not,
  length, not_found,
}
use agentic_works.Base.Table.{count, first}
use agentic_works.Base.Text.{codes}

-- An integer, as in the library: `negsuc n` is `- (n + 1)`.
pub data ℤ : Type 0 where
  pos : (n : ℕ) → ℤ
  negsuc : (n : ℕ) → ℤ

abbrev pub le_int : ℤ → ℤ → Bool
le_int (pos a) (pos b) = leb a b
le_int (pos a) (negsuc b) = false
le_int (negsuc a) (pos b) = true
le_int (negsuc a) (negsuc b) = leb b a

mutual
  -- A decoded argument; `other` is a null or a number that is no integer.
  pub data Value : Type 0 where
    boolean : (b : Bool) → Value
    integer : (i : ℤ) → Value
    text : (s : String) → Value
    array : (items : Values) → Value
    object : (fields : Fields) → Value
    other : Value

  pub data Values : Type 0 where
    no_values : Values
    value : (v : Value) (rest : Values) → Values

  pub data Fields : Type 0 where
    no_fields : Fields
    field : (name : String) (v : Value) (rest : Fields) → Fields

-- `value in schema['enum']`, where there is one
abbrev pub Enum : Type 0
Enum = Option (Value → Bool)

mutual
  -- A schema by its `type`; `unknown` is any other type. Bounds that are absent have the defaults.
  pub data Schema : Type 0 where
    object_schema : (enum : Enum) (properties : Properties) (required : List String) → Schema
    array_schema : (enum : Enum) (items : Schema) (min_items max_items : ℕ) → Schema
    string_schema : (enum : Enum) (min_length max_length : ℕ) → Schema
    integer_schema : (enum : Enum) (minimum maximum : ℤ) → Schema
    boolean_schema : (enum : Enum) → Schema
    unknown : Schema

  pub data Properties : Type 0 where
    no_properties : Properties
    property : (name : String) (schema : Schema) (rest : Properties) → Properties

abbrev pub max_schema_depth : ℕ
max_schema_depth = 64

abbrev pub max_argument_bytes : ℕ
max_argument_bytes = 20000

abbrev pub in_enum : Enum → Value → Bool
in_enum none v = true
in_enum (some p) v = p v

abbrev pub property_of : String → Properties → Option Schema
property_of name no_properties = none
property_of name (property n s rest) = if name == n then some s else property_of name rest

abbrev pub is_some : Option Schema → Bool
is_some none = false
is_some (some s) = true

-- every key is a property
abbrev pub is_known : Fields → Properties → Bool
is_known no_fields ps = true
is_known (field n v rest) ps = is_some (property_of n ps) && is_known rest ps

abbrev pub has_field : String → Fields → Bool
has_field name no_fields = false
has_field name (field n v rest) = name == n || has_field name rest

abbrev pub count_values : Values → ℕ
count_values no_values = 0
count_values (value v rest) = count_values rest + 1

-- the checks of a value that do not look into it
abbrev pub check_value : (Value → ℕ) → Value → Schema → Check
check_value size (object fs) (object_schema enum ps required) = do
  require (in_enum enum (object fs)) value_error
  require (leb (size (object fs)) max_argument_bytes) value_error
  require (is_known fs ps && all (λ k. has_field k fs) required) value_error
check_value size (array vs) (array_schema enum items lo hi) = do
  require (in_enum enum (array vs)) value_error
  require (leb lo (count_values vs) && leb (count_values vs) hi) value_error
check_value size (text s) (string_schema enum lo hi) = do
  require (in_enum enum (text s)) value_error
  require (leb lo (length (codes s)) && leb (length (codes s)) hi) value_error
check_value size (integer i) (integer_schema enum lo hi) = do
  require (in_enum enum (integer i)) value_error
  require (le_int lo i && le_int i hi) value_error
check_value size (boolean b) (boolean_schema enum) = require (in_enum enum (boolean b)) value_error
check_value size v s = err value_error

unfoldable mutual
  -- `validate_schema`; `size` is the length of an encoding in bytes
  pub validate_schema : (Value → ℕ) → Value → Schema → ℕ → Check
  validate_schema size (array vs) s depth = do
    require (leb depth max_schema_depth) value_error
    check_value size (array vs) s
    validate_items size vs s (depth + 1)
  validate_schema size (object fs) s depth = do
    require (leb depth max_schema_depth) value_error
    check_value size (object fs) s
    validate_fields size fs s (depth + 1)
  validate_schema size (boolean b) s depth = do
    require (leb depth max_schema_depth) value_error
    check_value size (boolean b) s
  validate_schema size (integer i) s depth = do
    require (leb depth max_schema_depth) value_error
    check_value size (integer i) s
  validate_schema size (text t) s depth = do
    require (leb depth max_schema_depth) value_error
    check_value size (text t) s
  validate_schema size other s depth = do
    require (leb depth max_schema_depth) value_error
    check_value size other s

  -- the items, by the schema of an array
  pub validate_items : (Value → ℕ) → Values → Schema → ℕ → Check
  validate_items size no_values s depth = ok tt
  validate_items size (value v rest) (array_schema enum items lo hi) depth = do
    validate_schema size v items depth
    validate_items size rest (array_schema enum items lo hi) depth
  validate_items size (value v rest) s depth = err value_error

  -- the fields, by the properties of an object
  pub validate_fields : (Value → ℕ) → Fields → Schema → ℕ → Check
  validate_fields size no_fields s depth = ok tt
  validate_fields size (field n v rest) (object_schema enum ps required) depth = do
    s ← some_or (property_of n ps) not_found
    validate_schema size v s depth
    validate_fields size rest (object_schema enum ps required) depth
  validate_fields size (field n v rest) s depth = err value_error

-- RISK_LEVELS; `unknown_risk` is any other text
pub data RiskLevel : Type 0 where
  read write destructive physical unknown_risk : RiskLevel

pub record Tool : Type 0 where
  pub name : String
  pub risk : RiskLevel
  pub schema : Schema
  pub external : Bool
  pub runner : Bool
  pub description : String

abbrev pub is_risk : RiskLevel → Bool
is_risk unknown_risk = false
is_risk _ = true

abbrev pub is_tool : String → Tool → Bool
is_tool name t = t.name == name

abbrev pub has_tool : String → List Tool → Bool
has_tool name items = leb 1 (count (is_tool name) items)

-- `Registry.add`
unfoldable pub add_tool : Tool → List Tool → Result (List Tool)
add_tool t items = do
  require (is_risk t.risk) value_error
  require (not (has_tool t.name items)) value_error
  ok (items ++ t ∷ [])

-- `Registry.get`
unfoldable pub get_tool : String → List Tool → Result Tool
get_tool name items = some_or (first (is_tool name) items) not_found

-- `register_once`; the tools added before an exception stay
unfoldable pub register_once : List Tool → List Tool → Check × List Tool
register_once [] items = (ok tt, items)
register_once (t ∷ ts) items =
    if has_tool t.name items
    then register_once ts items
    else elim (add_tool t items) [ ok items' ↦ register_once ts items' | err e ↦ (err e, items) ]
