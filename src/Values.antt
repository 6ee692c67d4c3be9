-- ===== src/Values.antt =====
-- engine/src/core/value_type.rs: the types of inputs and tool fields, and the check of inputs
-- against a schema. What serde's error for an unknown type name says is left out.
pub mod Laws
mod Tests
use openmirai.Prelude.{
  String, Bool, true, false, Option, none, some, List, [], ◌∷◌, ◌++◌, if◌then◌else◌, ◌==◌, contains,
  ◌||◌, concat, HashMap, get, insert, Result, ok, err,
}
use openmirai.Json.{Json, Value}
use openmirai.Json

pub data ValueType : Type 0 where
  text number integer boolean array object file : ValueType

-- Deserialize for ValueType: `none` is the unknown variant.
unfoldable pub parse_type : String → Option ValueType
parse_type s =
    if contains s ("text" ∷ "string" ∷ [])
    then some text
    else if s == "number"
    then some number
    else if s == "integer"
    then some integer
    else if s == "boolean"
    then some boolean
    else if s == "array"
    then some array
    else if s == "object"
    then some object
    else if s == "json"
    then some object
    else if s == "file"
    then some file
    else none

-- Display for ValueType
unfoldable pub type_text : ValueType → String
type_text text = "text"
type_text number = "number"
type_text integer = "integer"
type_text boolean = "boolean"
type_text array = "array"
type_text object = "object"
type_text file = "file"

unfoldable pub value_type_label : {N : Type 0} → Value N → String
value_type_label Json.null = "null"
value_type_label (Json.bool b) = "boolean"
value_type_label (Json.number n) = "number"
value_type_label (Json.string s) = "string"
value_type_label (Json.array vs) = "array"
value_type_label (Json.object fs) = "object"

-- One line of the schema: (name, type, required, default).
pub record FieldSchema (N : Type 0) : Type 0 where
  pub name : String
  pub expected : ValueType
  pub required : Bool
  pub default : Option (Value N)

-- The loop's variables.
pub record Enriched (N : Type 0) : Type 0 where
  pub enriched : HashMap (Value N)
  pub errors : List String

module _ (J : Json) where
  abbrev is_string : Value J.Number → Bool
  is_string (Json.string s) = true
  is_string _ = false

  abbrev is_number : Value J.Number → Bool
  is_number (Json.number n) = true
  is_number _ = false

  abbrev is_integer : Value J.Number → Bool
  is_integer (Json.number n) = J.is_i64 n || J.is_u64 n
  is_integer _ = false

  abbrev is_boolean : Value J.Number → Bool
  is_boolean (Json.bool b) = true
  is_boolean _ = false

  abbrev is_array : Value J.Number → Bool
  is_array (Json.array vs) = true
  is_array _ = false

  abbrev is_object : Value J.Number → Bool
  is_object (Json.object fs) = true
  is_object _ = false

  unfoldable pub matches : ValueType → Value J.Number → Bool
  matches text v = is_string v
  matches number v = is_number v
  matches integer v = is_integer v
  matches boolean v = is_boolean v
  matches array v = is_array v
  matches object v = is_object v
  matches file v = is_string v

  abbrev pub mismatch_text : String → FieldSchema J.Number → Value J.Number → String
  mismatch_text context f v = concat (
      context
      ∷ ": input '"
      ∷ f.name
      ∷ "' expected "
      ∷ type_text f.expected
      ∷ ", got "
      ∷ value_type_label v
      ∷ [])

  abbrev pub missing_text : String → FieldSchema J.Number → String
  missing_text context f = concat (context ∷ ": missing required input '" ∷ f.name ∷ "'" ∷ [])

  -- A field that the inputs lack: an error if it is required, else its default if it has one.
  abbrev pub absent_field :
      String
      → FieldSchema J.Number
      → Bool
      → Option (Value J.Number)
      → Enriched J.Number
      → Enriched J.Number
  absent_field context f true default e = record e {
    errors = e.errors ++ missing_text context f ∷ [];
  }
  absent_field context f false none e = e
  absent_field context f false (some v) e = record e { enriched = insert f.name v e.enriched }

  abbrev pub present_field :
      String → FieldSchema J.Number → Value J.Number → Enriched J.Number → Enriched J.Number
  present_field context f v e =
      if matches f.expected v
      then e
      else record e { errors = e.errors ++ mismatch_text context f v ∷ [] }

  -- One round of the loop over the schema.
  unfoldable pub check_field :
      HashMap (Value J.Number)
      → String
      → FieldSchema J.Number
      → Enriched J.Number
      → Enriched J.Number
  check_field inputs context f e = elim (get f.name inputs) [
    | some v ↦ present_field context f v e
    | none ↦ absent_field context f f.required f.default e
  ]

  unfoldable pub check_fields :
      HashMap (Value J.Number)
      → String
      → List (FieldSchema J.Number)
      → Enriched J.Number
      → Enriched J.Number
  unfolding check_field
  check_fields inputs context [] e = e
  check_fields inputs context (f ∷ fs) e =
      check_fields inputs context fs (check_field inputs context f e)

  abbrev pub verdict :
      HashMap (Value J.Number) → List String → Result (HashMap (Value J.Number)) (List String)
  verdict enriched [] = ok enriched
  verdict enriched (x ∷ xs) = err (x ∷ xs)

  unfoldable pub validate_inputs :
      HashMap (Value J.Number)
      → List (FieldSchema J.Number)
      → String
      → Result (HashMap (Value J.Number)) (List String)
  unfolding check_fields
  validate_inputs inputs schema context =
      let e = check_fields inputs context schema (record { enriched = inputs; errors = [] }) in
      verdict e.enriched e.errors
