-- ===== src/AgentSpec/Inputs.antt =====
-- engine/src/core/agent_spec.rs, validate_agent_inputs: a payload against an agent's input schema. A
-- HashMap's loop runs in an order that is not known; here it is the list's.
use openmirai.Prelude.{
  String, Bool, true, false, Option, none, some, List, [], ◌∷◌, ◌++◌, if◌then◌else◌, is_empty_text,
  concat, HashMap, get, insert, Result, ok, err,
}
use openmirai.Json.{Json, Value}
use openmirai.Json
use openmirai.Values.{value_type_label}
use openmirai.AgentSpec.Data.{InputType, InputFieldSpec, text, number, boolean, json, file}

unfoldable pub input_type_text : InputType → String
input_type_text text = "text"
input_type_text number = "number"
input_type_text boolean = "boolean"
input_type_text json = "json"
input_type_text file = "file"

pub record InputValidationError : Type 0 where
  pub field : String
  pub error_type : String
  pub message : String

unfoldable pub input_matches : {N : Type 0} → InputType → Value N → Bool
input_matches text (Json.string s) = true
input_matches number (Json.number n) = true
input_matches boolean (Json.bool b) = true
input_matches json (Json.object fs) = true
input_matches json (Json.array vs) = true
input_matches file (Json.string s) = true
input_matches _ _ = false

-- The loop's variables.
pub record Checked (N : Type 0) : Type 0 where
  pub enriched : HashMap (Value N)
  pub errors : List InputValidationError

abbrev description_text : String → String
description_text d = if is_empty_text d then "" else concat (" (" ∷ d ∷ ")" ∷ [])

module _ {N : Type 0} where
  unfoldable pub mismatch_error : String → InputFieldSpec N → Value N → InputValidationError
  unfolding input_type_text value_type_label
  mismatch_error name spec value = record {
    field = name;
    error_type = "type_mismatch";
    message = concat (
        "input '"
        ∷ name
        ∷ "': expected "
        ∷ input_type_text spec.field_type
        ∷ ", got "
        ∷ value_type_label value
        ∷ []);
  }

  unfoldable pub missing_error : String → InputFieldSpec N → InputValidationError
  missing_error name spec = record {
    field = name;
    error_type = "missing_required";
    message = concat ("missing required input: " ∷ name ∷ description_text spec.description ∷ []);
  }

  abbrev pub push_error : InputValidationError → Checked N → Checked N
  push_error e c = record c { errors = c.errors ++ e ∷ [] }

  abbrev pub use_default : String → Option (Value N) → Checked N → Checked N
  use_default name none c = c
  use_default name (some v) c = record c { enriched = insert name v c.enriched }

  abbrev pub check_given : String → InputFieldSpec N → Option (Value N) → Checked N → Checked N
  check_given name spec (some v) c =
      if input_matches spec.field_type v then c else push_error (mismatch_error name spec v) c
  check_given name spec none c =
      if spec.required
      then push_error (missing_error name spec) c
      else use_default name spec.default c

  unfoldable pub check_inputs :
      HashMap (Value N) → HashMap (InputFieldSpec N) → Checked N → Checked N
  unfolding input_matches mismatch_error missing_error
  check_inputs payload [] c = c
  check_inputs payload ((name, spec) ∷ schema) c =
      check_inputs payload schema (check_given name spec (get name payload) c)

  abbrev pub input_verdict :
      HashMap (Value N)
      → List InputValidationError
      → Result (HashMap (Value N)) (List InputValidationError)
  input_verdict enriched [] = ok enriched
  input_verdict enriched (e ∷ es) = err (e ∷ es)

  unfoldable pub validate_agent_inputs :
      HashMap (Value N)
      → HashMap (InputFieldSpec N)
      → Result (HashMap (Value N)) (List InputValidationError)
  unfolding check_inputs
  validate_agent_inputs payload schema =
      let c = check_inputs payload schema (record { enriched = payload; errors = [] }) in
      input_verdict c.enriched c.errors
