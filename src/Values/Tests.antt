-- ===== src/Values/Tests.antt =====
-- Inputs that lack a field or have one of the wrong type.
use openmirai.Prelude.{
  ◌≡◌, ◌↔◌, refl, ℕ, true, false, some, none, List, String, [], ◌∷◌, ok, err, is_ok, get, insert,
  or_else,
}
use openmirai.Json.{Value, string, number}
use openmirai.Values
use openmirai.Values.{
  FieldSchema, parse_type, type_text, validate_inputs, matches, check_field, value_type_label,
}
use openmirai.Values.Laws.{all_errors, default_in, validate_inputs_iff, get-validate_inputs}
use openmirai.Runner.Tests.{whole}

abbrev name_field : FieldSchema ℕ
name_field = record { name = "name"; expected = Values.text; required = true; default = none }

abbrev count_field : FieldSchema ℕ
count_field = record {
  name = "count";
  expected = Values.number;
  required = false;
  default = some (number 3);
}

abbrev schema : List (FieldSchema ℕ)
schema = name_field ∷ count_field ∷ []

abbrev given : List (String × Value ℕ)
given = ("name", string "a") ∷ []

abbrev enriched : List (String × Value ℕ)
enriched = ("name", string "a") ∷ ("count", number 3) ∷ []

abbrev refusal : List String
refusal =
    "ctx: missing required input 'name'" ∷ "ctx: input 'count' expected number, got string" ∷ []

accepted : validate_inputs whole given schema "ctx" ≡ ok enriched
unfolding validate_inputs check_field matches get insert
accepted = refl

refused : validate_inputs whole (("count", string "a") ∷ []) schema "ctx" ≡ err refusal
unfolding validate_inputs check_field matches get insert type_text value_type_label
refused = refl

validate_inputs_iff_example :
    (is_ok (validate_inputs whole given schema "ctx") ≡ true)
    ↔ (all_errors whole given "ctx" schema ≡ [])
validate_inputs_iff_example = validate_inputs_iff whole given "ctx" schema

get-validate_inputs_example :
    get "count" enriched ≡ or_else (get "count" given) (default_in whole given "ctx" "count" schema)
get-validate_inputs_example = get-validate_inputs whole given "ctx" schema "count" enriched accepted
