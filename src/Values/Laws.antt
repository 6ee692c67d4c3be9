-- ===== src/Values/Laws.antt =====
-- engine/src/core/value_type.rs: the errors and the defaults of validate_inputs.
use mathlib.Core.List.{append-nil, append_assoc}
use openmirai.Prelude.{
  sym, ap, if◌then◌else◌, not, ◌&&◌, ◌≡◌, ◌≢◌, refl, ◌↔◌, ◌∙◌, String, Bool, true, false, Option,
  none, some, List, [], ◌∷◌, ◌++◌, arith, All, HashMap, get, insert, get-insert, eq_iff,
  Option-cases, Bool-cases, inl, inr, ok, err, is_ok, map_laws, or_else, ◌==◌, In, here, there, ℕ,
  ◌+◌, length, length-append,
}
use openmirai.Json.{Json, Value}
use openmirai.Values.{
  ValueType, parse_type, type_text, FieldSchema, Enriched, matches, mismatch_text, missing_text,
  absent_field, present_field, check_field, check_fields, verdict, validate_inputs,
}

-- The name that a value type is shown under is read back as that type.
pub parse_type-type_text : (t : ValueType) → parse_type (type_text t) ≡ some t
unfolding parse_type type_text openmirai.Prelude.contains
parse_type-type_text ValueType.text = refl
parse_type-type_text ValueType.number = refl
parse_type-type_text ValueType.integer = refl
parse_type-type_text ValueType.boolean = refl
parse_type-type_text ValueType.array = refl
parse_type-type_text ValueType.object = refl
parse_type-type_text ValueType.file = refl

module _ (J : Json) (inputs : HashMap (Value J.Number)) (context : String) where
  -- The errors that a field deserves.
  abbrev pub errors_of : FieldSchema J.Number → List String
  errors_of f = elim (get f.name inputs) [
    | some v ↦
        if openmirai.Values.matches J f.expected v then [] else mismatch_text J context f v ∷ []
    | none ↦ if f.required then missing_text J context f ∷ [] else []
  ]

  abbrev pub all_errors : List (FieldSchema J.Number) → List String
  all_errors [] = []
  all_errors (f ∷ fs) = errors_of f ++ all_errors fs

  -- The default that a name missing from the inputs gets: that of its last optional field.
  abbrev pub default_in : String → List (FieldSchema J.Number) → Option (Value J.Number)
  default_in k [] = none
  default_in k (f ∷ fs) =
      or_else (default_in k fs) (if (f.name == k) && not f.required then f.default else none)

  absent_field-errors :
      (f : FieldSchema J.Number) (required : Bool) (default : Option (Value J.Number))
      (e : Enriched J.Number)
      → (absent_field J context f required default e).errors
        ≡ e.errors ++ (if required then missing_text J context f ∷ [] else [])
  absent_field-errors f true default e = refl
  absent_field-errors f false none e = sym (append-nil e.errors)
  absent_field-errors f false (some v) e = sym (append-nil e.errors)

  check_field-errors :
      (f : FieldSchema J.Number) (e : Enriched J.Number)
      → (check_field J inputs context f e).errors ≡ e.errors ++ errors_of f
  unfolding check_field
  check_field-errors f e = elim (Option-cases (get f.name inputs)) [
    | inl n ↦ rw (n, check_field, errors_of) (absent_field-errors f f.required f.default e)
    | inr (v, n) ↦ rw (n, check_field, errors_of) (ground (arith, append-nil e.errors))
  ]

  check_fields-errors :
      (fs : List (FieldSchema J.Number)) (e : Enriched J.Number)
      → (check_fields J inputs context fs e).errors ≡ e.errors ++ all_errors fs
  unfolding check_fields
  check_fields-errors [] e = sym (append-nil e.errors)
  check_fields-errors (f ∷ fs) e =
      check_fields-errors fs (check_field J inputs context f e)
      ∙ ap (λ xs. xs ++ all_errors fs) (check_field-errors f e)
      ∙ append_assoc e.errors (errors_of f) (all_errors fs)

  absent_field-get :
      (k : String) (f : FieldSchema J.Number) (required : Bool) (default : Option (Value J.Number))
      (e : Enriched J.Number)
      → get k (absent_field J context f required default e).enriched
        ≡ or_else (if (f.name == k) && not required then default else none) (get k e.enriched)
  absent_field-get k f true default e = ground arith
  absent_field-get k f false none e = ground arith
  absent_field-get k f false (some v) e = ground (arith, get-insert f.name k v e.enriched)

  -- A field changes no name that the inputs have.
  check_field-get_present :
      (k : String) (f : FieldSchema J.Number) (e : Enriched J.Number) (v : Value J.Number)
      → get k inputs ≡ some v
      → get k (check_field J inputs context f e).enriched ≡ get k e.enriched
  unfolding check_field
  check_field-get_present k f e v h = elim (Option-cases (get f.name inputs)) [
    | inl n ↦
        rw (n, check_field)
          (absent_field-get k f f.required f.default e ∙ ground (arith, eq_iff f.name k))
    | inr (w, n) ↦ rw (n, check_field) (ground arith)
  ]

  check_field-get_absent :
      (k : String) (f : FieldSchema J.Number) (e : Enriched J.Number)
      → get k inputs ≡ none
      → get k (check_field J inputs context f e).enriched
        ≡ or_else (if (f.name == k) && not f.required then f.default else none) (get k e.enriched)
  unfolding check_field
  check_field-get_absent k f e h = elim (Option-cases (get f.name inputs)) [
    | inl n ↦ rw (n, check_field) (absent_field-get k f f.required f.default e)
    | inr (w, n) ↦ rw (n, check_field) (ground (arith, eq_iff f.name k))
  ]

  check_fields-get :
      (k : String) (fs : List (FieldSchema J.Number)) (e : Enriched J.Number)
      → get k (check_fields J inputs context fs e).enriched ≡ (elim (get k inputs) [
        | some v ↦ get k e.enriched
        | none ↦ or_else (default_in k fs) (get k e.enriched)
      ])
  unfolding check_fields
  check_fields-get k [] e = ground arith
  check_fields-get k (f ∷ fs) e = elim (Option-cases (get k inputs)) [
    | inl n ↦
        check_fields-get k fs (check_field J inputs context f e)
        ∙ rw (n, check_field-get_absent k f e n) (ground arith)
    | inr (v, n) ↦
        check_fields-get k fs (check_field J inputs context f e)
        ∙ rw (n, check_field-get_present k f e v n) refl
  ]

  -- The errors of a refusal are those of every field, in the order of the schema.
  pub validate_inputs-err :
      (schema : List (FieldSchema J.Number)) (xs : List String)
      → validate_inputs J inputs schema context ≡ err xs
      → xs ≡ all_errors schema
  unfolding validate_inputs
  validate_inputs-err schema xs h =
      ground (arith, check_fields-errors schema (record { enriched = inputs; errors = [] }))

  -- validate_inputs accepts the inputs exactly if no field of the schema deserves an error.
  pub validate_inputs_iff :
      (schema : List (FieldSchema J.Number))
      → (is_ok (validate_inputs J inputs schema context) ≡ true) ↔ (all_errors schema ≡ [])
  unfolding validate_inputs
  validate_inputs_iff schema =
      ground (arith, check_fields-errors schema (record { enriched = inputs; errors = [] }))

  -- Accepted inputs keep every value that was given, and a name that was not given has the
  -- default of its last optional field, if that field has one.
  pub get-validate_inputs :
      (schema : List (FieldSchema J.Number)) (k : String) (out : HashMap (Value J.Number))
      → validate_inputs J inputs schema context ≡ ok out
      → get k out ≡ or_else (get k inputs) (default_in k schema)
  unfolding validate_inputs
  get-validate_inputs schema k out h =
      ground (arith, check_fields-get k schema (record { enriched = inputs; errors = [] }))
