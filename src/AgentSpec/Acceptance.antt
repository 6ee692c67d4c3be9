-- ===== src/AgentSpec/Acceptance.antt =====
-- engine/src/core/agent_spec.rs, validate_agent_inputs: the payloads that are accepted.
use openmirai.Prelude.{
  ◌≡◌, refl, sym, ap, ◌∙◌, ◌↔◌, inl, inr, String, true, false, Option, none, some, List, [], ◌∷◌,
  ◌++◌, arith, HashMap, get, All, Bool-cases, ok,
}
use openmirai.Json.{Value}
use openmirai.AgentSpec.Data.{InputFieldSpec}
use openmirai.AgentSpec.Inputs.{
  InputValidationError, Checked, input_matches, use_default, check_given, check_inputs,
  input_verdict, validate_agent_inputs,
}

-- A list that something was pushed to is not empty.
not-push_error : (e : InputValidationError) (es : List InputValidationError) → ¬ es ++ e ∷ [] ≡ []
not-push_error e [] h = cc h
not-push_error e (x ∷ xs) h = cc h

module _ {N : Type 0} where
  -- A value of the field's type, or no value where the field is not required.
  abbrev pub GivenFits : InputFieldSpec N → Option (Value N) → Type 0
  GivenFits spec (some v) = input_matches spec.field_type v ≡ true
  GivenFits spec none = spec.required ≡ false

  abbrev pub FieldFits : HashMap (Value N) → String × InputFieldSpec N → Type 0
  FieldFits payload field = GivenFits field.1 (get field.0 payload)

  use_default-errors :
      (name : String) (d : Option (Value N)) (c : Checked N)
      → (use_default name d c).errors ≡ c.errors
  use_default-errors name none c = refl
  use_default-errors name (some v) c = refl

  -- One round adds no error exactly where the field fits.
  check_given_iff :
      (name : String) (spec : InputFieldSpec N) (o : Option (Value N)) (c : Checked N)
      → ((check_given name spec o c).errors ≡ []) ↔ ((c.errors ≡ []) × GivenFits spec o)
  check_given_iff name spec (some v) c = elim (Bool-cases (input_matches spec.field_type v)) [
    | inl e ↦ rw e ((λ h. (h, refl)), (λ (h, k). h))
    | inr e ↦
        rw e ((λ h. absurd (not-push_error _ c.errors h)), (λ (h, k). absurd (ground (arith, k))))
  ]
  check_given_iff name spec none c = elim (Bool-cases spec.required) [
    | inl e ↦
        rw e ((λ h. absurd (not-push_error _ c.errors h)), (λ (h, k). absurd (ground (arith, k))))
    | inr e ↦ rw e (
      (λ h. (sym (use_default-errors name spec.default c) ∙ h, refl)),
      (λ (h, k). use_default-errors name spec.default c ∙ h),
    )
  ]

  check_inputs_iff :
      (payload : HashMap (Value N)) (schema : HashMap (InputFieldSpec N)) (c : Checked N)
      → ((check_inputs payload schema c).errors ≡ [])
        ↔ ((c.errors ≡ []) × All (FieldFits payload) schema)
  unfolding check_inputs
  check_inputs_iff payload [] c = ((λ h. (h, tt)), (λ (h, k). h))
  check_inputs_iff payload ((name, spec) ∷ schema) c =
      let c' = check_given name spec (get name payload) c in
      let (only, every) = check_inputs_iff payload schema c' in
      let (here, back) = check_given_iff name spec (get name payload) c in
      (
        (λ h. let (a, b) = only h in let (x, y) = here a in (x, (y, b))),
        (λ (x, (y, b)). every (back (x, y), b)),
      )

  input_verdict-ok :
      (m n : HashMap (Value N)) (es : List InputValidationError)
      → input_verdict m es ≡ ok n
      → es ≡ []
  input_verdict-ok m n [] h = refl
  input_verdict-ok m n (e ∷ es) h = absurd (ground (arith, h))

  -- validate_agent_inputs accepts a payload exactly if for each field of the schema it has a
  -- value of the field's type, or no value and the field is not required.
  pub validate_agent_inputs_iff :
      (payload : HashMap (Value N)) (schema : HashMap (InputFieldSpec N))
      → ((enriched : HashMap (Value N)) × (validate_agent_inputs payload schema ≡ ok enriched))
        ↔ All (FieldFits payload) schema
  unfolding validate_agent_inputs
  validate_agent_inputs_iff payload schema =
      let c : Checked N = record { enriched = payload; errors = [] } in
      let (only, every) = check_inputs_iff payload schema c in
      (
        (λ (m, h). (only (input_verdict-ok _ m _ h)).1),
        (λ h. (
          (check_inputs payload schema c).enriched,
          ap (input_verdict (check_inputs payload schema c).enriched) (every (refl, h)),
        )),
      )
