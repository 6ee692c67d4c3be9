-- ===== src/Logic/Iteration.antt =====
-- engine/src/tools/builtin/logic.rs: the tools that a graph loops and switches with.
use openmirai.Prelude.{
  Option, is_none, ◌++◌, ◌∙◌, if◌then◌else◌, ℕ, zero, suc, ◌+◌, ◌≡◌, refl, ap, true, false, none,
  some, List, [], ◌∷◌, arith, All, length, get_elem?, get, leb, unwrap_or, HashMap,
}
use openmirai.Json.{Json, Value, null, bool, number}
use openmirai.State.{Output}
use openmirai.Logic.{
  loop_items, loop_index, loop_tool, match_case, switch_value, switch_cases, switch_tool,
}

leb-is_none {ℓ} : {A : Type ℓ} (xs : List A) (i : ℕ) → leb (length xs) i ≡ is_none (get_elem? xs i)
leb-is_none [] zero = ground arith
leb-is_none [] (suc i) = ground arith
leb-is_none (x ∷ xs) zero = ground arith
leb-is_none (x ∷ xs) (suc i) = ground (arith, leb-is_none xs i)

module _ (J : Json) where
  -- logic/loop returns the item at its index and done = false, or null and done = true if there
  -- is none, and the index that it was given.
  pub loop_tool_lem :
      (inputs : Output J.Number)
      → (get "current_item" (loop_tool J inputs)
          ≡ some (unwrap_or (get_elem? (loop_items J inputs) (loop_index J inputs)) null))
        × (get "done" (loop_tool J inputs)
            ≡ some (bool (is_none (get_elem? (loop_items J inputs) (loop_index J inputs)))))
        × (get "current_index" (loop_tool J inputs)
            ≡ some (number (J.from_u64 (loop_index J inputs))))
  unfolding loop_tool get
  loop_tool_lem inputs =
      let e = leb-is_none (loop_items J inputs) (loop_index J inputs) in
      rw e (item (get_elem? (loop_items J inputs) (loop_index J inputs)), refl, refl)
    where
      item :
          (o : Option (Value J.Number))
          → some (if is_none o then null else unwrap_or o null) ≡ some (unwrap_or o null)
      item none = refl
      item (some v) = refl

  -- The value equals none of these cases.
  abbrev pub Differs : Value J.Number → List (Value J.Number) → Type 0
  Differs v cases = All (λ c. J.value_eq v c ≡ false) cases

  match_case-first :
      (v default_case : Value J.Number) (i : ℕ) (before after : List (Value J.Number))
      (c : Value J.Number)
      → Differs v before
      → J.value_eq v c ≡ true
      → match_case J v default_case i (before ++ c ∷ after)
        ≡ ("matched_case", c) ∷ ("case_index", number (J.from_u64 (i + length before))) ∷ []
  unfolding match_case
  match_case-first v d i [] after c h e =
      rw e
        (ap (λ n. ("matched_case", c) ∷ ("case_index", number (J.from_u64 n)) ∷ []) (omega arith))
  match_case-first v d i (b ∷ before) after c (h, hs) e = rw h (
      match_case-first v d (suc i) before after c hs e
      ∙ ap (λ n. ("matched_case", c) ∷ ("case_index", number (J.from_u64 n)) ∷ []) (omega arith))

  match_case-none :
      (v default_case : Value J.Number) (i : ℕ) (cases : List (Value J.Number))
      → Differs v cases
      → match_case J v default_case i cases
        ≡ ("matched_case", default_case) ∷ ("case_index", number J.minus_one) ∷ []
  unfolding match_case
  match_case-none v d i [] h = refl
  match_case-none v d i (c ∷ cases) (h, hs) = rw h (match_case-none v d (suc i) cases hs)

  -- logic/switch returns a case that the value equals, with its index, if the value equals none
  -- of the cases before it.
  pub switch_tool-first :
      (inputs : Output J.Number) (config : HashMap (Value J.Number))
      (before after : List (Value J.Number)) (c : Value J.Number)
      → switch_cases J config ≡ before ++ c ∷ after
      → Differs (switch_value J inputs) before
      → J.value_eq (switch_value J inputs) c ≡ true
      → switch_tool J inputs config
        ≡ ("matched_case", c) ∷ ("case_index", number (J.from_u64 (length before))) ∷ []
  unfolding switch_tool
  switch_tool-first inputs config before after c cases differs same = rw cases (
      match_case-first (switch_value J inputs) (unwrap_or (get "default_case" config) null) 0 before
        after c differs same
      ∙ ap (λ n. ("matched_case", c) ∷ ("case_index", number (J.from_u64 n)) ∷ []) (omega arith))

  -- logic/switch returns the default case with the index -1 if the value equals none of the
  -- cases.
  pub switch_tool-default :
      (inputs : Output J.Number) (config : HashMap (Value J.Number))
      → Differs (switch_value J inputs) (switch_cases J config)
      → switch_tool J inputs config
        ≡ ("matched_case", unwrap_or (get "default_case" config) null)
          ∷ ("case_index", number J.minus_one)
          ∷ []
  unfolding switch_tool
  switch_tool-default inputs config differs =
      match_case-none (switch_value J inputs) (unwrap_or (get "default_case" config) null) 0
        (switch_cases J config) differs
