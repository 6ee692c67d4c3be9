-- ===== src/Logic.antt =====
-- engine/src/tools/builtin/logic.rs: the tools that steer a graph. A tool is a function of its
-- inputs and its config. Left out are the descriptions of the tools, logic/wait and logic/deadline,
-- which need a clock, and logic/human_input, which the runner intercepts.
pub mod Operators
pub mod Iteration
mod Tests
use openmirai.Prelude.{
  ℕ, zero, suc, String, Bool, true, false, not, Option, none, some, List, [], ◌∷◌, if◌then◌else◌,
  ◌==◌, ◌||◌, leb, length, get_elem?, any, and_then, unwrap_or, or_else, contains_text, HashMap,
  get,
}
use openmirai.Json.{Json, Value, null, bool, number, string, array, items, as_str, as_array}
use openmirai.State.{Output}

-- The short name of an operator.
unfoldable pub short_name : String → String
short_name operator =
    if ("equals" == operator) || ("equal" == operator)
    then "eq"
    else if ("not_equals" == operator) || ("not_equal" == operator)
    then "neq"
    else if "greater_than" == operator
    then "gt"
    else if "less_than" == operator
    then "lt"
    else if ("greater_or_equal" == operator) || ("greater_than_or_equal" == operator)
    then "gte"
    else if ("less_or_equal" == operator) || ("less_than_or_equal" == operator)
    then "lte"
    else operator

module _ (J : Json) where
  abbrev pub number_as_f64 : J.Number → Option J.F64
  number_as_f64 n = or_else (J.as_f64 n) (or_else (J.i64_as_f64 n) (J.u64_as_f64 n))

  -- logic.rs: as_f64
  abbrev pub value_as_f64 : Value J.Number → Option J.F64
  value_as_f64 (number n) = number_as_f64 n
  value_as_f64 _ = none

  abbrev pub ordered : (J.F64 → J.F64 → Bool) → Option J.F64 → Option J.F64 → Bool
  ordered cmp (some a) (some b) = cmp a b
  ordered cmp (some a) none = false
  ordered cmp none b = false

  abbrev pub among : List (Value J.Number) → Value J.Number → Bool
  among vs v = any (λ w. J.value_eq w v) vs

  abbrev pub in_list : Value J.Number → Option (List (Value J.Number)) → Bool
  in_list v none = false
  in_list v (some vs) = among vs v

  abbrev pub holds : Value J.Number → Value J.Number → Option String → Option String → Bool
  holds field_val compare_val (some haystack) (some needle) = contains_text haystack needle
  holds field_val compare_val _ _ = in_list compare_val (as_array field_val)

  -- The match on the short name.
  unfoldable pub apply_operator : String → Value J.Number → Value J.Number → Bool
  apply_operator operator a b =
      if "eq" == operator
      then J.value_eq a b
      else if "neq" == operator
      then not (J.value_eq a b)
      else if "gt" == operator
      then ordered (λ x y. J.lt y x) (value_as_f64 a) (value_as_f64 b)
      else if "lt" == operator
      then ordered (λ x y. J.lt x y) (value_as_f64 a) (value_as_f64 b)
      else if "gte" == operator
      then ordered (λ x y. J.le y x) (value_as_f64 a) (value_as_f64 b)
      else if "lte" == operator
      then ordered (λ x y. J.le x y) (value_as_f64 a) (value_as_f64 b)
      else if "in" == operator
      then in_list a (as_array b)
      else if "contains" == operator
      then holds a b (as_str a) (as_str b)
      else false

  -- logic.rs: evaluate_condition
  unfoldable pub evaluate_operator : Value J.Number → String → Value J.Number → Bool
  unfolding apply_operator short_name
  evaluate_operator a operator b = apply_operator (short_name operator) a b

  -- ConditionTool::execute
  unfoldable pub condition_tool : Output J.Number → Output J.Number
  condition_tool inputs =
      (
        "result",
        bool (
            evaluate_operator (unwrap_or (get "field" inputs) null)
              (unwrap_or (and_then (get "operator" inputs) as_str) "eq")
              (unwrap_or (get "value" inputs) null)),
      )
      ∷ []

  -- MergeTool::execute
  unfoldable pub merge_tool : Output J.Number → Output J.Number
  merge_tool inputs = ("data", unwrap_or (get "data" inputs) null) ∷ []

  abbrev pub as_index : Value J.Number → Option ℕ
  as_index (number n) = J.as_u64 n
  as_index _ = none

  abbrev pub loop_items : Output J.Number → List (Value J.Number)
  loop_items inputs = unwrap_or (and_then (get "items" inputs) as_array) []

  abbrev pub loop_index : Output J.Number → ℕ
  loop_index inputs = unwrap_or (and_then (get "current_index" inputs) as_index) 0

  -- LoopTool::execute; usize is u64.
  unfoldable pub loop_tool : Output J.Number → Output J.Number
  loop_tool inputs =
      (
        "current_item",
        if leb (length (loop_items inputs)) (loop_index inputs)
            then null
            else unwrap_or (get_elem? (loop_items inputs) (loop_index inputs)) null,
      )
      ∷ ("current_index", number (J.from_u64 (loop_index inputs)))
      ∷ ("done", bool (leb (length (loop_items inputs)) (loop_index inputs)))
      ∷ []

  -- The loop over the cases, from the index of the next.
  unfoldable pub match_case :
      Value J.Number → Value J.Number → ℕ → List (Value J.Number) → Output J.Number
  match_case v default_case i [] =
      ("matched_case", default_case) ∷ ("case_index", number J.minus_one) ∷ []
  match_case v default_case i (c ∷ cases) =
      let rest = match_case v default_case (suc i) cases in
      if J.value_eq v c
      then ("matched_case", c) ∷ ("case_index", number (J.from_u64 i)) ∷ []
      else rest

  abbrev pub switch_value : Output J.Number → Value J.Number
  switch_value inputs = unwrap_or (get "value" inputs) null

  abbrev pub switch_cases : HashMap (Value J.Number) → List (Value J.Number)
  switch_cases config = unwrap_or (and_then (get "cases" config) as_array) []

  -- SwitchTool::execute
  unfoldable pub switch_tool : Output J.Number → HashMap (Value J.Number) → Output J.Number
  unfolding match_case
  switch_tool inputs config =
      match_case (switch_value inputs) (unwrap_or (get "default_case" config) null) 0
        (switch_cases config)
