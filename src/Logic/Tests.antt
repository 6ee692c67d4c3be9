-- ===== src/Logic/Tests.antt =====
-- A condition, a loop and a switch on numbers and texts.
use openmirai.Prelude.{
  ℕ, ◌≡◌, ◌≢◌, refl, arith, true, false, some, none, String, List, [], ◌∷◌, In, here, there, get,
  unwrap_or, get_elem?, is_none,
}
use openmirai.Json.{null, bool, string, number, array, cons, nil}
use openmirai.State.{Output}
use openmirai.Graph.{ComparisonOp, parse_op}
use openmirai.Runner.Routing.{compare_values}
use openmirai.Runner.Tests.{whole}
use openmirai.Logic.{loop_items, loop_index, loop_tool, evaluate_operator}
use openmirai.Logic.Operators.{evaluate_operator-shared, evaluate_operator-pascal}
use openmirai.Logic.Iteration.{loop_tool_lem}

evaluate_operator-shared_example :
    (op : ComparisonOp) × (parse_op "equal" ≡ some op)
    × (evaluate_operator whole (number 1) "equal" (number 2)
        ≡ compare_values whole op (number 1) (number 2))
evaluate_operator-shared_example =
    evaluate_operator-shared whole (λ n h. absurd (ground (arith, h))) "equal" (number 1) (number 2)
      (there (here refl))

evaluate_operator-pascal_example :
    (parse_op "Eq" ≢ none) × (evaluate_operator whole (number 1) "Eq" (number 1) ≡ false)
evaluate_operator-pascal_example =
    evaluate_operator-pascal whole "Eq" (number 1) (number 1) (here refl)

no_operator : parse_op "equals to" ≡ none
unfolding parse_op openmirai.Prelude.contains
no_operator = refl

abbrev second : Output ℕ
second =
    ("items", array (cons (string "a") (cons (string "b") nil))) ∷ ("current_index", number 1) ∷ []

loop_tool_lem_example :
    (get "current_item" (loop_tool whole second)
      ≡ some (unwrap_or (get_elem? (loop_items whole second) (loop_index whole second)) null))
    × (get "done" (loop_tool whole second)
        ≡ some (bool (is_none (get_elem? (loop_items whole second) (loop_index whole second)))))
    × (get "current_index" (loop_tool whole second) ≡ some (number (loop_index whole second)))
loop_tool_lem_example = loop_tool_lem whole second

abbrev routed : Output ℕ
routed = ("value", string "b") ∷ []

abbrev lost : Output ℕ
lost = ("value", string "z") ∷ []

abbrev two_cases : Output ℕ
two_cases =
    ("cases", array (cons (string "a") (cons (string "b") nil))) ∷ ("default_case", string "d") ∷ []
