-- ===== src/Runner/Routing.antt =====
-- graph_runner.rs, "Edge / condition evaluation", find_fanout_join and the node index.
use openmirai.Prelude.{
  ℕ, suc, String, Bool, false, not, Option, none, some, List, [], ◌∷◌, map, is_none, filter, find,
  any, all, contains, contains_text, head?, HashMap, get, insert,
}
use openmirai.Json.{Json, Value, number, string, array, items}
use openmirai.Graph.{
  ComparisonOp, eq, neq, gt, lt, gte, lte, in_array, contains_value, EdgeCondition, EdgeDef,
  NodeDef, GraphDef, outgoing_edges,
}
use openmirai.State.{Output}

module _ (J : Json) where
  -- helpers.rs: as_f64
  abbrev pub as_f64 : Value J.Number → Option J.F64
  as_f64 (number n) = J.as_f64 n
  as_f64 _ = none

  -- helpers.rs: compare_numbers
  abbrev pub compare_numbers : Value J.Number → Value J.Number → (J.F64 → J.F64 → Bool) → Bool
  compare_numbers a b cmp = elim (as_f64 a) [
    | none ↦ false
    | some x ↦ elim (as_f64 b) [ none ↦ false | some y ↦ cmp x y ]
  ]

  -- arr.contains(v)
  abbrev pub array_contains : List (Value J.Number) → Value J.Number → Bool
  array_contains vs v = any (λ w. J.value_eq w v) vs

  -- `actual` is in `expected`, which must be an array.
  abbrev pub is_in : Value J.Number → Value J.Number → Bool
  is_in actual (array vs) = array_contains (items vs) actual
  is_in actual _ = false

  -- A string or an array contains `expected`.
  abbrev pub value_contains : Value J.Number → Value J.Number → Bool
  value_contains (string s) (string sub) = contains_text s sub
  value_contains (array vs) expected = array_contains (items vs) expected
  value_contains _ _ = false

  unfoldable pub compare_values : ComparisonOp → Value J.Number → Value J.Number → Bool
  compare_values eq actual expected = J.value_eq actual expected
  compare_values neq actual expected = not (J.value_eq actual expected)
  compare_values gt actual expected = compare_numbers actual expected (λ a b. J.lt b a)
  compare_values lt actual expected = compare_numbers actual expected (λ a b. J.lt a b)
  compare_values gte actual expected = compare_numbers actual expected (λ a b. J.le b a)
  compare_values lte actual expected = compare_numbers actual expected (λ a b. J.le a b)
  compare_values in_array actual expected = is_in actual expected
  compare_values contains_value actual expected = value_contains actual expected

  unfoldable pub evaluate_condition : Output J.Number → EdgeCondition J.Number → Bool
  unfolding compare_values
  evaluate_condition output c = elim (get c.on_field output) [
    | none ↦ false
    | some actual ↦ compare_values c.op actual c.value
  ]

  -- The test of the first pass: a conditional edge whose condition holds.
  abbrev pub edge_matches : Output J.Number → EdgeDef J.Number → Bool
  edge_matches output e = elim e.condition [ none ↦ false | some c ↦ evaluate_condition output c ]

  abbrev pub targets : List (EdgeDef J.Number) → List String
  targets = map (λ (e : EdgeDef J.Number). e.target)

  abbrev pub unconditional : List (EdgeDef J.Number) → List (EdgeDef J.Number)
  unconditional = filter (λ (e : EdgeDef J.Number). is_none e.condition)

  -- The two passes over the outgoing edges; without any, both find nothing.
  abbrev pub next_targets : Output J.Number → List (EdgeDef J.Number) → List String
  next_targets output outgoing = elim (find (edge_matches output) outgoing) [
    | some e ↦ e.target ∷ []
    | none ↦ targets (unconditional outgoing)
  ]

  unfoldable pub resolve_all_next_nodes : String → Output J.Number → GraphDef J.Number → List String
  resolve_all_next_nodes node_id output g = next_targets output (outgoing_edges g node_id)

  unfoldable pub resolve_next_node : String → Output J.Number → GraphDef J.Number → Option String
  unfolding resolve_all_next_nodes
  resolve_next_node node_id output g = head? (resolve_all_next_nodes node_id output g)

  -- The unconditional successors of one parallel node.
  abbrev pub successors : GraphDef J.Number → String → List String
  successors g node_id = targets (unconditional (outgoing_edges g node_id))

  -- The successors of the first parallel node that are successors of every one.
  abbrev pub common_successors : List (List String) → List String
  common_successors [] = []
  common_successors (first ∷ sets) =
      filter (λ n. all (λ (s : List String). contains n s) (first ∷ sets)) first

  unfoldable pub find_fanout_join :
      (List String → Option String) → List String → GraphDef J.Number → Option String
  find_fanout_join first_of_set parallel g =
      first_of_set (common_successors (map (successors g) parallel))

-- node_idx of run_from: of two nodes with one id, the last one wins.
unfoldable pub index_nodes : {N : Type 0} → ℕ → List (NodeDef N) → HashMap ℕ → HashMap ℕ
index_nodes i [] idx = idx
index_nodes i (n ∷ ns) idx = index_nodes (suc i) ns (insert n.id i idx)
