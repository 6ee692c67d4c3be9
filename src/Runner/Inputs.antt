-- ===== src/Runner/Inputs.antt =====
-- graph_runner.rs, "Input resolution": data_map expressions against the state.
use openmirai.Prelude.{
  String, Option, none, some, List, [], ◌∷◌, ◌==◌, filter, split_once, replace, HashMap, insert,
  or_insert,
}
use openmirai.Json.{Json, Value, string}
use openmirai.Graph.{EdgeDef, NodeDef, GraphDef}
use openmirai.State.{ExecutionState, Output, get_field}

module _ (J : Json) (captures : String → List (String × String × String)) where
  -- A string goes in as it is, any other value as its JSON text.
  abbrev pub replacement : Value J.Number → String
  replacement (string s) = s
  replacement v = J.to_string v

  -- The loop over the matches of a template.
  unfoldable pub fill : ExecutionState J.Number → List (String × String × String) → String → String
  fill state [] result = result
  fill state ((full, node, path) ∷ more) result =
      fill state more (elim (get_field node path state) [
        | none ↦ result
        | some v ↦ replace result full (replacement v)
      ])

  -- "node.field", split at the first dot
  abbrev pub direct_ref :
      ExecutionState J.Number → Option (String × String) → Option (Value J.Number)
  direct_ref state none = none
  direct_ref state (some (node, path)) = get_field node path state

  abbrev pub resolve_matches :
      ExecutionState J.Number → String → List (String × String × String) → Option (Value J.Number)
  resolve_matches state expr [] = direct_ref state (split_once b'.' expr)
  resolve_matches state expr (m ∷ more) = some (string (fill state (m ∷ more) expr))

  unfoldable pub resolve_expression : String → ExecutionState J.Number → Option (Value J.Number)
  unfolding fill
  resolve_expression expr state = resolve_matches state expr (captures expr)

  -- The loop over one data_map.
  unfoldable pub apply_data_map :
      ExecutionState J.Number → HashMap String → Output J.Number → Output J.Number
  unfolding resolve_expression
  apply_data_map state [] inputs = inputs
  apply_data_map state ((param, expr) ∷ more) inputs =
      apply_data_map state more
        (elim (resolve_expression expr state) [ none ↦ inputs | some v ↦ insert param v inputs ])

  -- The loop over the incoming edges.
  unfoldable pub apply_edges :
      ExecutionState J.Number → List (EdgeDef J.Number) → Output J.Number → Output J.Number
  unfolding apply_data_map
  apply_edges state [] inputs = inputs
  apply_edges state (e ∷ es) inputs =
      apply_edges state es
        (elim e.data_map [ none ↦ inputs | some m ↦ apply_data_map state m inputs ])

  unfoldable pub resolve_inputs :
      String → GraphDef J.Number → ExecutionState J.Number → Output J.Number
  unfolding apply_edges
  resolve_inputs node_id g state =
      apply_edges state (filter (λ (e : EdgeDef J.Number). e.target == node_id) g.edges) []

  -- The loop over the node's config: an input of that name stays.
  unfoldable pub merge_config : HashMap (Value J.Number) → Output J.Number → Output J.Number
  merge_config [] inputs = inputs
  merge_config ((key, val) ∷ more) inputs = merge_config more (or_insert key val inputs)

  unfoldable pub resolve_and_merge_inputs :
      NodeDef J.Number → GraphDef J.Number → ExecutionState J.Number → Output J.Number
  unfolding resolve_inputs merge_config
  resolve_and_merge_inputs node g state = merge_config node.config (resolve_inputs node.id g state)
