-- ===== src/Graph.antt =====
-- engine/src/core/graph.rs: the graph of an agent, its validation, the generated edge ids and the
-- queries that the runner makes. `position` and `metadata`, which only the visual editor reads,
-- are left out.
pub mod Validation
pub mod Errors
pub mod EdgeIds
pub mod Collisions
pub mod Queries
mod Tests
use openmirai.Prelude.{
  ℕ, ◌+◌, String, not, ◌&&◌, Option, none, some, List, [], ◌∷◌, map, if◌then◌else◌, ◌==◌, eqb,
  is_none, unwrap_or, concat, decimal, filter, HashMap, get, insert, contains, Result, ok, err, try,
}
use openmirai.Json.{Value}

pub data GraphError : Type 0 where
  duplicate_node_id : String → GraphError
  duplicate_edge_id : String → GraphError
  unknown_source_node : (edge_id node_id : String) → GraphError
  unknown_target_node : (edge_id node_id : String) → GraphError
  empty_graph : GraphError
  self_loop : String → GraphError

pub data ComparisonOp : Type 0 where
  eq neq gt lt gte lte in_array contains_value : ComparisonOp

-- Deserialize for ComparisonOp: `none` is the unknown variant.
unfoldable pub parse_op : String → Option ComparisonOp
parse_op s =
    if contains s ("equals" ∷ "equal" ∷ "Eq" ∷ "eq" ∷ [])
    then some eq
    else if contains s ("not_equals" ∷ "not_equal" ∷ "Neq" ∷ "neq" ∷ [])
    then some neq
    else if contains s ("greater_than" ∷ "Gt" ∷ "gt" ∷ [])
    then some gt
    else if contains s ("less_than" ∷ "Lt" ∷ "lt" ∷ [])
    then some lt
    else if contains s ("greater_or_equal" ∷ "greater_than_or_equal" ∷ "Gte" ∷ "gte" ∷ [])
    then some gte
    else if contains s ("less_or_equal" ∷ "less_than_or_equal" ∷ "Lte" ∷ "lte" ∷ [])
    then some lte
    else if contains s ("in" ∷ "In" ∷ [])
    then some in_array
    else if contains s ("contains" ∷ "Contains" ∷ [])
    then some contains_value
    else none

pub record EdgeCondition (N : Type 0) : Type 0 where
  pub on_field : String
  pub op : ComparisonOp
  pub value : Value N

pub record EdgeDef (N : Type 0) : Type 0 where
  pub id : String
  pub source : String
  pub target : String
  pub condition : Option (EdgeCondition N)
  pub data_map : Option (HashMap String)

pub record NodeDef (N : Type 0) : Type 0 where
  pub id : String
  pub tool_type : String
  pub version : String
  pub config : HashMap (Value N)

pub record GraphDef (N : Type 0) : Type 0 where
  pub id : String
  pub name : String
  pub version : String
  pub nodes : List (NodeDef N)
  pub edges : List (EdgeDef N)

-- The pair's key for its first edge, and "{key}__{n}" for its n-th.
abbrev pub generated_id : String → ℕ → String
generated_id key n = if eqb n 1 then key else concat (key ∷ "__" ∷ decimal n ∷ [])

module _ {N : Type 0} where
  abbrev pub node_ids : List (NodeDef N) → List String
  node_ids = map (λ n. n.id)

  abbrev pub edge_ids : List (EdgeDef N) → List String
  edge_ids = map (λ e. e.id)

  -- "{source}__{target}"
  abbrev pub pair_key : EdgeDef N → String
  pair_key e = concat (e.source ∷ "__" ∷ e.target ∷ [])

  -- How often the loop has named the edge's pair, this time included.
  abbrev pub pair_count : HashMap ℕ → EdgeDef N → ℕ
  pair_count counts e = unwrap_or (get (pair_key e) counts) 0 + 1

  -- One round of the loop of auto_generate_edge_ids, with the counts after it.
  unfoldable pub name_edge : HashMap ℕ → EdgeDef N → EdgeDef N × HashMap ℕ
  name_edge counts e =
      if e.id == ""
      then (
        record e { id = generated_id (pair_key e) (pair_count counts e) },
        insert (pair_key e) (pair_count counts e) counts,
      )
      else (e, counts)

  unfoldable pub name_edges : HashMap ℕ → List (EdgeDef N) → List (EdgeDef N)
  unfolding name_edge
  name_edges counts [] = []
  name_edges counts (e ∷ es) =
      let (named, counts') = name_edge counts e in named ∷ name_edges counts' es

  unfoldable pub auto_generate_edge_ids : GraphDef N → GraphDef N
  unfolding name_edges
  auto_generate_edge_ids g = record g { edges = name_edges [] g.edges }

  -- The first loop of validate: the set of node ids, or the first duplicate.
  unfoldable pub check_nodes : List String → List (NodeDef N) → Result (List String) GraphError
  check_nodes seen [] = ok seen
  check_nodes seen (n ∷ ns) =
      let rest = check_nodes (n.id ∷ seen) ns in
      if contains n.id seen then err (duplicate_node_id n.id) else rest

  -- The second loop of validate.
  unfoldable pub check_edges :
      List String → List String → List (EdgeDef N) → Result (Unit {0}) GraphError
  check_edges ids seen [] = ok tt
  check_edges ids seen (e ∷ es) =
      let rest = check_edges ids (e.id ∷ seen) es in
      if contains e.id seen
      then err (duplicate_edge_id e.id)
      else if not (contains e.source ids)
      then err (unknown_source_node e.id e.source)
      else if not (contains e.target ids)
      then err (unknown_target_node e.id e.target)
      else if (e.source == e.target) && is_none e.condition
      then err (self_loop e.source)
      else rest

  abbrev check_all : List (NodeDef N) → List (EdgeDef N) → Result (Unit {0}) GraphError
  check_all [] es = err empty_graph
  check_all (n ∷ ns) es = try (check_nodes [] (n ∷ ns)) (λ ids. check_edges ids [] es)

  unfoldable pub validate : GraphDef N → Result (Unit {0}) GraphError
  validate g = check_all g.nodes g.edges

  -- prepare(&mut self): the graph with its ids, and the verdict.
  unfoldable pub prepare : GraphDef N → GraphDef N × Result (Unit {0}) GraphError
  prepare g = let named = auto_generate_edge_ids g in (named, validate named)

  -- Nodes that no edge has for a target.
  unfoldable pub entry_nodes : GraphDef N → List (NodeDef N)
  entry_nodes g =
      filter (λ (n : NodeDef N). not (contains n.id (map (λ (e : EdgeDef N). e.target) g.edges)))
        g.nodes

  unfoldable pub outgoing_edges : GraphDef N → String → List (EdgeDef N)
  outgoing_edges g node_id = filter (λ (e : EdgeDef N). e.source == node_id) g.edges
