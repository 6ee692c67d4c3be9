-- ===== src/Graph/Tests.antt =====
-- Graphs like those of graph.rs's own tests, on which the theorems on the graph apply.
use openmirai.Prelude.{ℕ, ◌≡◌, ◌≢◌, ◌↔◌, refl, none, [], ◌∷◌, In, here, there, ok, err, ap}
use openmirai.Graph.{
  NodeDef, EdgeDef, GraphDef, unknown_target_node, validate, prepare, auto_generate_edge_ids,
  check_nodes, check_edges,
}
use openmirai.Graph.Validation.{IsWellFormed, validate_iff}
use openmirai.Graph.Errors.{Violates, validate-err}
use openmirai.Graph.EdgeIds.{final_edges, auto_generate-final}
use openmirai.Graph.Collisions.{generated_id_collision}

abbrev node_a : NodeDef ℕ
node_a = record { id = "a"; tool_type = "logic/condition"; version = "1"; config = [] }

abbrev node_b : NodeDef ℕ
node_b = record { id = "b"; tool_type = "logic/merge"; version = "1"; config = [] }

abbrev edge : EdgeDef ℕ
edge = record { id = "a__b"; source = "a"; target = "b"; condition = none; data_map = none }

abbrev unnamed : EdgeDef ℕ
unnamed = record { id = ""; source = "a"; target = "b"; condition = none; data_map = none }

abbrev astray : EdgeDef ℕ
astray = record { id = "e1"; source = "a"; target = "c"; condition = none; data_map = none }

abbrev linear : GraphDef ℕ
linear = record {
  id = "g";
  name = "g";
  version = "1";
  nodes = node_a ∷ node_b ∷ [];
  edges = edge ∷ [];
}

abbrev broken : GraphDef ℕ
broken = record {
  id = "g";
  name = "g";
  version = "1";
  nodes = node_a ∷ node_b ∷ [];
  edges = astray ∷ [];
}

abbrev doubled : GraphDef ℕ
doubled = record {
  id = "g";
  name = "g";
  version = "1";
  nodes = node_a ∷ node_b ∷ [];
  edges = edge ∷ unnamed ∷ [];
}

abbrev parallel : GraphDef ℕ
parallel = record {
  id = "g";
  name = "g";
  version = "1";
  nodes = node_a ∷ node_b ∷ [];
  edges = unnamed ∷ unnamed ∷ [];
}

linear_ok : validate linear ≡ ok tt
unfolding validate check_nodes openmirai.Prelude.contains check_edges
linear_ok = refl

broken_err : validate broken ≡ err (unknown_target_node "e1" "c")
unfolding validate check_nodes openmirai.Prelude.contains check_edges
broken_err = refl

validate_iff_example : (validate linear ≡ ok tt) ↔ IsWellFormed linear
validate_iff_example = validate_iff linear

validate-err_example : Violates broken (unknown_target_node "e1" "c")
validate-err_example = validate-err broken (unknown_target_node "e1" "c") broken_err

auto_generate-final_example :
    auto_generate_edge_ids parallel
    ≡ record parallel { edges = final_edges [] (unnamed ∷ unnamed ∷ []) }
auto_generate-final_example = auto_generate-final parallel

generated_id_collision_example : (prepare doubled).1 ≢ ok tt
generated_id_collision_example =
    generated_id_collision doubled edge unnamed (here refl) (there (here refl)) refl refl
