-- ===== src/AgentSpec/Tests.antt =====
-- A live agent of two nodes and one edge without an id.
use openmirai.Prelude.{
  ℕ, ◌≡◌, refl, ◌↔◌, String, true, none, some, [], ◌∷◌, All, HashMap, get, insert, ok, contains,
}
use openmirai.Json.{Value, string}
use openmirai.Graph.{prepare, validate, check_nodes, check_edges}
use openmirai.AgentSpec.Data.{
  AgentSpec, AgentNodeSpec, InputFieldSpec, live, continue, default_config, text,
}
use openmirai.AgentSpec.Loading.{
  validate_spec, to_graph, check_schedule, auto_generate_spec_ids, name_spec_edges, name_spec_edge,
  check_spec, duplicates, seen_after, check_references,
}
use openmirai.AgentSpec.Inputs.{validate_agent_inputs}
use openmirai.AgentSpec.Agreement.{validate_spec_iff, prepare-to_graph}
use openmirai.AgentSpec.Acceptance.{FieldFits, validate_agent_inputs_iff}

abbrev node : String → AgentNodeSpec ℕ
node id = record { id = id; tool_type = "logic/merge"; version = "v1"; config = [] }

abbrev spec : AgentSpec ℕ
spec = record {
  name = "watcher";
  description = "";
  version = "v1";
  agent_type = live;
  system_prompt = none;
  soul = none;
  inputs = none;
  outputs = none;
  graph = record {
    nodes = node "a" ∷ node "b" ∷ [];
    edges = record { id = ""; source = "a"; target = "b"; condition = none; data_map = none } ∷ [];
    memory = none;
  };
  schedule = some (record {
    interval_seconds = some 5;
    cron = none;
    max_cycles = none;
    on_cycle_error = continue;
  });
  triggers = [];
  config = default_config;
  resources = [];
  metadata = [];
}

abbrev schema : HashMap (InputFieldSpec ℕ)
schema =
    (
      "q",
      record { field_type = text; required = true; description = "the question"; default = none },
    )
    ∷ []

-- The spec is valid.
spec_ok : (validate_spec spec "g").1 ≡ ok tt
unfolding validate_spec auto_generate_spec_ids name_spec_edges name_spec_edge check_spec duplicates
    seen_after check_references check_schedule to_graph validate check_nodes check_edges contains
    get insert
spec_ok = refl

validate_spec_iff_example : ((validate_spec spec "g").1 ≡ ok tt) ↔ (
    ((prepare (to_graph spec "g")).1 ≡ ok tt)
    × (check_schedule spec.agent_type spec.schedule ≡ ok tt))
validate_spec_iff_example = validate_spec_iff spec "g"

prepare-to_graph_example :
    prepare (to_graph (validate_spec spec "g").0 "g")
    ≡ (to_graph (validate_spec spec "g").0 "g", ok tt)
prepare-to_graph_example = prepare-to_graph spec "g" spec_ok

validate_agent_inputs_iff_example :
    ((enriched : HashMap (Value ℕ)) × (validate_agent_inputs (("q", string "why") ∷ []) schema
        ≡ ok enriched))
    ↔ All (FieldFits (("q", string "why") ∷ [])) schema
validate_agent_inputs_iff_example = validate_agent_inputs_iff (("q", string "why") ∷ []) schema
