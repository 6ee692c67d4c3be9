-- ===== src/AgentSpec/Loading.antt =====
-- engine/src/core/agent_spec.rs: auto_generate_edge_ids, validate, to_graph, and the loading of a
-- file, which calls the file system, serde_yaml and the path's extension as parameters.
use openmirai.Prelude.{
  ℕ, ◌+◌, String, not, Option, none, some, List, [], ◌∷◌, map, if◌then◌else◌, ◌==◌, HashMap, get,
  insert, contains, Result, ok, err, try, unwrap_or, concat, eqb,
}
use openmirai.Graph.{NodeDef, EdgeDef, GraphDef, GraphError, generated_id, validate}
use openmirai.AgentSpec.Data.{
  AgentSpecError, AgentType, AgentScheduleSpec, AgentNodeSpec, AgentEdgeSpec, AgentSpec,
  duplicate_node_ids, duplicate_edge_ids, unknown_source_node, unknown_target_node,
  invalid_schedule, unsupported_extension, managed, live,
}

-- HashSet::insert
abbrev pub set_insert : String → List String → List String
set_insert x seen = if contains x seen then seen else x ∷ seen

-- The ids that stand in the set already, in order.
unfoldable pub duplicates : List String → List String → List String
duplicates seen [] = []
duplicates seen (x ∷ xs) =
    let rest = duplicates (set_insert x seen) xs in if contains x seen then x ∷ rest else rest

-- The set after all of them.
unfoldable pub seen_after : List String → List String → List String
seen_after seen [] = seen
seen_after seen (x ∷ xs) = seen_after (set_insert x seen) xs

abbrev pub refuse_some :
    (List String → AgentSpecError) → List String → Result (Unit {0}) AgentSpecError
refuse_some e [] = ok tt
refuse_some e (x ∷ xs) = err (e (x ∷ xs))

-- PRD-008: the schedule of a live agent.
abbrev pub check_interval : Option ℕ → Option String → Result (Unit {0}) AgentSpecError
check_interval none none =
    err (invalid_schedule "schedule must have exactly one of: interval_seconds, cron")
check_interval (some n) (some c) =
    err (invalid_schedule "schedule must have exactly one of: interval_seconds, cron")
check_interval (some n) none =
    if eqb n 0 then err (invalid_schedule "interval_seconds must be >= 1") else ok tt
check_interval none (some c) =
    err (invalid_schedule "cron support coming soon, use interval_seconds")

unfoldable pub check_schedule :
    AgentType → Option AgentScheduleSpec → Result (Unit {0}) AgentSpecError
check_schedule live none = err (invalid_schedule "live agents require a schedule section")
check_schedule managed (some s) = err (invalid_schedule "schedule is only valid for live agents")
check_schedule live (some s) = check_interval s.interval_seconds s.cron
check_schedule managed none = ok tt

abbrev pub graph_result : Result (Unit {0}) GraphError → Result (Unit {0}) AgentSpecError
graph_result (ok u) = ok tt
graph_result (err e) = err (AgentSpecError.graph e)

module _ {N : Type 0} where
  abbrev pub edge_key : AgentEdgeSpec N → String
  edge_key e = concat (e.source ∷ "__" ∷ e.target ∷ [])

  -- How often the pair has been named, this time included.
  abbrev pub edge_count : HashMap ℕ → AgentEdgeSpec N → ℕ
  edge_count counts e = unwrap_or (get (edge_key e) counts) 0 + 1

  -- One round of the loop of auto_generate_edge_ids.
  unfoldable pub name_spec_edge : HashMap ℕ → AgentEdgeSpec N → AgentEdgeSpec N × HashMap ℕ
  name_spec_edge counts e =
      if e.id == ""
      then (
        record e { id = generated_id (edge_key e) (edge_count counts e) },
        insert (edge_key e) (edge_count counts e) counts,
      )
      else (e, counts)

  unfoldable pub name_spec_edges : HashMap ℕ → List (AgentEdgeSpec N) → List (AgentEdgeSpec N)
  unfolding name_spec_edge
  name_spec_edges counts [] = []
  name_spec_edges counts (e ∷ es) =
      let (named, counts') = name_spec_edge counts e in named ∷ name_spec_edges counts' es

  unfoldable pub auto_generate_spec_ids : AgentSpec N → AgentSpec N
  unfolding name_spec_edges
  auto_generate_spec_ids spec = record spec {
    graph = record spec.graph { edges = name_spec_edges [] spec.graph.edges };
  }

  -- The loop over the edge references.
  unfoldable pub check_references :
      List String → List (AgentEdgeSpec N) → Result (Unit {0}) AgentSpecError
  check_references ids [] = ok tt
  check_references ids (e ∷ es) =
      let rest = check_references ids es in
      if not (contains e.source ids)
      then err (unknown_source_node e.id e.source)
      else if not (contains e.target ids)
      then err (unknown_target_node e.id e.target)
      else rest

  abbrev pub to_node : AgentNodeSpec N → NodeDef N
  to_node n = record { id = n.id; tool_type = n.tool_type; version = n.version; config = n.config }

  abbrev pub to_edge : AgentEdgeSpec N → EdgeDef N
  to_edge e = record {
    id = e.id;
    source = e.source;
    target = e.target;
    condition = e.condition;
    data_map = e.data_map;
  }

  -- to_graph, with the graph's id given or random.
  unfoldable pub to_graph : AgentSpec N → String → GraphDef N
  to_graph spec gid = record {
    id = gid;
    name = spec.name;
    version = spec.version;
    nodes = map to_node spec.graph.nodes;
    edges = map to_edge spec.graph.edges;
  }

  abbrev pub spec_node_ids : AgentSpec N → List String
  spec_node_ids spec = map (λ n. n.id) spec.graph.nodes

  abbrev pub spec_edge_ids : AgentSpec N → List String
  spec_edge_ids spec = map (λ e. e.id) spec.graph.edges

  -- The checks of validate, after the ids are generated.
  unfoldable pub check_spec : AgentSpec N → String → Result (Unit {0}) AgentSpecError
  unfolding to_graph check_references duplicates seen_after check_schedule
  check_spec spec gid =
      try (refuse_some duplicate_node_ids (duplicates [] (spec_node_ids spec))) (λ u.
        try (refuse_some duplicate_edge_ids (duplicates [] (spec_edge_ids spec))) (λ v.
          try (check_references (seen_after [] (spec_node_ids spec)) spec.graph.edges) (λ x.
            try (check_schedule spec.agent_type spec.schedule)
              (λ y. graph_result (validate (to_graph spec gid))))))

  -- validate(&mut self): the spec with its ids, and the verdict.
  unfoldable pub validate_spec :
      AgentSpec N → String → AgentSpec N × Result (Unit {0}) AgentSpecError
  unfolding auto_generate_spec_ids check_spec
  validate_spec spec gid = let named = auto_generate_spec_ids spec in (named, check_spec named gid)

  abbrev pub keep_spec :
      AgentSpec N × Result (Unit {0}) AgentSpecError → Result (AgentSpec N) AgentSpecError
  keep_spec (spec, ok u) = ok spec
  keep_spec (spec, err e) = err e

  -- from_yaml, with serde_yaml's parse
  unfoldable pub from_yaml :
      (String → Result (AgentSpec N) AgentSpecError)
      → String
      → String
      → Result (AgentSpec N) AgentSpecError
  unfolding validate_spec
  from_yaml parse gid text = try (parse text) (λ spec. keep_spec (validate_spec spec gid))

  -- from_file, with the path's extension and the file's text
  unfoldable pub from_file :
      (String → Result (AgentSpec N) AgentSpecError)
      → (extension : String → String) → (read : String → Result String AgentSpecError) → String
      → String
      → Result (AgentSpec N) AgentSpecError
  unfolding from_yaml
  from_file parse extension read gid path =
      if contains (extension path) ("yaml" ∷ "yml" ∷ [])
      then try (read path) (λ content. from_yaml parse gid content)
      else err (
          unsupported_extension
            (concat ("." ∷ extension path ∷ " — agent specs must be YAML (.yaml or .yml)" ∷ [])))
