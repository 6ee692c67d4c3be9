-- ===== src/AgentSpec/Agreement.antt =====
-- engine/src/core/agent_spec.rs and engine/src/core/graph.rs: the checks of a spec against those of
-- its graph.
use openmirai.Prelude.{
  ◌≡◌, refl, sym, ap, ◌∙◌, subst, ◌↔◌, ◌⊎◌, inl, inr, ℕ, String, List, [], ◌∷◌, map, arith, ◌==◌,
  HashMap, insert, In, here, there, All, Distinct, Fresh, Fresh-iff, contains, contains_iff,
  contains_of_not-In, Bool-cases, Result, ok, err, try,
}
use openmirai.Graph.{
  GraphError, generated_id, node_ids, edge_ids, name_edge, name_edges, auto_generate_edge_ids,
  validate, prepare,
}
use openmirai.Graph.Validation.{EdgeFits, validate_iff}
use openmirai.Graph.EdgeIds.{auto_generate_idem}
use openmirai.AgentSpec.Data.{
  AgentSpec, AgentSpecError, duplicate_node_ids, duplicate_edge_ids, AgentNodeSpec, AgentEdgeSpec,
}
use openmirai.AgentSpec.Loading.{
  set_insert, edge_key, edge_count, duplicates, seen_after, refuse_some, check_schedule,
  graph_result, name_spec_edge, name_spec_edges, auto_generate_spec_ids, check_references, to_node,
  to_edge, to_graph, spec_node_ids, spec_edge_ids, check_spec, validate_spec,
}

duplicates-Fresh : (seen ids : List String) → Fresh seen ids → duplicates seen ids ≡ []
unfolding duplicates
duplicates-Fresh seen [] h = refl
duplicates-Fresh seen (x ∷ xs) h =
    rw (contains_of_not-In x seen h.0) (duplicates-Fresh (x ∷ seen) xs h.1)

In-set_insert : (k x : String) (seen : List String) → In k seen → In k (set_insert x seen)
In-set_insert k x seen i = elim (Bool-cases (contains x seen)) [
  | inl e ↦ rw e i
  | inr e ↦ rw e (there i)
]

In-set_insert-self : (x : String) (seen : List String) → In x (set_insert x seen)
In-set_insert-self x seen = elim (Bool-cases (contains x seen)) [
  | inl e ↦ rw e ((contains_iff x seen).0 e)
  | inr e ↦ rw e (here refl)
]

In-seen_after :
    (k : String) (seen ids : List String) → In k seen ⊎ In k ids → In k (seen_after seen ids)
unfolding seen_after
In-seen_after k seen [] (inl i) = i
In-seen_after k seen [] (inr i) = elim i [ ]
In-seen_after k seen (x ∷ xs) (inl i) =
    In-seen_after k (set_insert x seen) xs (inl (In-set_insert k x seen i))
In-seen_after k seen (x ∷ xs) (inr (here e)) =
    In-seen_after k (set_insert x seen) xs
      (inl (subst (λ y. In y (set_insert x seen)) (sym e) (In-set_insert-self x seen)))
In-seen_after k seen (x ∷ xs) (inr (there i)) = In-seen_after k (set_insert x seen) xs (inr i)

-- Two checks in a row that succeed.
try-ok :
    (r s : Result (Unit {0}) AgentSpecError)
    → try r (λ (u : Unit {0}). s) ≡ ok tt
    → (r ≡ ok tt) × (s ≡ ok tt)
try-ok (ok u) s h = (refl, h)
try-ok (err e) s h = absurd (ground (arith, h))

graph_result-ok : (r : Result (Unit {0}) GraphError) → graph_result r ≡ ok tt → r ≡ ok tt
graph_result-ok (ok u) h = refl
graph_result-ok (err e) h = absurd (ground (arith, h))

module _ {N : Type 0} where
  to_edge-name_spec_edges :
      (counts : HashMap ℕ) (es : List (AgentEdgeSpec N))
      → map to_edge (name_spec_edges counts es) ≡ name_edges counts (map to_edge es)
  unfolding name_spec_edges name_edges name_spec_edge name_edge
  to_edge-name_spec_edges counts [] = refl
  to_edge-name_spec_edges counts (e ∷ es) = elim (Bool-cases (e.id == "")) [
    | inl h ↦ rw h (
        ap (λ fs. to_edge (record e { id = generated_id (edge_key e) (edge_count counts e) }) ∷ fs)
          (to_edge-name_spec_edges (insert (edge_key e) (edge_count counts e) counts) es))
    | inr h ↦ rw h (ap (λ fs. to_edge e ∷ fs) (to_edge-name_spec_edges counts es))
  ]

  -- The loop that names the edges of a spec is that of a graph.
  pub to_graph-auto_generate_spec_ids :
      (spec : AgentSpec N) (gid : String)
      → to_graph (auto_generate_spec_ids spec) gid ≡ auto_generate_edge_ids (to_graph spec gid)
  unfolding to_graph auto_generate_spec_ids auto_generate_edge_ids
  to_graph-auto_generate_spec_ids spec gid =
      ap (λ es. record (to_graph spec gid) { edges = es })
        (to_edge-name_spec_edges [] spec.graph.edges)

  node_ids-to_node :
      (ns : List (AgentNodeSpec N))
      → node_ids (map to_node ns) ≡ map (λ (n : AgentNodeSpec N). n.id) ns
  node_ids-to_node [] = refl
  node_ids-to_node (n ∷ ns) = ap (λ l. n.id ∷ l) (node_ids-to_node ns)

  edge_ids-to_edge :
      (es : List (AgentEdgeSpec N))
      → edge_ids (map to_edge es) ≡ map (λ (e : AgentEdgeSpec N). e.id) es
  edge_ids-to_edge [] = refl
  edge_ids-to_edge (e ∷ es) = ap (λ l. e.id ∷ l) (edge_ids-to_edge es)

  check_references_ok :
      (ids seen : List String) (es : List (AgentEdgeSpec N))
      → ((k : String) → In k ids → In k seen)
      → All (EdgeFits ids) (map to_edge es)
      → check_references seen es ≡ ok tt
  unfolding check_references
  check_references_ok ids seen [] sub h = refl
  check_references_ok ids seen (e ∷ es) sub ((s, t, loop), rest) =
      rw ((contains_iff e.source seen).1 (sub _ s))
        (rw ((contains_iff e.target seen).1 (sub _ t)) (check_references_ok ids seen es sub rest))

  check_spec-ok :
      (spec : AgentSpec N) (gid : String)
      → validate (to_graph spec gid) ≡ ok tt
      → check_schedule spec.agent_type spec.schedule ≡ ok tt
      → check_spec spec gid ≡ ok tt
  unfolding check_spec to_graph
  check_spec-ok spec gid v s =
      let w = (validate_iff (to_graph spec gid)).0 v in
      let nodes : Fresh [] (spec_node_ids spec) =
        (Fresh-iff _).1 (subst Distinct (node_ids-to_node spec.graph.nodes) w.distinct_nodes) in
      let edges : Fresh [] (spec_edge_ids spec) =
        (Fresh-iff _).1 (subst Distinct (edge_ids-to_edge spec.graph.edges) w.distinct_edges) in
      let refs =
        check_references_ok (spec_node_ids spec) (seen_after [] (spec_node_ids spec))
          spec.graph.edges (λ k i. In-seen_after k [] (spec_node_ids spec) (inr i))
          (subst (λ ids. All (EdgeFits ids) (map to_edge spec.graph.edges))
            (node_ids-to_node spec.graph.nodes) w.edges_fit) in
      rw (duplicates-Fresh [] (spec_node_ids spec) nodes)
        (rw (duplicates-Fresh [] (spec_edge_ids spec) edges) (rw refs (rw s (rw v refl))))

  ok-check_spec :
      (spec : AgentSpec N) (gid : String)
      → check_spec spec gid ≡ ok tt
      → (validate (to_graph spec gid) ≡ ok tt)
        × (check_schedule spec.agent_type spec.schedule ≡ ok tt)
  unfolding check_spec
  ok-check_spec spec gid h =
      let valid : Result (Unit {0}) AgentSpecError = graph_result (validate (to_graph spec gid)) in
      let schedule = check_schedule spec.agent_type spec.schedule in
      let references = check_references (seen_after [] (spec_node_ids spec)) spec.graph.edges in
      let edges = refuse_some duplicate_edge_ids (duplicates [] (spec_edge_ids spec)) in
      let nodes = refuse_some duplicate_node_ids (duplicates [] (spec_node_ids spec)) in
      let last = try schedule (λ (u : Unit {0}). valid) in
      let later = try references (λ (u : Unit {0}). last) in
      let (n, a) = try-ok nodes (try edges (λ (u : Unit {0}). later)) h in
      let (e, b) = try-ok edges later a in
      let (r, c) = try-ok references last b in
      let (t, d) = try-ok schedule valid c in (graph_result-ok _ d, t)

  -- AgentSpec::validate succeeds exactly if prepare succeeds on the graph of the spec and the
  -- schedule fits the type of the agent; its own checks of ids and references refuse nothing
  -- more.
  pub validate_spec_iff :
      (spec : AgentSpec N) (gid : String)
      → ((validate_spec spec gid).1 ≡ ok tt) ↔ (
          ((prepare (to_graph spec gid)).1 ≡ ok tt)
          × (check_schedule spec.agent_type spec.schedule ≡ ok tt))
  unfolding validate_spec prepare
  validate_spec_iff spec gid =
      let same = to_graph-auto_generate_spec_ids spec gid in
      (
        (λ h.
            let (v, s) = ok-check_spec (auto_generate_spec_ids spec) gid h in
            (subst (λ g. validate g ≡ ok tt) same v, s)),
        (λ (v, s).
            check_spec-ok (auto_generate_spec_ids spec) gid
              (subst (λ g. validate g ≡ ok tt) (sym same) v) s),
      )

  -- The graph of a spec that validate has accepted, ids generated, is accepted by prepare, which
  -- changes nothing in it.
  pub prepare-to_graph :
      (spec : AgentSpec N) (gid : String)
      → (validate_spec spec gid).1 ≡ ok tt
      → prepare (to_graph (validate_spec spec gid).0 gid)
        ≡ (to_graph (validate_spec spec gid).0 gid, ok tt)
  unfolding validate_spec prepare
  prepare-to_graph spec gid h =
      let same = to_graph-auto_generate_spec_ids spec gid in
      let (v, s) = ok-check_spec (auto_generate_spec_ids spec) gid h in
      let again : auto_generate_edge_ids (to_graph (auto_generate_spec_ids spec) gid)
          ≡ to_graph (auto_generate_spec_ids spec) gid =
        ap auto_generate_edge_ids same ∙ auto_generate_idem (to_graph spec gid) ∙ sym same in
      rw again (rw v refl)
