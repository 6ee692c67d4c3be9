-- ===== src/Graph/Errors.antt =====
-- engine/src/core/graph.rs, validate: what each of its errors says of a graph.
use openmirai.Prelude.{
  ◌≡◌, refl, subst, ap, ◌⊎◌, inl, inr, String, ◌&&◌, none, List, [], ◌∷◌, ◌++◌, arith, ◌==◌, eq_iff,
  is_none, In, here, there, Repeats, contains, contains_iff, not-In_of_contains, Bool-cases,
  Result-cases, err, try,
}
use openmirai.Graph.Validation.{check_nodes_ok}
use openmirai.Graph.{
  GraphError, duplicate_node_id, duplicate_edge_id, unknown_source_node, unknown_target_node,
  empty_graph, self_loop, NodeDef, EdgeDef, GraphDef, node_ids, edge_ids, check_nodes, check_edges,
  validate,
}

-- `k` stands in the list, after an occurrence in the list or in what was seen before it.
abbrev RepeatsFrom : List String → String → List String → Type 0
RepeatsFrom seen k xs =
    (before : List String) × (after : List String) × (xs ≡ before ++ k ∷ after)
    × (In k seen ⊎ In k before)

RepeatsFrom-cons :
    (seen : List String) (x k : String) (xs : List String)
    → RepeatsFrom (x ∷ seen) k xs
    → RepeatsFrom seen k (x ∷ xs)
RepeatsFrom-cons seen x k xs (before, after, e, m) = (x ∷ before, after, ap (λ l. x ∷ l) e, move m)
  where
    move : In k (x ∷ seen) ⊎ In k before → In k seen ⊎ In k (x ∷ before)
    move (inl (here same)) = inr (here same)
    move (inl (there s)) = inl s
    move (inr b) = inr (there b)

Repeats-of_RepeatsFrom : (k : String) (xs : List String) → RepeatsFrom [] k xs → Repeats k xs
Repeats-of_RepeatsFrom k xs (before, after, e, inl m) = elim m [ ]
Repeats-of_RepeatsFrom k xs (before, after, e, inr m) = (before, after, e, m)

module _ {N : Type 0} where
  abbrev EdgeViolates : List String → List (EdgeDef N) → GraphError → Type 0
  EdgeViolates ids es (unknown_source_node i n) =
      (e : EdgeDef N) × In e es × (e.id ≡ i) × (e.source ≡ n) × (¬ In n ids)
  EdgeViolates ids es (unknown_target_node i n) =
      (e : EdgeDef N) × In e es × (e.id ≡ i) × (e.target ≡ n) × (¬ In n ids)
  EdgeViolates ids es (self_loop n) =
      (e : EdgeDef N) × In e es × (e.source ≡ n) × (e.target ≡ n) × (e.condition ≡ none)
  EdgeViolates ids es _ = ⊥

  -- What each error says of the graph.
  abbrev pub Violates : GraphDef N → GraphError → Type 0
  Violates g empty_graph = g.nodes ≡ []
  Violates g (duplicate_node_id k) = Repeats k (node_ids g.nodes)
  Violates g (duplicate_edge_id k) = Repeats k (edge_ids g.edges)
  Violates g other = EdgeViolates (node_ids g.nodes) g.edges other

  check_nodes_err :
      (seen : List String) (ns : List (NodeDef N)) (x : GraphError)
      → check_nodes seen ns ≡ err x
      → (k : String) × (x ≡ duplicate_node_id k) × RepeatsFrom seen k (node_ids ns)
  unfolding check_nodes
  check_nodes_err seen [] x h = cc
  check_nodes_err seen (n ∷ ns) x h = elim (Bool-cases (contains n.id seen)) [
    | inl e ↦ (n.id, ground arith, ([], node_ids ns, refl, inl ((contains_iff n.id seen).0 e)))
    | inr e ↦
        let (k, same, twice) = check_nodes_err (n.id ∷ seen) ns x (ground arith) in
        (k, same, RepeatsFrom-cons seen n.id k (node_ids ns) twice)
  ]

  -- An error of the second loop: a repeated id, or an edge that does not fit.
  data EdgeFault (ids seen : List String) (es : List (EdgeDef N)) (x : GraphError) : Type 0 where
    repeated :
        (k : String)
        → x ≡ duplicate_edge_id k
        → RepeatsFrom seen k (edge_ids es)
        → EdgeFault ids seen es x
    unknown_source :
        (e : EdgeDef N)
        → In e es
        → x ≡ unknown_source_node e.id e.source
        → (¬ In e.source ids)
        → EdgeFault ids seen es x
    unknown_target :
        (e : EdgeDef N)
        → In e es
        → x ≡ unknown_target_node e.id e.target
        → (¬ In e.target ids)
        → EdgeFault ids seen es x
    loop :
        (e : EdgeDef N)
        → In e es
        → x ≡ self_loop e.source
        → e.target ≡ e.source
        → e.condition ≡ none
        → EdgeFault ids seen es x

  EdgeFault-cons :
      (ids seen : List String) (e : EdgeDef N) (es : List (EdgeDef N)) (x : GraphError)
      → EdgeFault ids (e.id ∷ seen) es x
      → EdgeFault ids seen (e ∷ es) x
  EdgeFault-cons ids seen e es x (repeated k same twice) =
      repeated k same (RepeatsFrom-cons seen e.id k (edge_ids es) twice)
  EdgeFault-cons ids seen e es x (unknown_source f m same out) = unknown_source f (there m) same out
  EdgeFault-cons ids seen e es x (unknown_target f m same out) = unknown_target f (there m) same out
  EdgeFault-cons ids seen e es x (loop f m same back bare) = loop f (there m) same back bare

  check_edges_err :
      (ids seen : List String) (es : List (EdgeDef N)) (x : GraphError)
      → check_edges ids seen es ≡ err x
      → EdgeFault ids seen es x
  unfolding check_edges
  check_edges_err ids seen [] x h = cc
  check_edges_err ids seen (e ∷ es) x h = elim (Bool-cases (contains e.id seen)) [
    | inl twice ↦
        repeated e.id (ground arith) ([], edge_ids es, refl, inl ((contains_iff e.id seen).0 twice))
    | inr new ↦ elim (Bool-cases (contains e.source ids)) [
      | inr out ↦ unknown_source e (here refl) (ground arith) (not-In_of_contains e.source ids out)
      | inl source ↦ elim (Bool-cases (contains e.target ids)) [
        | inr out ↦
            unknown_target e (here refl) (ground arith) (not-In_of_contains e.target ids out)
        | inl target ↦ elim (Bool-cases ((e.source == e.target) && is_none e.condition)) [
          | inl bad ↦
              loop e (here refl) (ground arith) (ground (arith, eq_iff e.source e.target))
                (ground arith)
          | inr good ↦
              EdgeFault-cons ids seen e es x (check_edges_err ids (e.id ∷ seen) es x (ground arith))
        ]
      ]
    ]
  ]

  Violates-of_fault :
      (g : GraphDef N) (ids : List String) (x : GraphError)
      → ((k : String) → In k (node_ids g.nodes) → In k ids)
      → EdgeFault ids [] g.edges x
      → Violates g x
  Violates-of_fault g ids x every (repeated k same twice) =
      rw same (Repeats-of_RepeatsFrom k (edge_ids g.edges) twice)
  Violates-of_fault g ids x every (unknown_source e m same out) =
      rw same (e, m, refl, refl, λ i. out (every e.source i))
  Violates-of_fault g ids x every (unknown_target e m same out) =
      rw same (e, m, refl, refl, λ i. out (every e.target i))
  Violates-of_fault g ids x every (loop e m same back bare) = rw same (e, m, refl, back, bare)

  Violates-of_check :
      (g : GraphDef N) (n : NodeDef N) (ns : List (NodeDef N)) (x : GraphError)
      → g.nodes ≡ n ∷ ns
      → try (check_nodes [] (n ∷ ns)) (λ ids. check_edges ids [] g.edges) ≡ err x
      → Violates g x
  Violates-of_check g n ns x shape h = elim (Result-cases (check_nodes [] (n ∷ ns))) [
    | inl (ids, run) ↦
        let (fresh, only, every) = check_nodes_ok [] (n ∷ ns) ids run in
        Violates-of_fault g ids x (λ k m. every k (inr (subst (λ l. In k (node_ids l)) shape m)))
          (check_edges_err ids [] g.edges x (rw run at h))
    | inr (y, run) ↦
        let (k, same, twice) = check_nodes_err [] (n ∷ ns) y run in
        let named : x ≡ duplicate_node_id k = ground (arith, h, run, same) in
        rw (named, shape) (Repeats-of_RepeatsFrom k (node_ids (n ∷ ns)) twice)
  ]

  -- The error that validate returns describes the graph: no nodes, a node or edge id that stands
  -- twice, an edge with that id and an end that is no node, or an unconditional edge from that
  -- node to itself.
  pub validate-err : (g : GraphDef N) (x : GraphError) → validate g ≡ err x → Violates g x
  unfolding validate
  validate-err g x h = go g.nodes refl
    where
      go : (ns : List (NodeDef N)) → g.nodes ≡ ns → Violates g x
      go [] e = let named : x ≡ empty_graph = ground (arith, e, h) in rw named e
      go (n ∷ ns) e = Violates-of_check g n ns x e (rw e at h)
