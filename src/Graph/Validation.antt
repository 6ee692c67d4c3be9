-- ===== src/Graph/Validation.antt =====
-- engine/src/core/graph.rs, validate: the graphs that it is meant to accept.
use openmirai.Prelude.{
  ◌≡◌, ◌≢◌, refl, subst, ◌↔◌, ◌⊎◌, inl, inr, String, none, List, [], ◌∷◌, arith, eq_iff, In, here,
  there, All, Distinct, Fresh, Fresh-iff, contains, contains_iff, not-In_of_contains,
  contains_of_not-In, Bool-cases, Result-cases, ok, try,
}
use openmirai.Graph.{
  NodeDef, EdgeDef, GraphDef, node_ids, edge_ids, check_nodes, check_edges, validate,
}

module _ {N : Type 0} where
  -- The ends of an edge are nodes, and an edge from a node to itself carries a condition.
  abbrev pub EdgeFits : List String → EdgeDef N → Type 0
  EdgeFits ids e = In e.source ids × In e.target ids × (e.source ≡ e.target → e.condition ≢ none)

  pub record IsWellFormed (g : GraphDef N) : Type 0 where
    pub nonempty : g.nodes ≢ []
    pub distinct_nodes : Distinct (node_ids g.nodes)
    pub distinct_edges : Distinct (edge_ids g.edges)
    pub edges_fit : All (EdgeFits (node_ids g.nodes)) g.edges

  All-EdgeFits :
      (ids ids' : List String) (es : List (EdgeDef N))
      → ((k : String) → In k ids → In k ids')
      → All (EdgeFits ids) es
      → All (EdgeFits ids') es
  All-EdgeFits ids ids' [] sub h = tt
  All-EdgeFits ids ids' (e ∷ es) sub ((s, t, loop), rest) =
      ((sub _ s, sub _ t, loop), All-EdgeFits ids ids' es sub rest)

  -- A run of the first loop that succeeds has met no id twice, and collects exactly the ids.
  pub check_nodes_ok :
      (seen : List String) (ns : List (NodeDef N)) (ids : List String)
      → check_nodes seen ns ≡ ok ids
      → Fresh seen (node_ids ns)
        × ((k : String) → In k ids → In k seen ⊎ In k (node_ids ns))
        × ((k : String) → In k seen ⊎ In k (node_ids ns) → In k ids)
  unfolding check_nodes
  check_nodes_ok seen [] ids h =
      let same : seen ≡ ids = ground arith in
      (
        tt,
        λ k m. inl (rw same m),
        λ k. elim [ inl m ↦ subst (λ s. In k s) same m | inr m ↦ elim m [ ] ],
      )
  check_nodes_ok seen (n ∷ ns) ids h = elim (Bool-cases (contains n.id seen)) [
    | inl e ↦ absurd (ground arith)
    | inr e ↦
        let (fresh, only, every) = check_nodes_ok (n.id ∷ seen) ns ids (ground arith) in
        (
          (not-In_of_contains n.id seen e, fresh),
          λ k m. place k (only k m),
          λ k m. every k (replace k m),
        )
  ]
    where
      place :
          (k : String)
          → In k (n.id ∷ seen) ⊎ In k (node_ids ns)
          → In k seen ⊎ In k (n.id ∷ node_ids ns)
      place k (inl (here e)) = inr (here e)
      place k (inl (there m)) = inl m
      place k (inr m) = inr (there m)

      replace :
          (k : String)
          → In k seen ⊎ In k (n.id ∷ node_ids ns)
          → In k (n.id ∷ seen) ⊎ In k (node_ids ns)
      replace k (inl m) = inl (there m)
      replace k (inr (here e)) = inl (here e)
      replace k (inr (there m)) = inr m

  check_nodes-Fresh :
      (seen : List String) (ns : List (NodeDef N))
      → Fresh seen (node_ids ns)
      → (ids : List String) × (check_nodes seen ns ≡ ok ids)
  unfolding check_nodes
  check_nodes-Fresh seen [] h = (seen, refl)
  check_nodes-Fresh seen (n ∷ ns) h =
      let (ids, run) = check_nodes-Fresh (n.id ∷ seen) ns h.1 in
      (ids, rw (contains_of_not-In n.id seen h.0) run)

  check_edges_ok :
      (ids seen : List String) (es : List (EdgeDef N))
      → check_edges ids seen es ≡ ok tt
      → Fresh seen (edge_ids es) × All (EdgeFits ids) es
  unfolding check_edges
  check_edges_ok ids seen [] h = (tt, tt)
  check_edges_ok ids seen (e ∷ es) h =
      let (fresh, fits) = check_edges_ok ids (e.id ∷ seen) es (ground arith) in
      (
        (not-In_of_contains e.id seen (ground arith), fresh),
        (
          (
            (contains_iff e.source ids).0 (ground arith),
            (contains_iff e.target ids).0 (ground arith),
            λ same loop. ground (arith, eq_iff e.source e.target),
          ),
          fits,
        ),
      )

  check_edges_fit :
      (ids seen : List String) (es : List (EdgeDef N))
      → Fresh seen (edge_ids es)
      → All (EdgeFits ids) es
      → check_edges ids seen es ≡ ok tt
  unfolding check_edges
  check_edges_fit ids seen [] h fits = refl
  check_edges_fit ids seen (e ∷ es) h ((s, t, loop), fits) =
      let rest = check_edges_fit ids (e.id ∷ seen) es h.1 fits in
      let new = contains_of_not-In e.id seen h.0 in
      let source = (contains_iff e.source ids).1 s in
      let target = (contains_iff e.target ids).1 t in ground (arith, eq_iff e.source e.target)

  IsWellFormed-of_validate :
      (g : GraphDef N) (n : NodeDef N) (ns : List (NodeDef N))
      → g.nodes ≡ n ∷ ns
      → try (check_nodes [] (n ∷ ns)) (λ ids. check_edges ids [] g.edges) ≡ ok tt
      → IsWellFormed g
  IsWellFormed-of_validate g n ns shape h = elim (Result-cases (check_nodes [] (n ∷ ns))) [
    | inl (ids, run) ↦
        let (fresh, only, every) = check_nodes_ok [] (n ∷ ns) ids run in
        let edges = check_edges_ok ids [] g.edges (rw run at h) in
        record {
          nonempty = λ none_left. cc;
          distinct_nodes = rw shape ((Fresh-iff (node_ids (n ∷ ns))).0 fresh);
          distinct_edges = (Fresh-iff (edge_ids g.edges)).0 edges.0;
          edges_fit =
              rw shape
                (All-EdgeFits ids (node_ids (n ∷ ns)) g.edges (λ k m. given k (only k m)) edges.1);
        }
    | inr (e, run) ↦ absurd (ground (arith, h, run))
  ]
    where
      given : (k : String) → In k [] ⊎ In k (node_ids (n ∷ ns)) → In k (node_ids (n ∷ ns))
      given k (inl m) = elim m [ ]
      given k (inr m) = m

  -- validate succeeds exactly on the graphs that have a node, no node id twice, no edge id twice,
  -- only edges between nodes of the graph, and no unconditional edge from a node to itself.
  pub validate_iff : (g : GraphDef N) → (validate g ≡ ok tt) ↔ IsWellFormed g
  unfolding validate
  validate_iff g = (only g.nodes refl, λ w. every w g.nodes refl)
    where
      only : (ns : List (NodeDef N)) → g.nodes ≡ ns → validate g ≡ ok tt → IsWellFormed g
      only [] e h = absurd (ground arith)
      only (n ∷ ns) e h = IsWellFormed-of_validate g n ns e (rw e at h)

      every : IsWellFormed g → (ns : List (NodeDef N)) → g.nodes ≡ ns → validate g ≡ ok tt
      every w [] e = absurd (w.nonempty e)
      every w (n ∷ ns) e =
          let (ids, run) =
            check_nodes-Fresh [] (n ∷ ns)
              ((Fresh-iff (node_ids (n ∷ ns))).1 (rw e at w.distinct_nodes)) in
          let (fresh, kept, every_id) = check_nodes_ok [] (n ∷ ns) ids run in
          let fits =
            All-EdgeFits (node_ids (n ∷ ns)) ids g.edges (λ k m. every_id k (inr m))
              (rw e at w.edges_fit) in
          rw (e, run)
            (check_edges_fit ids [] g.edges ((Fresh-iff (edge_ids g.edges)).1 w.distinct_edges)
              fits)
