-- ===== src/Graph/Queries.antt =====
-- engine/src/core/graph.rs: what entry_nodes and outgoing_edges return.
use openmirai.Prelude.{
  ◌≡◌, refl, sym, ap, subst, ◌↔◌, String, not, List, [], ◌∷◌, map, arith, ◌==◌, eq_iff, In, here,
  there, In-filter, filter-In, contains, contains_of_not-In, not-In_of_contains,
}
use openmirai.Graph.{NodeDef, EdgeDef, GraphDef, entry_nodes, outgoing_edges}

module _ {N : Type 0} where
  -- An edge of the graph ends at the node.
  abbrev pub HasIncoming : GraphDef N → String → Type 0
  HasIncoming g k = (e : EdgeDef N) × In e g.edges × (e.target ≡ k)

  target_of_In :
      (es : List (EdgeDef N)) (k : String)
      → In k (map (λ (e : EdgeDef N). e.target) es)
      → (e : EdgeDef N) × In e es × (e.target ≡ k)
  target_of_In [] k m = elim m [ ]
  target_of_In (e ∷ es) k (here same) = (e, here refl, sym same)
  target_of_In (e ∷ es) k (there m) = let (f, n, same) = target_of_In es k m in (f, there n, same)

  In-of_target :
      (es : List (EdgeDef N)) (e : EdgeDef N)
      → In e es
      → In e.target (map (λ (e : EdgeDef N). e.target) es)
  In-of_target [] e m = elim m [ ]
  In-of_target (f ∷ es) e (here same) = here (ap (λ (x : EdgeDef N). x.target) same)
  In-of_target (f ∷ es) e (there m) = there (In-of_target es e m)

  -- The entry nodes are exactly the nodes of the graph at which no edge ends.
  pub entry_nodes_iff :
      (g : GraphDef N) (n : NodeDef N)
      → In n (entry_nodes g) ↔ (In n g.nodes × (¬ HasIncoming g n.id))
  unfolding entry_nodes
  entry_nodes_iff g n = (
    λ m.
        let (stands, test) =
          In-filter
            (λ (n : NodeDef N). not (contains n.id (map (λ (e : EdgeDef N). e.target) g.edges)))
            g.nodes m in
        (
          stands,
          λ (e, edge, same).
              not-In_of_contains n.id (map (λ (e : EdgeDef N). e.target) g.edges) (ground arith) (
                subst (λ k. In k (map (λ (e : EdgeDef N). e.target) g.edges)) same
                  (In-of_target g.edges e edge)),
        ),
    λ (stands, free).
        filter-In
          (λ (n : NodeDef N). not (contains n.id (map (λ (e : EdgeDef N). e.target) g.edges)))
          g.nodes stands
          (rw (
            contains_of_not-In n.id (map (λ (e : EdgeDef N). e.target) g.edges)
              (λ m. free (target_of_In g.edges n.id m)))),
  )

  -- The outgoing edges of a node are exactly the edges of the graph that start at it.
  pub outgoing_edges_iff :
      (g : GraphDef N) (k : String) (e : EdgeDef N)
      → In e (outgoing_edges g k) ↔ (In e g.edges × (e.source ≡ k))
  unfolding outgoing_edges
  outgoing_edges_iff g k e = (
    λ m.
        let (stands, test) = In-filter (λ (e : EdgeDef N). e.source == k) g.edges m in
        (stands, (eq_iff e.source k).0 test),
    λ (stands, same).
        filter-In (λ (e : EdgeDef N). e.source == k) g.edges stands ((eq_iff e.source k).1 same),
  )
