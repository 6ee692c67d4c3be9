-- ===== src/Runner/Index.antt =====
-- graph_runner.rs, run_from: the node index, `node_idx`.
use openmirai.Prelude.{
  ℕ, suc, ◌+◌, ◌≡◌, ◌≢◌, ◌⊎◌, refl, sym, subst, arith, String, none, some, List, [], ◌∷◌, get_elem?,
  In, here, there, HashMap, get, insert, get-insert, get-nil, eq_iff, ◌==◌, Bool-cases, inl, inr,
}
use openmirai.Graph.{NodeDef, GraphDef, node_ids}
use openmirai.Runner.Routing.{index_nodes}

module _ {N : Type 0} where
  -- A node with this id at this place, counted from `i`.
  abbrev StandsAt : String → ℕ → ℕ → List (NodeDef N) → Type 0
  StandsAt k j i ns =
      (m : ℕ) × (n : NodeDef N) × (j ≡ i + m) × (get_elem? ns m ≡ some n) × (n.id ≡ k)

  index_nodes-StandsAt :
      (k : String) (j i : ℕ) (ns : List (NodeDef N)) (idx : HashMap ℕ)
      → get k (index_nodes i ns idx) ≡ some j
      → (get k idx ≡ some j) ⊎ StandsAt k j i ns
  unfolding index_nodes
  index_nodes-StandsAt k j i [] idx h = inl h
  index_nodes-StandsAt k j i (n ∷ ns) idx h =
      elim (index_nodes-StandsAt k j (suc i) ns (insert n.id i idx) h) [
        | inr (m, n', e, found, same) ↦ inr (suc m, n', omega (arith, e), found, same)
        | inl old ↦ elim (Bool-cases (n.id == k)) [
          | inl e ↦
              inr (0, n, ground (arith, get-insert n.id k i idx, old, e), refl, (eq_iff n.id k).0 e)
          | inr e ↦ inl (ground (arith, get-insert n.id k i idx, old, e))
        ]
      ]

  index_nodes_kept :
      (k : String) (i : ℕ) (ns : List (NodeDef N)) (idx : HashMap ℕ)
      → get k idx ≢ none
      → get k (index_nodes i ns idx) ≢ none
  unfolding index_nodes
  index_nodes_kept k i [] idx h = h
  index_nodes_kept k i (n ∷ ns) idx h =
      index_nodes_kept k (suc i) ns (insert n.id i idx)
        (λ e. ground (arith, get-insert n.id k i idx, h, e))

  index_nodes-In :
      (k : String) (i : ℕ) (ns : List (NodeDef N)) (idx : HashMap ℕ)
      → In k (node_ids ns)
      → get k (index_nodes i ns idx) ≢ none
  unfolding index_nodes
  index_nodes-In k i [] idx m = elim m [ ]
  index_nodes-In k i (n ∷ ns) idx (here e) =
      index_nodes_kept k (suc i) ns (insert n.id i idx)
        (λ h. ground (arith, get-insert n.id k i idx, h, (eq_iff n.id k).1 (sym e)))
  index_nodes-In k i (n ∷ ns) idx (there m) = index_nodes-In k (suc i) ns (insert n.id i idx) m

  -- The index that run_from finds for an id is the place of a node of the graph with that id.
  pub index_nodes_sound :
      (g : GraphDef N) (k : String) (j : ℕ)
      → get k (index_nodes 0 g.nodes []) ≡ some j
      → (n : NodeDef N) × (get_elem? g.nodes j ≡ some n) × (n.id ≡ k)
  index_nodes_sound g k j h = elim (index_nodes-StandsAt k j 0 g.nodes [] h) [
    | inl old ↦ absurd (ground (arith, get-nil {V = ℕ} k, old))
    | inr (m, n, e, found, same) ↦
        (n, subst (λ i. get_elem? g.nodes i ≡ some n) (omega (arith, e)) found, same)
  ]

  -- run_from finds an index for the id of every node of the graph.
  pub index_nodes_total :
      (g : GraphDef N) (k : String)
      → In k (node_ids g.nodes)
      → get k (index_nodes 0 g.nodes []) ≢ none
  index_nodes_total g k m = index_nodes-In k 0 g.nodes [] m
