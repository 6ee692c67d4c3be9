-- ===== src/Runner/Choices.antt =====
-- graph_runner.rs, resolve_all_next_nodes: which nodes come next.
use openmirai.Prelude.{
  subst, ◌≡◌, ◌↔◌, refl, ap, sym, String, Bool, true, false, none, some, List, [], ◌∷◌, ◌++◌, arith,
  All, In, here, there, find, is_none, map, In-filter, filter-In,
}
use openmirai.Json.{Json}
use openmirai.Graph.{EdgeDef, GraphDef, outgoing_edges}
use openmirai.Graph.Queries.{outgoing_edges_iff}
use openmirai.State.{Output}
use openmirai.Runner.Routing.{
  edge_matches, targets, unconditional, next_targets, resolve_all_next_nodes,
}

find-first {ℓ} :
    {A : Type ℓ} (p : A → Bool) (before after : List A) (a : A)
    → All (λ x. p x ≡ false) before
    → p a ≡ true
    → find p (before ++ a ∷ after) ≡ some a
find-first p [] after a h e = rw e refl
find-first p (x ∷ before) after a (h, hs) e = rw h (find-first p before after a hs e)

find-none {ℓ} :
    {A : Type ℓ} (p : A → Bool) (xs : List A) → All (λ x. p x ≡ false) xs → find p xs ≡ none
find-none p [] h = refl
find-none p (x ∷ xs) (h, hs) = rw h (find-none p xs hs)

In-map : {A B : Type 0} (f : A → B) (xs : List A) {a : A} → In a xs → In (f a) (map f xs)
In-map f [] m = elim m [ ]
In-map f (x ∷ xs) (here e) = here (ap f e)
In-map f (x ∷ xs) (there m) = there (In-map f xs m)

map-In :
    {A B : Type 0} (f : A → B) (xs : List A) (b : B)
    → In b (map f xs)
    → (a : A) × In a xs × (f a ≡ b)
map-In f [] b m = elim m [ ]
map-In f (x ∷ xs) b (here e) = (x, here refl, sym e)
map-In f (x ∷ xs) b (there m) = let (a, n, e) = map-In f xs b m in (a, there n, e)

module _ (J : Json) (g : GraphDef J.Number) (node_id : String) (output : Output J.Number) where
  -- The conditions of these edges fail on the output, or they have none.
  abbrev pub Fails : List (EdgeDef J.Number) → Type 0
  Fails es = All (λ e. edge_matches J output e ≡ false) es

  next_targets-found :
      (es : List (EdgeDef J.Number)) (e : EdgeDef J.Number)
      → find (edge_matches J output) es ≡ some e
      → next_targets J output es ≡ e.target ∷ []
  next_targets-found es e h = ground (arith, h)

  next_targets-none :
      (es : List (EdgeDef J.Number))
      → find (edge_matches J output) es ≡ none
      → next_targets J output es ≡ targets J (unconditional J es)
  next_targets-none es h = ground (arith, h)

  -- If the condition of an outgoing edge holds on the output and those of the outgoing edges
  -- before it do not, its target is the only next node.
  pub resolve_all-matched :
      (before after : List (EdgeDef J.Number)) (e : EdgeDef J.Number)
      → outgoing_edges g node_id ≡ before ++ e ∷ after
      → Fails before
      → edge_matches J output e ≡ true
      → resolve_all_next_nodes J node_id output g ≡ e.target ∷ []
  unfolding resolve_all_next_nodes
  resolve_all-matched before after e edges fails holds = rw edges (
      next_targets-found (before ++ e ∷ after) e
        (find-first (edge_matches J output) before after e fails holds))

  -- If the condition of no outgoing edge holds on the output, the next nodes are exactly the
  -- targets of the edges of the graph that start at the node and have no condition.
  pub resolve_all-unmatched :
      (t : String)
      → Fails (outgoing_edges g node_id)
      → In t (resolve_all_next_nodes J node_id output g) ↔ (
          (e : EdgeDef J.Number) × In e g.edges
          × (e.source ≡ node_id)
          × (e.condition ≡ none)
          × (e.target ≡ t))
  unfolding resolve_all_next_nodes
  resolve_all-unmatched t fails =
      subst
        (λ ts. In t ts ↔ (
          (e : EdgeDef J.Number) × In e g.edges
          × (e.source ≡ node_id)
          × (e.condition ≡ none)
          × (e.target ≡ t)))
        (sym (
          next_targets-none (outgoing_edges g node_id)
            (find-none (edge_matches J output) (outgoing_edges g node_id) fails)))
        (only, every)
    where
      only :
          In t (targets J (unconditional J (outgoing_edges g node_id)))
          → (e : EdgeDef J.Number) × In e g.edges
            × (e.source ≡ node_id)
            × (e.condition ≡ none)
            × (e.target ≡ t)
      only m =
          let (e, n, same) = map-In (λ (e : EdgeDef J.Number). e.target) _ t m in
          let (out, bare) = In-filter (λ (e : EdgeDef J.Number). is_none e.condition) _ n in
          let (stands, starts) = (outgoing_edges_iff g node_id e).0 out in
          (e, stands, starts, ground arith, same)

      every :
          (e : EdgeDef J.Number) × In e g.edges
            × (e.source ≡ node_id)
            × (e.condition ≡ none)
            × (e.target ≡ t)
          → In t (targets J (unconditional J (outgoing_edges g node_id)))
      every (e, stands, starts, bare, same) =
          subst (λ k. In k (targets J (unconditional J (outgoing_edges g node_id)))) same
            (In-map (λ (e : EdgeDef J.Number). e.target) _
              (filter-In (λ (e : EdgeDef J.Number). is_none e.condition) _
                ((outgoing_edges_iff g node_id e).1 (stands, starts)) (ground arith)))
