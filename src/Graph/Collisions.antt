-- ===== src/Graph/Collisions.antt =====
-- engine/src/core/graph.rs, prepare: a generated id that a named edge already has.
use mathlib.Core.Bool.{false≢true}
use openmirai.Prelude.{
  refl, ◌≡◌, ◌≢◌, ◌⊎◌, inl, inr, sym, ap, ◌∙◌, String, List, [], ◌∷◌, arith, ◌==◌, eq_iff, In, here,
  there, Bool-cases, Distinct, ok,
}
use openmirai.Graph.{EdgeDef, GraphDef, pair_key, auto_generate_edge_ids, edge_ids, prepare}
use openmirai.Graph.Validation.{validate_iff}
use openmirai.Graph.EdgeIds.{
  tally, final_edge, final_edges, auto_generate-final, final_edge_of_named, pair_key-ne-empty,
}

module _ {N : Type 0} where
  -- A named edge keeps its id.
  In-edge_ids_of_named :
      (before es : List (EdgeDef N)) (e : EdgeDef N)
      → e.id ≢ ""
      → In e es
      → In e.id (edge_ids (final_edges before es))
  In-edge_ids_of_named before [] e named m = elim m [ ]
  In-edge_ids_of_named before (x ∷ es) e named (here same) =
      here (ap (λ a. a.id) (sym (final_edge_of_named before e named) ∙ ap (final_edge before) same))
  In-edge_ids_of_named before (x ∷ es) e named (there m) =
      there (In-edge_ids_of_named (x ∷ before) es e named m)

  final_edge_of_first :
      (before : List (EdgeDef N)) (e : EdgeDef N)
      → e.id ≡ ""
      → tally before (pair_key e) ≡ 0
      → (final_edge before e).id ≡ pair_key e
  final_edge_of_first before e bare none_yet = ground (arith, eq_iff e.id "")

  -- An edge with an empty id whose pair is new takes the pair's key; any other edge leaves the
  -- count of the pair as it is.
  first-cases :
      (before : List (EdgeDef N)) (x : EdgeDef N) (k : String)
      → tally before k ≡ 0
      → ((x.id ≡ "") × ((final_edge before x).id ≡ k))
        ⊎ ((¬ ((x.id ≡ "") × (pair_key x ≡ k))) × (tally (x ∷ before) k ≡ 0))
  first-cases before x k none_yet = elim (Bool-cases (x.id == "")) [
    | inl bare ↦ elim (Bool-cases (pair_key x == k)) [
      | inl same ↦
          let e = (eq_iff x.id "").0 bare in
          let k_of = (eq_iff (pair_key x) k).0 same in
          inl (e, final_edge_of_first before x e (rw k_of none_yet) ∙ k_of)
      | inr apart ↦ inr (
        (λ (b, h). false≢true (sym apart ∙ (eq_iff (pair_key x) k).1 h)),
        rw bare (rw apart none_yet),
      )
    ]
    | inr named ↦ inr ((λ (b, h). false≢true (sym named ∙ (eq_iff x.id "").1 b)), rw named none_yet)
  ]

  -- The key of a pair that has an edge with an empty id is taken.
  In-edge_ids_of_bare :
      (before es : List (EdgeDef N)) (f : EdgeDef N)
      → tally before (pair_key f) ≡ 0
      → f.id ≡ ""
      → In f es
      → In (pair_key f) (edge_ids (final_edges before es))
  In-edge_ids_of_bare before [] f none_yet bare m = elim m [ ]
  In-edge_ids_of_bare before (x ∷ es) f none_yet bare m =
      elim (first-cases before x (pair_key f) none_yet) [
        | inl taken ↦ here (sym taken.1)
        | inr other ↦ elim m [
          | here same ↦ absurd (other.0 (ap (λ a. a.id) (sym same) ∙ bare, ap pair_key (sym same)))
          | there later ↦ there (In-edge_ids_of_bare (x ∷ before) es f other.1 bare later)
        ]
      ]

  not-Distinct_of_collision :
      (before es : List (EdgeDef N)) (e f : EdgeDef N)
      → tally before (pair_key f) ≡ 0
      → e.id ≡ pair_key f
      → f.id ≡ ""
      → In e es
      → In f es
      → ¬ Distinct (edge_ids (final_edges before es))
  not-Distinct_of_collision before [] e f none_yet taken bare me mf d = elim me [ ]
  not-Distinct_of_collision before (x ∷ es) e f none_yet taken bare me mf d =
      let named : e.id ≢ "" = λ h. pair_key-ne-empty f (sym taken ∙ h) in
      elim (first-cases before x (pair_key f) none_yet) [
        | inl first ↦ elim me [
          | here same ↦ named (ap (λ a. a.id) same ∙ first.0)
          | there later ↦
              let again = In-edge_ids_of_named (x ∷ before) es e named later in
              d.0 (rw (first.1 ∙ sym taken) again)
        ]
        | inr other ↦ elim mf [
          | here same ↦ other.0 (ap (λ a. a.id) (sym same) ∙ bare, ap pair_key (sym same))
          | there later ↦ elim me [
            | here same ↦
                let again = In-edge_ids_of_bare (x ∷ before) es f other.1 bare later in
                let kept : (final_edge before x).id ≡ pair_key f =
                  ap (λ a. (final_edge before a).id) (sym same)
                  ∙ (ap (λ a. a.id) (final_edge_of_named before e named) ∙ taken) in
                d.0 (rw kept again)
            | there early ↦
                not-Distinct_of_collision (x ∷ before) es e f other.1 taken bare early later d.1
          ]
        ]
      ]

  -- A graph that has an edge with an empty id and an edge whose id is the pair key of that one, in
  -- either order and among any other edges, is refused by prepare, whatever its nodes.
  pub generated_id_collision :
      (g : GraphDef N) (e f : EdgeDef N)
      → In e g.edges
      → In f g.edges
      → e.id ≡ pair_key f
      → f.id ≡ ""
      → (prepare g).1 ≢ ok tt
  unfolding prepare
  generated_id_collision g e f me mf taken bare valid =
      let w = (validate_iff (auto_generate_edge_ids g)).0 valid in
      let distinct : Distinct (edge_ids (final_edges [] g.edges)) =
        rw auto_generate-final at w.distinct_edges in
      not-Distinct_of_collision [] g.edges e f refl taken bare me mf distinct
