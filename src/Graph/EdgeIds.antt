-- ===== src/Graph/EdgeIds.antt =====
-- engine/src/core/graph.rs, auto_generate_edge_ids: the ids, described apart from the counters.
use mathlib.Core.Path.{ap₂}
use mathlib.Core.Bool.{false≢true}
use text.Mathlib.TextLemmas.{append-eq-nil_iff}
use openmirai.Prelude.{
  suc, ◌+◌, ◌&&◌, ◌∙◌, get, get-nil, get-insert, unwrap_or, ℕ, ◌≡◌, ◌≢◌, refl, sym, ap, inl, inr,
  String, List, [], ◌∷◌, arith, ◌==◌, eq_iff, eqb, HashMap, if◌then◌else◌, Bool-cases,
}
use openmirai.Graph.{
  EdgeDef, GraphDef, pair_key, pair_count, generated_id, name_edge, name_edges,
  auto_generate_edge_ids,
}

module _ {N : Type 0} where
  -- How many edges before this one had an empty id and the same pair.
  abbrev pub tally : List (EdgeDef N) → String → ℕ
  tally [] k = 0
  tally (e ∷ before) k =
      let rest = tally before k in if (e.id == "") && (pair_key e == k) then suc rest else rest

  -- The edge under its final id, after the edges of `before`.
  abbrev pub final_edge : List (EdgeDef N) → EdgeDef N → EdgeDef N
  final_edge before e =
      if e.id == ""
      then record e { id = generated_id (pair_key e) (tally before (pair_key e) + 1) }
      else e

  abbrev pub final_edges : List (EdgeDef N) → List (EdgeDef N) → List (EdgeDef N)
  final_edges before [] = []
  final_edges before (e ∷ es) = final_edge before e ∷ final_edges (e ∷ before) es

  name_edge-final :
      (counts : HashMap ℕ) (before : List (EdgeDef N)) (e : EdgeDef N)
      → ((k : String) → unwrap_or (get k counts) 0 ≡ tally before k)
      → (name_edge counts e).0 ≡ final_edge before e
  unfolding name_edge
  name_edge-final counts before e agree = ground (arith, agree (pair_key e))

  name_edge-counts :
      (counts : HashMap ℕ) (before : List (EdgeDef N)) (e : EdgeDef N) (k : String)
      → ((k : String) → unwrap_or (get k counts) 0 ≡ tally before k)
      → unwrap_or (get k (name_edge counts e).1) 0 ≡ tally (e ∷ before) k
  unfolding name_edge
  name_edge-counts counts before e k agree = ground (
    arith,
    agree (pair_key e),
    agree k,
    get-insert (pair_key e) k (pair_count counts e) counts,
    eq_iff (pair_key e) k,
  )

  name_edges-final :
      (counts : HashMap ℕ) (before es : List (EdgeDef N))
      → ((k : String) → unwrap_or (get k counts) 0 ≡ tally before k)
      → name_edges counts es ≡ final_edges before es
  unfolding name_edges
  name_edges-final counts before [] agree = refl
  name_edges-final counts before (e ∷ es) agree = ap₂ ◌∷◌ (name_edge-final counts before e agree) (
      name_edges-final (name_edge counts e).1 (e ∷ before) es
        (λ k. name_edge-counts counts before e k agree))

  -- auto_generate_edge_ids gives an edge with an empty id the key of its pair, with its place
  -- among the edges of empty id and the same pair from the second on, and changes nothing else.
  pub auto_generate-final :
      (g : GraphDef N) → auto_generate_edge_ids g ≡ record g { edges = final_edges [] g.edges }
  unfolding auto_generate_edge_ids
  auto_generate-final g =
      ap (λ es. record g { edges = es })
        (name_edges-final [] [] g.edges (λ k. ground (arith, get-nil {V = ℕ} k)))

  pub pair_key-ne-empty : (e : EdgeDef N) → pair_key e ≢ ""
  pair_key-ne-empty e h =
      false≢true ((eq_iff "__" "").1 (append-eq-nil_iff.0 (append-eq-nil_iff.0 h).1).0)

  generated_id-ne-empty : (e : EdgeDef N) (n : ℕ) → generated_id (pair_key e) n ≢ ""
  generated_id-ne-empty e n = elim (Bool-cases (eqb n 1)) [
    | inl first ↦ rw first (pair_key-ne-empty e)
    | inr later ↦ rw later (λ h. pair_key-ne-empty e (append-eq-nil_iff.0 h).0)
  ]

  final_edge-ne-empty : (before : List (EdgeDef N)) (e : EdgeDef N) → (final_edge before e).id ≢ ""
  final_edge-ne-empty before e = elim (Bool-cases (e.id == "")) [
    | inl bare ↦ rw bare (generated_id-ne-empty e (tally before (pair_key e) + 1))
    | inr named ↦ rw named (λ h. false≢true (sym named ∙ (eq_iff e.id "").1 h))
  ]

  pub final_edge_of_named :
      (before : List (EdgeDef N)) (e : EdgeDef N) → e.id ≢ "" → final_edge before e ≡ e
  final_edge_of_named before e h = ground (arith, eq_iff e.id "")

  final_edges_twice :
      (before before' es : List (EdgeDef N))
      → final_edges before' (final_edges before es) ≡ final_edges before es
  final_edges_twice before before' [] = refl
  final_edges_twice before before' (e ∷ es) =
      ap₂ ◌∷◌ (final_edge_of_named before' (final_edge before e) (final_edge-ne-empty before e))
        (final_edges_twice (e ∷ before) (final_edge before e ∷ before') es)

  -- A second run of auto_generate_edge_ids changes nothing.
  pub auto_generate_idem :
      (g : GraphDef N)
      → auto_generate_edge_ids (auto_generate_edge_ids g) ≡ auto_generate_edge_ids g
  auto_generate_idem g =
      rw (auto_generate-final, auto_generate-final)
        (ap (λ es. record g { edges = es }) (final_edges_twice [] [] g.edges))
