-- ===== src/Runner/Bounds.antt =====
-- graph_runner.rs, run_from: the visits that the loop has left.
use openmirai.Prelude.{
  ◌∙◌, ℕ, ◌+◌, ◌-◌, ◌<◌, ◌≤◌, ◌≡◌, sym, ap, String, Option, List, [], ◌∷◌, arith, eq_iff, unwrap_or,
  get, insert, get-insert, In, here, there, In-get_elem?, get_elem?, Option-cases, inl, inr,
}
use openmirai.Graph.{NodeDef, GraphDef}
use openmirai.Runner.Retry.{u32_mod}
use openmirai.Runner.Exec.{Exec, next, pure, ◌>>=◌, >>=-next}
use openmirai.Runner.Services.{Services}
use openmirai.Json.{Json}
use openmirai.Runner.Loop.{
  Visits, visits_after, count_visit, visit, turn, check_pause_interrupt,
  check_human_input_interrupt, run_node,
}
use openmirai.Runner.Effects.{emit_event}

-- How often the nodes of a list may still be visited, at `limit` visits each.
abbrev pub budget : {N : Type 0} → ℕ → Visits → List (NodeDef N) → ℕ
budget limit visits [] = 0
budget limit visits (n ∷ ns) = (limit - unwrap_or (get n.id visits) 0) + budget limit visits ns

abbrev bumped : String → Visits → Visits
bumped k visits = insert k (visits_after k visits) visits

count_after :
    (limit : ℕ) (k : String) (visits : Visits)
    → limit + 1 < u32_mod
    → unwrap_or (get k visits) 0 ≤ limit
    → visits_after k visits ≡ unwrap_or (get k visits) 0 + 1
count_after limit k visits small b = omega arith

module _ {N : Type 0} (limit : ℕ) (small : limit + 1 < u32_mod) where
  -- A visit takes nothing from any node's budget that it does not use up.
  budget-le :
      (k : String) (visits : Visits) (ns : List (NodeDef N))
      → visits_after k visits ≤ limit
      → unwrap_or (get k visits) 0 ≤ limit
      → budget limit (bumped k visits) ns ≤ budget limit visits ns
  budget-le k visits [] h b = omega arith
  budget-le k visits (n ∷ ns) h b = ground (
    arith,
    budget-le k visits ns h b,
    get-insert k n.id (visits_after k visits) visits,
    eq_iff k n.id,
  )

  pub budget-lt :
      (n : NodeDef N) (visits : Visits) (ns : List (NodeDef N))
      → In n ns
      → visits_after n.id visits ≤ limit
      → unwrap_or (get n.id visits) 0 ≤ limit
      → budget limit (bumped n.id visits) ns < budget limit visits ns
  budget-lt n visits [] m h b = elim m [ ]
  budget-lt n visits (p ∷ ns) (here e) h b =
      let same : n.id ≡ p.id = ap (λ (q : NodeDef N). q.id) e in
      ground (
        arith,
        budget-le n.id visits ns h b,
        get-insert n.id p.id (visits_after n.id visits) visits,
        eq_iff n.id p.id,
        same,
        count_after limit n.id visits small b,
        ap (λ k. get k visits) same,
      )
  budget-lt n visits (p ∷ ns) (there m) h b = ground (
    arith,
    budget-lt n visits ns m h b,
    get-insert n.id p.id (visits_after n.id visits) visits,
    eq_iff n.id p.id,
    count_after limit n.id visits small b,
  )

-- No node has been counted more often than the limit allows.
abbrev pub IsWithin : ℕ → Visits → Type 0
IsWithin limit visits = (k : String) → unwrap_or (get k visits) 0 ≤ limit

pub IsWithin-bumped :
    (limit : ℕ) (k : String) (visits : Visits)
    → visits_after k visits ≤ limit
    → IsWithin limit visits
    → IsWithin limit (bumped k visits)
IsWithin-bumped limit k visits h b j =
    ground (arith, get-insert k j (visits_after k visits) visits, b j)

-- A turn that goes on has counted a visit of a node of the graph, within the limit.
pub record Counted {N : Type 0} (limit : ℕ) (g : GraphDef N) (before after : Visits) : Type 0 where
  pub node : NodeDef N
  pub stands : In node g.nodes
  pub within : visits_after node.id before ≤ limit
  pub counted : after ≡ bumped node.id before

module _ {J : Json} {W : Type 0} (S : Services J W) where
  count_visit-next :
      (node : NodeDef J.Number) (visits after : Visits) (x : Exec J.Number W)
      → (count_visit S node visits x).0 ≡ next after
      → (visits_after node.id visits ≤ S.max_iterations) × (after ≡ bumped node.id visits)
  unfolding count_visit ◌>>=◌ emit_event
  count_visit-next node visits after x h = ground arith

  visit-next :
      (node : NodeDef J.Number) (idx : ℕ) (g : GraphDef J.Number) (node_idx visits after : Visits)
      (i : Option ℕ) (x t : Exec J.Number W)
      → visit S node idx g node_idx visits x ≡ (next (i, after), t)
      → (visits_after node.id visits ≤ S.max_iterations) × (after ≡ bumped node.id visits)
  unfolding visit ◌>>=◌
  visit-next node idx g node_idx visits after i x t h =
      let (u, paused, h₁) =
        >>=-next (check_pause_interrupt S node)
          (λ _. count_visit S node visits >>= λ v. check_human_input_interrupt S node >>= λ _.
            run_node S node idx g node_idx >>= λ i. pure (i, v))
          x t (i, after) h in
      let y = (check_pause_interrupt S node x).1 in
      let (v, counted, h₂) =
        >>=-next (count_visit S node visits)
          (λ v. check_human_input_interrupt S node >>= λ _.
            run_node S node idx g node_idx >>= λ i. pure (i, v))
          y t (i, after) h₁ in
      let z = (count_visit S node visits y).1 in
      let (u, asked, h₃) =
        >>=-next (check_human_input_interrupt S node)
          (λ _. run_node S node idx g node_idx >>= λ i. pure (i, v)) z t (i, after) h₂ in
      let (j, ran, h₄) =
        >>=-next (run_node S node idx g node_idx) (λ i. pure (i, v))
          (check_human_input_interrupt S node z).1 t (i, after) h₃ in
      let same : v ≡ after = cc h₄ in
      let (within, bump) = count_visit-next node visits v y counted in (within, sym same ∙ bump)

  pub turn-next :
      (idx : ℕ) (g : GraphDef J.Number) (node_idx visits after : Visits) (i : Option ℕ)
      (x t : Exec J.Number W)
      → turn S idx g node_idx visits x ≡ (next (i, after), t)
      → Counted S.max_iterations g visits after
  unfolding turn
  turn-next idx g node_idx visits after i x t h = elim (Option-cases (get_elem? g.nodes idx)) [
    | inl out ↦ absurd (ground (arith, out, h))
    | inr (node, found) ↦
        let (within, bump) =
          visit-next node idx g node_idx visits after i x t (rw (found, turn) at h) in
        record {
          node = node;
          stands = In-get_elem? g.nodes idx found;
          within = within;
          counted = bump;
        }
  ]
