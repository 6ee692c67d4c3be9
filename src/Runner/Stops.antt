-- ===== src/Runner/Stops.antt =====
-- graph_runner.rs, check_human_input_interrupt: where a run waits.
use openmirai.Prelude.{ℕ, ◌≡◌, ◌≢◌, refl, ap, true, Option, arith, HashMap, ◌==◌}
use openmirai.Json.{Json}
use openmirai.Graph.{NodeDef, GraphDef}
use openmirai.Runner.Services.{Services}
use openmirai.Runner.Types
use openmirai.Runner.Exec.{Exec, next, >>=-next}
use openmirai.Runner.Effects.{return_with}
use openmirai.Runner.Loop.{
  Visits, check_pause_interrupt, count_visit, check_human_input_interrupt, visit,
}

module _ {J : Json} {W : Type 0} (S : Services J W) where
  return_with-ne-next :
      (make : Exec J.Number W → Types.ExecutionResult J.Number J.F64) (x y : Exec J.Number W)
      (u : Unit {0})
      → return_with S make x ≢ (next u, y)
  unfolding return_with
  return_with-ne-next make x y u h = ground (arith, h)

  -- Past a human_input node the check never goes on.
  check_human_input-next :
      (node : NodeDef J.Number) (x y : Exec J.Number W) (u : Unit {0})
      → node.tool_type ≡ "logic/human_input"
      → check_human_input_interrupt S node x ≢ (next u, y)
  unfolding check_human_input_interrupt
  check_human_input-next node x y u typed f =
      let b : (node.tool_type == "logic/human_input") ≡ true = rw typed refl in
      let (_, _, k) = >>=-next _ _ x y u (rw (b, check_human_input_interrupt) at f) in
      let (_, _, l) = >>=-next _ _ _ y u k in return_with-ne-next _ _ y u l

  -- A visit of a logic/human_input node never goes on to a next node, whatever the pause flag,
  -- the visit counts and the hooks.
  pub human_input_stops :
      (node : NodeDef J.Number) (idx : ℕ) (g : GraphDef J.Number) (node_idx : HashMap ℕ)
      (visits : Visits) (x : Exec J.Number W) (t : Option ℕ × Visits)
      → node.tool_type ≡ "logic/human_input"
      → (visit S node idx g node_idx visits x).0 ≢ next t
  unfolding visit
  human_input_stops node idx g node_idx visits x t typed e =
      let y = (visit S node idx g node_idx visits x).1 in
      let (p, _, f) = >>=-next _ _ x y t (ap (λ r. (r, y)) e) in
      let (v, _, k) = >>=-next _ _ _ y t f in
      let (u, q, _) = >>=-next _ _ _ y t k in
      check_human_input-next node _ _ u typed (
        ap
          (λ r. (
            r,
            (check_human_input_interrupt S node
                (count_visit S node visits (check_pause_interrupt S node x).1).1).1,
          ))
          q)
