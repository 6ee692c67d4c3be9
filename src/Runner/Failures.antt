-- ===== src/Runner/Failures.antt =====
-- graph_runner.rs, handle_node_failure: what a failed node leaves under each failure mode.
use openmirai.Prelude.{
  Bool-cases, inl, inr, ℕ, ◌≡◌, refl, String, false, some, [], ◌∷◌, ◌++◌, HashMap, insert,
}
use openmirai.Json.{Json, string}
use openmirai.Graph.{NodeDef, GraphDef}
use openmirai.State.{Output, set}
use openmirai.Runner.Types
use openmirai.Runner.Types.{FailureMode, skip, route_to_error, TraceStatus}
use openmirai.Runner.Services.{Services}
use openmirai.Runner.Exec.{Exec, ◌>>=◌, pure, modify}
use openmirai.Runner.Effects.{emit_event, push_trace, return_with}
use openmirai.Runner.Outcomes.{apply_failure_mode, set_output, node_trace}

module _ {J : Json} {W : Type 0} (S : Services J W) where
  abbrev pub status_of : FailureMode → TraceStatus
  status_of FailureMode.stop = Types.TraceStatus.error
  status_of skip = Types.TraceStatus.skipped
  status_of route_to_error = Types.TraceStatus.error

  -- What the node's output is afterwards.
  abbrev pub outputs_after :
      FailureMode → String → String → HashMap (Output J.Number) → HashMap (Output J.Number)
  outputs_after FailureMode.stop node_id msg outputs = outputs
  outputs_after skip node_id msg outputs = insert node_id [] outputs
  outputs_after route_to_error node_id msg outputs =
      insert node_id (("__error__", string msg) ∷ []) outputs

  -- Under every failure mode, on a state whose lock is not poisoned, a failed node adds one trace
  -- entry with its error and the mode's status, and the output that the mode stores: none under
  -- stop, an empty one under skip, the error text under route_to_error.
  pub apply_failure_mode_lem :
      (mode : FailureMode) (node : NodeDef J.Number) (msg : String) (retries elapsed : ℕ)
      (g : GraphDef J.Number) (node_idx : HashMap ℕ) (x : Exec J.Number W)
      → x.state.poisoned ≡ false
      → ((apply_failure_mode S mode node msg retries elapsed g node_idx x).1.trace
          ≡ x.trace ++ node_trace node (status_of mode) elapsed retries (some msg) ∷ [])
        × ((apply_failure_mode S mode node msg retries elapsed g node_idx x).1.state.outputs
            ≡ outputs_after mode node.id msg x.state.outputs)
  unfolding apply_failure_mode ◌>>=◌ push_trace emit_event return_with set_output set pure modify
      insert
  apply_failure_mode_lem FailureMode.stop node msg retries elapsed g node_idx x h =
      elim (Bool-cases S.has_event_emitter) [
        | inl e ↦ rw e (refl, refl)
        | inr e ↦ rw e (refl, refl)
      ]
  apply_failure_mode_lem skip node msg retries elapsed g node_idx x h =
      elim (Bool-cases S.has_event_emitter) [
        | inl e ↦ rw (h, e) (refl, refl)
        | inr e ↦ rw (h, e) (refl, refl)
      ]
  apply_failure_mode_lem route_to_error node msg retries elapsed g node_idx x h =
      elim (Bool-cases S.has_event_emitter) [
        | inl e ↦ rw (h, e) (refl, refl)
        | inr e ↦ rw (h, e) (refl, refl)
      ]
