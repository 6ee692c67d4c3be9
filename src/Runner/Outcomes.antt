-- ===== src/Runner/Outcomes.antt =====
-- graph_runner.rs, handle_node_success and handle_node_failure: what a node's result does to the
-- run, and the index of the node that comes next.
pub mod Advance
unfoldable pub use openmirai.Runner.Outcomes.Advance.*
use openmirai.Prelude.{
  ℕ, String, Bool, true, false, Option, none, some, List, [], ◌∷◌, ◌++◌, if◌then◌else◌, ◌==◌,
  starts_with, ltb, concat, decimal, length, filter, find, head?, is_some, and_then, HashMap, get,
  keys, insert, Result, ok, err,
}
use openmirai.Json.{Json, string, object, of_map}
use openmirai.Graph.{
  ComparisonOp, eq, neq, gt, lt, gte, lte, in_array, contains_value, EdgeCondition, EdgeDef,
  NodeDef, GraphDef, outgoing_edges,
}
use openmirai.State.{ExecutionState, Output, StateError, set}
use openmirai.Runner.Types
use openmirai.Events.{EventType, block_completed, block_error, session_failed}
use openmirai.Runner.Types.{
  ToolError, tool_error_text, state_error_text, internal, HookResult, TraceEntry, RetryPolicy,
  TranscriptEntry, skip, route_to_error, node_completed,
}
use openmirai.Runner.Services.{Services, HookHandler}
use openmirai.Runner.Exec.{Exec, Flow, Outcome, raised, pure, halt, modify, ◌>>=◌, ◌>>◌}
use openmirai.Runner.Routing.{resolve_all_next_nodes, resolve_next_node, find_fanout_join}
use openmirai.Runner.Effects.{
  Run, emit_event, stream_event, push_transcript, push_trace, bump_step, call, run_hook,
  save_checkpoint, failed_result, return_with,
}
use openmirai.Runner.Fanout.{execute_fanout}

module _ {J : Json} {W : Type 0} (S : Services J W) where
  -- From the trace entry of a success to the next node.
  unfoldable pub finish_success :
      NodeDef J.Number
      → Output J.Number
      → (retries elapsed : ℕ) → GraphDef J.Number
      → HashMap ℕ
      → Run S (Option ℕ)
  finish_success node output retries elapsed g node_idx = do
    push_trace S (node_trace node Types.TraceStatus.ok elapsed retries none)
    output ← post_block_exec S node output
    emit_event S block_completed (some node.id) []
    stream_event S
        (node_completed node.id node.tool_type elapsed (keys output) (object (of_map output)))
    push_transcript S "block_end"
        (concat ("Completed " ∷ node.tool_type ∷ " in " ∷ decimal elapsed ∷ "ms" ∷ []))
        (some node.id)
    bump_step S
    advance S node output g node_idx

  -- The state must take the output: a failure to store it ends the run with an error.
  abbrev pub stored :
      NodeDef J.Number
      → Output J.Number
      → (retries elapsed : ℕ) → GraphDef J.Number
      → HashMap ℕ
      → Option StateError
      → Run S (Option ℕ)
  stored node output retries elapsed g node_idx none =
      finish_success node output retries elapsed g node_idx
  stored node output retries elapsed g node_idx (some e) =
      halt (
        raised
          (internal (concat ("state.set at node '" ∷ node.id ∷ "'" ∷ [])) (state_error_text e)))

  unfoldable pub handle_node_success :
      NodeDef J.Number
      → Output J.Number
      → (retries elapsed : ℕ) → GraphDef J.Number
      → HashMap ℕ
      → Run S (Option ℕ)
  handle_node_success node output retries elapsed g node_idx = do
    if is_ai node
        then (run_hook S (λ h. h.post_llm_call node (object (of_map output))) >> pure tt)
        else pure tt
    failure ← set_output S node.id output
    stored node output retries elapsed g node_idx failure

  -- The entry, the event and the next node of a failure that the policy lets pass.
  abbrev pub pass_failure :
      NodeDef J.Number
      → Output J.Number
      → Types.TraceStatus
      → EventType
      → String
      → (retries elapsed : ℕ) → GraphDef J.Number
      → HashMap ℕ
      → Option StateError
      → Run S (Option ℕ)
  pass_failure node output status event err_msg retries elapsed g node_idx (some e) =
      return_with S (
        failed_result S
          (concat ("state.set failed at '" ∷ node.id ∷ "': " ∷ state_error_text e ∷ [])))
  pass_failure node output status event err_msg retries elapsed g node_idx none = do
    push_trace S (node_trace node status elapsed retries (some err_msg))
    emit_event S event (some node.id) []
    pure (at_node S node_idx (resolve_next_node J node.id output g))

  -- The arms on `on_failure`.
  unfoldable pub apply_failure_mode :
      Types.FailureMode
      → NodeDef J.Number
      → String
      → (retries elapsed : ℕ) → GraphDef J.Number
      → HashMap ℕ
      → Run S (Option ℕ)
  apply_failure_mode Types.FailureMode.stop node err_msg retries elapsed g node_idx = do
    push_trace S (node_trace node Types.error elapsed retries (some err_msg))
    emit_event S block_error (some node.id) []
    emit_event S session_failed none []
    return_with S (failed_result S err_msg)
  apply_failure_mode Types.FailureMode.skip node err_msg retries elapsed g node_idx = do
    failure ← set_output S node.id []
    pass_failure node [] Types.skipped block_completed err_msg retries elapsed g node_idx failure
  apply_failure_mode route_to_error node err_msg retries elapsed g node_idx = do
    let output = insert "__error__" (string err_msg) []
    failure ← set_output S node.id output
    pass_failure node output Types.error block_error err_msg retries elapsed g node_idx failure

  abbrev pub is_retry : HookResult J.Number → Bool
  is_retry HookResult.retry = true
  is_retry _ = false

  -- The hook asks for a retry: the same node again.
  unfoldable pub retry_via_hook : NodeDef J.Number → ℕ → ToolError → Run S (Option ℕ)
  retry_via_hook node idx tool_err = do
    push_transcript S "error"
        (concat (
          "Error in "
          ∷ node.tool_type
          ∷ ": "
          ∷ tool_error_text tool_err
          ∷ " (retrying via hook)"
          ∷ []))
        (some node.id)
    pure (some idx)

  unfoldable pub fail_node :
      NodeDef J.Number
      → ToolError
      → (retries elapsed : ℕ) → RetryPolicy J.F64
      → GraphDef J.Number
      → HashMap ℕ
      → Run S (Option ℕ)
  fail_node node tool_err retries elapsed policy g node_idx = do
    push_transcript S "error"
        (concat ("Error in " ∷ node.tool_type ∷ ": " ∷ tool_error_text tool_err ∷ []))
        (some node.id)
    apply_failure_mode policy.on_failure node (tool_error_text tool_err) retries elapsed g node_idx

  unfoldable pub handle_node_failure :
      NodeDef J.Number
      → ℕ
      → ToolError
      → (retries elapsed : ℕ) → RetryPolicy J.F64
      → GraphDef J.Number
      → HashMap ℕ
      → Run S (Option ℕ)
  handle_node_failure node idx tool_err retries elapsed policy g node_idx = do
    action ← run_hook S (λ h. h.on_error node tool_err)
    if is_retry action
        then retry_via_hook node idx tool_err
        else fail_node node tool_err retries elapsed policy g node_idx
