-- ===== src/Runner/Outcomes/Advance.antt =====
-- graph_runner.rs: the parts that handle_node_success and handle_node_failure share, and the step
-- from a node that succeeded to the next one, by a fan-out or along one edge.
use openmirai.Prelude.{
  ℕ, String, Bool, true, Option, none, some, List, [], ◌∷◌, ◌++◌, if◌then◌else◌, ◌==◌, starts_with,
  ltb, concat, length, filter, find, head?, is_some, and_then, HashMap, get, Result, ok, err,
}
use openmirai.Json.{Json}
use openmirai.Graph.{
  ComparisonOp, eq, neq, gt, lt, gte, lte, in_array, contains_value, EdgeCondition, EdgeDef,
  NodeDef, GraphDef, outgoing_edges,
}
use openmirai.State.{ExecutionState, Output, StateError, set}
use openmirai.Runner.Types
use openmirai.Runner.Types.{
  ToolError, tool_error_text, state_error_text, internal, HookResult, TraceEntry, RetryPolicy,
  TranscriptEntry, skip, route_to_error, node_completed,
}
use openmirai.Runner.Services.{Services, HookHandler}
use openmirai.Runner.Exec.{Exec, Flow, Outcome, pure, modify, ◌>>=◌, ◌>>◌}
use openmirai.Runner.Routing.{resolve_all_next_nodes, find_fanout_join}
use openmirai.Runner.Effects.{Run, push_transcript, call, save_checkpoint}
use openmirai.Runner.Fanout.{execute_fanout}

-- {:?} of ComparisonOp
abbrev op_text : ComparisonOp → String
op_text eq = "Eq"
op_text neq = "Neq"
op_text gt = "Gt"
op_text lt = "Lt"
op_text gte = "Gte"
op_text lte = "Lte"
op_text in_array = "In"
op_text contains_value = "Contains"

abbrev pub node_trace :
    {N : Type 0}
    → NodeDef N
    → Types.TraceStatus
    → (elapsed retries : ℕ) → Option String
    → TraceEntry
node_trace node status elapsed retries error = record {
  node_id = node.id;
  tool_type = node.tool_type;
  status = status;
  duration_ms = elapsed;
  retries = retries;
  error = error;
}

-- node.tool_type.starts_with(AI_TOOL_PREFIX)
abbrev pub is_ai : {N : Type 0} → NodeDef N → Bool
is_ai node = starts_with node.tool_type "ai/"

module _ {J : Json} {W : Type 0} (S : Services J W) where
  abbrev condition_text : EdgeCondition J.Number → String
  condition_text c = concat (c.on_field ∷ " " ∷ op_text c.op ∷ " " ∷ J.to_string c.value ∷ [])

  abbrev decision_text : Option (EdgeDef J.Number) → String
  decision_text none = "Decision: following edge unknown (condition: )"
  decision_text (some e) = concat (
      "Decision: following edge "
      ∷ e.id
      ∷ " (condition: "
      ∷ elim e.condition [ none ↦ "" | some c ↦ condition_text c ]
      ∷ ")"
      ∷ [])

  -- A transcript entry, where the node had several conditional edges and goes on.
  unfoldable pub record_decision_transcript :
      String → Option String → GraphDef J.Number → Run S (Unit {0})
  unfolding push_transcript pure
  record_decision_transcript node_id none g = pure tt
  record_decision_transcript node_id (some next_id) g =
      let outgoing = outgoing_edges g node_id in
      if ltb 1 (length (filter (λ (e : EdgeDef J.Number). is_some e.condition) outgoing))
      then push_transcript S "decision"
          (decision_text (find (λ (e : EdgeDef J.Number). e.target == next_id) outgoing))
          (some node_id)
      else pure tt

  abbrev pub keep_state :
      Exec J.Number W
      → Result (ExecutionState J.Number) StateError
      → Flow (Outcome J.Number J.F64) (Option StateError) × Exec J.Number W
  keep_state x (ok s) = (Flow.next none, record x { state = s })
  keep_state x (err e) = (Flow.next (some e), x)

  -- state.set(node_id, output, true): the error, if it fails.
  unfoldable pub set_output : String → Output J.Number → Run S (Option StateError)
  set_output node_id output x = keep_state x (set node_id output true x.state)

  -- post_block_exec, which may change the output that the run goes on with.
  abbrev pub post_block_with :
      Option (HookHandler J W) → NodeDef J.Number → Output J.Number → Run S (Output J.Number)
  post_block_with none node output = pure output
  post_block_with (some h) node output =
      call S (λ w. let (r, output', w') = h.post_block_exec node output w in (output', w'))

  unfoldable pub post_block_exec : NodeDef J.Number → Output J.Number → Run S (Output J.Number)
  unfolding call pure
  post_block_exec node output = post_block_with S.hook_handler node output

  abbrev pub at_node : HashMap ℕ → Option String → Option ℕ
  at_node node_idx next = and_then next (λ nid. get nid node_idx)

  -- After the parallel nodes: their entries, the checkpoint, and the node where they meet.
  abbrev pub after_fanout :
      String
      → List String
      → GraphDef J.Number
      → HashMap ℕ
      → List TraceEntry × List TranscriptEntry
      → Run S (Option ℕ)
  after_fanout node_id next_nodes g node_idx (fo_trace, fo_transcript) = do
    modify (λ (x : Exec J.Number W). record x {
      trace = x.trace ++ fo_trace;
      transcript = x.transcript ++ fo_transcript;
    })
    let join_id = find_fanout_join J S.first_of_set next_nodes g
    save_checkpoint S node_id join_id
    pure (at_node node_idx join_id)

  unfoldable pub fan_out : String → List String → GraphDef J.Number → HashMap ℕ → Run S (Option ℕ)
  fan_out node_id next_nodes g node_idx = do
    entries ← execute_fanout S next_nodes g
    after_fanout node_id next_nodes g node_idx entries

  unfoldable pub go_on : String → Option String → GraphDef J.Number → HashMap ℕ → Run S (Option ℕ)
  go_on node_id next g node_idx = do
    save_checkpoint S node_id next
    record_decision_transcript node_id next g
    pure (at_node node_idx next)

  -- Advance the cursor: fan-out, or the one next node.
  unfoldable pub advance :
      NodeDef J.Number → Output J.Number → GraphDef J.Number → HashMap ℕ → Run S (Option ℕ)
  advance node output g node_idx =
      let next_nodes = resolve_all_next_nodes J node.id output g in
      if ltb 1 (length next_nodes)
      then fan_out node.id next_nodes g node_idx
      else go_on node.id (head? next_nodes) g node_idx
