-- ===== src/Runner/Loop.antt =====
-- graph_runner.rs, run_from and its callers. The `while` loop takes fuel; `none` is the fuel's end.
-- An index out of range, `graph.nodes[idx]`, panics.
pub mod Steps
unfoldable pub use openmirai.Runner.Loop.Steps.*
use openmirai.Prelude.{
  ℕ, zero, suc, ◌+◌, ◌-◌, ◌%◌, String, Option, none, some, List, [], ◌∷◌, if◌then◌else◌, ◌==◌, ltb,
  concat, decimal, length, get_elem?, and_then, unwrap_or, HashMap, get, insert, ok, err,
}
use openmirai.Json.{Json, Value, object, of_map, as_str, as_array}
use openmirai.Graph.{NodeDef, GraphDef, validate, entry_nodes}
use openmirai.State.{ExecutionState, Output, snapshot, set, StateError}
use openmirai.State
use openmirai.Events.{
  session_started, session_completed, session_failed, session_interrupted, block_started,
  interrupt_created,
}
use openmirai.Runner.Types.{
  RunnerError, graph_error, max_iterations_exceeded, internal, HookResult, abort, skip,
  modified_inputs, InterruptInfo, RetryPolicy, TraceEntry, ExecutionResult, completed,
  graph_started, node_started, graph_completed, state_error_text,
}
use openmirai.Runner.Services.{Services, HookHandler}
use openmirai.Runner.Retry.{
  u32_mod, execute_with_retry, retry_policy_for, Attempts, succeeded, failed,
}
use openmirai.Runner.Exec.{
  Exec, Flow, next, stop, Outcome, raised, panicked, pure, halt, gets, ◌>>=◌, ◌>>◌,
}
use openmirai.Runner.Routing.{as_f64, index_nodes, resolve_next_node}
use openmirai.Runner.Inputs.{resolve_and_merge_inputs}
use openmirai.Runner.Effects.{
  Run, emit_event, stream_event, push_transcript, bump_step, call, run_hook, or_continue,
  save_checkpoint, failed_result, interrupted_result, return_with,
}
use openmirai.Runner.Outcomes.{is_ai, set_output, handle_node_success, handle_node_failure}

module _ {J : Json} {W : Type 0} (S : Services J W) where
  -- The rest of the loop's body, from the inputs to the next index.
  unfoldable pub run_node : NodeDef J.Number → ℕ → GraphDef J.Number → HashMap ℕ → Run S (Option ℕ)
  run_node node idx g node_idx = do
    state ← gets (λ (x : Exec J.Number W). x.state)
    (answer, inputs) ← pre_block_exec S node (resolve_and_merge_inputs J S.captures node g state)
    pre_block_answer S node idx inputs g node_idx answer

  -- The loop's body on a node: the interrupts, the count, the node.
  unfoldable pub visit :
      NodeDef J.Number → ℕ → GraphDef J.Number → HashMap ℕ → Visits → Run S (Option ℕ × Visits)
  visit node idx g node_idx visits = do
    check_pause_interrupt S node
    visits ← count_visit S node visits
    check_human_input_interrupt S node
    next_idx ← run_node node idx g node_idx
    pure (next_idx, visits)

  abbrev pub visit_at :
      Option (NodeDef J.Number)
      → ℕ
      → GraphDef J.Number
      → HashMap ℕ
      → Visits
      → Run S (Option ℕ × Visits)
  visit_at none idx g node_idx visits = halt panicked
  visit_at (some node) idx g node_idx visits = visit node idx g node_idx visits

  unfoldable pub turn : ℕ → GraphDef J.Number → HashMap ℕ → Visits → Run S (Option ℕ × Visits)
  unfolding visit halt
  turn idx g node_idx visits = visit_at (get_elem? g.nodes idx) idx g node_idx visits

  -- while let Some(idx) = current_idx
  unfoldable pub walk :
      ℕ
      → GraphDef J.Number
      → HashMap ℕ
      → Option ℕ
      → Visits
      → Exec J.Number W
      → Option (Flow (Outcome J.Number J.F64) (Unit {0}) × Exec J.Number W)
  walk fuel g node_idx none visits x = some (next tt, x)
  walk zero g node_idx (some idx) visits x = none
  walk (suc fuel) g node_idx (some idx) visits x =
      let (r, x') = turn idx g node_idx visits x in
      elim r [
        | stop o ↦ some (stop o, x')
        | next t ↦ let (next_idx, visits') = t in walk fuel g node_idx next_idx visits' x'
      ]

  abbrev pub completed_result : Exec J.Number W → ExecutionResult J.Number J.F64
  completed_result x = record {
    status = completed;
    state = x.state;
    trace = x.trace;
    transcript = x.transcript;
    error = none;
    interrupt_node_id = none;
    interrupt_info = none;
  }

  abbrev outputs_value : HashMap (Output J.Number) → HashMap (Value J.Number)
  outputs_value [] = []
  outputs_value ((k, output) ∷ m) = (k, object (of_map output)) ∷ outputs_value m

  -- on_graph_end, which may write to the state.
  abbrev pub graph_end_with : Option (HookHandler J W) → GraphDef J.Number → Run S (Unit {0})
  graph_end_with none g x = (next tt, x)
  graph_end_with (some h) g x =
      let (r, state, w) = h.on_graph_end g x.state x.world in
      (next tt, record x { world = w; state = state })

  unfoldable pub call_hook_graph_end : GraphDef J.Number → Run S (Unit {0})
  call_hook_graph_end g = graph_end_with S.hook_handler g

  unfoldable pub finalize_graph_execution : GraphDef J.Number → Run S (Unit {0})
  finalize_graph_execution g = do
    call_hook_graph_end g
    trace ← gets (λ (x : Exec J.Number W). x.trace)
    push_transcript S "completed"
        (concat ("Execution completed (" ∷ decimal (length trace) ∷ " blocks)" ∷ [])) none
    emit_event S session_completed none []
    state ← gets (λ (x : Exec J.Number W). x.state)
    stream_event S (
        graph_completed "Completed" (total_ms trace) (length trace)
          (object (of_map (outputs_value (snapshot state)))))
    return_with S completed_result

  -- Phases 2 and 3 of run_from.
  abbrev pub finish :
      GraphDef J.Number
      → Option (Flow (Outcome J.Number J.F64) (Unit {0}) × Exec J.Number W)
      → Option (Flow (Outcome J.Number J.F64) (Unit {0}) × Exec J.Number W)
  finish g none = none
  finish g (some (stop o, x)) = some (stop o, x)
  finish g (some (next u, x)) = some (finalize_graph_execution g x)

  abbrev pub initial : ExecutionState J.Number → ℕ → W → Exec J.Number W
  initial state step w = record {
    world = w;
    state = state;
    trace = [];
    transcript = [];
    step = step;
    emitter = record { counter = S.next_event_id; sent = [] };
    stream = [];
  }

  unfoldable pub start_run : GraphDef J.Number → Run S (Unit {0})
  start_run g = do emit_graph_started S g; call_hook_graph_start S g

  -- After phase 1.
  abbrev pub walk_on :
      ℕ
      → GraphDef J.Number
      → String
      → Flow (Outcome J.Number J.F64) (Unit {0})
      → Exec J.Number W
      → Option (Flow (Outcome J.Number J.F64) (Unit {0}) × Exec J.Number W)
  walk_on fuel g entry (stop o) x = some (stop o, x)
  walk_on fuel g entry (next u) x =
      let node_idx = index_nodes 0 g.nodes [] in
      finish g (walk fuel g node_idx (get entry node_idx) [] x)

  unfoldable pub run_from :
      ℕ
      → GraphDef J.Number
      → ExecutionState J.Number
      → String
      → ℕ
      → W
      → Option (Flow (Outcome J.Number J.F64) (Unit {0}) × Exec J.Number W)
  run_from fuel g state entry start_step w =
      let (r, x) = start_run g (initial state start_step w) in walk_on fuel g entry r x

  -- An error of `?` before the run.
  abbrev pub refuse :
      RunnerError
      → ExecutionState J.Number
      → W
      → Option (Flow (Outcome J.Number J.F64) (Unit {0}) × Exec J.Number W)
  refuse e state w = some (stop (raised e), initial state 0 w)

  abbrev pub run_first :
      ℕ
      → GraphDef J.Number
      → ExecutionState J.Number
      → W
      → List (NodeDef J.Number)
      → Option (Flow (Outcome J.Number J.F64) (Unit {0}) × Exec J.Number W)
  run_first fuel g state w [] =
      refuse (internal "entry node" "no entry nodes found after validation") state w
  run_first fuel g state w (entry ∷ _) = run_from fuel g state entry.id 0 w

  unfoldable pub run_with_state :
      ℕ
      → GraphDef J.Number
      → ExecutionState J.Number
      → W
      → Option (Flow (Outcome J.Number J.F64) (Unit {0}) × Exec J.Number W)
  run_with_state fuel g state w = elim (validate g) [
    | err e ↦ refuse (graph_error e) state w
    | ok u ↦ run_first fuel g state w (entry_nodes g)
  ]

  unfoldable pub run :
      ℕ
      → GraphDef J.Number
      → W
      → Option (Flow (Outcome J.Number J.F64) (Unit {0}) × Exec J.Number W)
  run fuel g w = run_with_state fuel g State.new w

  unfoldable pub resume :
      ℕ
      → GraphDef J.Number
      → ExecutionState J.Number
      → String
      → W
      → Option (Flow (Outcome J.Number J.F64) (Unit {0}) × Exec J.Number W)
  resume fuel g state node_id w = elim (validate g) [
    | err e ↦ refuse (graph_error e) state w
    | ok u ↦ run_from fuel g state node_id 0 w
  ]
