-- ===== src/Runner/Loop/Steps.antt =====
-- graph_runner.rs: the start of a run, the interrupts, the hook before a node, and its execution.
use openmirai.Prelude.{
  ℕ, ◌+◌, ◌-◌, ◌%◌, String, Option, none, some, List, [], ◌∷◌, if◌then◌else◌, ◌==◌, ltb, concat,
  length, and_then, unwrap_or, HashMap, get, insert,
}
use openmirai.Json.{Json, Value, as_str, as_array}
use openmirai.Graph.{NodeDef, GraphDef}
use openmirai.State.{Output, StateError}
use openmirai.Events.{
  session_started, session_failed, session_interrupted, block_started, interrupt_created,
}
use openmirai.Runner.Types.{
  max_iterations_exceeded, HookResult, abort, skip, modified_inputs, InterruptInfo, RetryPolicy,
  TraceEntry, graph_started, node_started, state_error_text,
}
use openmirai.Runner.Services.{Services, HookHandler}
use openmirai.Runner.Retry.{
  u32_mod, execute_with_retry, retry_policy_for, Attempts, succeeded, failed,
}
use openmirai.Runner.Exec.{
  Exec, Flow, next, stop, Outcome, raised, panicked, pure, halt, ◌>>=◌, ◌>>◌,
}
use openmirai.Runner.Routing.{as_f64, resolve_next_node}
use openmirai.Runner.Effects.{
  Run, emit_event, stream_event, push_transcript, bump_step, call, run_hook, or_continue,
  save_checkpoint, failed_result, interrupted_result, return_with,
}
use openmirai.Runner.Outcomes.{is_ai, set_output, handle_node_success, handle_node_failure}

-- The texts of a JSON array's strings; other items are passed over.
abbrev strings_of : {N : Type 0} → List (Value N) → List String
strings_of [] = []
strings_of (v ∷ vs) = elim (as_str v) [ none ↦ strings_of vs | some s ↦ s ∷ strings_of vs ]

abbrev pub total_ms : List TraceEntry → ℕ
total_ms [] = 0
total_ms (t ∷ ts) = (t.duration_ms + total_ms ts) % 18446744073709551616

abbrev pub Visits : Type 0
Visits = HashMap ℕ

-- *visits += 1, on u32
abbrev pub visits_after : String → Visits → ℕ
visits_after node_id visits = (unwrap_or (get node_id visits) 0 + 1) % u32_mod

module _ {J : Json} {W : Type 0} (S : Services J W) where
  unfoldable pub emit_graph_started : GraphDef J.Number → Run S (Unit {0})
  emit_graph_started g = do
    push_transcript S "started" "Execution started" none
    emit_event S session_started none []
    stream_event S (graph_started g.name (length g.nodes))

  abbrev pub start_answer : HookResult J.Number → Run S (Unit {0})
  start_answer (abort reason) =
      return_with S (failed_result S (concat ("Hook on_graph_start aborted: " ∷ reason ∷ [])))
  start_answer _ = pure tt

  unfoldable pub call_hook_graph_start : GraphDef J.Number → Run S (Unit {0})
  call_hook_graph_start g = do answer ← run_hook S (λ h. h.on_graph_start g); start_answer answer

  unfoldable pub check_pause_interrupt : NodeDef J.Number → Run S (Unit {0})
  check_pause_interrupt node = do
    paused ← call S S.swap_pause
    if paused
        then (do
          save_checkpoint S node.id (some node.id)
          emit_event S session_interrupted (some node.id) []
          return_with S (interrupted_result S node.id none))
        else pure tt

  -- The count of this visit, and the stop where it passes the limit.
  unfoldable pub count_visit : NodeDef J.Number → Visits → Run S Visits
  count_visit node visits =
      if ltb S.max_iterations (visits_after node.id visits)
      then (do
        emit_event S session_failed (some node.id) []
        halt (raised (max_iterations_exceeded node.id (visits_after node.id visits))))
      else pure (insert node.id (visits_after node.id visits) visits)

  abbrev pub human_input_info : NodeDef J.Number → InterruptInfo J.F64
  human_input_info node = record {
    node_id = node.id;
    prompt = unwrap_or (and_then (get "prompt" node.config) as_str) "Decision required";
    options =
        unwrap_or
          (and_then (and_then (get "options" node.config) as_array) (λ vs. some (strings_of vs)))
          [];
    timeout_minutes = and_then (get "timeout_minutes" node.config) (as_f64 J);
  }

  unfoldable pub check_human_input_interrupt : NodeDef J.Number → Run S (Unit {0})
  check_human_input_interrupt node =
      if node.tool_type == "logic/human_input"
      then (do
        save_checkpoint S node.id (some node.id)
        emit_event S interrupt_created (some node.id) []
        return_with S (interrupted_result S node.id (some (human_input_info node))))
      else pure tt

  -- pre_block_exec, which may change the inputs.
  abbrev pub pre_block_with :
      Option (HookHandler J W)
      → NodeDef J.Number
      → Output J.Number
      → Run S (HookResult J.Number × Output J.Number)
  pre_block_with none node inputs = pure (HookResult.continue, inputs)
  pre_block_with (some h) node inputs = call S (λ w.
      let (r, inputs', w') = h.pre_block_exec node inputs w in ((or_continue S r, inputs'), w'))

  unfoldable pub pre_block_exec :
      NodeDef J.Number → Output J.Number → Run S (HookResult J.Number × Output J.Number)
  unfolding call pure
  pre_block_exec node inputs = pre_block_with S.hook_handler node inputs

  unfoldable pub emit_block_started : NodeDef J.Number → Run S (Unit {0})
  emit_block_started node = do
    emit_event S block_started (some node.id) []
    stream_event S (node_started node.id node.tool_type)
    push_transcript S "block_start" (concat ("Executing " ∷ node.tool_type ∷ [])) (some node.id)

  -- What the attempts gave, and the milliseconds that they took.
  abbrev pub to_flow :
      ℕ
      → Exec J.Number W
      → Attempts J.Number W
      → Flow (Outcome J.Number J.F64) (Attempts J.Number W × ℕ) × Exec J.Number W
  to_flow start x (succeeded output retries w) =
      (next (succeeded output retries w, S.millis w - start), record x { world = w })
  to_flow start x (failed e retries w) =
      (next (failed e retries w, S.millis w - start), record x { world = w })
  to_flow start x (Attempts.panicked w) = (stop panicked, record x { world = w })

  unfoldable pub run_attempts :
      NodeDef J.Number → Output J.Number → RetryPolicy J.F64 → Run S (Attempts J.Number W × ℕ)
  run_attempts node inputs policy x =
      to_flow (S.millis x.world) x (execute_with_retry S node inputs policy x.world)

  abbrev pub handle_result :
      NodeDef J.Number
      → ℕ
      → RetryPolicy J.F64
      → GraphDef J.Number
      → HashMap ℕ
      → Attempts J.Number W
      → ℕ
      → Run S (Option ℕ)
  handle_result node idx policy g node_idx (succeeded output retries w) elapsed =
      handle_node_success S node output retries elapsed g node_idx
  handle_result node idx policy g node_idx (failed e retries w) elapsed =
      handle_node_failure S node idx e retries elapsed policy g node_idx
  handle_result node idx policy g node_idx (Attempts.panicked w) elapsed = halt panicked

  -- "Execute node" and "Handle result".
  unfoldable pub execute_node :
      NodeDef J.Number → ℕ → Output J.Number → GraphDef J.Number → HashMap ℕ → Run S (Option ℕ)
  execute_node node idx inputs g node_idx = do
    emit_block_started node
    if is_ai node then (run_hook S (λ h. h.pre_llm_call node) >> pure tt) else pure tt
    let policy = retry_policy_for S node
    (result, elapsed) ← run_attempts node inputs policy
    handle_result node idx policy g node_idx result elapsed

  -- The skip of a node that the hook asks for.
  abbrev pub skipped_by_hook :
      NodeDef J.Number → GraphDef J.Number → HashMap ℕ → Option StateError → Run S (Option ℕ)
  skipped_by_hook node g node_idx (some e) = return_with S (
      failed_result S
        (concat ("state.set failed at '" ∷ node.id ∷ "': " ∷ state_error_text e ∷ [])))
  skipped_by_hook node g node_idx none = do
    bump_step S
    pure (and_then (resolve_next_node J node.id [] g) (λ nid. get nid node_idx))

  abbrev pub pre_block_answer :
      NodeDef J.Number
      → ℕ
      → Output J.Number
      → GraphDef J.Number
      → HashMap ℕ
      → HookResult J.Number
      → Run S (Option ℕ)
  pre_block_answer node idx inputs g node_idx (abort reason) = return_with S (
      failed_result S (concat ("Hook pre_block_exec aborted at '" ∷ node.id ∷ "': " ∷ reason ∷ [])))
  pre_block_answer node idx inputs g node_idx skip = do
    failure ← set_output S node.id []
    skipped_by_hook node g node_idx failure
  pre_block_answer node idx inputs g node_idx (modified_inputs new) =
      execute_node node idx new g node_idx
  pre_block_answer node idx inputs g node_idx _ = execute_node node idx inputs g node_idx
