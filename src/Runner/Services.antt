-- ===== src/Runner/Services.antt =====
-- What GraphRunner is built from and calls: the traits of engine/src/core/runner/traits.rs, whose
-- implementations it is given, and the clock, the pause flag, tokio, regex and serde_json. Each
-- call takes the world that it runs in and returns the world that it leaves, so that nothing is
-- assumed of an implementation but that it returns.
use openmirai.Prelude.{ℕ, String, Bool, Option, List, Result}
use openmirai.Json.{Json, Value}
use openmirai.Graph.{NodeDef, GraphDef}
use openmirai.State.{ExecutionState, Output}
use openmirai.Runner.Types.{ToolError, HookResult, Checkpoint, RetryPolicy}

-- trait HookHandler, each method under its 30-second timeout: no result is a timeout. What a
-- method takes by `&mut`, and the shared state, it returns.
pub record HookHandler (J : Json) (W : Type 0) : Type 0 where
  pub on_graph_start : GraphDef J.Number → W → Option (HookResult J.Number) × W
  pub on_graph_end :
      GraphDef J.Number
      → ExecutionState J.Number
      → W
      → Option (HookResult J.Number) × ExecutionState J.Number × W
  pub pre_block_exec :
      NodeDef J.Number → Output J.Number → W → Option (HookResult J.Number) × Output J.Number × W
  pub post_block_exec :
      NodeDef J.Number → Output J.Number → W → Option (HookResult J.Number) × Output J.Number × W
  pub pre_llm_call : NodeDef J.Number → W → Option (HookResult J.Number) × W
  pub post_llm_call : NodeDef J.Number → Value J.Number → W → Option (HookResult J.Number) × W
  pub on_error : NodeDef J.Number → ToolError → W → Option (HookResult J.Number) × W

pub record Services (J : Json) (W : Type 0) : Type 0 where
  -- the fields of GraphRunner
  pub has_event_emitter : Bool
  pub has_stream : Bool
  pub max_iterations : ℕ  -- u32
  pub default_retry_policy : RetryPolicy J.F64
  pub hook_handler : Option (HookHandler J W)
  pub checkpoint_cb : Option (Checkpoint J.Number → W → Result String String × W)
  -- pause_requested.swap(false)
  pub swap_pause : W → Bool × W
  -- ToolExecutor::execute
  pub execute : NodeDef J.Number → Output J.Number → W → Result (Output J.Number) ToolError × W
  -- futures_util's join_all over such calls: what each returned, and its milliseconds
  pub join_all :
      List (NodeDef J.Number × Output J.Number)
      → W
      → List (Result (Output J.Number) ToolError × ℕ) × W
  -- Instant::now, in milliseconds
  pub millis : W → ℕ
  -- tokio::time::sleep
  pub sleep : ℕ → W → W
  -- serde_json::from_value::<RetryPolicy>
  pub parse_retry_policy : Value J.Number → Option (RetryPolicy J.F64)
  -- Regex::captures_iter of the template pattern: the whole match, the node, the field
  pub captures : String → List (String × String × String)
  -- the first element of a HashSet's iteration, of the texts that it holds
  pub first_of_set : List String → Option String
  -- ExecutionContext::session_id
  pub session_id : String
  -- the number of the emitter's next event when the run begins
  pub next_event_id : ℕ
