-- ===== src/Runner/Types.antt =====
-- engine/src/core/runner/types.rs, and the event types of engine/src/core/events.rs and
-- engine/src/streaming.rs that the runner sends. `N` is the type of JSON numbers and `F` that of
-- `f64`. Wall-clock fields (timestamp, started_at, finished_at) are left out: nothing reads them.
use openmirai.Prelude.{ℕ, String, Option, List, [], ◌∷◌, HashMap, concat}
use openmirai.Json.{Value}
use openmirai.Graph.{GraphError}
use openmirai.State.{ExecutionState, Output, StateError, already_set, lock_poisoned}

pub data ToolError : Type 0 where
  not_found : (tool_type : String) → ToolError
  execution_failed : (tool_type message : String) → ToolError

-- Display for ToolError
abbrev pub tool_error_text : ToolError → String
tool_error_text (not_found t) = concat ("tool not found: `" ∷ t ∷ "`" ∷ [])
tool_error_text (execution_failed t m) = concat ("tool `" ∷ t ∷ "` execution failed: " ∷ m ∷ [])

-- Display for StateError, with std's text for a poisoned lock
abbrev pub state_error_text : StateError → String
state_error_text (already_set k) =
    concat ("output already set for node `" ∷ k ∷ "` (use overwrite=true to replace)" ∷ [])
state_error_text lock_poisoned = "lock poisoned: poisoned lock: another task failed inside"

pub data RunnerError : Type 0 where
  graph_error : GraphError → RunnerError
  max_iterations_exceeded : (node_id : String) (visits : ℕ) → RunnerError
  internal : (context message : String) → RunnerError

pub data HookResult (N : Type 0) : Type 0 where
  continue skip retry : HookResult N
  abort : String → HookResult N
  modified_inputs : Output N → HookResult N

pub record Checkpoint (N : Type 0) : Type 0 where
  pub session_id : String
  pub step : ℕ
  pub node_id : String
  pub state_snapshot : HashMap (Output N)
  pub cursor_node_id : Option String

pub record InterruptInfo (F : Type 0) : Type 0 where
  pub node_id : String
  pub prompt : String
  pub options : List String
  pub timeout_minutes : Option F

pub record TranscriptEntry : Type 0 where
  pub entry_type : String
  pub message : String
  pub node_id : Option String

pub data BackoffStrategy : Type 0 where
  none linear exponential : BackoffStrategy

pub data FailureMode : Type 0 where
  stop skip route_to_error : FailureMode

pub record RetryPolicy (F : Type 0) : Type 0 where
  pub max_retries : ℕ  -- u32
  pub backoff : BackoffStrategy
  pub initial_delay_secs : F
  pub on_failure : FailureMode

pub data ExecutionStatus : Type 0 where
  completed failed timeout interrupted : ExecutionStatus

pub data TraceStatus : Type 0 where
  ok error skipped : TraceStatus

pub record TraceEntry : Type 0 where
  pub node_id : String
  pub tool_type : String
  pub status : TraceStatus
  pub duration_ms : ℕ
  pub retries : ℕ
  pub error : Option String

pub record ExecutionResult (N F : Type 0) : Type 0 where
  pub status : ExecutionStatus
  pub state : ExecutionState N
  pub trace : List TraceEntry
  pub transcript : List TranscriptEntry
  pub error : Option String
  pub interrupt_node_id : Option String
  pub interrupt_info : Option (InterruptInfo F)

-- The stream events that the runner sends, of those of StreamEvent.
pub data StreamEvent (N : Type 0) : Type 0 where
  graph_started : (graph_name : String) (node_count : ℕ) → StreamEvent N
  node_started : (node_id tool_type : String) → StreamEvent N
  node_completed :
      (node_id tool_type : String) (duration_ms : ℕ) (output_keys : List String) (output : Value N)
      → StreamEvent N
  graph_completed :
      (status : String) (total_duration_ms nodes_executed : ℕ) (output : Value N) → StreamEvent N
