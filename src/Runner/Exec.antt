-- ===== src/Runner/Exec.antt =====
-- The state that run_from threads through a run, and how a run ends.
pub use openmirai.Steps.{Flow, next, stop, and_go, Step, ◌>>◌, >>=-next, Flow-cases}
unfoldable pub use openmirai.Steps.{pure, halt, modify, gets, ◌>>=◌}
use openmirai.Prelude.{ℕ, List}
use openmirai.State.{ExecutionState}
use openmirai.Events.{EventEmitter}
use openmirai.Runner.Types.{RunnerError, TranscriptEntry, TraceEntry, ExecutionResult, StreamEvent}

pub record Exec (N W : Type 0) : Type 0 where
  pub world : W
  pub state : ExecutionState N
  pub trace : List TraceEntry
  pub transcript : List TranscriptEntry
  pub step : ℕ  -- u32
  pub emitter : EventEmitter N
  pub stream : List (StreamEvent N)

-- How run_from ends: a result, an error, or a panic.
pub data Outcome (N F : Type 0) : Type 0 where
  returned : ExecutionResult N F → Outcome N F
  raised : RunnerError → Outcome N F
  panicked : Outcome N F
