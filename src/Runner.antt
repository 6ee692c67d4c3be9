-- ===== src/Runner.antt =====
-- engine/src/core/runner/: the graph runner. The definitions follow graph_runner.rs from the leaves
-- up: types and interfaces, routing, inputs, retries, the effects of one step, and the loop.
pub mod Types
pub mod Services
pub mod Routing
pub mod Inputs
pub mod Retry
pub mod Exec
pub mod Effects
pub mod Fanout
pub mod Outcomes
pub mod Loop
pub mod Attempts
pub mod Choices
pub mod Precedence
pub mod Stops
pub mod Failures
pub mod Parallel
pub mod Index
mod Bounds
pub mod Tests
pub mod Sound
pub mod Termination
