-- ===== src/AgentSpec.antt =====
-- engine/src/core/agent_spec.rs: the definition of an agent, its validation, and the graph, triggers
-- and input checks that come of it.
pub mod Data
pub mod Loading
pub mod Inputs
pub mod Agreement
pub mod Acceptance
mod Tests
