-- ===== src/Sessions.antt =====
-- engine/src/sessions/: the manager of orchestrated Claude sessions over tmux. Its methods are async
-- and lock the registry more than once; each is a step here, and other requests come between steps.
pub mod Status
pub mod Records
pub mod Backend
pub mod Manager
pub mod Command
pub mod Spawn
pub mod Requests
pub mod External
pub mod Activity
pub mod Poll
pub mod Adopt
pub mod Registry
mod Tests
