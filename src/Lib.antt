-- ===== src/Lib.antt =====
-- OpenMirai's engine runs agents that are graphs of tools. This library models the engine's core
-- as functions over explicit state, translated from the Rust sources, and proves what they promise.
--
-- Parts and files (paths from the repository's root):
--   Graph     engine/src/core/graph.rs: the graph, `validate`, `auto_generate_edge_ids`, `prepare`,
--             `entry_nodes`, `outgoing_edges`. Graph/Validation, Errors, EdgeIds, Collisions and
--             Queries hold the proofs.
--   State     engine/src/core/state.rs: ExecutionState, the nodes' outputs behind a lock. Rust's
--             clones share one map; here the state is passed from step to step, and `poisoned` is
--             the lock's flag. Proofs in State/Laws.
--   Events    engine/src/core/events.rs: events, the emitter that numbers them, SSE texts. Proofs in
--             Events/Numbering.
--   Runner    engine/src/core/runner/: Types and Services are types.rs and traits.rs with the
--             fields of GraphRunner; Routing, Inputs and Retry are the pure parts of
--             graph_runner.rs; Exec is the state of its steps, in the monad of Steps;
--             Effects are the writes of one step; Fanout, Outcomes with Outcomes/Advance, Loop with
--             Loop/Steps follow execute_fanout, handle_node_success and handle_node_failure, and
--             run_from with its callers.
--             Proofs in Termination and Bounds (the loop ends), Sound (what a run leaves behind),
--             Attempts (retries), Choices (next nodes), Precedence (inputs), Stops (human input),
--             Failures (failure modes), Parallel (fan-out) and Index (the node index).
--   Values    engine/src/core/value_type.rs: value types and `validate_inputs`.
--   AgentSpec engine/src/core/agent_spec.rs: Data, Loading (validation, the graph of a spec, files) and
--             Inputs. Proofs in Agreement (with Graph) and Acceptance (of inputs).
--   Logic     engine/src/tools/builtin/logic.rs: condition, merge, loop and switch.
--   Auth      engine/src/core/auth.rs: the permission matrix.
--   Scheduler engine/src/runtime/scheduler.rs: the loop of one scheduled agent, round by round, and
--             the queries on its records. Proofs in Scheduler/Cycles.
--   Sessions  engine/src/sessions/: Status, Records and Backend are status.rs, the data of manager.rs
--             and the trait of backend.rs; Manager is the state of SessionManager with the steps
--             that its methods share; Command, Spawn, Requests, External, Activity, Poll and Adopt
--             are its methods. Registry is its invariant, with the proofs for every operation and
--             for every sequence of requests; the other proofs stand below the methods' modules.
--   Security  engine/src/security.rs: the scanner of texts for prompt injection. Proofs in
--             Security/Detection.
--   Steps     the monad of stateful code, a state with an early result, and the rules for what its
--             steps keep.
--   Json      the data type of JSON values; what serde_json computes is a record of operations.
--   Prelude   lists over the native numbers, texts, HashMap as an association list, results.
-- The runner validates the graph, reads and writes the state through `set` and `get_field`, and
-- calls the tools, the hooks, the checkpoint callback, the clock and tokio through the record
-- `Services`, each call a function of a world that it may change.
--
-- The manager of sessions calls tmux, the file system, the clock and the random ids through the
-- record `Backend` in the same way, and sends its events through an emitter of Events. Its methods
-- lock the registry several times; a method is one step here, and other requests come between
-- steps.
--
-- Bounds: u32 and u64 counters keep their wrap-around where the code adds (`% u32_mod`). The loop
-- of run_from takes fuel: a turn counts a visit of one node, a node has at most `max_iterations`
-- visits, so nodes * max_iterations + 1 turns (`enough`) are given to a run.
-- A panic (an overflowing Duration, an index out of range) is an outcome of its own.
--
-- Not modelled: wall-clock fields and the always empty metadata of records, logging, `position` and
-- `metadata` of the graph, the text of a lock error, stream events dropped by a full channel,
-- the list of projects and the timer of the poll, the shell commands that drive tmux, and
-- everything that is I/O: providers, server, database, command line.
pub mod Prelude
pub mod Json
pub mod Steps
pub mod Events
pub mod Graph
pub mod State
pub mod Values
pub mod Auth
pub mod Runner
pub mod Logic
pub mod Sessions
pub mod AgentSpec
pub mod Scheduler
pub mod Security
