-- ===== src/Runner/Fanout.antt =====
-- graph_runner.rs, execute_fanout: the parallel nodes of one fan-out. Their inputs are resolved
-- before any of them runs; the results are stored one after the other, in the order of the nodes.
use openmirai.Prelude.{
  ℕ, ◌+◌, ◌-◌, String, true, Option, none, some, List, [], ◌∷◌, ◌++◌, ◌==◌, concat, join, decimal,
  find, length, Result, ok, err,
}
use openmirai.Json.{Json, string}
use openmirai.Graph.{NodeDef, GraphDef}
use openmirai.State.{ExecutionState, Output, StateError, set}
use openmirai.Runner.Types
use openmirai.Events.{block_started, block_completed}
use openmirai.Runner.Types.{
  ToolError, tool_error_text, state_error_text, TraceEntry, TranscriptEntry,
}
use openmirai.Runner.Services.{Services}
use openmirai.Runner.Exec.{Exec, pure, modify, gets, ◌>>=◌, ◌>>◌}
use openmirai.Runner.Inputs.{resolve_and_merge_inputs}
use openmirai.Runner.Effects.{emit_event, call, Run}

-- What the collecting loop has so far.
pub record Collected (N : Type 0) : Type 0 where
  pub trace : List TraceEntry
  pub transcript : List TranscriptEntry
  pub failed_count : ℕ
  pub state : ExecutionState N

abbrev pub fanout_trace :
    {N : Type 0} → NodeDef N → Types.TraceStatus → ℕ → Option String → TraceEntry
fanout_trace node status elapsed error = record {
  node_id = node.id;
  tool_type = node.tool_type;
  status = status;
  duration_ms = elapsed;
  retries = 0;
  error = error;
}

abbrev pub note_of : String → String → Option String → TranscriptEntry
note_of entry_type message node_id = record {
  entry_type = entry_type;
  message = message;
  node_id = node_id;
}

module _ {N : Type 0} where
  -- A node that ran: its output is stored, or the failure to store it is recorded.
  abbrev pub collect_stored :
      NodeDef N → ℕ → Result (ExecutionState N) StateError → Collected N → Collected N
  collect_stored node elapsed (err e) c = record c {
    failed_count = c.failed_count + 1;
    trace =
        c.trace
        ++ fanout_trace node Types.error elapsed
            (some (concat ("state.set failed: " ∷ state_error_text e ∷ [])))
          ∷ [];
  }
  collect_stored node elapsed (ok s) c = record c {
    state = s;
    trace = c.trace ++ fanout_trace node Types.TraceStatus.ok elapsed none ∷ [];
    transcript =
        c.transcript
        ++ note_of "fanout_node_done"
            (concat (
              "Fan-out node '"
              ∷ node.id
              ∷ "' ("
              ∷ node.tool_type
              ∷ ") completed in "
              ∷ decimal elapsed
              ∷ "ms"
              ∷ []))
            (some node.id)
          ∷ [];
  }

  abbrev pub collect_error : NodeDef N → ToolError → ℕ → Collected N → Collected N
  collect_error node e elapsed c = record c {
    failed_count = c.failed_count + 1;
    trace = c.trace ++ fanout_trace node Types.error elapsed (some (tool_error_text e)) ∷ [];
    transcript =
        c.transcript
        ++ note_of "fanout_node_error"
            (concat ("Fan-out node '" ∷ node.id ∷ "' failed: " ∷ tool_error_text e ∷ []))
            (some node.id)
          ∷ [];
  }

  -- One round of the loop over the results.
  unfoldable pub collect_one :
      NodeDef N → Result (Output N) ToolError → ℕ → Collected N → Collected N
  collect_one node (ok output) elapsed c =
      collect_stored node elapsed (set node.id output true c.state) c
  collect_one node (err e) elapsed c = collect_error node e elapsed c

  -- The loop: one result for each job, in the order of the jobs.
  unfoldable pub collect :
      List (NodeDef N × Output N)
      → List (Result (Output N) ToolError × ℕ)
      → Collected N
      → Collected N
  unfolding collect_one
  collect [] results c = c
  collect (job ∷ jobs) [] c = c
  collect ((node, inputs) ∷ jobs) ((result, elapsed) ∷ results) c =
      collect jobs results (collect_one node result elapsed c)

module _ {J : Json} {W : Type 0} (S : Services J W) where
  abbrev pub add_job :
      Option (NodeDef J.Number)
      → GraphDef J.Number
      → ExecutionState J.Number
      → List (NodeDef J.Number × Output J.Number)
      → List (NodeDef J.Number × Output J.Number)
  add_job none g state jobs = jobs
  add_job (some node) g state jobs =
      (node, resolve_and_merge_inputs J S.captures node g state) ∷ jobs

  -- The futures: one for each id that names a node of the graph.
  unfoldable pub fanout_jobs :
      List String
      → GraphDef J.Number
      → ExecutionState J.Number
      → List (NodeDef J.Number × Output J.Number)
  fanout_jobs [] g state = []
  fanout_jobs (nid ∷ nids) g state =
      add_job (find (λ (n : NodeDef J.Number). n.id == nid) g.nodes) g state
        (fanout_jobs nids g state)

  -- The trace and transcript entries that the caller appends to its own.
  unfoldable pub execute_fanout :
      List String → GraphDef J.Number → Run S (List TraceEntry × List TranscriptEntry)
  execute_fanout nids g = do
    emit_event S block_started none (("fanout_nodes", string (join "," nids)) ∷ [])
    state ← gets (λ (x : Exec J.Number W). x.state)
    results ← call S (S.join_all (fanout_jobs nids g state))
    state ← gets (λ (x : Exec J.Number W). x.state)
    let c = collect (fanout_jobs nids g state) results (record {
      trace = [];
      transcript =
          note_of "fanout_start"
            (concat (
              "Fan-out: executing "
              ∷ decimal (length nids)
              ∷ " nodes in parallel: ["
              ∷ join ", " nids
              ∷ "]"
              ∷ []))
            none
          ∷ [];
      failed_count = 0;
      state = state;
    })
    modify (λ (x : Exec J.Number W). record x { state = c.state })
    emit_event S block_completed none []
    pure (
      c.trace,
      c.transcript
          ++ note_of "fanout_end"
              (concat (
                "Fan-out completed: "
                ∷ decimal (length nids - c.failed_count)
                ∷ " succeeded, "
                ∷ decimal c.failed_count
                ∷ " failed"
                ∷ []))
              none
            ∷ [],
    )
