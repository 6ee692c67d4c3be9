-- ===== src/Runner/Sound.antt =====
-- graph_runner.rs: the trace entries and results that fit a graph, and the effects of one step.
pub mod Nodes
pub mod Runs
use openmirai.Prelude.{
  ℕ, ◌+◌, ◌<◌, ◌≡◌, ◌≢◌, refl, String, Bool, true, false, Option, none, some, List, [], ◌∷◌, ◌++◌,
  arith, In, here, there, All, All-append, Option-cases, Bool-cases, inl, inr, HashMap,
  if◌then◌else◌, get_elem?, In-get_elem?, Result, ok, err,
}
use openmirai.Json.{Json, Value}
use openmirai.Graph.{NodeDef, GraphDef}
use openmirai.State.{ExecutionState, Output, StateError}
use openmirai.Runner.Types
use openmirai.Events.{EventType}
use openmirai.Runner.Types.{
  RunnerError, max_iterations_exceeded, TraceEntry, ExecutionResult, completed, failed, interrupted,
  StreamEvent, HookResult, InterruptInfo,
}
use openmirai.Runner.Services.{Services, HookHandler}
use openmirai.Runner.Exec.{Exec, Outcome, returned, raised, panicked, Step, pure, ◌>>=◌}
use openmirai.Steps.Keeps.{Keeps, Ends, keeps_rules, Keeps-modify, Keeps-pure}
use openmirai.Runner.Effects.{
  Run, emit_event, stream_event, push_transcript, push_trace, bump_step, call, ask, run_hook,
  announce, checkpoint_with, save_checkpoint, failed_result, interrupted_result, return_with,
}

-- The entry is of a node of the graph, and carries an error unless the node succeeded.
pub record TraceFits {N : Type 0} (g : GraphDef N) (t : TraceEntry) : Type 0 where
  pub node : NodeDef N
  pub stands : In node g.nodes
  pub named : t.node_id ≡ node.id
  pub typed : t.tool_type ≡ node.tool_type
  pub succeeded : t.status ≡ Types.TraceStatus.ok → t.error ≡ none
  pub explained : t.status ≢ Types.TraceStatus.ok → t.error ≢ none

-- A status and the fields that go with it.
abbrev pub StatusFits :
    {N : Type 0} → GraphDef N → Types.ExecutionStatus → Option String → Option String → Type 0
StatusFits g completed error node_id = (error ≡ none) × (node_id ≡ none)
StatusFits g failed error node_id = (error ≢ none) × (node_id ≡ none)
StatusFits {N} g interrupted error node_id =
    (error ≡ none) × ((n : NodeDef N) × In n g.nodes × (node_id ≡ some n.id))
StatusFits g Types.timeout error node_id = ⊥

module _ {J : Json} {W : Type 0} (S : Services J W) (g : GraphDef J.Number) where
  abbrev pub OutcomeFits : Outcome J.Number J.F64 → Type 0
  OutcomeFits (returned r) =
      StatusFits g r.status r.error r.interrupt_node_id × All (TraceFits g) r.trace
  OutcomeFits (raised (max_iterations_exceeded k visits)) = S.max_iterations < visits
  OutcomeFits (raised _) = Unit
  OutcomeFits panicked = Unit

  abbrev pub TracesFit : Exec J.Number W → Type 0
  TracesFit x = All (TraceFits g) x.trace

  -- The steps of a run of this graph that keep the trace and end well.
  abbrev pub Safe : {A : Type 0} → Run S A → Type 0
  Safe m = Keeps TracesFit OutcomeFits m

  pub emit_event-Safe :
      (t : EventType) (k : Option String) (p : HashMap (Value J.Number)) → Safe (emit_event S t k p)
  unfolding emit_event
  emit_event-Safe t k p = record { at = λ x h. (ground (arith, h), tt) }

  pub stream_event-Safe : (e : StreamEvent J.Number) → Safe (stream_event S e)
  unfolding stream_event
  stream_event-Safe e = record { at = λ x h. (ground (arith, h), tt) }

  pub push_transcript-Safe : (t m : String) (k : Option String) → Safe (push_transcript S t m k)
  unfolding push_transcript
  push_transcript-Safe t m k = record { at = λ x h. (h, tt) }

  pub push_trace-Safe : (t : TraceEntry) → TraceFits g t → Safe (push_trace S t)
  unfolding push_trace
  push_trace-Safe t f = record {
    at = λ x h. (All-append (TraceFits g) x.trace (t ∷ []) h (f, tt), tt);
  }

  pub bump_step-Safe : Safe (bump_step S)
  unfolding bump_step
  bump_step-Safe = record { at = λ x h. (h, tt) }

  pub call-Safe : {A : Type 0} (f : W → A × W) → Safe (call S f)
  unfolding call
  call-Safe f = record { at = λ x h. (h, tt) }

  ask-Safe :
      (h : Option (HookHandler J W))
      (method : HookHandler J W → W → Option (HookResult J.Number) × W)
      → Safe (ask S h method)
  ask-Safe none method = Keeps-pure HookResult.continue
  ask-Safe (some h) method = call-Safe _

  pub run_hook-Safe :
      (method : HookHandler J W → W → Option (HookResult J.Number) × W) → Safe (run_hook S method)
  unfolding run_hook
  run_hook-Safe method = ask-Safe S.hook_handler method

  pub failed_result-Safe :
      {A : Type 0} (m : String) → Safe (return_with S {A = A} (failed_result S m))
  unfolding return_with
  failed_result-Safe m = record { at = λ x h. (h, ((λ e. cc e, refl), h)) }

  pub interrupted_result-Safe :
      {A : Type 0} (n : NodeDef J.Number) (info : Option (InterruptInfo J.F64))
      → In n g.nodes
      → Safe (return_with S {A = A} (interrupted_result S n.id info))
  unfolding return_with
  interrupted_result-Safe n info m = record { at = λ x h. (h, ((refl, (n, m, refl)), h)) }

  announce-Safe : (k : String) (n : ℕ) (r : Result String String) → Safe (announce S k n r)
  announce-Safe k n (ok i) = emit_event-Safe _ _ _
  announce-Safe k n (err e) = Keeps-pure tt

  checkpoint_with-Safe :
      (save : Option (Types.Checkpoint J.Number → W → Result String String × W)) (k : String)
      (c : Option String)
      → Safe (checkpoint_with S save k c)
  checkpoint_with-Safe none k c = Keeps-pure tt
  checkpoint_with-Safe (some save) k c = search (keeps_rules, call-Safe, announce-Safe)

  pub save_checkpoint-Safe : (k : String) (c : Option String) → Safe (save_checkpoint S k c)
  unfolding save_checkpoint
  save_checkpoint-Safe k c = checkpoint_with-Safe S.checkpoint_cb k c

pub ruleset safe_effects = (
  keeps_rules, emit_event-Safe, stream_event-Safe, push_transcript-Safe, push_trace-Safe,
  bump_step-Safe, call-Safe, run_hook-Safe, failed_result-Safe, interrupted_result-Safe,
  save_checkpoint-Safe,
)
