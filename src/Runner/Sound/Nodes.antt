-- ===== src/Runner/Sound/Nodes.antt =====
-- graph_runner.rs, handle_node_success, handle_node_failure and execute_fanout: what they leave.
use openmirai.Prelude.{
  ℕ, ◌≡◌, ◌≢◌, refl, String, true, Option, none, some, List, [], ◌∷◌, ◌++◌, arith, ◌==◌, In, All,
  All-append, In-find, find, HashMap, Result, ok, err,
}
use openmirai.Json.{Json}
use openmirai.Graph.{NodeDef, GraphDef}
use openmirai.State.{ExecutionState, Output, StateError, set}
use openmirai.Runner.Types
use openmirai.Events.{EventType}
use openmirai.Runner.Types.{
  ToolError, TraceEntry, TranscriptEntry, RetryPolicy, FailureMode, HookResult,
}
use openmirai.Runner.Services.{Services, HookHandler}
use openmirai.Runner.Exec.{Exec, modify, ◌>>=◌}
use openmirai.Steps.Keeps.{Ends, Gives, Gives-bind, Keeps-modify, Keeps-pure, Keeps-halt}
use openmirai.Runner.Effects.{emit_event, call}
use openmirai.Runner.Fanout.{
  Collected, collect, collect_one, collect_stored, fanout_jobs, add_job, execute_fanout,
}
use openmirai.Runner.Outcomes.{
  node_trace, record_decision_transcript, set_output, keep_state, post_block_exec, post_block_with,
  fan_out, after_fanout, go_on, advance, finish_success, stored, handle_node_success, pass_failure,
  apply_failure_mode, retry_via_hook, fail_node, handle_node_failure,
}
use openmirai.Runner.Sound.{TraceFits, OutcomeFits, TracesFit, Safe, safe_effects, call-Safe}

module _ {N : Type 0} (g : GraphDef N) where
  collect_stored-TraceFits :
      (node : NodeDef N) (elapsed : ℕ) (r : Result (ExecutionState N) StateError) (c : Collected N)
      → In node g.nodes
      → All (TraceFits g) c.trace
      → All (TraceFits g) (collect_stored node elapsed r c).trace
  collect_stored-TraceFits node elapsed (ok s) c m h = All-append (TraceFits g) c.trace _ h (
    record {
      node = node;
      stands = m;
      named = refl;
      typed = refl;
      succeeded = λ _. refl;
      explained = λ n _. n refl;
    },
    tt,
  )
  collect_stored-TraceFits node elapsed (err x) c m h = All-append (TraceFits g) c.trace _ h (
    record {
      node = node;
      stands = m;
      named = refl;
      typed = refl;
      succeeded = λ e. cc;
      explained = λ _ e. cc;
    },
    tt,
  )

  collect_one-TraceFits :
      (node : NodeDef N) (r : Result (Output N) ToolError) (elapsed : ℕ) (c : Collected N)
      → In node g.nodes
      → All (TraceFits g) c.trace
      → All (TraceFits g) (collect_one node r elapsed c).trace
  unfolding collect_one
  collect_one-TraceFits node (err e) elapsed c m h = All-append (TraceFits g) c.trace _ h (
    record {
      node = node;
      stands = m;
      named = refl;
      typed = refl;
      succeeded = λ e. cc;
      explained = λ _ e. cc;
    },
    tt,
  )
  collect_one-TraceFits node (ok output) elapsed c m h =
      collect_stored-TraceFits node elapsed (set node.id output true c.state) c m h

  -- The node of a job stands in the graph.
  abbrev JobFits : NodeDef N × Output N → Type 0
  JobFits job = In job.0 g.nodes

  collect-TraceFits :
      (jobs : List (NodeDef N × Output N)) (results : List (Result (Output N) ToolError × ℕ))
      (c : Collected N)
      → All JobFits jobs
      → All (TraceFits g) c.trace
      → All (TraceFits g) (collect jobs results c).trace
  unfolding collect
  collect-TraceFits [] results c j h = h
  collect-TraceFits (job ∷ jobs) [] c j h = h
  collect-TraceFits ((node, inputs) ∷ jobs) ((r, elapsed) ∷ results) c j h =
      collect-TraceFits jobs results (collect_one node r elapsed c) j.1
        (collect_one-TraceFits node r elapsed c j.0 h)

module _ {J : Json} {W : Type 0} (S : Services J W) (g : GraphDef J.Number) where
  add_job-JobFits :
      (found : Option (NodeDef J.Number)) (state : ExecutionState J.Number)
      (jobs : List (NodeDef J.Number × Output J.Number))
      → ((n : NodeDef J.Number) → found ≡ some n → In n g.nodes)
      → All (JobFits g) jobs
      → All (JobFits g) (add_job S found g state jobs)
  add_job-JobFits none state jobs m h = h
  add_job-JobFits (some n) state jobs m h = (m n refl, h)

  fanout_jobs-JobFits :
      (nids : List String) (state : ExecutionState J.Number)
      → All (JobFits g) (fanout_jobs S nids g state)
  unfolding fanout_jobs
  fanout_jobs-JobFits [] state = tt
  fanout_jobs-JobFits (nid ∷ nids) state =
      add_job-JobFits (find (λ (n : NodeDef J.Number). n.id == nid) g.nodes) state
        (fanout_jobs S nids g state)
        (λ n e. (In-find (λ (n : NodeDef J.Number). n.id == nid) g.nodes e).0)
        (fanout_jobs-JobFits nids state)

  execute_fanout-Gives :
      (nids : List String)
      → Gives
          (TracesFit S g)
          (OutcomeFits S g)
          (λ (r : List TraceEntry × List TranscriptEntry). All (TraceFits g) r.0)
          (execute_fanout S nids g)
  unfolding execute_fanout ◌>>=◌ emit_event call
  execute_fanout-Gives nids = record {
    at = λ x h. (
      ground (arith, h),
      collect-TraceFits g (fanout_jobs S nids g _) _ _ (fanout_jobs-JobFits nids _) tt,
    );
  }

  pub set_output-Safe : (k : String) (output : Output J.Number) → Safe S g (set_output S k output)
  unfolding set_output
  set_output-Safe k output = record { at = λ x h. keep x h (set k output true x.state) }
    where
      keep :
          (x : Exec J.Number W)
          → TracesFit S g x
          → (r : Result (ExecutionState J.Number) StateError)
          → TracesFit S g (keep_state S x r).1 × Ends (OutcomeFits S g) (keep_state S x r).0
      keep x h (ok s) = (h, tt)
      keep x h (err e) = (h, tt)

  post_block_with-Safe :
      (h : Option (HookHandler J W)) (node : NodeDef J.Number) (output : Output J.Number)
      → Safe S g (post_block_with S h node output)
  post_block_with-Safe none node output = Keeps-pure output
  post_block_with-Safe (some h) node output = call-Safe S g _

  post_block_exec-Safe :
      (node : NodeDef J.Number) (output : Output J.Number)
      → Safe S g (post_block_exec S node output)
  unfolding post_block_exec
  post_block_exec-Safe node output = post_block_with-Safe S.hook_handler node output

  record_decision-Safe :
      (k : String) (n : Option String) → Safe S g (record_decision_transcript S k n g)
  unfolding record_decision_transcript
  record_decision-Safe k none = Keeps-pure tt
  record_decision-Safe k (some n) = search safe_effects

  extend-Safe :
      (tr : List TraceEntry) (ts : List TranscriptEntry)
      → All (TraceFits g) tr
      → Safe S g (
          modify (λ (x : Exec J.Number W). record x {
            trace = x.trace ++ tr;
            transcript = x.transcript ++ ts;
          }))
  extend-Safe tr ts h = Keeps-modify _ (λ x k. All-append (TraceFits g) x.trace tr k h)

  fan_out-Safe :
      (k : String) (nids : List String) (node_idx : HashMap ℕ)
      → Safe S g (fan_out S k nids g node_idx)
  unfolding fan_out
  fan_out-Safe k nids node_idx =
      Gives-bind (execute_fanout S nids g) (after_fanout S k nids g node_idx)
        (execute_fanout-Gives nids) (λ (tr, ts) h. search (safe_effects, extend-Safe))

  go_on-Safe :
      (k : String) (onward : Option String) (node_idx : HashMap ℕ)
      → Safe S g (go_on S k onward g node_idx)
  unfolding go_on
  go_on-Safe k onward node_idx = search (safe_effects, record_decision-Safe)

  advance-Safe :
      (node : NodeDef J.Number) (output : Output J.Number) (node_idx : HashMap ℕ)
      → Safe S g (advance S node output g node_idx)
  unfolding advance
  advance-Safe node output node_idx = search (safe_effects, fan_out-Safe, go_on-Safe)

  success_trace :
      (node : NodeDef J.Number) (elapsed retries : ℕ)
      → In node g.nodes
      → TraceFits g (node_trace node Types.TraceStatus.ok elapsed retries none)
  success_trace node elapsed retries m = record {
    node = node;
    stands = m;
    named = refl;
    typed = refl;
    succeeded = λ _. refl;
    explained = λ n _. n refl;
  }

  failure_trace :
      (node : NodeDef J.Number) (status : Types.TraceStatus) (elapsed retries : ℕ) (e : String)
      → In node g.nodes
      → status ≢ Types.TraceStatus.ok
      → TraceFits g (node_trace node status elapsed retries (some e))
  failure_trace node status elapsed retries e m bad = record {
    node = node;
    stands = m;
    named = refl;
    typed = refl;
    succeeded = λ good. absurd (bad good);
    explained = λ _ n. cc;
  }

  finish_success-Safe :
      (node : NodeDef J.Number) (output : Output J.Number) (retries elapsed : ℕ)
      (node_idx : HashMap ℕ)
      → In node g.nodes
      → Safe S g (finish_success S node output retries elapsed g node_idx)
  unfolding finish_success
  finish_success-Safe node output retries elapsed node_idx m =
      search (safe_effects, success_trace, post_block_exec-Safe, advance-Safe) depth 12

  stored-Safe :
      (node : NodeDef J.Number) (output : Output J.Number) (retries elapsed : ℕ)
      (node_idx : HashMap ℕ) (failure : Option StateError)
      → In node g.nodes
      → Safe S g (stored S node output retries elapsed g node_idx failure)
  stored-Safe node output retries elapsed node_idx none m =
      finish_success-Safe node output retries elapsed node_idx m
  stored-Safe node output retries elapsed node_idx (some e) m = Keeps-halt _ tt

  pub handle_node_success-Safe :
      (node : NodeDef J.Number) (output : Output J.Number) (retries elapsed : ℕ)
      (node_idx : HashMap ℕ)
      → In node g.nodes
      → Safe S g (handle_node_success S node output retries elapsed g node_idx)
  unfolding handle_node_success
  handle_node_success-Safe node output retries elapsed node_idx m =
      search (safe_effects, set_output-Safe, stored-Safe) depth 8

  pass_failure-Safe :
      (node : NodeDef J.Number) (output : Output J.Number) (status : Types.TraceStatus)
      (event : EventType) (e : String) (retries elapsed : ℕ) (node_idx : HashMap ℕ)
      (failure : Option StateError)
      → In node g.nodes
      → status ≢ Types.TraceStatus.ok
      → Safe S g (pass_failure S node output status event e retries elapsed g node_idx failure)
  pass_failure-Safe node output status event e retries elapsed node_idx none m bad =
      search (safe_effects, failure_trace) depth 8
  pass_failure-Safe node output status event e retries elapsed node_idx (some x) m bad =
      search safe_effects

  apply_failure_mode-Safe :
      (mode : FailureMode) (node : NodeDef J.Number) (e : String) (retries elapsed : ℕ)
      (node_idx : HashMap ℕ)
      → In node g.nodes
      → Safe S g (apply_failure_mode S mode node e retries elapsed g node_idx)
  unfolding apply_failure_mode
  apply_failure_mode-Safe FailureMode.stop node e retries elapsed node_idx m =
      let bad : Types.error ≢ Types.TraceStatus.ok = λ q. cc in
      search (safe_effects, failure_trace) depth 8
  apply_failure_mode-Safe FailureMode.skip node e retries elapsed node_idx m =
      let bad : Types.skipped ≢ Types.TraceStatus.ok = λ q. cc in
      search (safe_effects, set_output-Safe, pass_failure-Safe) depth 8
  apply_failure_mode-Safe FailureMode.route_to_error node e retries elapsed node_idx m =
      let bad : Types.error ≢ Types.TraceStatus.ok = λ q. cc in
      search (safe_effects, set_output-Safe, pass_failure-Safe) depth 8

  pub handle_node_failure-Safe :
      (node : NodeDef J.Number) (idx : ℕ) (e : ToolError) (retries elapsed : ℕ)
      (policy : RetryPolicy J.F64) (node_idx : HashMap ℕ)
      → In node g.nodes
      → Safe S g (handle_node_failure S node idx e retries elapsed policy g node_idx)
  unfolding handle_node_failure retry_via_hook fail_node
  handle_node_failure-Safe node idx e retries elapsed policy node_idx m =
      search (safe_effects, apply_failure_mode-Safe) depth 8
