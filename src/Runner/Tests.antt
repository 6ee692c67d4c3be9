-- ===== src/Runner/Tests.antt =====
-- A runner with concrete services, on which the theorems on runs apply: numbers are ℕ, the world
-- counts the calls of the executor, and the tool "flaky" fails on its first two calls.
use openmirai.Prelude.{
  ℕ, zero, suc, ◌+◌, ◌*◌, ◌≡◌, ◌≢◌, refl, arith, String, Bool, true, false, none, some, List, [],
  ◌∷◌, ◌==◌, ltb, leb, eqb, head?, if◌then◌else◌, Result, ok, err, In,
}
use openmirai.Json.{Json, Value, string, number, bool, null}
use openmirai.Graph.{NodeDef, EdgeDef, eq, GraphDef}
use openmirai.State.{Output, ExecutionState}
use openmirai.State
use openmirai.Runner.Types
use openmirai.Runner.Types.{ToolError, execution_failed, RetryPolicy}
use openmirai.Runner.Services.{Services}
use openmirai.Graph.{outgoing_edges}
use openmirai.Prelude.{◌↔◌, ◌++◌, get}
use openmirai.Runner.Types.{skip}
use openmirai.Runner.Exec.{Exec, next}
use openmirai.Runner.Routing.{edge_matches, evaluate_condition, resolve_all_next_nodes}
use openmirai.Runner.Retry.{execute_with_retry, calculate_backoff, succeeded}
use openmirai.Runner.Attempts.{Explains, execute_with_retry_lem}
use openmirai.Runner.Choices.{Fails, resolve_all-matched, resolve_all-unmatched}
use openmirai.Runner.Stops.{human_input_stops}
use openmirai.Runner.Failures.{outputs_after, apply_failure_mode_lem}
use openmirai.Runner.Outcomes.{apply_failure_mode, node_trace}
use openmirai.Prelude.{insert}
use openmirai.Runner.Routing.{index_nodes}
use openmirai.Runner.Fanout.{Collected, collect}
use openmirai.Runner.Parallel.{traced_ids, job_ids, traced-collect}
use openmirai.Runner.Loop.{initial, visit}
use openmirai.Runner.Loop.{run_with_state, resume}
use openmirai.Runner.Termination.{enough, run_with_state_ends}
use openmirai.Runner.Sound.{OutcomeFits}
use openmirai.Runner.Sound.Runs.{EndsBy, run_with_state_sound}

abbrev same_value : Value ℕ → Value ℕ → Bool
same_value (string a) (string b) = a == b
same_value (number a) (number b) = eqb a b
same_value (bool a) (bool b) = if a then b else (if b then false else true)
same_value null null = true
same_value _ _ = false

abbrev power : ℕ → ℕ
power zero = 1
power (suc n) = 2 * power n

abbrev pub whole : Json
whole = record {
  Number = ℕ;
  F64 = ℕ;
  value_eq = same_value;
  to_string = λ v. "";
  as_f64 = λ n. some n;
  as_u64 = λ n. some n;
  i64_as_f64 = λ n. some n;
  u64_as_f64 = λ n. some n;
  minus_one = 18446744073709551615;
  is_i64 = λ n. true;
  is_u64 = λ n. true;
  from_u64 = λ n. n;
  lt = ltb;
  le = leb;
  mul = λ a b. a * b;
  from_u32 = λ n. n;
  two_powi = power;
  zero_f64 = 0;
  duration = λ n. some (n * 1000);
}

abbrev run_tool : NodeDef ℕ → Output ℕ → ℕ → Result (Output ℕ) ToolError
run_tool node inputs calls =
    if node.tool_type == "flaky"
    then (if ltb calls 2
        then err (execution_failed "flaky" "not yet")
        else ok (("n", number calls) ∷ []))
    else ok inputs

abbrev run_jobs : List (NodeDef ℕ × Output ℕ) → ℕ → List (Result (Output ℕ) ToolError × ℕ)
run_jobs [] calls = []
run_jobs ((node, inputs) ∷ jobs) calls = (run_tool node inputs calls, 1) ∷ run_jobs jobs calls

abbrev pub policy : RetryPolicy ℕ
policy = record {
  max_retries = 2;
  backoff = Types.BackoffStrategy.linear;
  initial_delay_secs = 1;
  on_failure = Types.FailureMode.stop;
}

abbrev pub services : Services whole ℕ
services = record {
  has_event_emitter = true;
  has_stream = false;
  max_iterations = 3;
  default_retry_policy = policy;
  hook_handler = none;
  checkpoint_cb = none;
  swap_pause = λ w. (false, w);
  execute = λ node inputs w. (run_tool node inputs w, w + 1);
  join_all = λ jobs w. (run_jobs jobs w, w + 1);
  millis = λ w. w;
  sleep = λ ms w. w;
  parse_retry_policy = λ v. none;
  captures = λ s. [];
  first_of_set = head?;
  session_id = "s";
  next_event_id = 0;
}

abbrev pub start : NodeDef ℕ
start = record { id = "start"; tool_type = "flaky"; version = "1"; config = [] }

abbrev pub body : NodeDef ℕ
body = record { id = "body"; tool_type = "state/get"; version = "1"; config = [] }

abbrev edge_of : String → String → String → EdgeDef ℕ
edge_of id source target = record {
  id = id;
  source = source;
  target = target;
  condition = none;
  data_map = none;
}

-- start → body, and body → body for ever.
abbrev pub cyclic : GraphDef ℕ
cyclic = record {
  id = "g";
  name = "cyclic";
  version = "1";
  nodes = start ∷ body ∷ [];
  edges =
      edge_of "e1" "start" "body"
      ∷ record (edge_of "e2" "body" "body") {
        condition = some (record { on_field = "n"; op = eq; value = number 2 });
      }
      ∷ [];
}

run_with_state_sound_example :
    (o : openmirai.Runner.Exec.Outcome ℕ ℕ) × EndsBy services cyclic
      (run_with_state services (enough 3 cyclic) cyclic State.new 0)
      o
    × OutcomeFits services cyclic o
run_with_state_sound_example = run_with_state_sound services cyclic (omega arith) State.new 0

run_with_state_ends_example :
    (run_with_state services (enough 3 cyclic) cyclic State.new 0 ≢ none)
    × (resume services (enough 3 cyclic) cyclic State.new "body" 0 ≢ none)
run_with_state_ends_example = run_with_state_ends services (omega arith) cyclic State.new "body" 0

execute_with_retry_lem_example :
    Explains services start [] policy 0 (execute_with_retry services start [] policy 0)
execute_with_retry_lem_example = execute_with_retry_lem services start [] policy (omega arith) 0

-- "flaky" fails twice and then returns its count.
flaky_third : execute_with_retry services start [] policy 0 ≡ succeeded (("n", number 2) ∷ []) 2 3
unfolding execute_with_retry calculate_backoff
flaky_third = refl

abbrev matched : Output ℕ
matched = ("n", number 2) ∷ []

abbrev again : EdgeDef ℕ
again = record (edge_of "e2" "body" "body") {
  condition = some (record { on_field = "n"; op = eq; value = number 2 });
}

body_edges : outgoing_edges cyclic "body" ≡ again ∷ []
unfolding outgoing_edges
body_edges = refl

again_matches : edge_matches whole matched again ≡ true
unfolding evaluate_condition get
again_matches = refl

resolve_all-matched_example : resolve_all_next_nodes whole "body" matched cyclic ≡ "body" ∷ []
resolve_all-matched_example =
    resolve_all-matched whole cyclic "body" matched [] [] again body_edges tt again_matches

again-Fails : Fails whole cyclic "body" [] (outgoing_edges cyclic "body")
unfolding outgoing_edges evaluate_condition get
again-Fails = (refl, tt)

resolve_all-unmatched_example : In "body" (resolve_all_next_nodes whole "body" [] cyclic) ↔ (
    (e : EdgeDef ℕ) × In e cyclic.edges
    × (e.source ≡ body.id)
    × (e.condition ≡ none)
    × (e.target ≡ body.id))
resolve_all-unmatched_example = resolve_all-unmatched whole cyclic body.id [] body.id again-Fails

abbrev asker : NodeDef ℕ
asker = record { id = "ask"; tool_type = "logic/human_input"; version = "1"; config = [] }

abbrev fresh : Exec ℕ ℕ
fresh = initial services State.new 0 0

human_input_stops_example : (visit services asker 0 cyclic [] [] fresh).0 ≢ next (none, [])
human_input_stops_example = human_input_stops services asker 0 cyclic [] [] fresh (none, []) refl

apply_failure_mode_lem_example :
    ((apply_failure_mode services skip body "boom" 0 5 cyclic [] fresh).1.trace
      ≡ fresh.trace ++ node_trace body Types.TraceStatus.skipped 5 0 (some "boom") ∷ [])
    × ((apply_failure_mode services skip body "boom" 0 5 cyclic [] fresh).1.state.outputs
        ≡ outputs_after services skip body.id "boom" fresh.state.outputs)
apply_failure_mode_lem_example =
    apply_failure_mode_lem services skip body "boom" 0 5 cyclic [] fresh refl

abbrev two_jobs : List (NodeDef ℕ × Output ℕ)
two_jobs = (start, []) ∷ (body, []) ∷ []

abbrev two_results : List (Result (Output ℕ) ToolError × ℕ)
two_results = (err (execution_failed "flaky" "not yet"), 1) ∷ (ok [], 2) ∷ []

abbrev nothing_yet : Collected ℕ
nothing_yet = record { trace = []; transcript = []; failed_count = 0; state = State.new }

traced-collect_example :
    traced_ids (collect two_jobs two_results nothing_yet).trace ≡ traced_ids [] ++ job_ids two_jobs
traced-collect_example = traced-collect two_jobs two_results nothing_yet refl

body_at : get "body" (index_nodes 0 cyclic.nodes []) ≡ some 1
unfolding get index_nodes insert
body_at = refl
