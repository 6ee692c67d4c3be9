-- ===== src/Runner/Sound/Runs.antt =====
-- graph_runner.rs, run_from and its callers: what they leave.
use openmirai.Runner.Termination.{enough, run_with_state_ends}
use openmirai.Runner.Retry.{u32_mod}
use openmirai.Prelude.{
  ℕ, zero, suc, ◌+◌, ◌<◌, ◌≡◌, ◌≢◌, refl, String, Option, none, some, List, [], ◌∷◌, In,
  In-get_elem?, get_elem?, Bool-cases, Result-cases, inl, inr, HashMap, get, ltb, ltb→lt,
}
use openmirai.Json.{Json}
use openmirai.Graph.{NodeDef, GraphDef, validate, entry_nodes}
use openmirai.State.{ExecutionState, Output, StateError}
use openmirai.Runner.Types.{RetryPolicy, HookResult}
use openmirai.Runner.Services.{Services, HookHandler}
use openmirai.Runner.Retry.{Attempts, succeeded, failed, execute_with_retry}
use openmirai.Runner.Routing.{index_nodes}
use openmirai.Runner.Exec.{Exec, Outcome, Flow, next, stop, Flow-cases}
use openmirai.Steps.Keeps.{Ends, Keeps-pure, Keeps-bind, Keeps-halt, Gives, EndsWith, Keeps-then}
use openmirai.Runner.Effects.{Run, return_with}
use openmirai.Runner.Loop.{
  Visits, visits_after, emit_graph_started, start_answer, call_hook_graph_start,
  check_pause_interrupt, count_visit, check_human_input_interrupt, pre_block_with, pre_block_exec,
  emit_block_started, to_flow, run_attempts, handle_result, execute_node, skipped_by_hook,
  pre_block_answer, run_node, visit, visit_at, turn, walk, graph_end_with, call_hook_graph_end,
  finalize_graph_execution, finish, initial, start_run, walk_on, run_from, completed_result,
  run_first, run_with_state,
}
use openmirai.Runner.Sound.{OutcomeFits, TracesFit, Safe, safe_effects, call-Safe}
use openmirai.Runner.Sound.Nodes.{
  handle_node_success-Safe, handle_node_failure-Safe, set_output-Safe,
}

module _ {J : Json} {W : Type 0} (S : Services J W) (g : GraphDef J.Number) where
  start_answer-Safe : (r : HookResult J.Number) → Safe S g (start_answer S r)
  start_answer-Safe (HookResult.abort reason) = search safe_effects
  start_answer-Safe _ = Keeps-pure tt

  start_run-Safe : Safe S g (start_run S g)
  unfolding start_run emit_graph_started call_hook_graph_start
  start_run-Safe = search (safe_effects, start_answer-Safe) depth 8

  check_pause-Safe : (n : NodeDef J.Number) → In n g.nodes → Safe S g (check_pause_interrupt S n)
  unfolding check_pause_interrupt
  check_pause-Safe n m = search safe_effects depth 8

  check_human-Safe :
      (n : NodeDef J.Number) → In n g.nodes → Safe S g (check_human_input_interrupt S n)
  unfolding check_human_input_interrupt
  check_human-Safe n m = search safe_effects depth 8

  count_visit-Safe : (n : NodeDef J.Number) (v : Visits) → Safe S g (count_visit S n v)
  unfolding count_visit
  count_visit-Safe n v = elim (Bool-cases (ltb S.max_iterations (visits_after n.id v))) [
    | inl e ↦
        rw (e, count_visit)
          (Keeps-bind _ _ (search safe_effects) (λ _. Keeps-halt _ (ltb→lt _ _ e)))
    | inr e ↦ rw (e, count_visit) (Keeps-pure _)
  ]

  pre_block_with-Safe :
      (h : Option (HookHandler J W)) (n : NodeDef J.Number) (inputs : Output J.Number)
      → Safe S g (pre_block_with S h n inputs)
  pre_block_with-Safe none n inputs = Keeps-pure _
  pre_block_with-Safe (some h) n inputs = call-Safe S g _

  pre_block_exec-Safe :
      (n : NodeDef J.Number) (inputs : Output J.Number) → Safe S g (pre_block_exec S n inputs)
  unfolding pre_block_exec
  pre_block_exec-Safe n inputs = pre_block_with-Safe S.hook_handler n inputs

  to_flow-Safe :
      (start : ℕ) (x : Exec J.Number W) (a : Attempts J.Number W)
      → TracesFit S g x
      → TracesFit S g (to_flow S start x a).1 × Ends (OutcomeFits S g) (to_flow S start x a).0
  to_flow-Safe start x (succeeded output retries w) h = (h, tt)
  to_flow-Safe start x (failed e retries w) h = (h, tt)
  to_flow-Safe start x (Attempts.panicked w) h = (h, tt)

  run_attempts-Safe :
      (n : NodeDef J.Number) (inputs : Output J.Number) (policy : RetryPolicy J.F64)
      → Safe S g (run_attempts S n inputs policy)
  unfolding run_attempts
  run_attempts-Safe n inputs policy = record {
    at = λ x h. to_flow-Safe (S.millis x.world) x (execute_with_retry S n inputs policy x.world) h;
  }

  handle_result-Safe :
      (n : NodeDef J.Number) (idx : ℕ) (policy : RetryPolicy J.F64) (node_idx : HashMap ℕ)
      (a : Attempts J.Number W) (elapsed : ℕ)
      → In n g.nodes
      → Safe S g (handle_result S n idx policy g node_idx a elapsed)
  handle_result-Safe n idx policy node_idx (succeeded output retries w) elapsed m =
      handle_node_success-Safe S g n output retries elapsed node_idx m
  handle_result-Safe n idx policy node_idx (failed e retries w) elapsed m =
      handle_node_failure-Safe S g n idx e retries elapsed policy node_idx m
  handle_result-Safe n idx policy node_idx (Attempts.panicked w) elapsed m = Keeps-halt _ tt

  execute_node-Safe :
      (n : NodeDef J.Number) (idx : ℕ) (inputs : Output J.Number) (node_idx : HashMap ℕ)
      → In n g.nodes
      → Safe S g (execute_node S n idx inputs g node_idx)
  unfolding execute_node emit_block_started
  execute_node-Safe n idx inputs node_idx m =
      search (safe_effects, run_attempts-Safe, handle_result-Safe) depth 10

  skipped_by_hook-Safe :
      (n : NodeDef J.Number) (node_idx : HashMap ℕ) (failure : Option StateError)
      → Safe S g (skipped_by_hook S n g node_idx failure)
  skipped_by_hook-Safe n node_idx none = search safe_effects
  skipped_by_hook-Safe n node_idx (some e) = search safe_effects

  pre_block_answer-Safe :
      (n : NodeDef J.Number) (idx : ℕ) (inputs : Output J.Number) (node_idx : HashMap ℕ)
      (r : HookResult J.Number)
      → In n g.nodes
      → Safe S g (pre_block_answer S n idx inputs g node_idx r)
  pre_block_answer-Safe n idx inputs node_idx (HookResult.abort reason) m = search safe_effects
  pre_block_answer-Safe n idx inputs node_idx HookResult.skip m =
      search (safe_effects, set_output-Safe, skipped_by_hook-Safe)
  pre_block_answer-Safe n idx inputs node_idx (HookResult.modified_inputs new) m =
      execute_node-Safe n idx new node_idx m
  pre_block_answer-Safe n idx inputs node_idx _ m = execute_node-Safe n idx inputs node_idx m

  run_node-Safe :
      (n : NodeDef J.Number) (idx : ℕ) (node_idx : HashMap ℕ)
      → In n g.nodes
      → Safe S g (run_node S n idx g node_idx)
  unfolding run_node
  run_node-Safe n idx node_idx m =
      search (safe_effects, pre_block_exec-Safe, pre_block_answer-Safe) depth 8

  visit-Safe :
      (n : NodeDef J.Number) (idx : ℕ) (node_idx : HashMap ℕ) (v : Visits)
      → In n g.nodes
      → Safe S g (visit S n idx g node_idx v)
  unfolding visit
  visit-Safe n idx node_idx v m =
      search (safe_effects, check_pause-Safe, count_visit-Safe, check_human-Safe, run_node-Safe)
        depth 8

  visit_at-Safe :
      (found : Option (NodeDef J.Number)) (idx : ℕ) (node_idx : HashMap ℕ) (v : Visits)
      → ((n : NodeDef J.Number) → found ≡ some n → In n g.nodes)
      → Safe S g (visit_at S found idx g node_idx v)
  visit_at-Safe none idx node_idx v m = Keeps-halt _ tt
  visit_at-Safe (some n) idx node_idx v m = visit-Safe n idx node_idx v (m n refl)

  turn-Safe : (idx : ℕ) (node_idx : HashMap ℕ) (v : Visits) → Safe S g (turn S idx g node_idx v)
  unfolding turn
  turn-Safe idx node_idx v =
      visit_at-Safe (get_elem? g.nodes idx) idx node_idx v (λ n e. In-get_elem? g.nodes idx e)

  -- What a loop that has not run out of fuel leaves.
  abbrev LoopFits : Option (Flow (Outcome J.Number J.F64) (Unit {0}) × Exec J.Number W) → Type 0
  LoopFits none = Unit
  LoopFits (some (r, x)) = TracesFit S g x × Ends (OutcomeFits S g) r

  walk-Safe :
      (fuel : ℕ) (node_idx : HashMap ℕ) (cur : Option ℕ) (v : Visits) (x : Exec J.Number W)
      → TracesFit S g x
      → LoopFits (walk S fuel g node_idx cur v x)
  unfolding walk
  walk-Safe fuel node_idx none v x h = (h, tt)
  walk-Safe zero node_idx (some idx) v x h = tt
  walk-Safe (suc fuel) node_idx (some idx) v x h =
      let (kept, ends) = (turn-Safe idx node_idx v).at x h in
      elim (Flow-cases (turn S idx g node_idx v x).0) [
        | inl ((i, after), t) ↦
            rw (t, walk) (walk-Safe fuel node_idx i after (turn S idx g node_idx v x).1 kept)
        | inr (o, t) ↦ rw (t, walk) (kept, rw t at ends)
      ]

  graph_end_with-Safe : (h : Option (HookHandler J W)) → Safe S g (graph_end_with S h g)
  graph_end_with-Safe none = record { at = λ x h. (h, tt) }
  graph_end_with-Safe (some hook) = record { at = λ x h. (h, tt) }

  -- A step that never goes on.
  abbrev Final : {A : Type 0} → Run S A → Type 0
  Final m = Gives (TracesFit S g) (OutcomeFits S g) (λ _. ⊥) m

  completed-Final : Final (return_with S {A = Unit {0}} (completed_result S))
  unfolding return_with
  completed-Final = record { at = λ x h. (h, ((refl, refl), h)) }

  finalize-Final : Final (finalize_graph_execution S g)
  unfolding finalize_graph_execution call_hook_graph_end
  finalize-Final = search (safe_effects, graph_end_with-Safe, Keeps-then, completed-Final) depth 10

  -- A run that is over has stopped, with an outcome that fits.
  abbrev RunFits : Option (Flow (Outcome J.Number J.F64) (Unit {0}) × Exec J.Number W) → Type 0
  RunFits none = Unit
  RunFits (some (r, x)) = EndsWith (OutcomeFits S g) (λ _. ⊥) r

  finish-RunFits :
      (r : Option (Flow (Outcome J.Number J.F64) (Unit {0}) × Exec J.Number W))
      → LoopFits r
      → RunFits (finish S g r)
  finish-RunFits none h = tt
  finish-RunFits (some (stop o, x)) h = h.1
  finish-RunFits (some (next u, x)) h = (finalize-Final.at x h.0).1

  walk_on-RunFits :
      (fuel : ℕ) (entry : String) (r : Flow (Outcome J.Number J.F64) (Unit {0}))
      (x : Exec J.Number W)
      → TracesFit S g x
      → Ends (OutcomeFits S g) r
      → RunFits (walk_on S fuel g entry r x)
  walk_on-RunFits fuel entry (stop o) x h q = q
  walk_on-RunFits fuel entry (next u) x h q =
      let node_idx = index_nodes 0 g.nodes [] in
      finish-RunFits (walk S fuel g node_idx (get entry node_idx) [] x)
        (walk-Safe fuel node_idx (get entry node_idx) [] x h)

  run_from-RunFits :
      (fuel : ℕ) (state : ExecutionState J.Number) (entry : String) (step : ℕ) (w : W)
      → RunFits (run_from S fuel g state entry step w)
  unfolding run_from
  run_from-RunFits fuel state entry step w =
      let x = initial S state step w in
      let (h, q) = start_run-Safe.at x tt in
      walk_on-RunFits fuel entry (start_run S g x).0 (start_run S g x).1 h q

  run_first-RunFits :
      (fuel : ℕ) (state : ExecutionState J.Number) (w : W) (entries : List (NodeDef J.Number))
      → RunFits (run_first S fuel g state w entries)
  run_first-RunFits fuel state w [] = tt
  run_first-RunFits fuel state w (entry ∷ _) = run_from-RunFits fuel state entry.id 0 w

  run_with_state-RunFits :
      (fuel : ℕ) (state : ExecutionState J.Number) (w : W)
      → RunFits (run_with_state S fuel g state w)
  unfolding run_with_state
  run_with_state-RunFits fuel state w = elim (Result-cases (validate g)) [
    | inl (u, e) ↦ rw (e, run_with_state) (run_first-RunFits fuel state w (entry_nodes g))
    | inr (x, e) ↦ rw (e, run_with_state) tt
  ]

  -- The run is over with this outcome.
  abbrev pub EndsBy :
      Option (Flow (Outcome J.Number J.F64) (Unit {0}) × Exec J.Number W)
      → Outcome J.Number J.F64
      → Type 0
  EndsBy run o = (x : Exec J.Number W) × (run ≡ some (stop o, x))

  total :
      (run : Option (Flow (Outcome J.Number J.F64) (Unit {0}) × Exec J.Number W))
      → run ≢ none
      → RunFits run
      → (o : Outcome J.Number J.F64) × EndsBy run o × OutcomeFits S g o
  total none n h = absurd (n refl)
  total (some (next u, x)) n h = absurd h
  total (some (stop o, x)) n h = (o, (x, refl), h)

  -- run_with_state, with a limit of visits below 2^32 - 1 and the fuel of
  -- Runner.Termination.enough, ends on every graph, state and world with an outcome that fits: a
  -- returned result has a status with its fields (completed without error, failed with an error,
  -- interrupted without error at a node of the graph), every trace entry is of a node of the
  -- graph with its tool type and carries an error exactly if the node did not succeed, and an
  -- error of too many visits names a count above the limit; of other errors and of panics nothing
  -- more is said.
  pub run_with_state_sound :
      S.max_iterations + 1 < u32_mod
      → (state : ExecutionState J.Number) (w : W)
      → (o : Outcome J.Number J.F64) × EndsBy
          (run_with_state S (enough S.max_iterations g) g state w)
          o
        × OutcomeFits S g o
  run_with_state_sound small state w =
      total (run_with_state S (enough S.max_iterations g) g state w)
        (run_with_state_ends S small g state "" w).0
        (run_with_state-RunFits (enough S.max_iterations g) state w)
