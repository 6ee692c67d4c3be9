-- ===== src/Runner/Effects.antt =====
-- The small effects of graph_runner.rs: events, transcript, trace, hooks, checkpoints, results.
use openmirai.Prelude.{
  ℕ, ◌+◌, ◌%◌, String, Option, none, some, [], ◌∷◌, ◌++◌, if◌then◌else◌, Result, ok, err, HashMap,
}
use openmirai.Json.{Json, Value, string, number}
use openmirai.State.{snapshot}
use openmirai.Events.{EventType, checkpoint_created, emit}
use openmirai.Runner.Types.{
  HookResult, continue, Checkpoint, InterruptInfo, TranscriptEntry, TraceEntry, ExecutionResult,
  failed, interrupted, StreamEvent,
}
use openmirai.Runner.Services.{Services, HookHandler}
use openmirai.Runner.Retry.{u32_mod}
use openmirai.Runner.Exec.{Exec, Flow, Outcome, returned, Step, pure, modify, gets, ◌>>=◌}

module _ {J : Json} {W : Type 0} (S : Services J W) where
  -- A step of this run.
  abbrev pub Run : Type 0 → Type 0
  Run A = Step (Exec J.Number W) (Outcome J.Number J.F64) A

  unfoldable pub emit_event : EventType → Option String → HashMap (Value J.Number) → Run (Unit {0})
  unfolding modify emit
  emit_event event_type node_id payload = modify (λ x.
      if S.has_event_emitter
      then record x { emitter = emit event_type S.session_id node_id payload x.emitter }
      else x)

  -- try_send: the list holds what was offered to the channel, which may drop it.
  unfoldable pub stream_event : StreamEvent J.Number → Run (Unit {0})
  unfolding modify
  stream_event event =
      modify (λ x. if S.has_stream then record x { stream = x.stream ++ event ∷ [] } else x)

  unfoldable pub push_transcript : String → String → Option String → Run (Unit {0})
  unfolding modify
  push_transcript entry_type message node_id = modify (λ x.
      let entry : TranscriptEntry = record {
        entry_type = entry_type;
        message = message;
        node_id = node_id;
      } in
      record x { transcript = x.transcript ++ entry ∷ [] })

  unfoldable pub push_trace : TraceEntry → Run (Unit {0})
  unfolding modify
  push_trace entry = modify (λ x. record x { trace = x.trace ++ entry ∷ [] })

  unfoldable pub bump_step : Run (Unit {0})
  unfolding modify
  bump_step = modify (λ x. record x { step = (x.step + 1) % u32_mod })

  -- A call of the world that returns a value.
  unfoldable pub call : {A : Type 0} → (W → A × W) → Run A
  call f x = let (a, w) = f x.world in (Flow.next a, record x { world = w })

  -- run_hook_with_timeout: a timeout counts as Continue.
  abbrev pub or_continue : Option (HookResult J.Number) → HookResult J.Number
  or_continue none = continue
  or_continue (some r) = r

  -- A hook, if a handler is attached; without one the answer is Continue.
  abbrev pub ask :
      Option (HookHandler J W)
      → (HookHandler J W → W → Option (HookResult J.Number) × W)
      → Run (HookResult J.Number)
  ask none method = pure continue
  ask (some h) method = call (λ w. let (r, w') = method h w in (or_continue r, w'))

  unfoldable pub run_hook :
      (HookHandler J W → W → Option (HookResult J.Number) × W) → Run (HookResult J.Number)
  unfolding call pure
  run_hook method = ask S.hook_handler method

  abbrev checkpoint_payload : String → ℕ → HashMap (Value J.Number)
  checkpoint_payload checkpoint_id step =
      ("checkpoint_id", string checkpoint_id) ∷ ("step", number (J.from_u64 step)) ∷ []

  -- A checkpoint that was saved is announced; one that was not is only logged.
  abbrev pub announce : String → ℕ → Result String String → Run (Unit {0})
  announce node_id step (ok checkpoint_id) =
      emit_event checkpoint_created (some node_id) (checkpoint_payload checkpoint_id step)
  announce node_id step (err e) = pure tt

  abbrev pub checkpoint_with :
      Option (Checkpoint J.Number → W → Result String String × W)
      → String
      → Option String
      → Run (Unit {0})
  checkpoint_with none node_id cursor = pure tt
  checkpoint_with (some save) node_id cursor = do
    step ← gets (λ (x : Exec J.Number W). x.step)
    state ← gets (λ (x : Exec J.Number W). x.state)
    saved ← call (
        save (record {
          session_id = S.session_id;
          step = step;
          node_id = node_id;
          state_snapshot = snapshot state;
          cursor_node_id = cursor;
        }))
    announce node_id step saved

  unfoldable pub save_checkpoint : String → Option String → Run (Unit {0})
  save_checkpoint node_id cursor = checkpoint_with S.checkpoint_cb node_id cursor

  -- The result of a run that is cut short, from what the run has written so far.
  abbrev pub failed_result : String → Exec J.Number W → ExecutionResult J.Number J.F64
  failed_result message x = record {
    status = failed;
    state = x.state;
    trace = x.trace;
    transcript = x.transcript;
    error = some message;
    interrupt_node_id = none;
    interrupt_info = none;
  }

  abbrev pub interrupted_result :
      String → Option (InterruptInfo J.F64) → Exec J.Number W → ExecutionResult J.Number J.F64
  interrupted_result node_id info x = record {
    status = interrupted;
    state = x.state;
    trace = x.trace;
    transcript = x.transcript;
    error = none;
    interrupt_node_id = some node_id;
    interrupt_info = info;
  }

  -- `return Ok(result)`, the result made from the run's state
  unfoldable pub return_with :
      {A : Type 0} → (Exec J.Number W → ExecutionResult J.Number J.F64) → Run A
  return_with make x = (Flow.stop (returned (make x)), x)
