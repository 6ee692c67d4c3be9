-- ===== src/Events.antt =====
-- engine/src/core/events.rs: the events of the engine and the emitter that numbers them. The
-- timestamps are left out, and the broadcast channel is the list of what was sent.
pub mod Numbering
mod Tests
use openmirai.Prelude.{ℕ, ◌+◌, ◌%◌, String, Option, List, [], ◌∷◌, ◌++◌, concat, HashMap}
use openmirai.Json.{Value}

pub data EventType : Type 0 where
  session_started session_completed session_failed session_interrupted session_resumed : EventType
  block_started block_completed block_error : EventType
  llm_token llm_completed : EventType
  checkpoint_created : EventType
  hook_fired hook_blocked : EventType
  interrupt_created interrupt_resolved : EventType
  browser_screenshot browser_action browser_navigation browser_completed : EventType
  agent_playing agent_stopped cycle_started cycle_completed cycle_failed : EventType
  session_created session_status_changed session_output session_stopped session_activity : EventType

-- Display for EventType
unfoldable pub event_type_text : EventType → String
event_type_text session_started = "session_started"
event_type_text session_completed = "session_completed"
event_type_text session_failed = "session_failed"
event_type_text session_interrupted = "session_interrupted"
event_type_text session_resumed = "session_resumed"
event_type_text block_started = "block_started"
event_type_text block_completed = "block_completed"
event_type_text block_error = "block_error"
event_type_text llm_token = "llm_token"
event_type_text llm_completed = "llm_completed"
event_type_text checkpoint_created = "checkpoint_created"
event_type_text hook_fired = "hook_fired"
event_type_text hook_blocked = "hook_blocked"
event_type_text interrupt_created = "interrupt_created"
event_type_text interrupt_resolved = "interrupt_resolved"
event_type_text browser_screenshot = "browser_screenshot"
event_type_text browser_action = "browser_action"
event_type_text browser_navigation = "browser_navigation"
event_type_text browser_completed = "browser_completed"
event_type_text agent_playing = "agent_playing"
event_type_text agent_stopped = "agent_stopped"
event_type_text cycle_started = "cycle_started"
event_type_text cycle_completed = "cycle_completed"
event_type_text cycle_failed = "cycle_failed"
event_type_text session_created = "session_created"
event_type_text session_status_changed = "session_status_changed"
event_type_text session_output = "session_output"
event_type_text session_stopped = "session_stopped"
event_type_text session_activity = "session_activity"

pub record ExecutionEvent (N : Type 0) : Type 0 where
  pub event_type : EventType
  pub session_id : String
  pub node_id : Option String
  pub payload : HashMap (Value N)
  pub event_id : ℕ

pub record EventEmitter (N : Type 0) : Type 0 where
  pub counter : ℕ  -- u64
  pub sent : List (ExecutionEvent N)

abbrev pub u64_mod : ℕ
u64_mod = 18446744073709551616

module _ {N : Type 0} where
  -- EventEmitter::new
  abbrev pub new_emitter : EventEmitter N
  new_emitter = record { counter = 0; sent = [] }

  -- emit_raw: the event is sent under the next number, whatever number it has.
  unfoldable pub emit_raw : ExecutionEvent N → EventEmitter N → EventEmitter N
  emit_raw event e = record {
    counter = (e.counter + 1) % u64_mod;
    sent = e.sent ++ record event { event_id = e.counter } ∷ [];
  }

  unfoldable pub emit :
      EventType → String → Option String → HashMap (Value N) → EventEmitter N → EventEmitter N
  emit event_type session_id node_id payload e = record {
    counter = (e.counter + 1) % u64_mod;
    sent =
        e.sent
        ++ record {
          event_type = event_type;
          session_id = session_id;
          node_id = node_id;
          payload = payload;
          event_id = e.counter;
        }
          ∷ [];
  }

  -- to_sse, with serde_json's text of the event
  unfoldable pub to_sse : (ExecutionEvent N → String) → ExecutionEvent N → String
  unfolding event_type_text
  to_sse json event =
      concat ("event: " ∷ event_type_text event.event_type ∷ "\ndata: " ∷ json event ∷ "\n\n" ∷ [])
