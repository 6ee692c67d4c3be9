-- ===== src/Sessions/Requests.antt =====
-- engine/src/sessions/manager.rs: list, get, send, output, stop and restart.
pub mod Refusals
pub mod Prompts
pub mod Listing
use openmirai.Prelude.{
  ℕ, String, Bool, true, false, not, ◌&&◌, Option, none, some, List, [], ◌∷◌, if◌then◌else◌, concat,
  HashMap, get, remove, or_else,
}
use openmirai.Json.{Value, string}
use openmirai.Events.{EventType, session_status_changed, session_stopped}
use openmirai.Steps.{pure, halt, modify, gets, ◌>>=◌, ◌>>◌}
use openmirai.Sessions.Status.{SessionStatus, starting, stopped, is_active, status_text}
use openmirai.Sessions.Records.{SessionRecord, SessionError, invalid, normalize_permission_mode}
use openmirai.Sessions.Backend.{Backend}
use openmirai.Sessions.Manager.{
  Manager, Op, call, call_try, find_record, update_record, modify_record, persist, emit_session,
  session_env, sort_by, not_after, values,
}
use openmirai.Sessions.Command.{build_claude_command}

-- b.created_at.cmp(&a.created_at).then(b.id.cmp(&a.id)): the newest first
abbrev pub not_before : SessionRecord → SessionRecord → Bool
not_before a b = not_after b a

abbrev pub payload_of : SessionRecord → String → String
payload_of r text =
    if r.ultracode && not r.first_prompt_sent then concat ("ultracode " ∷ text ∷ []) else text

-- {id, status, last_activity}
abbrev pub status_json : {N : Type 0} → String → SessionStatus → String → HashMap (Value N)
status_json id status last_activity =
    ("id", string id)
    ∷ ("status", string (status_text status))
    ∷ ("last_activity", string last_activity)
    ∷ []

abbrev pub id_json : {N : Type 0} → String → HashMap (Value N)
id_json id = ("id", string id) ∷ []

-- An unset permission mode keeps the current one.
abbrev pub restarted_mode : Option String → Option String → Option String
restarted_mode (some m) current = normalize_permission_mode (some m)
restarted_mode none current = current

module _ {N W : Type 0} (B : Backend W) where
  unfoldable pub set_server_port : ℕ → Op N W (Unit {0})
  set_server_port port = modify (λ (m : Manager N W). record m { server_port = port })

  unfoldable pub set_api_key : Option String → Op N W (Unit {0})
  set_api_key key = modify (λ (m : Manager N W). record m { api_key = key })

  unfoldable pub list : Op N W (List SessionRecord)
  unfolding sort_by
  list = do
    sessions ← gets (λ (m : Manager N W). m.sessions)
    pure (sort_by not_before (values sessions))

  unfoldable pub get_session : String → Op N W (Option SessionRecord)
  get_session id = gets (λ (m : Manager N W). get id m.sessions)

  abbrev pub must_be_active : SessionRecord → String → Op N W (Unit {0})
  must_be_active r id = if is_active r.status then pure tt else halt (SessionError.stopped id)

  unfoldable pub send : String → String → Op N W (Unit {0})
  send id text = do
    r ← find_record B id
    must_be_active r id
    call_try B (B.send_text r.tmux_session (payload_of r text))
    now ← call B B.now
    update_record B id (λ s. record s { first_prompt_sent = true; last_activity = now })
    persist B

  unfoldable pub output : String → ℕ → Op N W (List String)
  output id lines = do
    r ← find_record B id
    if is_active r.status then call_try B (B.capture_output r.tmux_session lines) else pure []

  -- The tmux session, killed if it is there.
  abbrev pub kill_if : String → Bool → Op N W (Unit {0})
  kill_if tmux_session there = if there then call_try B (B.kill tmux_session) else pure tt

  unfoldable pub kill_existing : String → Op N W (Unit {0})
  kill_existing tmux_session = call B (B.session_exists tmux_session) >>= kill_if tmux_session

  unfoldable pub stop : String → Op N W SessionRecord
  stop id = do
    r ← find_record B id
    kill_existing r.tmux_session
    now ← call B B.now
    updated ← modify_record B id (λ s. record s { status = stopped; last_activity = now })
    persist B
    emit_session B session_stopped id (id_json id)
    pure updated

  abbrev pub must_be_tmux : SessionRecord → String → Op N W (Unit {0})
  must_be_tmux r id =
      if r.external
      then halt (
          invalid (
            concat (
              "session '" ∷ id ∷ "' is an external node; restart applies to tmux sessions only"
              ∷ [])))
      else pure tt

  -- self.last_pane.lock().await.remove(id)
  unfoldable pub forget_pane : String → Op N W (Unit {0})
  forget_pane id = modify (λ (m : Manager N W). record m { last_pane = remove id m.last_pane })

  -- The session of `id` stopped, then started with the record's configuration.
  unfoldable pub swap : String → SessionRecord → String → Op N W (Unit {0})
  swap id r command = do
    kill_existing r.tmux_session
    now ← call B B.now
    update_record B id (λ s. record s { status = stopped; last_activity = now })
    emit_session B session_status_changed id (status_json id stopped now)
    env ← session_env B id r
    call_try B (B.spawn r.tmux_session r.project_dir command env)
    forget_pane id

  unfoldable pub restart :
      String → (permission_mode model effort : Option String) → Op N W SessionRecord
  restart id permission_mode model effort = do
    current ← find_record B id
    must_be_tmux current id
    let new_mode = restarted_mode permission_mode current.permission_mode
    let new_model = or_else model current.model
    let new_effort = or_else effort current.effort
    command ← build_claude_command B id new_model new_effort false false new_mode
    swap id (record current { model = new_model; effort = new_effort; permission_mode = new_mode })
        command
    now ← call B B.now
    updated ← modify_record B id (λ s. record s {
      status = starting;
      model = new_model;
      effort = new_effort;
      permission_mode = new_mode;
      first_prompt_sent = false;
      last_activity = now;
    })
    persist B
    emit_session B session_status_changed id (status_json id starting now)
    pure updated
