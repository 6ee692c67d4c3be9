-- ===== src/Sessions/Backend.antt =====
-- What SessionManager calls: the trait SessionBackend of engine/src/sessions/backend.rs, the file
-- system, the clock, the random ids, serde_json's texts and the writers of
-- engine/src/sessions/hooks.rs. Each call takes the world that it runs in and returns the world that
-- it leaves.
use openmirai.Prelude.{ℕ, String, Bool, Option, List, Result}
use openmirai.Sessions.Records.{SessionRecord, SessionMeta, SessionError}

pub record Backend (W : Type 0) : Type 0 where
  pub spawn :
      (tmux_session project_dir command : String)
      → List (String × String)
      → W
      → Result (Unit {0}) SessionError × W
  pub send_text : (tmux_session text : String) → W → Result (Unit {0}) SessionError × W
  pub capture_output : (tmux_session : String) → ℕ → W → Result (List String) SessionError × W
  pub session_exists : (tmux_session : String) → W → Bool × W
  pub kill : (tmux_session : String) → W → Result (Unit {0}) SessionError × W
  pub list : W → List String × W
  pub get_env : (tmux_session var : String) → W → Result (Option String) SessionError × W
  -- now_rfc3339 and short_id
  pub now : W → String × W
  pub short_id : W → String × W
  -- create_dir_all, with its error's text, and is_dir
  pub create_dir_all : String → W → Result (Unit {0}) String × W
  pub is_dir : String → W → Bool × W
  -- write_session_settings and write_session_mcp_config: the written path
  pub write_settings : (id : String) → W → Result String String × W
  pub write_mcp_config : (id : String) → W → Result String String × W
  -- the registry file: `ok none` where there is no file
  pub read_registry : W → Result (Option (List SessionRecord)) SessionError × W
  pub write_registry : List SessionRecord → W → Result (Unit {0}) SessionError × W
  -- serde_json's text of a SessionMeta, and its parse
  pub meta_text : SessionMeta → String
  pub parse_meta : String → Option SessionMeta
  -- str::to_lowercase
  pub to_lowercase : String → String
