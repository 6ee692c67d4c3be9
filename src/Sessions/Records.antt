-- ===== src/Sessions/Records.antt =====
-- engine/src/sessions/manager.rs: the records of the sessions, the parameters of a spawn, the
-- metadata that travels inside tmux; and the errors of engine/src/sessions/mod.rs.
use openmirai.Prelude.{
  String, Bool, false, Option, none, some, [], ◌∷◌, if◌then◌else◌, trim, eq_ignore_ascii_case,
}
use openmirai.Json.{Value, null, string, bool}
use openmirai.Sessions.Status.{SessionStatus, status_text}
use openmirai.Prelude.{HashMap}

pub data SessionError : Type 0 where
  not_found stopped invalid backend io : String → SessionError

pub record SessionRecord : Type 0 where
  pub id : String
  pub name : String
  pub project_dir : String
  pub objective : String
  pub status : SessionStatus
  pub model : Option String
  pub effort : Option String
  pub ultracode : Bool
  pub tmux_session : String
  pub created_at : String
  pub last_activity : String
  pub first_prompt_sent : Bool
  pub parent_id : Option String
  pub external : Bool
  pub permission_mode : Option String

pub record SpawnParams : Type 0 where
  pub name : Option String
  pub project_dir : String
  pub objective : String
  pub model : Option String
  pub effort : Option String
  pub ultracode : Bool
  pub parent_id : Option String
  pub no_hooks : Bool
  pub create_dir : Bool
  pub mcp : Bool
  pub permission_mode : Option String

pub record SessionMeta : Type 0 where
  pub id : String
  pub name : String
  pub project_dir : String
  pub objective : String
  pub model : Option String
  pub effort : Option String
  pub ultracode : Bool
  pub created_at : String
  pub parent_id : Option String
  pub permission_mode : Option String

-- Default for SessionMeta
abbrev pub empty_meta : SessionMeta
empty_meta = record {
  id = "";
  name = "";
  project_dir = "";
  objective = "";
  model = none;
  effort = none;
  ultracode = false;
  created_at = "";
  parent_id = none;
  permission_mode = none;
}

-- SessionMeta::of
unfoldable pub meta_of : SessionRecord → SessionMeta
meta_of r = record {
  id = r.id;
  name = r.name;
  project_dir = r.project_dir;
  objective = r.objective;
  model = r.model;
  effort = r.effort;
  ultracode = r.ultracode;
  created_at = r.created_at;
  parent_id = r.parent_id;
  permission_mode = r.permission_mode;
}

unfoldable pub is_bypass_mode : Option String → Bool
is_bypass_mode none = false
is_bypass_mode (some m) = eq_ignore_ascii_case (trim m) "bypass"

unfoldable pub normalize_permission_mode : Option String → Option String
unfolding is_bypass_mode
normalize_permission_mode mode = if is_bypass_mode mode then some "bypass" else none

-- An Option<String> in json!
abbrev pub optional : {N : Type 0} → Option String → Value N
optional none = null
optional (some s) = string s

-- SessionRecord::to_api_json: the fields of the object.
unfoldable pub to_api_json : {N : Type 0} → SessionRecord → HashMap (Value N)
unfolding status_text
to_api_json r =
    ("id", string r.id)
    ∷ ("name", string r.name)
    ∷ ("project_dir", string r.project_dir)
    ∷ ("objective", string r.objective)
    ∷ ("status", string (status_text r.status))
    ∷ ("model", optional r.model)
    ∷ ("effort", optional r.effort)
    ∷ ("ultracode", bool r.ultracode)
    ∷ ("tmux_session", string r.tmux_session)
    ∷ ("created_at", string r.created_at)
    ∷ ("last_activity", string r.last_activity)
    ∷ ("parent_id", optional r.parent_id)
    ∷ ("permission_mode", optional r.permission_mode)
    ∷ []
