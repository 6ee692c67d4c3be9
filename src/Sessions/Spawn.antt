-- ===== src/Sessions/Spawn.antt =====
-- engine/src/sessions/manager.rs, spawn: a new session in tmux.
pub mod Undone
use openmirai.Prelude.{
  String, Bool, true, false, Option, [], ◌∷◌, if◌then◌else◌, is_empty_text, trim, concat, unwrap_or,
  Result, ok, err,
}
use openmirai.Events.{session_created}
use openmirai.Steps.{pure, halt, ◌>>=◌, ◌>>◌}
use openmirai.Sessions.Status.{starting}
use openmirai.Sessions.Records.{
  SessionRecord, SpawnParams, SessionError, invalid, normalize_permission_mode, to_api_json,
}
use openmirai.Sessions.Backend.{Backend}
use openmirai.Sessions.Manager.{
  Op, call, call_try, insert_record, remove_record, try_persist, emit_session, session_env,
  known_parent,
}
use openmirai.Sessions.Command.{build_claude_command}

-- TMUX_SESSION_PREFIX of engine/src/sessions/backend.rs
abbrev pub tmux_prefix : String
tmux_prefix = "mirai-"

-- The record of a spawn: its id, its parent, if known, and the time.
unfoldable pub spawned_record : SpawnParams → String → Option String → String → SessionRecord
unfolding normalize_permission_mode
spawned_record params id parent_id now =
    let tmux_session = concat (tmux_prefix ∷ id ∷ []) in
    record {
      id = id;
      name = unwrap_or params.name tmux_session;
      project_dir = params.project_dir;
      objective = params.objective;
      status = starting;
      model = params.model;
      effort = params.effort;
      ultracode = params.ultracode;
      tmux_session = tmux_session;
      created_at = now;
      last_activity = now;
      first_prompt_sent = false;
      parent_id = parent_id;
      external = false;
      permission_mode = normalize_permission_mode params.permission_mode;
    }

abbrev pub require_text : {N W : Type 0} → String → String → Op N W (Unit {0})
require_text text what =
    if is_empty_text (trim text)
    then halt (invalid (concat (what ∷ " is required" ∷ [])))
    else pure tt

module _ {N W : Type 0} (B : Backend W) where
  abbrev pub created : String → Result (Unit {0}) String → Op N W (Unit {0})
  created project_dir (ok u) = pure tt
  created project_dir (err e) =
      halt (invalid (concat ("could not create project_dir '" ∷ project_dir ∷ "': " ∷ e ∷ [])))

  abbrev pub is_there : String → Bool → Op N W (Unit {0})
  is_there project_dir true = pure tt
  is_there project_dir false = halt (
      invalid (
        concat (
          "project_dir '" ∷ project_dir ∷ "' does not exist (pass create_dir: true to create it)"
          ∷ [])))

  -- The project's directory is made, or it must be there.
  abbrev pub ensure_dir : SpawnParams → Op N W (Unit {0})
  ensure_dir params =
      if params.create_dir
      then (call B (B.create_dir_all (trim params.project_dir)) >>= created params.project_dir)
      else (call B (B.is_dir (trim params.project_dir)) >>= is_there params.project_dir)

  -- After the registry's write: the tmux session of a record that was not written is killed.
  abbrev pub commit_spawn : SessionRecord → Result (Unit {0}) SessionError → Op N W SessionRecord
  commit_spawn r (ok u) = do emit_session B session_created r.id (to_api_json r); pure r
  commit_spawn r (err e) = do call B (B.kill r.tmux_session); remove_record B r.id; halt e

  -- The record of a running session, kept and written.
  unfoldable pub track_spawn : SessionRecord → Op N W SessionRecord
  track_spawn r = do insert_record B r; written ← try_persist B; commit_spawn r written

  unfoldable pub spawn : SpawnParams → Op N W SessionRecord
  unfolding spawned_record track_spawn
  spawn params = do
    require_text params.project_dir "project_dir"
    require_text params.objective "objective"
    ensure_dir params
    parent_id ← known_parent B params.parent_id
    id ← call B B.short_id
    command ←
        build_claude_command B id params.model params.effort params.no_hooks params.mcp
          params.permission_mode
    now ← call B B.now
    let r = spawned_record params id parent_id now
    env ← session_env B id r
    call_try B (B.spawn r.tmux_session r.project_dir command env)
    track_spawn r
