-- ===== src/Sessions/Adopt.antt =====
-- engine/src/sessions/manager.rs: initialize and adopt_orphans, which bring the registry and the
-- tmux sessions together when the engine starts.
pub mod Metadata
use openmirai.Prelude.{
  String, Bool, true, false, not, ◌&&◌, ◌||◌, Option, none, some, List, [], ◌∷◌, map, if◌then◌else◌,
  is_empty_text, trim, starts_with, unwrap_or, contains, filter, contains_key, HashMap, Result, ok,
  err,
}
use openmirai.Events.{EventType, session_created}
use openmirai.Steps.{pure, gets, ◌>>=◌, ◌>>◌}
use openmirai.Sessions.Status.{SessionStatus, starting, stopped, is_active}
use openmirai.Sessions.Records.{
  SessionRecord, SessionMeta, SessionError, empty_meta, normalize_permission_mode, to_api_json,
}
use openmirai.Sessions.Backend.{Backend}
use openmirai.Sessions.Manager.{
  Manager, Op, call, call_try, insert_record, persist, emit_session, values,
}
use openmirai.Prelude.{skip_chars}
use openmirai.Sessions.Spawn.{tmux_prefix}

-- text, unless it is blank
abbrev pub or_text : String → String → String
or_text text other = if is_empty_text (trim text) then other else text

abbrev pub meta_of_env :
    (String → Option SessionMeta) → Result (Option String) SessionError → SessionMeta
meta_of_env parse (err e) = empty_meta
meta_of_env parse (ok none) = empty_meta
meta_of_env parse (ok (some raw)) = unwrap_or (parse raw) empty_meta

unfoldable pub adopted_record : SessionMeta → String → String → String → SessionRecord
unfolding normalize_permission_mode
adopted_record meta id tmux_name now = record {
  id = id;
  name = or_text meta.name tmux_name;
  project_dir = meta.project_dir;
  objective = meta.objective;
  status = starting;
  model = meta.model;
  effort = meta.effort;
  ultracode = meta.ultracode;
  tmux_session = tmux_name;
  created_at = or_text meta.created_at now;
  last_activity = now;
  first_prompt_sent = true;
  parent_id = meta.parent_id;
  external = false;
  permission_mode = normalize_permission_mode meta.permission_mode;
}

-- The meta's id, or else the session's name without the prefix.
abbrev pub adopted_id : SessionMeta → String → String
adopted_id meta tmux_name = or_text meta.id (skip_chars 6 tmux_name)

abbrev pub has_tmux : SessionRecord → Bool
has_tmux r = not (is_empty_text r.tmux_session)

abbrev pub tmux_of : SessionRecord → String
tmux_of r = r.tmux_session

-- The names of the tmux sessions that the registry has.
abbrev pub known_tmux : HashMap SessionRecord → List String
known_tmux sessions = map tmux_of (filter has_tmux (values sessions))

abbrev pub is_orphan : List String → String → Bool
is_orphan known tmux_name = starts_with tmux_name tmux_prefix && not (contains tmux_name known)

abbrev push : Option SessionRecord → List SessionRecord → List SessionRecord
push none rs = rs
push (some r) rs = r ∷ rs

abbrev pub loaded_of : Option (List SessionRecord) → List SessionRecord
loaded_of none = []
loaded_of (some rs) = rs

module _ {N W : Type 0} (B : Backend W) where
  abbrev pub insert_adopted : SessionRecord → Bool → Op N W (Option SessionRecord)
  insert_adopted r taken = if taken then pure none else (insert_record B r >> pure (some r))

  -- A session under the id: not adopted where the id is blank or the registry has it.
  abbrev pub adopt_as : SessionMeta → String → String → Op N W (Option SessionRecord)
  adopt_as meta tmux_name id = if is_empty_text (trim id) then pure none else do
    now ← call B B.now
    taken ← gets (λ (m : Manager N W). contains_key id m.sessions)
    insert_adopted (adopted_record meta id tmux_name now) taken

  unfoldable pub adopt_one : String → Op N W (Option SessionRecord)
  unfolding adopted_record
  adopt_one tmux_name = do
    env ← call B (B.get_env tmux_name "OPENMIRAI_SESSION_META")
    let meta = meta_of_env B.parse_meta env
    adopt_as meta tmux_name (adopted_id meta tmux_name)

  unfoldable pub adopt_all : List String → List String → Op N W (List SessionRecord)
  unfolding adopt_one
  adopt_all known [] = pure []
  adopt_all known (name ∷ names) =
      if is_orphan known name
      then (adopt_one name >>= λ r. adopt_all known names >>= λ rs. pure (push r rs))
      else adopt_all known names

  unfoldable pub adopt_orphans : Op N W (List SessionRecord)
  adopt_orphans = do
    sessions ← gets (λ (m : Manager N W). m.sessions)
    names ← call B B.list
    adopt_all (known_tmux sessions) names

  abbrev pub load_as : SessionRecord → Bool → Op N W (Unit {0})
  load_as r there = insert_record B (if there then r else record r { status = stopped })

  -- A record of the file: stopped, if it is active and its tmux session is gone.
  unfoldable pub load_one : SessionRecord → Op N W (Unit {0})
  load_one r =
      if not r.external && is_active r.status
      then (call B (B.session_exists r.tmux_session) >>= load_as r)
      else insert_record B r

  unfoldable pub load_all : List SessionRecord → Op N W (Unit {0})
  unfolding load_one
  load_all [] = pure tt
  load_all (r ∷ rs) = load_one r >> load_all rs

  unfoldable pub announce_adopted : List SessionRecord → Op N W (Unit {0})
  announce_adopted [] = pure tt
  announce_adopted (r ∷ rs) =
      emit_session B session_created r.id (to_api_json r) >> announce_adopted rs

  -- initialize, with the registry that was read.
  unfoldable pub start_with : Option (List SessionRecord) → Op N W (Unit {0})
  unfolding load_all adopt_orphans announce_adopted
  start_with file = do
    load_all (loaded_of file)
    adopted ← adopt_orphans
    persist B
    announce_adopted adopted

  unfoldable pub initialize : Op N W (Unit {0})
  unfolding start_with
  initialize = call_try B B.read_registry >>= start_with
