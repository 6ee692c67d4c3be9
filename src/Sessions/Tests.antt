-- ===== src/Sessions/Tests.antt =====
-- A manager over a backend whose world is the list of the live tmux sessions.
use mathlib.Core.Bool.{false≢true}
use openmirai.Prelude.{
  ℕ, ◌≤◌, ◌≡◌, ◌↔◌, refl, subst, arith, String, true, false, none, some, List, [], ◌∷◌, ◌++◌,
  if◌then◌else◌, ◌⊎◌, inl, inr, In, All, HashMap, get, remove, insert, contains, contains_key,
  length, ◌==◌, trim, ok, err, all_chars,
}
use openmirai.Json.{Value}
use openmirai.Steps.{next, stop, pure, halt, modify, gets, ◌>>=◌}
use openmirai.Sessions.Status.{is_active, working, stopped, starting}
use openmirai.Sessions.Records.{SessionRecord, SpawnParams, SessionError, meta_of}
use openmirai.Sessions.Backend.{Backend}
use openmirai.Sessions.Spawn.{spawn, track_spawn}
use openmirai.Sessions.Spawn.Undone.{spawn-err}
use openmirai.Sessions.Manager.{
  call, call_try, insert_record, remove_record, try_persist, session_env, known_parent, Manager,
  new_manager,
}
use openmirai.Sessions.Command.{build_claude_command, assemble, is_safe_arg}
use openmirai.Sessions.Command.Arguments.{IsHarmless}
use openmirai.Sessions.Command.Safety.{safe_options_iff, build_claude_command_iff}
use openmirai.Sessions.Requests.{list, send, restart, payload_of}
use openmirai.Sessions.Requests.Refusals.{restart-unsafe}
use openmirai.Sessions.Requests.Prompts.{send-once}
use openmirai.Sessions.Requests.Listing.{list_iff}
use openmirai.Sessions.Activity.{record_activity, get_activity, activity_json}
use openmirai.Sessions.Activity.Rings.{get_activity-record_activity}
use openmirai.Sessions.Poll.{diff_new_lines, poll_once}
use openmirai.Sessions.Poll.Diffs.{diff_new_lines_sound, diff_new_lines-scroll}
use openmirai.Sessions.Poll.Deaths.{poll_once-Dead}
use openmirai.Sessions.Poll.Externals.{poll_once-external}
use openmirai.Sessions.Adopt.{adopt_one, initialize}
use openmirai.Sessions.Adopt.Metadata.{adopt_one-meta_of}
use openmirai.Sessions.Registry.{RecordFits, ManagerFits, RegistryFits-insert}
use openmirai.Sessions.Registry.Reach.{Request, here, after, serve, ManagerFits-of_Reaches}

-- A session of tmux, and an external node.
abbrev tmux_record : SessionRecord
tmux_record = record {
  id = "a1";
  name = "api";
  project_dir = "/p";
  objective = "build";
  status = working;
  model = some "opus";
  effort = none;
  ultracode = true;
  tmux_session = "mirai-a1";
  created_at = "t0";
  last_activity = "t0";
  first_prompt_sent = false;
  parent_id = none;
  external = false;
  permission_mode = some "bypass";
}

abbrev external_node : SessionRecord
external_node = record {
  id = "e1";
  name = "e1";
  project_dir = "";
  objective = "watch";
  status = working;
  model = none;
  effort = none;
  ultracode = false;
  tmux_session = "";
  created_at = "t0";
  last_activity = "t0";
  first_prompt_sent = false;
  parent_id = some "a1";
  external = true;
  permission_mode = none;
}

abbrev backend : Backend (List String)
backend = record {
  spawn = λ name dir command env w. (ok tt, name ∷ w);
  send_text = λ name text w. (ok tt, w);
  capture_output = λ name n w. (ok ("hello" ∷ []), w);
  session_exists = λ name w. (contains name w, w);
  kill = λ name w. (ok tt, w);
  list = λ w. (w, w);
  get_env = λ name var w. (ok (some "a1"), w);
  now = λ w. ("t1", w);
  short_id = λ w. ("b2", w);
  create_dir_all = λ dir w. (ok tt, w);
  is_dir = λ dir w. (true, w);
  write_settings = λ id w. (ok "s.json", w);
  write_mcp_config = λ id w. (err "read-only", w);
  read_registry = λ w. (ok (some (tmux_record ∷ external_node ∷ [])), w);
  write_registry = λ rs w. (ok tt, w);
  meta_text = λ meta. meta.id;
  parse_meta = λ raw. if raw == "a1" then some (meta_of tmux_record) else none;
  to_lowercase = λ t. t;
}

-- No session is alive in this one.
abbrev dead_backend : Backend (List String)
dead_backend = record backend { session_exists = λ name w. (false, w) }

abbrev manager : Manager ℕ (List String)
manager = record (new_manager ("mirai-a1" ∷ [])) {
  sessions = ("a1", tmux_record) ∷ ("e1", external_node) ∷ [];
}

tmux_record-RecordFits : RecordFits "a1" tmux_record
tmux_record-RecordFits = record { named = refl; placed = inr (refl, refl); moded = inr refl }

external_node-RecordFits : RecordFits "e1" external_node
external_node-RecordFits = record { named = refl; placed = inl (refl, refl); moded = inl refl }

file-Fits :
    (rs : List SessionRecord)
    → (backend.read_registry []).0 ≡ ok (some rs)
    → All (λ r. RecordFits r.id r) rs
file-Fits rs h =
    let same : tmux_record ∷ external_node ∷ [] ≡ rs = cc h in
    subst (All (λ r. RecordFits r.id r)) same
      (tmux_record-RecordFits, (external_node-RecordFits, tt))

abbrev first : Manager ℕ (List String)
first = (initialize backend (new_manager [])).1

ManagerFits-of_Reaches_example : ManagerFits (serve backend (Request.stop_request "a1") first).1
ManagerFits-of_Reaches_example =
    ManagerFits-of_Reaches backend [] (serve backend (Request.stop_request "a1") first).1 file-Fits
      (after first (Request.stop_request "a1") here)

manager-ManagerFits : ManagerFits manager
unfolding get insert
manager-ManagerFits = record {
  registry =
      RegistryFits-insert (("a1", tmux_record) ∷ []) "e1" external_node
        (RegistryFits-insert [] "a1" tmux_record (λ id r h. absurd (cc h)) tmux_record-RecordFits)
        external_node-RecordFits;
  distinct = (refl, (refl, tt));
  rings = λ id ring h. absurd (cc h);
}

build_claude_command_iff_example :
    (((c : String) × ((build_claude_command backend "a1"
            (some "opus")
            (some "; rm")
            false
            false
            none
            manager).0
          ≡ next c))
      ↔ (IsHarmless (some "opus") × IsHarmless (some "; rm")))
    × ((¬ (IsHarmless (some "opus") × IsHarmless (some "; rm")))
        → (e : SessionError) × (build_claude_command backend "a1"
              (some "opus")
              (some "; rm")
              false
              false
              none
              manager
            ≡ (stop e, manager)))
build_claude_command_iff_example =
    build_claude_command_iff backend "a1" (some "opus") (some "; rm") false false none manager

restart-unsafe_example :
    (e : SessionError) × (restart backend "a1" none (some "$(id)") none manager ≡ (stop e, manager))
unfolding get is_safe_arg all_chars
restart-unsafe_example =
    restart-unsafe backend "a1" none (some "$(id)") none manager tmux_record refl refl
      (λ h. false≢true ((safe_options_iff (some "$(id)") none).1 h))

send-once_example :
    (s : SessionRecord) × (get "a1" (send backend "a1" "go on" manager).1.sessions ≡ some s)
    × ((t : String) → payload_of s t ≡ t)
unfolding get is_active
send-once_example = send-once backend "a1" "go on" manager tmux_record refl refl refl

list_iff_example :
    (rs : List SessionRecord) × (list backend manager ≡ (next rs, manager))
    × ((r : SessionRecord) → In r rs ↔ (get r.id manager.sessions ≡ some r))
list_iff_example = list_iff backend manager manager-ManagerFits

get_activity-record_activity_example :
    (older : List (HashMap (Value ℕ))) × ((get_activity backend "a1" 5
        (record_activity backend "a1" "Read" "read" (some "/f") manager).1).0
      ≡ next (older ++ activity_json "a1" "Read" "read" (some "/f") "t1" ∷ []))
unfolding get trim
get_activity-record_activity_example =
    get_activity-record_activity backend "a1" "Read" "read" (some "/f") 5 manager tmux_record refl
      refl refl (omega arith)

diff_new_lines_sound_example :
    (kept : List String) × ("b" ∷ "c" ∷ []
      ≡ kept ++ diff_new_lines ("a" ∷ "b" ∷ []) ("b" ∷ "c" ∷ []))
    × (((rest : List String) × ("a" ∷ "b" ∷ [] ≡ kept ++ rest))
        ⊎ ((old : List String) × ("a" ∷ "b" ∷ [] ≡ old ++ kept)))
diff_new_lines_sound_example = diff_new_lines_sound ("a" ∷ "b" ∷ []) ("b" ∷ "c" ∷ [])

diff_new_lines-scroll_example : length (diff_new_lines ("a" ∷ "b" ∷ []) ("b" ∷ "c" ∷ [])) ≤ 1
diff_new_lines-scroll_example = diff_new_lines-scroll ("a" ∷ []) ("b" ∷ []) ("c" ∷ [])

poll_once-Dead_example :
    (s : SessionRecord) × (get "a1" (poll_once dead_backend manager).1.sessions ≡ some s)
    × (s.status ≡ stopped)
unfolding get is_active
poll_once-Dead_example =
    poll_once-Dead dead_backend manager tmux_record manager-ManagerFits refl refl (λ w. refl)

poll_once-external_example :
    get "e1" (poll_once dead_backend manager).1.sessions ≡ some external_node
unfolding get
poll_once-external_example =
    poll_once-external dead_backend manager external_node manager-ManagerFits refl refl

-- A registry that has lost its sessions.
abbrev lost : Manager ℕ (List String)
lost = new_manager ("mirai-a1" ∷ [])

adopt_one-meta_of_example :
    (s : SessionRecord) × ((adopt_one backend "mirai-a1" lost).0 ≡ next (some s))
    × (get "a1" (adopt_one backend "mirai-a1" lost).1.sessions ≡ some s)
    × (meta_of s ≡ meta_of tmux_record)
    × (s.tmux_session ≡ "mirai-a1")
    × (s.status ≡ starting)
    × (s.first_prompt_sent ≡ true)
unfolding trim contains_key meta_of
adopt_one-meta_of_example =
    adopt_one-meta_of backend lost tmux_record (inr refl) refl refl refl refl refl refl

-- A file system that is full.
abbrev full_backend : Backend (List String)
full_backend = record backend { write_registry = λ rs w. (err (SessionError.io "full"), w) }

abbrev params : SpawnParams
params = record {
  name = none;
  project_dir = "/p";
  objective = "build";
  model = none;
  effort = none;
  ultracode = false;
  parent_id = some "a1";
  no_hooks = true;
  create_dir = false;
  mcp = false;
  permission_mode = none;
}

-- The write fails after tmux has the session.
unwritten : (spawn full_backend params manager).0 ≡ stop (SessionError.io "full")
unfolding spawn track_spawn build_claude_command assemble call call_try insert_record remove_record
    try_persist session_env known_parent trim get insert remove pure halt modify gets ◌>>=◌
unwritten = refl

spawn-err_example :
    get "b2" (spawn full_backend params manager).1.sessions ≡ get "b2" manager.sessions
unfolding get
spawn-err_example =
    spawn-err full_backend params manager (SessionError.io "full") (λ w. refl) unwritten "b2"
