-- ===== src/Sessions/External.antt =====
-- engine/src/sessions/manager.rs: the nodes of another substrate, which have no tmux session:
-- register_external, set_external_status and unregister_external.
use openmirai.Prelude.{
  String, true, false, Option, none, some, [], ◌∷◌, if◌then◌else◌, is_empty_text, trim, concat,
  unwrap_or,
}
use openmirai.Events.{session_created, session_status_changed, session_stopped}
use openmirai.Steps.{pure, halt, ◌>>=◌, ◌>>◌}
use openmirai.Sessions.Status.{SessionStatus, working, stopped}
use openmirai.Sessions.Records.{SessionRecord, invalid, to_api_json}
use openmirai.Sessions.Backend.{Backend}
use openmirai.Sessions.Manager.{
  Op, call, insert_record, find_record, modify_record, persist, emit_session, known_parent,
}
use openmirai.Sessions.Spawn.{require_text}
use openmirai.Sessions.Requests.{status_json, id_json}
use openmirai.Sessions.Activity.{push_activity, activity_json}

-- The arguments of register_external.
pub record ExternalParams : Type 0 where
  pub id : Option String
  pub name : Option String
  pub objective : String
  pub parent_id : Option String
  pub model : Option String
  pub effort : Option String
  pub project_dir : Option String
  pub status : Option SessionStatus

unfoldable pub external_record : ExternalParams → String → Option String → String → SessionRecord
external_record params id parent_id now = record {
  id = id;
  name = unwrap_or params.name id;
  project_dir = unwrap_or params.project_dir "";
  objective = params.objective;
  status = unwrap_or params.status working;
  model = params.model;
  effort = params.effort;
  ultracode = false;
  tmux_session = "";
  created_at = now;
  last_activity = now;
  first_prompt_sent = false;
  parent_id = parent_id;
  external = true;
  permission_mode = none;
}

module _ {N W : Type 0} (B : Backend W) where
  -- The given id, trimmed; a short one where it is missing or blank.
  abbrev pub external_id : Option String → Op N W String
  external_id none = call B B.short_id
  external_id (some given) =
      if is_empty_text (trim given) then call B B.short_id else pure (trim given)

  unfoldable pub register_external : ExternalParams → Op N W SessionRecord
  unfolding external_record
  register_external params = do
    require_text params.objective "objective"
    id ← external_id params.id
    parent_id ← known_parent B params.parent_id
    now ← call B B.now
    let r = external_record params id parent_id now
    insert_record B r
    persist B
    emit_session B session_created id (to_api_json r)
    pure r

  abbrev pub must_be_external : SessionRecord → String → Op N W (Unit {0})
  must_be_external r id =
      if r.external
      then pure tt
      else halt (
          invalid (
            concat
              ("session '" ∷ id ∷ "' is not an external node; use /stop for tmux sessions" ∷ [])))

  -- The optional label of the node's current step.
  abbrev pub push_label : String → String → Option String → Op N W (Unit {0})
  push_label id ts none = pure tt
  push_label id ts (some label) =
      if is_empty_text (trim label)
      then pure tt
      else push_activity B id (activity_json id (trim label) "exec" none ts)

  unfoldable pub set_external_status : String → SessionStatus → Option String → Op N W SessionRecord
  set_external_status id status activity = do
    now ← call B B.now
    r ← find_record B id
    must_be_external r id
    updated ← modify_record B id (λ s. record s { status = status; last_activity = now })
    persist B
    emit_session B session_status_changed id (status_json id status now)
    push_label id now activity
    pure updated

  unfoldable pub unregister_external : String → Op N W SessionRecord
  unregister_external id = do
    r ← find_record B id
    must_be_external r id
    now ← call B B.now
    updated ← modify_record B id (λ s. record s { status = stopped; last_activity = now })
    persist B
    emit_session B session_stopped id (id_json id)
    pure updated
