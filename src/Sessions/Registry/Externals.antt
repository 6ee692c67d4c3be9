-- ===== src/Sessions/Registry/Externals.antt =====
-- engine/src/sessions/manager.rs: the operations on external nodes and on the activity keep the
-- registry's invariant.
use openmirai.Prelude.{ℕ, refl, String, Option, none, some, inl}
use openmirai.Steps.Keeps.{Keeps-pure}
use openmirai.Sessions.Status.{SessionStatus}
use openmirai.Sessions.Backend.{Backend}
use openmirai.Sessions.External.{
  ExternalParams, external_record, external_id, register_external, push_label, set_external_status,
  unregister_external,
}
use openmirai.Sessions.Activity.{record_activity, get_activity}
use openmirai.Sessions.Registry.{RecordFits}
use openmirai.Sessions.Registry.Steps.{
  Sound, find_record-Sound, call-Sound, modify_record-Sound, insert_record-Sound, sound_rules,
}
use openmirai.Sessions.Registry.Operations.{guard-Sound, refuse-Sound, status-Fitting}

external_record-RecordFits :
    (p : ExternalParams) (id : String) (parent_id : Option String) (now : String)
    → RecordFits id (external_record p id parent_id now)
unfolding external_record
external_record-RecordFits p id parent_id now = record {
  named = refl;
  placed = inl (refl, refl);
  moded = inl refl;
}

module _ {N W : Type 0} (B : Backend W) where
  external_id-Sound : (id : Option String) → Sound N (external_id B id)
  external_id-Sound none = call-Sound B _
  external_id-Sound (some given) = search sound_rules

  pub register_external-Sound : (p : ExternalParams) → Sound N (register_external B p)
  unfolding register_external
  register_external-Sound p =
      search
        (
          sound_rules, refuse-Sound, external_id-Sound, insert_record-Sound,
          external_record-RecordFits,
        )
        depth 14

  push_label-Sound : (id ts : String) (label : Option String) → Sound N (push_label B id ts label)
  push_label-Sound id ts none = Keeps-pure tt
  push_label-Sound id ts (some label) = search sound_rules

  pub set_external_status-Sound :
      (id : String) (s : SessionStatus) (activity : Option String)
      → Sound N (set_external_status B id s activity)
  unfolding set_external_status
  set_external_status-Sound id s activity =
      search
        (
          sound_rules, find_record-Sound, guard-Sound, modify_record-Sound, status-Fitting,
          push_label-Sound,
        )
        depth 14

  pub unregister_external-Sound : (id : String) → Sound N (unregister_external B id)
  unfolding unregister_external
  unregister_external-Sound id =
      search (sound_rules, find_record-Sound, guard-Sound, modify_record-Sound, status-Fitting)
        depth 14

  pub record_activity-Sound :
      (id tool action : String) (path : Option String)
      → Sound N (record_activity B id tool action path)
  unfolding record_activity
  record_activity-Sound id tool action path =
      search (sound_rules, guard-Sound, refuse-Sound) depth 14

  pub get_activity-Sound : (id : String) (limit : ℕ) → Sound N (get_activity B id limit)
  unfolding get_activity
  get_activity-Sound id limit = search (sound_rules, guard-Sound) depth 14
