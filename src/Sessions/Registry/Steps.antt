-- ===== src/Sessions/Registry/Steps.antt =====
-- engine/src/sessions/manager.rs: the small steps of the manager keep the registry's invariant.
use openmirai.Prelude.{
  ◌≡◌, refl, String, Option, none, some, [], HashMap, get, unwrap_or, Result, ok, err,
}
use openmirai.Json.{Value}
use openmirai.Events.{EventType}
use openmirai.Steps.{pure, halt, gets, ◌>>=◌}
use openmirai.Steps.Keeps.{
  Keeps, Gives, Gives-bind, Keeps-of_Gives, Keeps-weaken, Ends, EndsWith, keeps_rules, Keeps-modify,
  Keeps-pure, Keeps-halt, Keeps-bind, Keeps-if,
}
use openmirai.Sessions.Records.{SessionRecord, SessionError}
use openmirai.Sessions.Backend.{Backend}
use openmirai.Sessions.Manager.{
  Manager, Op, call, call_try, unwrap, find_record, found, update_record, modify_record,
  insert_record, remove_record, try_persist, persist, emit_session, session_env, known_parent,
}
use openmirai.Sessions.Activity.{push_activity}
use openmirai.Sessions.Registry.{
  Distinct-insert, Distinct-remove, Fitting, ManagerFits, RecordFits, RegistryFits-insert,
  RegistryFits-remove, RingsFit-insert, length-push_ring, updated-Distinct, updated-RegistryFits,
}

-- The steps of the manager that keep the invariant.
abbrev pub Sound : (N : Type 0) {W A : Type 0} → Op N W A → Type 0
Sound N m = Keeps ManagerFits (λ _. Unit {0}) m

-- ... and return what has the property.
abbrev pub SoundWith : (N : Type 0) {W A : Type 0} → (A → Type 0) → Op N W A → Type 0
SoundWith N T m = Gives ManagerFits (λ _. Unit {0}) T m

module _ {N W : Type 0} (B : Backend W) where
  pub call-Sound : {A : Type 0} (f : W → A × W) → Sound N (call B f)
  unfolding call
  call-Sound f = record {
    at = λ m h. (record { registry = h.registry; distinct = h.distinct; rings = h.rings }, tt);
  }

  unwrap-Sound : {A : Type 0} (r : Result A SessionError) → Sound N (unwrap B r)
  unwrap-Sound (ok a) = Keeps-pure a
  unwrap-Sound (err e) = Keeps-halt e tt

  pub call_try-Sound : {A : Type 0} (f : W → Result A SessionError × W) → Sound N (call_try B f)
  unfolding call_try
  call_try-Sound f = search (keeps_rules, call-Sound, unwrap-Sound)

  found-SoundWith :
      (id : String) (m : Manager N W)
      → ManagerFits m
      → (o : Option SessionRecord) → get id m.sessions ≡ o
      → ManagerFits (found B id o m).1 × EndsWith (λ _. Unit {0}) (RecordFits id) (found B id o m).0
  unfolding pure halt
  found-SoundWith id m h none e = (h, tt)
  found-SoundWith id m h (some r) e = (h, h.registry id r e)

  pub find_record-SoundWith : (id : String) → SoundWith N (RecordFits id) (find_record B id)
  unfolding find_record ◌>>=◌ gets
  find_record-SoundWith id = record { at = λ m h. found-SoundWith id m h (get id m.sessions) refl }

  pub find_record-Sound : (id : String) → Sound N (find_record B id)
  find_record-Sound id = Keeps-of_Gives _ (find_record-SoundWith id)

  -- A change of a record, which never stops.
  pub update_record-Goes :
      (id : String) (f : SessionRecord → SessionRecord)
      → Fitting f
      → Keeps ManagerFits (λ (e : SessionError). ⊥) (update_record {N = N} B id f)
  unfolding update_record
  update_record-Goes id f k = Keeps-modify _ (λ m h. record {
    registry = updated-RegistryFits id f m.sessions (get id m.sessions) refl k h.registry;
    distinct = updated-Distinct id f m.sessions (get id m.sessions) h.distinct;
    rings = h.rings;
  })

  pub update_record-Sound :
      (id : String) (f : SessionRecord → SessionRecord) → Fitting f → Sound N (update_record B id f)
  update_record-Sound id f k = Keeps-weaken _ (λ e q. tt) (update_record-Goes id f k)

  pub modify_record-Sound :
      (id : String) (f : SessionRecord → SessionRecord) → Fitting f → Sound N (modify_record B id f)
  unfolding modify_record
  modify_record-Sound id f k =
      Gives-bind _ _ (find_record-SoundWith id)
        (λ r h. search (keeps_rules, update_record-Sound id f k))

  pub insert_record-Sound : (r : SessionRecord) → RecordFits r.id r → Sound N (insert_record B r)
  unfolding insert_record
  insert_record-Sound r k = Keeps-modify _ (λ m h. record {
    registry = RegistryFits-insert m.sessions r.id r h.registry k;
    distinct = Distinct-insert m.sessions r.id r h.distinct;
    rings = h.rings;
  })

  pub remove_record-Sound : (id : String) → Sound N (remove_record B id)
  unfolding remove_record
  remove_record-Sound id = Keeps-modify _ (λ m h. record {
    registry = RegistryFits-remove m.sessions id h.registry;
    distinct = Distinct-remove m.sessions id h.distinct;
    rings = h.rings;
  })

  pub try_persist-Sound : Sound N (try_persist B)
  unfolding try_persist
  try_persist-Sound = search (keeps_rules, call-Sound)

  pub persist-Sound : Sound N (persist B)
  unfolding persist
  persist-Sound = search (keeps_rules, try_persist-Sound, unwrap-Sound)

  pub emit_session-Sound :
      (t : EventType) (id : String) (p : HashMap (Value N)) → Sound N (emit_session B t id p)
  unfolding emit_session
  emit_session-Sound t id p =
      Keeps-modify _
        (λ m h. record { registry = h.registry; distinct = h.distinct; rings = h.rings })

  pub session_env-Sound : (id : String) (r : SessionRecord) → Sound N (session_env B id r)
  unfolding session_env
  session_env-Sound id r = search keeps_rules

  pub known_parent-Sound : (parent : Option String) → Sound N (known_parent B parent)
  unfolding known_parent
  known_parent-Sound parent = search keeps_rules

  pub push_activity-Sound :
      (id : String) (entry : HashMap (Value N)) → Sound N (push_activity B id entry)
  unfolding push_activity
  push_activity-Sound id entry =
      Keeps-bind _ _
        (Keeps-modify _ (λ m h. record {
          registry = h.registry;
          distinct = h.distinct;
          rings =
              RingsFit-insert m.activity id _ h.rings
                (length-push_ring (unwrap_or (get id m.activity) []) entry);
        }))
        (λ u. emit_session-Sound _ _ _)

pub ruleset sound_rules = (
  keeps_rules, call-Sound, call_try-Sound, try_persist-Sound, persist-Sound, emit_session-Sound,
  session_env-Sound, known_parent-Sound, push_activity-Sound, remove_record-Sound,
)
