-- ===== src/Sessions/Activity.antt =====
-- engine/src/sessions/manager.rs: record_activity and get_activity, the ring of a session's recent
-- resource activity.
pub mod Rings
use openmirai.Prelude.{
  ℕ, ◌-◌, String, Bool, true, false, ◌||◌, Option, none, some, List, [], ◌∷◌, ◌++◌, if◌then◌else◌,
  ◌==◌, concat, is_empty_text, trim, HashMap, get, insert, contains_key, length, drop, leb,
  unwrap_or,
}
use openmirai.Json.{Value, null, string}
use openmirai.Events.{EventType, session_activity}
use openmirai.Steps.{pure, halt, modify, gets, ◌>>=◌, ◌>>◌}
use openmirai.Sessions.Records.{SessionError, invalid, not_found, optional}
use openmirai.Sessions.Backend.{Backend}
use openmirai.Sessions.Manager.{Manager, Op, call, emit_session}

abbrev pub activity_ring_max : ℕ
activity_ring_max = 200

-- ring.push_back(entry), then pop_front while the ring is too long
unfoldable pub push_ring : {A : Type 0} → List A → A → List A
push_ring ring entry =
    let longer = ring ++ entry ∷ [] in drop (length longer - activity_ring_max) longer

-- ring.iter().skip(ring.len().saturating_sub(limit))
unfoldable pub last_entries : {A : Type 0} → ℕ → List A → List A
last_entries limit ring = drop (length ring - limit) ring

abbrev pub known_action : String → Bool
known_action action = action == "read" || action == "write" || action == "exec" || action == "net"

abbrev pub activity_json :
    {N : Type 0} → (id tool action : String) → Option String → String → HashMap (Value N)
activity_json id tool action path ts =
    ("id", string id)
    ∷ ("tool", string tool)
    ∷ ("action", string action)
    ∷ ("path", optional path)
    ∷ ("ts", string ts)
    ∷ []

module _ {N W : Type 0} (B : Backend W) where
  -- activity.entry(id).or_default(), pushed to; and the event.
  unfoldable pub push_activity : String → HashMap (Value N) → Op N W (Unit {0})
  unfolding push_ring
  push_activity id entry = do
    modify (λ (m : Manager N W). record m {
      activity = insert id (push_ring (unwrap_or (get id m.activity) []) entry) m.activity;
    })
    emit_session B session_activity id entry

  -- self.get(id).is_none()
  abbrev pub must_exist : String → Op N W (Unit {0})
  must_exist id = do
    known ← gets (λ (m : Manager N W). contains_key id m.sessions)
    if known then pure tt else halt (not_found id)

  abbrev pub check_action : String → Op N W (Unit {0})
  check_action action =
      if known_action action
      then pure tt
      else halt (invalid (concat ("action must be read|write|exec|net, got '" ∷ action ∷ "'" ∷ [])))

  abbrev pub check_tool : String → Op N W (Unit {0})
  check_tool tool = if is_empty_text (trim tool) then halt (invalid "tool is required") else pure tt

  unfoldable pub record_activity :
      (id tool action : String) → Option String → Op N W (HashMap (Value N))
  record_activity id tool action path = do
    check_action action
    check_tool tool
    must_exist id
    now ← call B B.now
    let entry = activity_json id tool action path now
    push_activity id entry
    pure entry

  unfoldable pub get_activity : String → ℕ → Op N W (List (HashMap (Value N)))
  unfolding last_entries
  get_activity id limit = do
    must_exist id
    rings ← gets (λ (m : Manager N W). m.activity)
    pure (last_entries limit (unwrap_or (get id rings) []))
