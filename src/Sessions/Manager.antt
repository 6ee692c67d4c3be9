-- ===== src/Sessions/Manager.antt =====
-- engine/src/sessions/manager.rs: the state of SessionManager, and the small steps that its methods
-- are made of. The registry's maps are association lists; a loop over one runs in the list's order.
pub mod Lookup
use openmirai.Prelude.{
  ℕ, String, Bool, true, false, not, ◌&&◌, ◌||◌, Option, none, some, List, [], ◌∷◌, ◌++◌, map,
  if◌then◌else◌, decimal, HashMap, get, insert, remove, filter, Result, ok, err, and_then,
}
use Prim.Native.String.{compare}
use Prim.Native.Nat.{Ordering}
use openmirai.Json.{Value}
use openmirai.Events.{EventType, EventEmitter, new_emitter, emit}
use openmirai.Steps.{Step, Flow, pure, halt, modify, gets, ◌>>=◌, ◌>>◌}
use openmirai.Sessions.Records.{SessionRecord, SessionError, not_found, meta_of}
use openmirai.Sessions.Backend.{Backend}

pub record Manager (N W : Type 0) : Type 0 where
  pub sessions : HashMap SessionRecord
  pub emitter : EventEmitter N
  pub last_pane : HashMap (List String)
  pub server_port : ℕ  -- u16
  pub api_key : Option String
  pub activity : HashMap (List (HashMap (Value N)))
  pub world : W

-- SessionManager::new
abbrev pub new_manager : {N W : Type 0} → W → Manager N W
new_manager w = record {
  sessions = [];
  emitter = new_emitter;
  last_pane = [];
  server_port = 3000;
  api_key = none;
  activity = [];
  world = w;
}

-- a.created_at.cmp(&b.created_at).then(a.id.cmp(&b.id)) is not Greater
abbrev pub not_after : SessionRecord → SessionRecord → Bool
not_after a b = elim (compare a.created_at b.created_at) [
  | Ordering.lt ↦ true
  | Ordering.gt ↦ false
  | Ordering.eq ↦ elim (compare a.id b.id) [ Ordering.gt ↦ false | _ ↦ true ]
]

unfoldable pub insert_sorted :
    (SessionRecord → SessionRecord → Bool) → SessionRecord → List SessionRecord → List SessionRecord
insert_sorted le r [] = r ∷ []
insert_sorted le r (x ∷ xs) =
    let rest = insert_sorted le r xs in if le r x then r ∷ x ∷ xs else x ∷ rest

-- sort_by, which is stable
unfoldable pub sort_by :
    (SessionRecord → SessionRecord → Bool) → List SessionRecord → List SessionRecord
unfolding insert_sorted
sort_by le [] = []
sort_by le (r ∷ rs) = insert_sorted le r (sort_by le rs)

abbrev pub values : HashMap SessionRecord → List SessionRecord
values = map (λ (e : String × SessionRecord). e.1)

-- The record of the id, written; nothing, if there is none.
abbrev pub updated :
    String
    → (SessionRecord → SessionRecord)
    → Option SessionRecord
    → HashMap SessionRecord
    → HashMap SessionRecord
updated id f none sessions = sessions
updated id f (some r) sessions = insert id (f r) sessions

-- session_env
abbrev pub env_of : String → ℕ → Option String → List (String × String)
env_of id port none = ("MIRAI_SESSION_ID", id) ∷ ("MIRAI_PORT", decimal port) ∷ []
env_of id port (some key) =
    ("MIRAI_SESSION_ID", id) ∷ ("MIRAI_PORT", decimal port) ∷ ("MIRAI_API_KEY", key) ∷ []

-- The parent, if the registry has it.
abbrev pub known_of : HashMap SessionRecord → Option String → Option String
known_of sessions none = none
known_of sessions (some p) = elim (get p sessions) [ none ↦ none | some _ ↦ some p ]

-- A step of a method: it returns a value, or stops with an error.
abbrev pub Op : Type 0 → Type 0 → Type 0 → Type 0
Op N W A = Step (Manager N W) SessionError A

module _ {N W : Type 0} (B : Backend W) where
  -- A call of the world.
  unfoldable pub call : {A : Type 0} → (W → A × W) → Op N W A
  call f m = let (a, w) = f m.world in (Flow.next a, record m { world = w })

  abbrev pub unwrap : {A : Type 0} → Result A SessionError → Op N W A
  unwrap (ok a) = pure a
  unwrap (err e) = halt e

  -- A call of the world under `?`.
  unfoldable pub call_try : {A : Type 0} → (W → Result A SessionError × W) → Op N W A
  call_try f = call f >>= unwrap

  abbrev pub found : {A : Type 0} → String → Option A → Op N W A
  found id (some a) = pure a
  found id none = halt (not_found id)

  -- self.get(id) under ok_or_else(NotFound)
  unfoldable pub find_record : String → Op N W SessionRecord
  find_record id = do sessions ← gets (λ (m : Manager N W). m.sessions); found id (get id sessions)

  -- if let Some(rec) = sessions.get_mut(id)
  unfoldable pub update_record : String → (SessionRecord → SessionRecord) → Op N W (Unit {0})
  update_record id f =
      modify
        (λ (m : Manager N W). record m { sessions = updated id f (get id m.sessions) m.sessions })

  -- sessions.get_mut(id).ok_or_else(NotFound), written and cloned.
  unfoldable pub modify_record : String → (SessionRecord → SessionRecord) → Op N W SessionRecord
  modify_record id f = do r ← find_record id; update_record id f; pure (f r)

  unfoldable pub insert_record : SessionRecord → Op N W (Unit {0})
  insert_record r = modify (λ (m : Manager N W). record m { sessions = insert r.id r m.sessions })

  unfoldable pub remove_record : String → Op N W (Unit {0})
  remove_record id = modify (λ (m : Manager N W). record m { sessions = remove id m.sessions })

  -- persist, whose result the caller takes
  unfoldable pub try_persist : Op N W (Result (Unit {0}) SessionError)
  unfolding sort_by
  try_persist = do
    sessions ← gets (λ (m : Manager N W). m.sessions)
    call (B.write_registry (sort_by not_after (values sessions)))

  unfoldable pub persist : Op N W (Unit {0})
  persist = try_persist >>= unwrap

  -- emit
  unfoldable pub emit_session : EventType → String → HashMap (Value N) → Op N W (Unit {0})
  unfolding emit
  emit_session event_type id payload =
      modify (λ (m : Manager N W). record m { emitter = emit event_type id none payload m.emitter })

  -- session_env with SessionMeta::env_pair pushed
  unfoldable pub session_env : String → SessionRecord → Op N W (List (String × String))
  session_env id r = do
    port ← gets (λ (m : Manager N W). m.server_port)
    key ← gets (λ (m : Manager N W). m.api_key)
    pure (env_of id port key ++ ("OPENMIRAI_SESSION_META", B.meta_text (meta_of r)) ∷ [])

  unfoldable pub known_parent : Option String → Op N W (Option String)
  known_parent parent = do
    sessions ← gets (λ (m : Manager N W). m.sessions)
    pure (known_of sessions parent)
