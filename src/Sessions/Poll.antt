-- ===== src/Sessions/Poll.antt =====
-- engine/src/sessions/manager.rs: active_count, poll_once and diff_new_lines, one pass over the
-- active sessions.
pub mod Diffs
pub mod Keeps
pub mod Turns
pub mod Deaths
pub mod Externals
use openmirai.Prelude.{
  ℕ, zero, suc, ◌+◌, ◌-◌, String, Bool, true, false, not, ◌&&◌, Option, none, some, List, [], ◌∷◌,
  map, if◌then◌else◌, ◌==◌, HashMap, get, insert, length, take, drop, filter, leb, unwrap_or,
  Result, ok, err,
}
use openmirai.Json.{Value, string, array, of_list}
use openmirai.Events.{EventType, session_status_changed, session_stopped, session_output}
use openmirai.Steps.{pure, modify, gets, ◌>>=◌, ◌>>◌}
use openmirai.Sessions.Status.{SessionStatus, stopped, is_active, same_status, detect_status}
use openmirai.Sessions.Records.{SessionRecord, SessionError}
use openmirai.Sessions.Backend.{Backend}
use openmirai.Sessions.Manager.{Manager, Op, call, update_record, try_persist, emit_session, values}
use openmirai.Sessions.Requests.{status_json, id_json}

abbrev pub poll_capture_lines : ℕ
poll_capture_lines = 40

abbrev pub same_lines : List String → List String → Bool
same_lines [] [] = true
same_lines (x ∷ xs) (y ∷ ys) = x == y && same_lines xs ys
same_lines _ _ = false

-- The largest k from the given one down to 1 for which the last k lines before are the first k now.
unfoldable pub overlap : ℕ → List String → List String → ℕ
overlap zero previous current = 0
overlap (suc k) previous current =
    let smaller = overlap k previous current in
    if same_lines (drop (length previous - suc k) previous) (take (suc k) current)
    then suc k
    else smaller

unfoldable pub common_prefix : List String → List String → ℕ
common_prefix (x ∷ xs) (y ∷ ys) = let more = common_prefix xs ys in if x == y then suc more else 0
common_prefix _ _ = 0

abbrev pub max : ℕ → ℕ → ℕ
max a b = if leb a b then b else a

abbrev pub min : ℕ → ℕ → ℕ
min a b = if leb a b then a else b

unfoldable pub diff_new_lines : List String → List String → List String
unfolding overlap common_prefix
diff_new_lines previous current =
    if same_lines previous current
    then []
    else drop
        (max (overlap (min (length previous) (length current)) previous current)
          (common_prefix previous current))
        current

abbrev pub strings : {N : Type 0} → List String → List (Value N)
strings lines = map string lines

abbrev pub lines_json : {N : Type 0} → String → List String → HashMap (Value N)
lines_json id lines = ("id", string id) ∷ ("lines", array (of_list (strings lines))) ∷ []

-- r.status.is_active() && !r.external
abbrev pub is_polled : SessionRecord → Bool
is_polled r = is_active r.status && not r.external

module _ {N W : Type 0} (B : Backend W) where
  unfoldable pub active_count : Op N W ℕ
  active_count = gets (λ (m : Manager N W). length (filter is_polled (values m.sessions)))

  -- A status that has changed: whether the registry is dirty.
  abbrev pub poll_status : String → SessionStatus → Option SessionStatus → Op N W Bool
  poll_status id current none = pure false
  poll_status id current (some new_status) =
      if same_status new_status current then pure false else do
        now ← call B B.now
        update_record B id (λ s. record s { status = new_status; last_activity = now })
        emit_session B session_status_changed id (status_json id new_status now)
        pure true

  abbrev pub emit_lines : String → List String → Op N W (Unit {0})
  emit_lines id [] = pure tt
  emit_lines id (l ∷ ls) = emit_session B session_output id (lines_json id (l ∷ ls))

  -- last.insert(id.clone(), pane.clone())
  unfoldable pub save_pane : String → List String → Op N W (Unit {0})
  save_pane id pane =
      modify (λ (m : Manager N W). record m { last_pane = insert id pane m.last_pane })

  unfoldable pub poll_lines : String → List String → Op N W (Unit {0})
  unfolding diff_new_lines
  poll_lines id pane = do
    last ← gets (λ (m : Manager N W). m.last_pane)
    save_pane id pane
    emit_lines id (diff_new_lines (unwrap_or (get id last) []) pane)

  -- A session that died outside of the manager.
  abbrev pub poll_dead : String → Op N W Bool
  poll_dead id = do
    now ← call B B.now
    update_record B id (λ s. record s { status = stopped; last_activity = now })
    emit_session B session_status_changed id (status_json id stopped now)
    emit_session B session_stopped id (id_json id)
    pure true

  abbrev pub poll_pane : SessionRecord → Result (List String) SessionError → Op N W Bool
  poll_pane r (err e) = pure false
  poll_pane r (ok pane) = do
    dirty ← poll_status r.id r.status (detect_status B.to_lowercase pane)
    poll_lines r.id pane
    pure dirty

  abbrev pub poll_there : SessionRecord → Bool → Op N W Bool
  poll_there r there =
      if there
      then (call B (B.capture_output r.tmux_session poll_capture_lines) >>= poll_pane r)
      else poll_dead r.id

  -- One turn of the loop, for a record of the snapshot.
  unfoldable pub poll_one : SessionRecord → Op N W Bool
  poll_one r = call B (B.session_exists r.tmux_session) >>= poll_there r

  unfoldable pub poll_all : List SessionRecord → Bool → Op N W Bool
  unfolding poll_one
  poll_all [] dirty = pure dirty
  poll_all (r ∷ rs) dirty =
      poll_one r >>= λ now_dirty. poll_all rs (if now_dirty then true else dirty)

  -- if dirty { let _ = self.persist().await; }
  abbrev pub persist_if : Bool → Op N W (Unit {0})
  persist_if true = try_persist B >> pure tt
  persist_if false = pure tt

  unfoldable pub poll_once : Op N W (Unit {0})
  poll_once = do
    active ← gets (λ (m : Manager N W). filter is_polled (values m.sessions))
    dirty ← poll_all active false
    persist_if dirty
