-- ===== src/Sessions/Poll/Keeps.antt =====
-- engine/src/sessions/manager.rs, poll_once: one turn of the loop never fails, and keeps what the
-- change of the polled record's status keeps.
use openmirai.Prelude.{
  ◌≡◌, refl, String, Bool, true, false, Option, none, some, List, [], ◌∷◌, HashMap, Result, ok, err,
}
use openmirai.Json.{Value}
use openmirai.Events.{EventType}
use openmirai.Steps.Keeps.{Keeps, keeps_rules, Keeps-pure, Keeps-modify}
use openmirai.Sessions.Status.{SessionStatus}
use openmirai.Sessions.Records.{SessionRecord, SessionError}
use openmirai.Sessions.Backend.{Backend}
use openmirai.Sessions.Manager.{Manager, Op, call, update_record, try_persist, emit_session}
use openmirai.Sessions.Poll.{
  poll_status, emit_lines, save_pane, poll_lines, poll_dead, poll_pane, poll_one, persist_if,
}

-- The change that the poll makes to a record.
abbrev pub with_status : SessionStatus → String → SessionRecord → SessionRecord
with_status s now r = record r { status = s; last_activity = now }

-- A predicate that reads the registry and the activity only.
abbrev pub ReadsRegistry : {N W : Type 0} → (Manager N W → Type 0) → Type 0
ReadsRegistry {N} {W} P =
    (m n : Manager N W) → n.sessions ≡ m.sessions → n.activity ≡ m.activity → P m → P n

-- Steps that keep it and never stop.
abbrev pub Goes : {N W A : Type 0} → (Manager N W → Type 0) → Op N W A → Type 0
Goes P m = Keeps P (λ (e : SessionError). ⊥) m

module _ {N W : Type 0} (B : Backend W) (P : Manager N W → Type 0) (reads : ReadsRegistry P) where
  call-Goes : {A : Type 0} (f : W → A × W) → Goes P (call B f)
  unfolding call
  call-Goes f = record { at = λ m h. (reads m _ refl refl h, tt) }

  emit_session-Goes :
      (t : EventType) (id : String) (p : HashMap (Value N)) → Goes P (emit_session B t id p)
  unfolding emit_session
  emit_session-Goes t id p = Keeps-modify _ (λ m h. reads m _ refl refl h)

  save_pane-Goes : (id : String) (pane : List String) → Goes P (save_pane B id pane)
  unfolding save_pane
  save_pane-Goes id pane = Keeps-modify _ (λ m h. reads m _ refl refl h)

  emit_lines-Goes : (id : String) (lines : List String) → Goes P (emit_lines B id lines)
  emit_lines-Goes id [] = Keeps-pure tt
  emit_lines-Goes id (l ∷ ls) = emit_session-Goes _ _ _

  poll_lines-Goes : (id : String) (pane : List String) → Goes P (poll_lines B id pane)
  unfolding poll_lines
  poll_lines-Goes id pane = search (keeps_rules, save_pane-Goes, emit_lines-Goes) depth 8

  try_persist-Goes : Goes P (try_persist B)
  unfolding try_persist
  try_persist-Goes = search (keeps_rules, call-Goes)

  pub persist_if-Goes : (dirty : Bool) → Goes P (persist_if B dirty)
  persist_if-Goes true = search (keeps_rules, try_persist-Goes)
  persist_if-Goes false = Keeps-pure tt

  module _ (r : SessionRecord)
      (changes : (s : SessionStatus) (now : String)
        → Goes P (update_record B r.id (with_status s now))) where
    poll_status-Goes :
        (current : SessionStatus) (s : Option SessionStatus) → Goes P (poll_status B r.id current s)
    poll_status-Goes current none = Keeps-pure false
    poll_status-Goes current (some s) =
        search (keeps_rules, call-Goes, emit_session-Goes, changes) depth 8

    poll_dead-Goes : Goes P (poll_dead B r.id)
    poll_dead-Goes = search (keeps_rules, call-Goes, emit_session-Goes, changes) depth 8

    poll_pane-Goes : (p : Result (List String) SessionError) → Goes P (poll_pane B r p)
    poll_pane-Goes (err e) = Keeps-pure false
    poll_pane-Goes (ok pane) = search (keeps_rules, poll_status-Goes, poll_lines-Goes) depth 8

    pub poll_one-Goes : Goes P (poll_one B r)
    unfolding poll_one
    poll_one-Goes = search (keeps_rules, call-Goes, poll_pane-Goes, poll_dead-Goes) depth 8
