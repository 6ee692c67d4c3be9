-- ===== src/Events/Numbering.antt =====
-- engine/src/core/events.rs: the numbers of the events that an emitter has sent.
use mathlib.Core.List.{append_assoc, append-nil}
use openmirai.Prelude.{
  sym, ◌%◌, ℕ, zero, suc, ◌+◌, ◌<◌, ◌≡◌, refl, ap, ◌∙◌, arith, String, Option, List, [], ◌∷◌, ◌++◌,
  map, HashMap, length,
}
use openmirai.Json.{Value}
use openmirai.Events.{EventType, ExecutionEvent, EventEmitter, emit, emit_raw, u64_mod}

-- first, first + 1, …, so many of them.
abbrev pub consecutive : ℕ → ℕ → List ℕ
consecutive first zero = []
consecutive first (suc n) = first ∷ consecutive (suc first) n

map-append : {A B : Type 0} (f : A → B) (xs ys : List A) → map f (xs ++ ys) ≡ map f xs ++ map f ys
map-append f [] ys = refl
map-append f (x ∷ xs) ys = ap (λ l. f x ∷ l) (map-append f xs ys)

-- What a caller asks of an emitter.
pub data Emission (N : Type 0) : Type 0 where
  event : EventType → String → Option String → HashMap (Value N) → Emission N
  raw : ExecutionEvent N → Emission N

module _ {N : Type 0} where
  unfoldable pub send : Emission N → EventEmitter N → EventEmitter N
  send (event t s n p) e = emit t s n p e
  send (raw x) e = emit_raw x e

  unfoldable pub send_all : List (Emission N) → EventEmitter N → EventEmitter N
  send_all [] e = e
  send_all (r ∷ more) e = send_all more (send r e)

  abbrev pub sent_ids : EventEmitter N → List ℕ
  sent_ids e = map (λ (x : ExecutionEvent N). x.event_id) e.sent

  -- One emission: the counter's number is sent, and the counter is one more.
  sent_ids-send :
      (r : Emission N) (e : EventEmitter N)
      → (sent_ids (send r e) ≡ sent_ids e ++ e.counter ∷ [])
        × ((send r e).counter ≡ (e.counter + 1) % u64_mod)
  unfolding send emit emit_raw
  sent_ids-send (event t s n p) e = (map-append _ e.sent _, refl)
  sent_ids-send (raw x) e = (map-append _ e.sent _, refl)

  -- While the counter does not reach 2^64, the events of any sequence of emit and emit_raw are
  -- sent under consecutive numbers from the counter on.
  pub sent_ids-send_all :
      (requests : List (Emission N)) (e : EventEmitter N)
      → e.counter + length requests < u64_mod
      → sent_ids (send_all requests e) ≡ sent_ids e ++ consecutive e.counter (length requests)
  unfolding send_all
  sent_ids-send_all [] e h = sym (append-nil (sent_ids e))
  sent_ids-send_all (r ∷ more) e h =
      let (ids, count) = sent_ids-send r e in
      let next : (send r e).counter ≡ suc e.counter = omega (arith, count, h) in
      sent_ids-send_all more (send r e) (omega (arith, next, h))
      ∙ rw (ids, next)
          (append_assoc (sent_ids e) (e.counter ∷ []) (consecutive (suc e.counter) (length more)))
