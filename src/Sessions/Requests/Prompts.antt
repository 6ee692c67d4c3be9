-- ===== src/Sessions/Requests/Prompts.antt =====
-- engine/src/sessions/manager.rs, send: "ultracode" goes before the first prompt only.
use openmirai.Prelude.{◌≡◌, refl, String, true, some, get, ok, err, arith}
use openmirai.Steps.{stop, pure, ◌>>=◌}
use openmirai.Sessions.Status.{is_active}
use openmirai.Sessions.Records.{SessionRecord, SessionError}
use openmirai.Sessions.Backend.{Backend}
use openmirai.Sessions.Manager.{Manager, call}
use openmirai.Sessions.Manager.Lookup.{find_record-some, get-persist, call_try-ok, call_try-err}
use openmirai.Sessions.Requests.{payload_of, send}

-- After its first prompt a session gets every text as it is.
payload_of-sent : (r : SessionRecord) (t : String) → r.first_prompt_sent ≡ true → payload_of r t ≡ t
payload_of-sent r t h = ground (arith, h)

module _ {N W : Type 0} (B : Backend W) where
  -- After a send to an active session that the backend accepts, the session's record is such that
  -- every later text is sent as it is, without the ultracode keyword.
  pub send-once :
      (id text : String) (m : Manager N W) (r : SessionRecord)
      → get id m.sessions ≡ some r
      → is_active r.status ≡ true
      → (B.send_text r.tmux_session (payload_of r text) m.world).0 ≡ ok tt
      → (s : SessionRecord) × (get id (send B id text m).1.sessions ≡ some s)
        × ((t : String) → payload_of s t ≡ t)
  unfolding send ◌>>=◌ pure call
  send-once id text m r h a k =
      let w = (B.send_text r.tmux_session (payload_of r text) m.world).1 in
      let s = record r { first_prompt_sent = true; last_activity = (B.now w).0 } in
      rw (find_record-some B id m r h) (
        rw a (
          rw (call_try-ok B (B.send_text r.tmux_session (payload_of r text)) m tt k)
            (s, get-persist B id _ _ r h, λ t. payload_of-sent s t refl)))

  -- If the backend refuses the text, only the world changes: the first prompt is still to come.
  pub send-err :
      (id text : String) (m : Manager N W) (r : SessionRecord) (e : SessionError)
      → get id m.sessions ≡ some r
      → is_active r.status ≡ true
      → (B.send_text r.tmux_session (payload_of r text) m.world).0 ≡ err e
      → send B id text m
        ≡ (stop e, record m { world = (B.send_text r.tmux_session (payload_of r text) m.world).1 })
  unfolding send ◌>>=◌ pure
  send-err id text m r e h a k =
      rw (find_record-some B id m r h)
        (rw a (rw (call_try-err B (B.send_text r.tmux_session (payload_of r text)) m e k) refl))
