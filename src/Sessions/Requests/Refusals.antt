-- ===== src/Sessions/Requests/Refusals.antt =====
-- engine/src/sessions/manager.rs, restart: the requests that are refused before anything is killed.
use openmirai.Prelude.{◌≡◌, refl, String, false, Option, some, get, or_else}
use openmirai.Steps.{stop, pure, ◌>>=◌}
use openmirai.Sessions.Records.{SessionRecord, SessionError}
use openmirai.Sessions.Backend.{Backend}
use openmirai.Sessions.Manager.{Manager}
use openmirai.Sessions.Manager.Lookup.{find_record-some}
use openmirai.Sessions.Command.Arguments.{IsHarmless}
use openmirai.Sessions.Command.Safety.{build_claude_command_iff}
use openmirai.Sessions.Requests.{restarted_mode, restart}

module _ {N W : Type 0} (B : Backend W) where
  -- A restart of a tmux session whose new model or effort has a character outside the allowed
  -- ones, or is empty, is refused, and leaves the manager and the world as they were: nothing is
  -- killed.
  pub restart-unsafe :
      (id : String) (permission_mode model effort : Option String) (m : Manager N W)
      (r : SessionRecord)
      → get id m.sessions ≡ some r
      → r.external ≡ false
      → (¬ (IsHarmless (or_else model r.model) × IsHarmless (or_else effort r.effort)))
      → (e : SessionError) × (restart B id permission_mode model effort m ≡ (stop e, m))
  unfolding restart ◌>>=◌ pure
  restart-unsafe id permission_mode model effort m r h x u =
      let refused =
        build_claude_command_iff B id (or_else model r.model) (or_else effort r.effort) false false
          (restarted_mode permission_mode r.permission_mode) m in
      let (e, k) = refused.1 u in (e, rw (find_record-some B id m r h) (rw x (rw k refl)))
