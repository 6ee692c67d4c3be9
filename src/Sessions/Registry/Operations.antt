-- ===== src/Sessions/Registry/Operations.antt =====
-- engine/src/sessions/manager.rs: the operations on single sessions keep the registry's invariant.
use openmirai.Prelude.{
  ℕ, refl, String, Bool, true, false, Option, none, some, if◌then◌else◌, inr, Result, ok, err,
}
use text.Mathlib.TextPositions.{starts_with-append}
use openmirai.Steps.{pure, halt}
use openmirai.Steps.Keeps.{Gives-bind, Keeps-pure, Keeps-halt, Keeps-modify, Keeps-if}
use openmirai.Sessions.Status.{SessionStatus, starting}
use openmirai.Sessions.Records.{SessionRecord, SpawnParams, SessionError}
use openmirai.Sessions.Backend.{Backend}
use openmirai.Sessions.Command.{build_claude_command, assemble, check_arg, is_safe_arg}
use openmirai.Sessions.Spawn.{
  tmux_prefix, spawned_record, created, is_there, commit_spawn, track_spawn, spawn,
}
use openmirai.Sessions.Requests.{
  set_server_port, set_api_key, list, send, output, kill_existing, stop, must_be_active,
  restarted_mode, forget_pane, swap, restart,
}
use openmirai.Sessions.Registry.{IsMode, RecordFits, Fitting, normalize-IsMode}
use openmirai.Sessions.Registry.Steps.{
  Sound, find_record-SoundWith, update_record-Sound, modify_record-Sound, insert_record-Sound,
  sound_rules,
}

-- The changes of a status, of the first prompt's gate and of the configuration.
pub status-Fitting :
    (s : SessionStatus) (now : String) → Fitting (λ r. record r { status = s; last_activity = now })
status-Fitting s now id r k = record { named = k.named; placed = k.placed; moded = k.moded }

prompt-Fitting :
    (now : String) → Fitting (λ r. record r { first_prompt_sent = true; last_activity = now })
prompt-Fitting now id r k = record { named = k.named; placed = k.placed; moded = k.moded }

configured-Fitting :
    (model effort mode : Option String) (now : String)
    → IsMode mode
    → Fitting (λ r. record r {
      status = starting;
      model = model;
      effort = effort;
      permission_mode = mode;
      first_prompt_sent = false;
      last_activity = now;
    })
configured-Fitting model effort mode now q id r k = record {
  named = k.named;
  placed = k.placed;
  moded = q;
}

restarted_mode-IsMode :
    (mode current : Option String) → IsMode current → IsMode (restarted_mode mode current)
restarted_mode-IsMode none current h = h
restarted_mode-IsMode (some m) current h = normalize-IsMode (some m)

spawned_record-RecordFits :
    (p : SpawnParams) (id : String) (parent_id : Option String) (now : String)
    → RecordFits id (spawned_record p id parent_id now)
unfolding spawned_record
spawned_record-RecordFits p id parent_id now = record {
  named = refl;
  placed = inr (refl, starts_with-append tmux_prefix id);
  moded = normalize-IsMode p.permission_mode;
}

module _ {N W : Type 0} (B : Backend W) where
  pub guard-Sound :
      {A : Type 0} (b : Bool) (e : SessionError) (a : A)
      → Sound N {W = W} (if b then pure a else halt e)
  guard-Sound b e a = Keeps-if b _ _ (Keeps-pure a) (Keeps-halt e tt)

  pub refuse-Sound :
      {A : Type 0} (b : Bool) (e : SessionError) (a : A)
      → Sound N {W = W} (if b then halt e else pure a)
  refuse-Sound b e a = Keeps-if b _ _ (Keeps-halt e tt) (Keeps-pure a)

  halt-Sound : {A : Type 0} (e : SessionError) → Sound N {W = W} (halt {A = A} e)
  halt-Sound e = Keeps-halt e tt

  check_arg-Sound : (what : String) (v : Option String) → Sound N (check_arg B what v)
  check_arg-Sound what none = Keeps-pure tt
  check_arg-Sound what (some v) = guard-Sound (is_safe_arg v) _ tt

  assemble-Sound :
      (id : String) (model effort : Option String) (no_hooks mcp : Bool) (mode : Option String)
      → Sound N (assemble B id model effort no_hooks mcp mode)
  unfolding assemble
  assemble-Sound id model effort no_hooks mcp mode = search sound_rules depth 12

  build_claude_command-Sound :
      (id : String) (model effort : Option String) (no_hooks mcp : Bool) (mode : Option String)
      → Sound N (build_claude_command B id model effort no_hooks mcp mode)
  unfolding build_claude_command
  build_claude_command-Sound id model effort no_hooks mcp mode =
      search (sound_rules, check_arg-Sound, assemble-Sound) depth 12

  created-Sound : (dir : String) (r : Result (Unit {0}) String) → Sound N (created B dir r)
  created-Sound dir (ok u) = Keeps-pure tt
  created-Sound dir (err e) = Keeps-halt _ tt

  is_there-Sound : (dir : String) (b : Bool) → Sound N (is_there B dir b)
  is_there-Sound dir true = Keeps-pure tt
  is_there-Sound dir false = Keeps-halt _ tt

  commit_spawn-Sound :
      (r : SessionRecord) (w : Result (Unit {0}) SessionError) → Sound N (commit_spawn B r w)
  commit_spawn-Sound r (ok u) = search sound_rules
  commit_spawn-Sound r (err e) = search (sound_rules, halt-Sound)

  track_spawn-Sound : (r : SessionRecord) → RecordFits r.id r → Sound N (track_spawn B r)
  unfolding track_spawn
  track_spawn-Sound r h = search (sound_rules, insert_record-Sound B r h, commit_spawn-Sound)

  pub spawn-Sound : (params : SpawnParams) → Sound N (spawn B params)
  unfolding spawn
  spawn-Sound params =
      search
        (
          sound_rules, refuse-Sound, created-Sound, is_there-Sound, build_claude_command-Sound,
          track_spawn-Sound, spawned_record-RecordFits,
        )
        depth 20

  must_be_active-Sound : (r : SessionRecord) (id : String) → Sound N (must_be_active B r id)
  must_be_active-Sound r id = guard-Sound _ _ tt

  pub send-Sound : (id text : String) → Sound N (send B id text)
  unfolding send
  send-Sound id text = Gives-bind _ _ (find_record-SoundWith B id) (λ r h.
      search (sound_rules, must_be_active-Sound, update_record-Sound, prompt-Fitting) depth 12)

  pub output-Sound : (id : String) (lines : ℕ) → Sound N (output B id lines)
  unfolding output
  output-Sound id lines =
      Gives-bind _ _ (find_record-SoundWith B id) (λ r h. search sound_rules depth 8)

  kill_existing-Sound : (tmux_session : String) → Sound N (kill_existing B tmux_session)
  unfolding kill_existing
  kill_existing-Sound tmux_session = search sound_rules depth 8

  pub stop-Sound : (id : String) → Sound N (stop B id)
  unfolding stop
  stop-Sound id = Gives-bind _ _ (find_record-SoundWith B id) (λ r h.
      search (sound_rules, kill_existing-Sound, modify_record-Sound, status-Fitting) depth 12)

  forget_pane-Sound : (id : String) → Sound N (forget_pane B id)
  unfolding forget_pane
  forget_pane-Sound id =
      Keeps-modify _
        (λ m h. record { registry = h.registry; distinct = h.distinct; rings = h.rings })

  swap-Sound : (id : String) (r : SessionRecord) (command : String) → Sound N (swap B id r command)
  unfolding swap
  swap-Sound id r command =
      search
        (sound_rules, kill_existing-Sound, update_record-Sound, status-Fitting, forget_pane-Sound)
        depth 14

  pub restart-Sound :
      (id : String) (mode model effort : Option String) → Sound N (restart B id mode model effort)
  unfolding restart
  restart-Sound id mode model effort = Gives-bind _ _ (find_record-SoundWith B id) (λ r h.
      search
        (
          sound_rules,
          refuse-Sound,
          build_claude_command-Sound,
          swap-Sound,
          modify_record-Sound,
          configured-Fitting _ _ _ _ (restarted_mode-IsMode mode r.permission_mode h.moded),
        )
        depth 14)

  pub list-Sound : Sound N (list B)
  unfolding list
  list-Sound = search sound_rules

  pub set_server_port-Sound : (port : ℕ) → Sound N (set_server_port B port)
  unfolding set_server_port
  set_server_port-Sound port =
      Keeps-modify _
        (λ m h. record { registry = h.registry; distinct = h.distinct; rings = h.rings })

  pub set_api_key-Sound : (key : Option String) → Sound N (set_api_key B key)
  unfolding set_api_key
  set_api_key-Sound key =
      Keeps-modify _
        (λ m h. record { registry = h.registry; distinct = h.distinct; rings = h.rings })
