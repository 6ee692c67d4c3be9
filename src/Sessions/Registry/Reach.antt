-- ===== src/Sessions/Registry/Reach.antt =====
-- engine/src/sessions/manager.rs: the states that requests and polls lead to, in any order.
use openmirai.Prelude.{◌≡◌, String, ℕ, Option, some, List, All, ok}
use openmirai.Steps.{pure, ◌>>◌}
use openmirai.Sessions.Status.{SessionStatus}
use openmirai.Sessions.Records.{SessionRecord, SpawnParams}
use openmirai.Sessions.Backend.{Backend}
use openmirai.Sessions.Manager.{Manager, new_manager, Op}
use openmirai.Sessions.Spawn
use openmirai.Sessions.Requests
use openmirai.Sessions.External
use openmirai.Sessions.External.{ExternalParams}
use openmirai.Sessions.Activity
use openmirai.Sessions.Poll
use openmirai.Sessions.Adopt.{initialize}
use openmirai.Sessions.Registry.{RecordFits, ManagerFits}
use openmirai.Sessions.Registry.Steps.{Sound, sound_rules}
use openmirai.Sessions.Registry.Operations.{
  spawn-Sound, send-Sound, output-Sound, stop-Sound, restart-Sound, list-Sound,
  set_server_port-Sound, set_api_key-Sound,
}
use openmirai.Sessions.Registry.Externals.{
  get_activity-Sound, record_activity-Sound, register_external-Sound, set_external_status-Sound,
  unregister_external-Sound,
}
use openmirai.Sessions.Registry.Passes.{poll_once-Sound, initialize-ManagerFits}

pub data Request : Type 0 where
  set_server_port_request : ℕ → Request
  set_api_key_request : Option String → Request
  spawn_request : SpawnParams → Request
  list_request : Request
  send_request : (id text : String) → Request
  output_request : String → ℕ → Request
  stop_request : String → Request
  restart_request : String → (permission_mode model effort : Option String) → Request
  register_external_request : ExternalParams → Request
  set_external_status_request : String → SessionStatus → Option String → Request
  unregister_external_request : String → Request
  record_activity_request : (id tool action : String) → Option String → Request
  get_activity_request : String → ℕ → Request
  poll_request : Request

module _ {N W : Type 0} (B : Backend W) where
  -- The call that serves a request, its answer forgotten.
  unfoldable pub serve : Request → Op N W (Unit {0})
  serve (set_server_port_request port) = Requests.set_server_port B port
  serve (set_api_key_request key) = Requests.set_api_key B key
  serve (spawn_request params) = Spawn.spawn B params >> pure tt
  serve list_request = Requests.list B >> pure tt
  serve (send_request id text) = Requests.send B id text
  serve (output_request id lines) = Requests.output B id lines >> pure tt
  serve (stop_request id) = Requests.stop B id >> pure tt
  serve (restart_request id permission_mode model effort) =
      Requests.restart B id permission_mode model effort >> pure tt
  serve (register_external_request params) = External.register_external B params >> pure tt
  serve (set_external_status_request id status activity) =
      External.set_external_status B id status activity >> pure tt
  serve (unregister_external_request id) = External.unregister_external B id >> pure tt
  serve (record_activity_request id tool action path) =
      Activity.record_activity B id tool action path >> pure tt
  serve (get_activity_request id limit) = Activity.get_activity B id limit >> pure tt
  serve poll_request = Poll.poll_once B

-- The states that come after the first one, whatever is asked and in whatever order.
pub data Reaches {N W : Type 0} (B : Backend W) (first : Manager N W) : Manager N W → Type 0 where
  here : Reaches B first first
  after : (m : Manager N W) (q : Request) → Reaches B first m → Reaches B first (serve B q m).1

module _ {N W : Type 0} (B : Backend W) where
  pub serve-Sound : (q : Request) → Sound N (serve B q)
  unfolding serve
  serve-Sound (set_server_port_request port) = set_server_port-Sound B port
  serve-Sound (set_api_key_request key) = set_api_key-Sound B key
  serve-Sound (spawn_request params) = search (sound_rules, spawn-Sound)
  serve-Sound list_request = search (sound_rules, list-Sound)
  serve-Sound (send_request id text) = send-Sound B id text
  serve-Sound (output_request id lines) = search (sound_rules, output-Sound)
  serve-Sound (stop_request id) = search (sound_rules, stop-Sound)
  serve-Sound (restart_request id permission_mode model effort) =
      search (sound_rules, restart-Sound)
  serve-Sound (register_external_request params) = search (sound_rules, register_external-Sound)
  serve-Sound (set_external_status_request id status activity) =
      search (sound_rules, set_external_status-Sound)
  serve-Sound (unregister_external_request id) = search (sound_rules, unregister_external-Sound)
  serve-Sound (record_activity_request id tool action path) =
      search (sound_rules, record_activity-Sound)
  serve-Sound (get_activity_request id limit) = search (sound_rules, get_activity-Sound)
  serve-Sound poll_request = poll_once-Sound B

  Reaches-keeps : (first m : Manager N W) → ManagerFits first → Reaches B first m → ManagerFits m
  Reaches-keeps first _ h here = h
  Reaches-keeps first _ h (after m q r) = ((serve-Sound q).at m (Reaches-keeps first m h r)).0

  -- If the registry file that initialize reads holds only records that fit, then whatever
  -- requests and polls follow, in any order, failures included, every record of the registry
  -- stands under its own id, once, as an external node without a tmux session or a session under
  -- a name of the engine's, with no permission mode or bypass, and no ring of activity is longer
  -- than 200.
  pub ManagerFits-of_Reaches :
      (w : W) (m : Manager N W)
      → ((rs : List SessionRecord)
          → (B.read_registry w).0 ≡ ok (some rs)
          → All (λ r. RecordFits r.id r) rs)
      → Reaches B (initialize B (new_manager w)).1 m
      → ManagerFits m
  ManagerFits-of_Reaches w m stored r = Reaches-keeps _ m (initialize-ManagerFits B w stored) r
