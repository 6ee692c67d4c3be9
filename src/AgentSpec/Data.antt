-- ===== src/AgentSpec/Data.antt =====
-- engine/src/core/agent_spec.rs: the data of a spec. Positions of nodes, which only the editor reads,
-- and vault references, which no function of the file reads, are left out.
use openmirai.Prelude.{ℕ, String, Bool, Option, none, some, List, [], ◌∷◌, ◌++◌, map, HashMap}
use openmirai.Json.{Json, Value, string, array, object, of_list, of_map}
use openmirai.Graph.{EdgeCondition, GraphError}
use openmirai.Runner.Types.{BackoffStrategy, FailureMode, exponential, stop}

pub data AgentSpecError : Type 0 where
  duplicate_node_ids duplicate_edge_ids : List String → AgentSpecError
  unknown_source_node unknown_target_node : (edge_id node_id : String) → AgentSpecError
  graph : GraphError → AgentSpecError
  yaml json : String → AgentSpecError
  invalid_yaml_structure : AgentSpecError
  io unsupported_extension invalid_schedule : String → AgentSpecError

pub data AgentType : Type 0 where
  managed live : AgentType

pub data MemoryPersistMode : Type 0 where
  no_carry cycle execution : MemoryPersistMode

pub record AgentMemorySpec (N : Type 0) : Type 0 where
  pub persist : MemoryPersistMode
  pub keys : HashMap (Value N)

pub data CycleErrorMode : Type 0 where
  continue stop_agent : CycleErrorMode

pub record AgentScheduleSpec : Type 0 where
  pub interval_seconds : Option ℕ  -- u64
  pub cron : Option String
  pub max_cycles : Option ℕ
  pub on_cycle_error : CycleErrorMode

pub record AgentNodeSpec (N : Type 0) : Type 0 where
  pub id : String
  pub tool_type : String
  pub version : String
  pub config : HashMap (Value N)

pub record AgentEdgeSpec (N : Type 0) : Type 0 where
  pub id : String
  pub source : String
  pub target : String
  pub condition : Option (EdgeCondition N)
  pub data_map : Option (HashMap String)

pub record AgentGraphSpec (N : Type 0) : Type 0 where
  pub nodes : List (AgentNodeSpec N)
  pub edges : List (AgentEdgeSpec N)
  pub memory : Option (AgentMemorySpec N)

pub record AgentRetryConfig : Type 0 where
  pub max_retries : ℕ  -- u32
  pub backoff : BackoffStrategy
  pub on_failure : FailureMode

abbrev pub default_retry : AgentRetryConfig
default_retry = record { max_retries = 3; backoff = exponential; on_failure = stop }

pub record AgentHookSpec : Type 0 where
  pub handler : String
  pub filter : Option String

pub record AgentMcpServerSpec : Type 0 where
  pub name : String
  pub transport : String
  pub command : Option String
  pub args : List String
  pub url : Option String
  pub credential_ref : Option String

pub record AgentConfig : Type 0 where
  pub max_iterations : ℕ  -- u32
  pub retry : AgentRetryConfig
  pub timeout_ms : ℕ  -- u64
  pub hooks : HashMap (List AgentHookSpec)
  pub mcp_servers : List AgentMcpServerSpec

abbrev pub default_config : AgentConfig
default_config = record {
  max_iterations = 50;
  retry = default_retry;
  timeout_ms = 60000;
  hooks = [];
  mcp_servers = [];
}

pub record AgentTriggerSpec (N : Type 0) : Type 0 where
  pub trigger_type : String
  pub path : Option String
  pub method : Option String
  pub auth : Option String
  pub interval_seconds : Option ℕ
  pub cron : Option String
  pub event_type : Option String
  pub source : Option String
  pub input_form : Option (List (HashMap (Value N)))

pub record AgentResourceRef (N : Type 0) : Type 0 where
  pub resource_type : String
  pub name : String
  pub config : HashMap (Value N)

pub data InputType : Type 0 where
  text number boolean json file : InputType

pub record InputFieldSpec (N : Type 0) : Type 0 where
  pub field_type : InputType
  pub required : Bool
  pub description : String
  pub default : Option (Value N)

pub record OutputFieldSpec : Type 0 where
  pub field_type : InputType
  pub description : String

pub record AgentSpec (N : Type 0) : Type 0 where
  pub name : String
  pub description : String
  pub version : String
  pub agent_type : AgentType
  pub system_prompt : Option String
  pub soul : Option String
  pub inputs : Option (HashMap (InputFieldSpec N))
  pub outputs : Option (HashMap OutputFieldSpec)
  pub graph : AgentGraphSpec N
  pub schedule : Option AgentScheduleSpec
  pub triggers : List (AgentTriggerSpec N)
  pub config : AgentConfig
  pub resources : List (AgentResourceRef N)
  pub metadata : HashMap (Value N)

module _ (J : Json) where
  -- An optional text under a name, if it is there.
  abbrev text_entry : String → Option String → HashMap (Value J.Number)
  text_entry k none = []
  text_entry k (some s) = (k, string s) ∷ []

  abbrev number_entry : String → Option ℕ → HashMap (Value J.Number)
  number_entry k none = []
  number_entry k (some n) = (k, Value.number (J.from_u64 n)) ∷ []

  abbrev form_object : HashMap (Value J.Number) → Value J.Number
  form_object m = object (of_map m)

  abbrev form_entry : Option (List (HashMap (Value J.Number))) → HashMap (Value J.Number)
  form_entry none = []
  form_entry (some forms) = ("input_form", array (of_list (map form_object forms))) ∷ []

  -- AgentTriggerSpec::to_runtime_map: a map of different keys.
  unfoldable pub to_runtime_map : AgentTriggerSpec J.Number → HashMap (Value J.Number)
  to_runtime_map t =
      (("type", string t.trigger_type) ∷ [])
      ++ text_entry "path" t.path
      ++ text_entry "method" t.method
      ++ text_entry "auth" t.auth
      ++ number_entry "interval_seconds" t.interval_seconds
      ++ text_entry "cron" t.cron
      ++ text_entry "event_type" t.event_type
      ++ text_entry "source" t.source
      ++ form_entry t.input_form

  unfoldable pub to_triggers_list : AgentSpec J.Number → List (HashMap (Value J.Number))
  unfolding to_runtime_map
  to_triggers_list spec = map to_runtime_map spec.triggers
