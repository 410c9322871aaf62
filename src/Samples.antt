-- ===== src/Samples.antt =====
-- Small API objects for the tests and the examples of the other modules.
use agent_plane.Base.{String, ◌<>◌, none, some, [], ◌∷◌, false, ◌==◌, if◌then◌else◌}
use agent_plane.Api.{
  LocalReference, ObjectMeta, AgentVolume, AgentRuntimeSpec, AgentWorkspaceSpec, AgentSpec,
  AgentStatus, Agent, ToolSpec, Tool, ToolSet, Model, Policy, BasicStatus,
}
use agent_plane.Policy.{merge_policies}
use agent_plane.Cluster.{found, not_found, Reader, Result, ok}
use agent_plane.Registry.Views.{ToolView, AgentConfig}
use agent_plane.Registry.Config.{policy_view}

abbrev pub meta_of : String → ObjectMeta
meta_of name = record {
  name = name;
  ns = "default";
  resource_version = "7";
  generation = 1;
  uid = "uid-" <> name;
}

abbrev pub ref : String → LocalReference
ref name = record { name = name }

abbrev pub bare_spec : AgentSpec
bare_spec = record {
  description = "";
  agent_class_ref = none;
  model_ref = none;
  prompt_ref = none;
  tool_refs = [];
  tool_set_refs = [];
  skill_refs = [];
  policy_refs = [];
  tool_policy_refs = [];
  credential_refs = [];
  runtime = none;
  workspace = none;
  expose = none;
}

abbrev pub bare_runtime : AgentRuntimeSpec
bare_runtime = record {
  image = "example/runtime:v1";
  replicas = 1;
  port = 8080;
  env = [];
  service_account_name = "";
  resources = "";
  readiness_probe = none;
  runtime_class_name = "";
  volumes = [];
}

abbrev pub bare_workspace : AgentWorkspaceSpec
bare_workspace = record {
  repository = "";
  branch = "";
  credential_ref = none;
  mount_path = "";
  size = "";
  storage_class_name = none;
}

abbrev pub volume_at : String → String → AgentVolume
volume_at name path = record {
  name = name;
  mount_path = path;
  read_only = false;
  persistent_volume_claim = some (record { claim_name = "shared" });
  config_map = none;
  secret = none;
  empty_dir = none;
}

abbrev pub bare_status : AgentStatus
bare_status = record {
  conditions = [];
  observed_generation = 0;
  phase = "";
  resolved_config_hash = "";
  resolved_refs = 0;
  runtime_available_replicas = 0;
  peer_endpoint = "";
  workspace_claim = "";
}

abbrev pub agent_of : String → AgentSpec → Agent
agent_of name spec = record { meta = meta_of name; spec = spec; status = bare_status }

abbrev pub bare_tool : ToolSpec
bare_tool = record {
  type_of = "http";
  description = "";
  version = "";
  mcp_tool_name = "";
  endpoint = "";
  mcp_server_ref = none;
  agent_ref = none;
  timeout_seconds = none;
  input_schema = none;
  output_schema = none;
}

abbrev pub bare_basic : BasicStatus
bare_basic = record { conditions = []; observed_generation = 0 }

-- A cluster that holds nothing.
abbrev pub empty_cluster : Reader
empty_cluster = record {
  get_agent = λ ns name. not_found;
  get_class = λ ns name. not_found;
  get_model = λ ns name. not_found;
  get_prompt = λ ns name. not_found;
  get_tool = λ ns name. not_found;
  get_tool_set = λ ns name. not_found;
  get_skill = λ ns name. not_found;
  get_policy = λ ns name. not_found;
  get_tool_policy = λ ns name. not_found;
  get_credential = λ ns name. not_found;
  get_mcp_server = λ ns name. not_found;
  get_config_map = λ ns name. not_found;
  get_secret = λ ns name. not_found;
}

abbrev pub gpt : Model
gpt = record {
  meta = meta_of "gpt";
  spec = record {
    provider = "openai";
    model_name = "gpt";
    endpoint = "";
    credential_ref = none;
    defaults = none;
  };
  status = bare_basic;
}

abbrev pub search_tool : Tool
search_tool = record {
  meta = meta_of "search";
  spec = record bare_tool { type_of = "mcp"; mcp_server_ref = some (ref "lark") };
  status = record { conditions = []; observed_generation = 0; healthy = none };
}

abbrev pub bundle : ToolSet
bundle = record {
  meta = meta_of "bundle";
  spec = record { description = ""; tool_refs = ref "search" ∷ [] };
  status = record { conditions = []; observed_generation = 0; resolved_tools = 0 };
}

-- One model, one tool and one set that holds it.
abbrev pub small_cluster : Reader
small_cluster = record empty_cluster {
  get_model = λ ns name. if name == "gpt" then found gpt else not_found;
  get_tool = λ ns name. if name == "search" then found search_tool else not_found;
  get_tool_set = λ ns name. if name == "bundle" then found bundle else not_found;
}

-- An Agent with that model, the set, and a skill that is not there.
abbrev pub helper : Agent
helper = agent_of "helper" (record bare_spec {
  model_ref = some (ref "gpt");
  tool_set_refs = ref "bundle" ∷ [];
  skill_refs = ref "triage" ∷ [];
})

-- A policy, and the cluster and the Agent with it.
abbrev pub search_policy : Policy
search_policy = record {
  meta = meta_of "search-only";
  spec = record {
    models = none;
    mcp = none;
    tools = some (record { allow = "search" ∷ []; deny = [] });
  };
  status = bare_basic;
}

abbrev pub governed_cluster : Reader
governed_cluster = record small_cluster {
  get_policy = λ ns name. if name == "search-only" then found search_policy else not_found;
}

abbrev pub governed : Agent
governed = agent_of "governed" (record bare_spec {
  model_ref = some (ref "gpt");
  tool_refs = ref "search" ∷ [];
  tool_set_refs = ref "bundle" ∷ [];
  policy_refs = ref "search-only" ∷ [];
})

-- What the Registry ships for it.
abbrev pub marshal : AgentSpec → Result String
marshal s = ok "{}"

abbrev pub search_view : ToolView
search_view = record {
  name = "search";
  type_of = "mcp";
  description = "";
  endpoint = "";
  mcp_tool_name = "";
  input_schema = none;
}

abbrev pub payload : AgentConfig
payload = record {
  ns = "default";
  name = "governed";
  config_hash = "";
  phase = "";
  spec = "{}";
  prompt = none;
  model = some (record {
    provider = "openai";
    model_name = "gpt";
    endpoint = "";
    secret_name = "";
    secret_key = "";
  });
  tools = search_view ∷ [];
  skills = [];
  policy = policy_view (merge_policies (search_policy ∷ []) []);
}
