-- ===== src/Resolve/Pass.antt =====
-- The pass itself: the loop over the targets, and the expansion of the tool surface.
pub mod Laws
pub mod Results
pub mod Surface
pub mod Coverage
mod Gather
pub mod Frame
pub mod Policies
use agent_plane.Base.{
  String, ◌<>◌, Bool, true, false, Option, none, some, List, [], ◌∷◌, ◌++◌, map, if◌then◌else◌,
  is_empty, keep_first,
}
use agent_plane.Api.{
  LocalReference, Agent, AgentSpec, Policy, ToolPolicy, Skill, Credential, Tool, ToolSet, ToolSpec,
}
use agent_plane.Policy.{AgentReferences, SkillToolScope}
use agent_plane.Cluster.{Got, found, not_found, failed, Reader, Result, ok, err, ◌>>=◌}
use agent_plane.Resolve.Targets.{
  Kind, kind_name, Object, a_policy, a_tool_policy, a_skill, a_credential, object_meta, get_object,
  Target, targets_of, effective_spec,
}

pub record ResolvedRef : Type 0 where
  pub kind : String
  pub name : String
  pub resource_version : String

pub record MountedCredential : Type 0 where
  pub name : String
  pub secret : String

pub record PeerRef : Type 0 where
  pub tool : String
  pub agent : String

pub record Resolution : Type 0 where
  pub refs : List ResolvedRef
  pub missing : List String
  pub policies : List Policy
  pub tool_policies : List ToolPolicy
  pub declared : AgentReferences
  pub skill_scopes : List SkillToolScope
  pub credentials : List MountedCredential
  pub git_secret : String
  pub peers : List PeerRef

abbrev pub empty_resolution : Resolution
empty_resolution = record {
  refs = [];
  missing = [];
  policies = [];
  tool_policies = [];
  declared = record { model = ""; tools = []; mcp_servers = [] };
  skill_scopes = [];
  credentials = [];
  git_secret = "";
  peers = [];
}

-- `collect`.
collect : Resolution → Object → Resolution
collect res (a_policy o) = record res { policies = res.policies ++ o ∷ [] }
collect res (a_tool_policy o) = record res { tool_policies = res.tool_policies ++ o ∷ [] }
collect res (a_skill o) = if is_empty o.spec.allowed_tools then res else record res {
  skill_scopes =
      res.skill_scopes ++ record { skill = o.meta.name; allowed_tools = o.spec.allowed_tools } ∷ [];
}
collect res (a_credential o) = record res {
  credentials =
      res.credentials ++ record { name = o.meta.name; secret = o.spec.secret_ref.name } ∷ [];
}
collect res _ = res

-- What a found target contributes beyond its hash entry.
record_git : Resolution → Object → Resolution
record_git res (a_credential o) = record res { git_secret = o.spec.secret_ref.name }
record_git res _ = res

abbrev pub ref_of : Target → Object → ResolvedRef
ref_of t o = record {
  kind = kind_name t.kind;
  name = t.name;
  resource_version = (object_meta o).resource_version;
}

abbrev pub missing_name : Target → String
missing_name t = kind_name t.kind <> "/" <> t.name

-- The three cases of the switch on the error of `Get`.
pub take_target : Resolution → Target → Got Object → Result Resolution
take_target res t (found o) =
    let noted = record res { refs = res.refs ++ ref_of t o ∷ [] } in
    ok (if t.git then record_git noted o else collect noted o)
take_target res t not_found = ok (record res { missing = res.missing ++ missing_name t ∷ [] })
take_target res t (failed e) = err e

pub resolve_targets : Reader → String → Resolution → List Target → Result Resolution
resolve_targets r ns res [] = ok res
resolve_targets r ns res (t ∷ ts) =
    take_target res t (get_object r ns t.kind t.name) >>= λ res'. resolve_targets r ns res' ts

-- `dedupe`.
unfoldable pub dedupe : List String → List String
unfolding keep_first
dedupe names = keep_first [] names

abbrev pub names_of : List LocalReference → List String
names_of refs = map (λ ref. ref.name) refs

abbrev pub set_members : Got ToolSet → List String
set_members (found ts) = names_of ts.spec.tool_refs
set_members not_found = []
set_members (failed e) = []

-- The names of the tools that the sets contribute; a set that cannot be read contributes none.
unfoldable pub set_tools : Reader → String → List LocalReference → List String
set_tools r ns [] = []
set_tools r ns (ref ∷ refs) = set_members (r.get_tool_set ns ref.name) ++ set_tools r ns refs

abbrev pub optional_name : Option LocalReference → List String
optional_name none = []
optional_name (some ref) = ref.name ∷ []

abbrev pub server_of : Got Tool → List String
server_of (found t) = optional_name t.spec.mcp_server_ref
server_of not_found = []
server_of (failed e) = []

abbrev pub peer_of : String → Got Tool → List PeerRef
peer_of name (found t) =
    map (λ agent. record { tool = name; agent = agent }) (optional_name t.spec.agent_ref)
peer_of name not_found = []
peer_of name (failed e) = []

-- The MCPServers and the peer Agents behind the tools; a tool that cannot be read is passed over.
pub server_names : Reader → String → List String → List String
server_names r ns [] = []
server_names r ns (name ∷ names) = server_of (r.get_tool ns name) ++ server_names r ns names

pub peer_refs : Reader → String → List String → List PeerRef
peer_refs r ns [] = []
peer_refs r ns (name ∷ names) = peer_of name (r.get_tool ns name) ++ peer_refs r ns names

abbrev pub declared_tools : Reader → String → AgentSpec → List String
declared_tools r ns eff = dedupe (names_of eff.tool_refs ++ set_tools r ns eff.tool_set_refs)

-- The part after the loop.
pub expand_surface : Reader → String → AgentSpec → Resolution → Resolution
expand_surface r ns eff res =
    let tools = declared_tools r ns eff in
    record res {
      declared = record {
        model = res.declared.model;
        tools = tools;
        mcp_servers = dedupe (server_names r ns tools);
      };
      peers = res.peers ++ peer_refs r ns tools;
    }

abbrev pub no_model : String
no_model = "Model (set spec.modelRef or an AgentClass defaultModelRef)"

-- What is known before the loop: the declared model, or that there is none.
abbrev pub initial_resolution : AgentSpec → Resolution
initial_resolution eff = elim eff.model_ref [
  | none ↦ record empty_resolution { missing = no_model ∷ [] }
  | some ref ↦ record empty_resolution {
    declared = record { model = ref.name; tools = []; mcp_servers = [] };
  }
]

unfoldable pub resolve_refs : Reader → Agent → Result Resolution
unfolding resolve_targets take_target collect record_git expand_surface dedupe set_tools
    server_names peer_refs
resolve_refs r a =
    let eff = effective_spec r a in
    resolve_targets r a.meta.ns (initial_resolution eff) (targets_of a.spec eff) >>= λ res.
    ok (expand_surface r a.meta.ns eff res)
