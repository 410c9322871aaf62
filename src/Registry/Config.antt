-- ===== src/Registry/Config.antt =====
-- `buildConfig`, `buildConfigFrom`, `resolvePolicy`, `resolveTool` and `resolveSkill` of
-- cmd/registry/main.go. A lookup that fails is logged there and contributes nothing.
pub mod Enforcement
mod Loop
pub mod Names
pub mod Surface
mod Examples
use agent_plane.Base.{
  String, ◌<>◌, Bool, true, false, ◌&&◌, Option, none, some, List, [], ◌∷◌, ◌++◌, ◌==◌, map,
  if◌then◌else◌, mem,
}
use agent_plane.Api.{
  LocalReference, ConfigMapKeyReference, Agent, AgentSpec, AgentExposeSpec, AccessRule, ToolRule,
  Policy, ToolPolicy, Tool, ToolSet, Skill, Credential, ConfigMap, tool_type_mcp,
}
use agent_plane.Policy.{EffectivePolicy, merge_policies}
use agent_plane.Cluster.{Got, found, not_found, failed, Reader, Result, ok, err, ◌>>=◌}
use agent_plane.Resolve.Targets.{effective_spec}
use agent_plane.Resolve.Pass.{names_of}
use agent_plane.Registry.Views.{
  ModelView, PromptView, ToolView, SkillView, AccessRuleView, ToolRuleView, PolicyView, AgentConfig,
}

pub prompt_view : Reader → String → Option LocalReference → Option PromptView
prompt_view r ns none = none
prompt_view r ns (some ref) = elim (r.get_prompt ns ref.name) [
  | found pt ↦ some (record { name = pt.meta.name; system = pt.spec.system })
  | _ ↦ none
]

-- The Secret's coordinates, where the Model names a credential that can be read.
with_credential : Reader → String → Option LocalReference → ModelView → ModelView
with_credential r ns none view = view
with_credential r ns (some ref) view = elim (r.get_credential ns ref.name) [
  | found c ↦ record view {
    secret_name = c.spec.secret_ref.name;
    secret_key = c.spec.secret_ref.key;
  }
  | _ ↦ view
]

pub model_view : Reader → String → Option LocalReference → Option ModelView
unfolding with_credential
model_view r ns none = none
model_view r ns (some ref) = elim (r.get_model ns ref.name) [
  | found m ↦ some (
      with_credential r ns m.spec.credential_ref (record {
        provider = m.spec.provider;
        model_name = m.spec.model_name;
        endpoint = m.spec.endpoint;
        secret_name = "";
        secret_key = "";
      }))
  | _ ↦ none
]

-- The endpoint of the MCPServer behind a tool, from its status.
with_server : Reader → String → Option LocalReference → ToolView → ToolView
with_server r ns none view = view
with_server r ns (some ref) view = elim (r.get_mcp_server ns ref.name) [
  | found m ↦ record view { endpoint = m.status.endpoint }
  | _ ↦ view
]

-- A description that is unset falls back to the peer's own.
described : Option AgentExposeSpec → ToolView → ToolView
described none view = view
described (some e) view =
    if view.description == "" then record view { description = e.description } else view

-- The endpoint that a peer Agent publishes.
with_peer : Reader → String → Option LocalReference → ToolView → ToolView
with_peer r ns none view = view
with_peer r ns (some ref) view = elim (r.get_agent ns ref.name) [
  | found a ↦ described a.spec.expose (record view { endpoint = a.status.peer_endpoint })
  | _ ↦ view
]

tool_view : Reader → String → Tool → ToolView
tool_view r ns t =
    let plain : ToolView = record {
      name = t.meta.name;
      type_of = t.spec.type_of;
      description = t.spec.description;
      endpoint = t.spec.endpoint;
      mcp_tool_name = t.spec.mcp_tool_name;
      input_schema = t.spec.input_schema;
    } in
    if t.spec.type_of == tool_type_mcp
    then with_peer r ns t.spec.agent_ref (with_server r ns t.spec.mcp_server_ref plain)
    else plain

unfoldable pub resolve_tool : Reader → String → String → Option ToolView
unfolding tool_view with_peer with_server described
resolve_tool r ns name = elim (r.get_tool ns name) [ found t ↦ some (tool_view r ns t) | _ ↦ none ]

lookup : String → List (String × String) → String
lookup key [] = ""
lookup key ((k, v) ∷ rest) = if k == key then v else lookup key rest

from_config_map : Reader → String → Option ConfigMapKeyReference → String → String
from_config_map r ns none content = content
from_config_map r ns (some ref) content = elim (r.get_config_map ns ref.name) [
  | found cm ↦ lookup ref.key cm.entries
  | _ ↦ content
]

unfoldable pub resolve_skill : Reader → String → String → Option SkillView
unfolding from_config_map lookup
resolve_skill r ns name = elim (r.get_skill ns name) [
  | found s ↦ some (record {
    name = s.meta.name;
    description = s.spec.description;
    content =
        if s.spec.content == ""
        then from_config_map r ns s.spec.content_config_map_ref s.spec.content
        else s.spec.content;
    allowed_tools = s.spec.allowed_tools;
  })
  | _ ↦ none
]

pub skill_views : Reader → String → List LocalReference → List SkillView
skill_views r ns [] = []
skill_views r ns (ref ∷ refs) =
    let rest = skill_views r ns refs in
    elim (resolve_skill r ns ref.name) [ none ↦ rest | some v ↦ v ∷ rest ]

-- `seenTool` and `out.Tools`.
pub record Tools : Type 0 where
  pub seen : List String
  pub views : List ToolView

-- `addTool`.
add_tool : Reader → String → Tools → String → Tools
add_tool r ns st name = if mem name st.seen then st else elim (resolve_tool r ns name) [
  | none ↦ st
  | some v ↦ record { seen = name ∷ st.seen; views = st.views ++ v ∷ [] }
]

pub add_tools : Reader → String → Tools → List String → Tools
unfolding add_tool
add_tools r ns st [] = st
add_tools r ns st (name ∷ names) = add_tools r ns (add_tool r ns st name) names

pub add_sets : Reader → String → Tools → List LocalReference → Tools
unfolding add_tools
add_sets r ns st [] = st
add_sets r ns st (ref ∷ refs) =
    let st' : Tools = elim (r.get_tool_set ns ref.name) [
      | found ts ↦ add_tools r ns st (names_of ts.spec.tool_refs)
      | _ ↦ st
    ] in
    add_sets r ns st' refs

unfoldable pub tool_views : Reader → String → AgentSpec → List ToolView
unfolding add_tools add_sets
tool_views r ns eff =
    let direct = add_tools r ns (record { seen = []; views = [] }) (names_of eff.tool_refs) in
    (add_sets r ns direct eff.tool_set_refs).views

pub read_policies : Reader → String → List LocalReference → List Policy
read_policies r ns [] = []
read_policies r ns (ref ∷ refs) =
    let rest = read_policies r ns refs in
    elim (r.get_policy ns ref.name) [ found p ↦ p ∷ rest | _ ↦ rest ]

pub read_tool_policies : Reader → String → List LocalReference → List ToolPolicy
read_tool_policies r ns [] = []
read_tool_policies r ns (ref ∷ refs) =
    let rest = read_tool_policies r ns refs in
    elim (r.get_tool_policy ns ref.name) [ found tp ↦ tp ∷ rest | _ ↦ rest ]

abbrev pub access_rule_view : Option AccessRule → Option AccessRuleView
access_rule_view none = none
access_rule_view (some r) = some (record { allow = r.allow; deny = r.deny })

abbrev tool_rule_view : ToolRule → ToolRuleView
tool_rule_view t = record {
  tool = t.tool;
  action = t.action;
  max_calls_per_session = t.max_calls_per_session;
}

abbrev pub policy_view : Option EffectivePolicy → Option PolicyView
policy_view none = none
policy_view (some e) = some (record {
  sources = e.sources;
  models = access_rule_view e.models;
  mcp = access_rule_view e.mcp;
  tools = access_rule_view e.tools;
  default_tool_action = e.default_tool_action;
  tool_rules = map tool_rule_view e.tool_rules;
})

unfoldable pub resolve_policy : Reader → String → AgentSpec → Option PolicyView
unfolding read_policies read_tool_policies
resolve_policy r ns eff = policy_view (
    merge_policies (read_policies r ns eff.policy_refs)
      (read_tool_policies r ns eff.tool_policy_refs))

-- The argument stands for `json.Marshal` of the effective spec.
unfoldable pub build_config_from : (AgentSpec → Result String) → Reader → Agent → Result AgentConfig
unfolding prompt_view model_view skill_views
build_config_from marshal r a =
    let eff = effective_spec r a in
    elim (marshal eff) [
      | err e ↦ err ("marshal effective spec: " <> e)
      | ok text ↦ ok (record {
        ns = a.meta.ns;
        name = a.meta.name;
        config_hash = a.status.resolved_config_hash;
        phase = a.status.phase;
        spec = text;
        prompt = prompt_view r a.meta.ns eff.prompt_ref;
        model = model_view r a.meta.ns eff.model_ref;
        tools = tool_views r a.meta.ns eff;
        skills = skill_views r a.meta.ns eff.skill_refs;
        policy = resolve_policy r a.meta.ns eff;
      })
    ]

-- The configuration and the Agent's version; a NotFound is an error with its text.
unfoldable pub build_config :
    (AgentSpec → Result String) → Reader → String → String → Result (AgentConfig × String)
build_config marshal r ns name = elim (r.get_agent ns name) [
  | found a ↦ build_config_from marshal r a >>= λ cfg. ok (cfg, a.meta.resource_version)
  | not_found ↦ err "not found"
  | failed e ↦ err e
]
