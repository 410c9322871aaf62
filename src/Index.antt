-- ===== src/Index.antt =====
-- internal/controller/fieldindex.go and `SetupWithManager` of internal/controller/agent_controller.go:
-- which Agents a changed object wakes.
pub mod Laws
pub mod Routes
mod Inheritance
pub mod Completeness
pub mod Stability
pub mod Watches
mod Examples
use agent_plane.Base.{
  String, Bool, true, false, not, ◌&&◌, ◌||◌, Option, none, some, List, [], ◌∷◌, ◌++◌, ◌==◌,
  if◌then◌else◌,
}
use agent_plane.Api.{
  LocalReference, ObjectMeta, Agent, AgentSpec, AgentWorkspaceSpec, AgentClass, AgentClassSpec,
  ToolSet,
}
use agent_plane.Resolve.Targets.{
  Kind, agent_class, model, prompt_template, tool, tool_set, skill, policy, tool_policy, credential,
  mcp_server, agent,
}

-- `refName` and `refNamesOf`: an empty name is no key.
pub ref_name : Option LocalReference → List String
ref_name none = []
ref_name (some ref) = if ref.name == "" then [] else ref.name ∷ []

pub ref_names_of : List LocalReference → List String
ref_names_of [] = []
ref_names_of (ref ∷ refs) =
    let rest = ref_names_of refs in if ref.name == "" then rest else ref.name ∷ rest

pub data AgentField : Type 0 where
  by_model by_prompt by_tools by_tool_sets by_skills by_policies by_tool_policies : AgentField
  by_credentials by_class : AgentField

pub data ClassField : Type 0 where
  default_model default_prompt default_policies default_tools default_skills : ClassField
  default_tool_policies : ClassField

workspace_credential : Option AgentWorkspaceSpec → List String
unfolding ref_name
workspace_credential none = []
workspace_credential (some ws) = ref_name ws.credential_ref

-- The extractors of `indexSpecs` for Agents and for classes.
unfoldable pub agent_keys : AgentField → AgentSpec → List String
unfolding workspace_credential
agent_keys by_model s = ref_name s.model_ref
agent_keys by_prompt s = ref_name s.prompt_ref
agent_keys by_tools s = ref_names_of s.tool_refs
agent_keys by_tool_sets s = ref_names_of s.tool_set_refs
agent_keys by_skills s = ref_names_of s.skill_refs
agent_keys by_policies s = ref_names_of s.policy_refs
agent_keys by_tool_policies s = ref_names_of s.tool_policy_refs
agent_keys by_credentials s = ref_names_of s.credential_refs ++ workspace_credential s.workspace
agent_keys by_class s = ref_name s.agent_class_ref

unfoldable pub class_keys : ClassField → AgentClassSpec → List String
unfolding ref_name ref_names_of
class_keys default_model s = ref_name s.default_model_ref
class_keys default_prompt s = ref_name s.default_prompt_ref
class_keys default_policies s = ref_names_of s.default_policy_refs
class_keys default_tools s = ref_names_of s.default_tool_refs
class_keys default_skills s = ref_names_of s.default_skill_refs
class_keys default_tool_policies s = ref_names_of s.default_tool_policy_refs

-- `List` in a namespace by an index key: the objects, or none where it fails.
pub record Lister : Type 0 where
  pub list_agents : AgentField → String → String → Option (List Agent)
  pub list_classes : ClassField → String → String → Option (List AgentClass)
  pub list_tool_sets : String → String → Option (List ToolSet)

-- A `reconcile.Request`.
pub record Request : Type 0 where
  pub ns : String
  pub name : String

pub has_request : Request → List Request → Bool
has_request q [] = false
has_request q (x ∷ xs) = (x.ns == q.ns && x.name == q.name) || has_request q xs

-- `add`: those not yet seen, in order.
pub add : List Request → List Request → List Request
unfolding has_request
add reqs [] = reqs
add reqs (q ∷ qs) = add (if has_request q reqs then reqs else reqs ++ q ∷ []) qs

requests_of : List Agent → List Request
requests_of [] = []
requests_of (a ∷ items) = record { ns = a.meta.ns; name = a.meta.name } ∷ requests_of items

-- `requestsMatchingIndex` for one field of Agents. A failed list contributes nothing.
pub requests_matching : Lister → AgentField → String → String → List Request
unfolding add requests_of
requests_matching l field ns name = elim (l.list_agents field ns name) [
  | none ↦ []
  | some items ↦ add [] (requests_of items)
]

-- The loop over the classes that name the object.
pub via_classes : Lister → String → List Request → List AgentClass → List Request
unfolding requests_matching
via_classes l ns reqs [] = reqs
via_classes l ns reqs (c ∷ cs) =
    via_classes l ns (add reqs (requests_matching l by_class ns c.meta.name)) cs

pub via_tool_sets : Lister → String → List Request → List ToolSet → List Request
unfolding requests_matching
via_tool_sets l ns reqs [] = reqs
via_tool_sets l ns reqs (s ∷ ss) =
    via_tool_sets l ns (add reqs (requests_matching l by_tool_sets ns s.meta.name)) ss

pub add_classes : Lister → Option ClassField → String → String → List Request → List Request
unfolding via_classes
add_classes l none ns name reqs = reqs
add_classes l (some field) ns name reqs = elim (l.list_classes field ns name) [
  | none ↦ reqs
  | some cs ↦ via_classes l ns reqs cs
]

pub add_tool_sets : Lister → Bool → String → String → List Request → List Request
unfolding via_tool_sets
add_tool_sets l false ns name reqs = reqs
add_tool_sets l true ns name reqs = elim (l.list_tool_sets ns name) [
  | none ↦ reqs
  | some ss ↦ via_tool_sets l ns reqs ss
]

-- `agentsReferencingIndexed` with one field of Agents and at most one of classes, as it is called.
unfoldable pub agents_referencing :
    Lister → AgentField → Option ClassField → Bool → String → String → List Request
unfolding add_classes add_tool_sets
agents_referencing l field class_field via_set ns name =
    add_tool_sets l via_set ns name
      (add_classes l class_field ns name (add [] (requests_matching l field ns name)))

-- The watches of `SetupWithManager`. MCPServers and other Agents are not watched.
unfoldable pub requests_for : Lister → Kind → String → String → List Request
requests_for l model = agents_referencing l by_model (some default_model) false
requests_for l prompt_template = agents_referencing l by_prompt (some default_prompt) false
requests_for l policy = agents_referencing l by_policies (some default_policies) false
requests_for l tool = agents_referencing l by_tools (some default_tools) true
requests_for l tool_set = agents_referencing l by_tool_sets none false
requests_for l skill = agents_referencing l by_skills (some default_skills) false
requests_for l tool_policy =
    agents_referencing l by_tool_policies (some default_tool_policies) false
requests_for l credential = agents_referencing l by_credentials none false
requests_for l agent_class = agents_referencing l by_class none false
requests_for l mcp_server = λ ns name. []
requests_for l agent = λ ns name. []
