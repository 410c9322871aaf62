-- ===== src/Resolve/Targets.antt =====
-- The targets of a pass: what `resolveRefs` looks up, in the order of the config hash.
use agent_plane.Base.{
  String, Bool, true, false, Option, none, some, List, [], ◌∷◌, ◌++◌, ◌==◌, map, if◌then◌else◌,
}
use agent_plane.Api.{
  LocalReference, ObjectMeta, Agent, AgentSpec, AgentWorkspaceSpec, AgentClass, Model,
  PromptTemplate, Tool, ToolSet, Skill, Policy, ToolPolicy, Credential, McpServer,
  apply_class_defaults,
}
use agent_plane.Cluster.{Got, found, not_found, failed, Reader}

pub data Kind : Type 0 where
  agent_class model prompt_template tool tool_set skill policy tool_policy credential : Kind
  mcp_server agent : Kind

abbrev pub kind_name : Kind → String
kind_name agent_class = "AgentClass"
kind_name model = "Model"
kind_name prompt_template = "PromptTemplate"
kind_name tool = "Tool"
kind_name tool_set = "ToolSet"
kind_name skill = "Skill"
kind_name policy = "Policy"
kind_name tool_policy = "ToolPolicy"
kind_name credential = "Credential"
kind_name mcp_server = "MCPServer"
kind_name agent = "Agent"

-- A `client.Object` of a kind that can be referenced.
pub data Object : Type 0 where
  a_class : AgentClass → Object
  a_model : Model → Object
  a_prompt : PromptTemplate → Object
  a_tool : Tool → Object
  a_tool_set : ToolSet → Object
  a_skill : Skill → Object
  a_policy : Policy → Object
  a_tool_policy : ToolPolicy → Object
  a_credential : Credential → Object
  a_server : McpServer → Object
  an_agent : Agent → Object

abbrev pub object_meta : Object → ObjectMeta
object_meta (a_class o) = o.meta
object_meta (a_model o) = o.meta
object_meta (a_prompt o) = o.meta
object_meta (a_tool o) = o.meta
object_meta (a_tool_set o) = o.meta
object_meta (a_skill o) = o.meta
object_meta (a_policy o) = o.meta
object_meta (a_tool_policy o) = o.meta
object_meta (a_credential o) = o.meta
object_meta (a_server o) = o.meta
object_meta (an_agent o) = o.meta

abbrev pub got_map {ℓ κ} : {A : Type ℓ} {B : Type κ} → (A → B) → Got A → Got B
got_map f (found a) = found (f a)
got_map f not_found = not_found
got_map f (failed e) = failed e

-- `Get` into an object of the kind.
abbrev pub get_object : Reader → String → Kind → String → Got Object
get_object r ns agent_class name = got_map a_class (r.get_class ns name)
get_object r ns model name = got_map a_model (r.get_model ns name)
get_object r ns prompt_template name = got_map a_prompt (r.get_prompt ns name)
get_object r ns tool name = got_map a_tool (r.get_tool ns name)
get_object r ns tool_set name = got_map a_tool_set (r.get_tool_set ns name)
get_object r ns skill name = got_map a_skill (r.get_skill ns name)
get_object r ns policy name = got_map a_policy (r.get_policy ns name)
get_object r ns tool_policy name = got_map a_tool_policy (r.get_tool_policy ns name)
get_object r ns credential name = got_map a_credential (r.get_credential ns name)
get_object r ns mcp_server name = got_map a_server (r.get_mcp_server ns name)
get_object r ns agent name = got_map an_agent (r.get_agent ns name)

pub record Target : Type 0 where
  pub kind : Kind
  pub name : String
  pub git : Bool

abbrev pub target : Kind → LocalReference → Target
target kind ref = record { kind = kind; name = ref.name; git = false }

abbrev pub targets_for : Kind → List LocalReference → List Target
targets_for kind refs = map (target kind) refs

abbrev pub optional_target : Kind → Option LocalReference → List Target
optional_target kind none = []
optional_target kind (some ref) = target kind ref ∷ []

-- The workspace's git credential, which only a workspace with a repository has.
abbrev pub git_target : Option AgentWorkspaceSpec → List Target
git_target none = []
git_target (some ws) = if ws.repository == "" then [] else elim ws.credential_ref [
  | none ↦ []
  | some ref ↦ record { kind = credential; name = ref.name; git = true } ∷ []
]

-- The class of the Agent, where it names one and it can be read.
abbrev pub class_named : Reader → String → Option LocalReference → Option AgentClass
class_named r ns none = none
class_named r ns (some ref) = elim (r.get_class ns ref.name) [ found c ↦ some c | _ ↦ none ]

unfoldable pub effective_spec : Reader → Agent → AgentSpec
effective_spec r a = apply_class_defaults a.spec (class_named r a.meta.ns a.spec.agent_class_ref)

-- The slice `targets`, from the Agent's own spec and the effective one.
unfoldable pub targets_of : AgentSpec → AgentSpec → List Target
targets_of spec eff =
    optional_target agent_class spec.agent_class_ref
    ++ (optional_target model eff.model_ref
        ++ (optional_target prompt_template eff.prompt_ref
            ++ (targets_for tool eff.tool_refs
                ++ (targets_for tool_set eff.tool_set_refs
                    ++ (targets_for skill eff.skill_refs
                        ++ (targets_for policy eff.policy_refs
                            ++ (targets_for tool_policy eff.tool_policy_refs
                                ++ (targets_for credential spec.credential_refs
                                    ++ git_target spec.workspace))))))))
