-- ===== src/Index/Watches.antt =====
-- The indexes of internal/controller/fieldindex.go for the kinds other than Agents, `enqueueByIndex`
-- and `enqueueSkillsForConfigMap`, and the watches of `SetupWithManager` of their controllers.
-- The watch of a Trigger over the Deployment that it owns is not here.
mod Laws
pub mod Frame
pub mod Stability
pub mod Coverage
mod Examples
use agent_plane.Base.{
  String, Bool, Option, none, some, List, [], ◌∷◌, ◌++◌, ◌==◌, if◌then◌else◌, map,
}
use agent_plane.Api.{
  ObjectMeta, ConfigMapKeyReference, AgentClass, Tool, ToolSet, Model, Skill, Credential, Trigger,
  Policy, ToolPolicy, PromptTemplate,
}
use agent_plane.Resolve.Targets.{
  Kind, model, prompt_template, policy, tool, credential, mcp_server, agent, Target, targets_for,
  optional_target,
}
use agent_plane.Controllers.{tool_targets}
use agent_plane.Index.{
  ref_name, ref_names_of, Request, add, class_keys, default_model, default_prompt, default_policies,
}

-- An object of any kind but Agent and MCPServer, whose controllers have files of their own.
pub data Dependent : Type 0 where
  a_class : AgentClass → Dependent
  a_tool : Tool → Dependent
  a_set : ToolSet → Dependent
  a_model : Model → Dependent
  a_skill : Skill → Dependent
  a_credential : Credential → Dependent
  a_trigger : Trigger → Dependent
  a_policy : Policy → Dependent
  a_tool_policy : ToolPolicy → Dependent
  a_prompt : PromptTemplate → Dependent

abbrev pub dependent_meta : Dependent → ObjectMeta
dependent_meta (a_class o) = o.meta
dependent_meta (a_tool o) = o.meta
dependent_meta (a_set o) = o.meta
dependent_meta (a_model o) = o.meta
dependent_meta (a_skill o) = o.meta
dependent_meta (a_credential o) = o.meta
dependent_meta (a_trigger o) = o.meta
dependent_meta (a_policy o) = o.meta
dependent_meta (a_tool_policy o) = o.meta
dependent_meta (a_prompt o) = o.meta

-- The kind of the objects that a controller reconciles.
pub data Controller : Type 0 where
  classes tools sets models skills credentials triggers : Controller
  policies tool_policies prompts : Controller

abbrev pub controller_of : Dependent → Controller
controller_of (a_class o) = classes
controller_of (a_tool o) = tools
controller_of (a_set o) = sets
controller_of (a_model o) = models
controller_of (a_skill o) = skills
controller_of (a_credential o) = credentials
controller_of (a_trigger o) = triggers
controller_of (a_policy o) = policies
controller_of (a_tool_policy o) = tool_policies
controller_of (a_prompt o) = prompts

-- An indexed field, with the kind that it is a field of.
pub data WatchField : Type 0 where
  class_model class_prompt class_policies tool_server tool_agent set_tools : WatchField
  model_credential skill_config_map trigger_agent trigger_credential : WatchField
  credential_secret : WatchField

config_map_name : Option ConfigMapKeyReference → List String
config_map_name none = []
config_map_name (some ref) = if ref.name == "" then [] else ref.name ∷ []

-- The extractors of `indexSpecs` for these kinds. An object of another kind is not in the index.
unfoldable pub watch_keys : WatchField → Dependent → List String
unfolding class_keys ref_name ref_names_of config_map_name
watch_keys class_model (a_class c) = class_keys default_model c.spec
watch_keys class_prompt (a_class c) = class_keys default_prompt c.spec
watch_keys class_policies (a_class c) = class_keys default_policies c.spec
watch_keys tool_server (a_tool t) = ref_name t.spec.mcp_server_ref
watch_keys tool_agent (a_tool t) = ref_name t.spec.agent_ref
watch_keys set_tools (a_set s) = ref_names_of s.spec.tool_refs
watch_keys model_credential (a_model m) = ref_name m.spec.credential_ref
watch_keys skill_config_map (a_skill s) = config_map_name s.spec.content_config_map_ref
watch_keys trigger_agent (a_trigger t) =
    if t.spec.agent_ref.name == "" then [] else t.spec.agent_ref.name ∷ []
watch_keys trigger_credential (a_trigger t) = ref_name t.spec.credential_ref
watch_keys credential_secret (a_credential c) =
    if c.spec.secret_ref.name == "" then [] else c.spec.secret_ref.name ∷ []
watch_keys field o = []

-- What is watched: an object of a kind, or a core ConfigMap or Secret.
pub data Watched : Type 0 where
  of_kind : Kind → Watched
  config_map secret : Watched

-- The `SetupWithManager` of each controller: the field by which a changed object is looked up, where
-- it is watched.
watch_by_class : Watched → Option WatchField
watch_by_class (of_kind model) = some class_model
watch_by_class (of_kind prompt_template) = some class_prompt
watch_by_class (of_kind policy) = some class_policies
watch_by_class watched = none

watch_by_tool : Watched → Option WatchField
watch_by_tool (of_kind mcp_server) = some tool_server
watch_by_tool (of_kind agent) = some tool_agent
watch_by_tool watched = none

watch_by_set : Watched → Option WatchField
watch_by_set (of_kind tool) = some set_tools
watch_by_set watched = none

watch_by_model : Watched → Option WatchField
watch_by_model (of_kind credential) = some model_credential
watch_by_model watched = none

watch_by_skill : Watched → Option WatchField
watch_by_skill config_map = some skill_config_map
watch_by_skill watched = none

watch_by_credential : Watched → Option WatchField
watch_by_credential secret = some credential_secret
watch_by_credential watched = none

watch_by_trigger : Watched → Option WatchField
watch_by_trigger (of_kind agent) = some trigger_agent
watch_by_trigger (of_kind credential) = some trigger_credential
watch_by_trigger watched = none

unfoldable pub watch_of : Controller → Watched → Option WatchField
unfolding watch_by_class watch_by_tool watch_by_set watch_by_model watch_by_skill
    watch_by_credential watch_by_trigger
watch_of classes watched = watch_by_class watched
watch_of tools watched = watch_by_tool watched
watch_of sets watched = watch_by_set watched
watch_of models watched = watch_by_model watched
watch_of skills watched = watch_by_skill watched
watch_of credentials watched = watch_by_credential watched
watch_of triggers watched = watch_by_trigger watched
watch_of policies watched = none
watch_of tool_policies watched = none
watch_of prompts watched = none

-- `List` in a namespace by an index key: what an object is found under, or none where it fails.
abbrev pub WatchLister : Type 0
WatchLister = WatchField → String → String → Option (List ObjectMeta)

pub requests_of_items : List ObjectMeta → List Request
requests_of_items [] = []
requests_of_items (o ∷ items) = record { ns = o.ns; name = o.name } ∷ requests_of_items items

-- `enqueueByIndex` with one field, as it is called: `requestsMatchingIndex`.
pub enqueue_by_index : WatchLister → WatchField → String → String → List Request
unfolding add requests_of_items
enqueue_by_index l field ns name = elim (l field ns name) [
  | none ↦ []
  | some items ↦ add [] (requests_of_items items)
]

-- What a controller is asked to reconcile when a watched object changes.
unfoldable pub watch_requests : WatchLister → Controller → Watched → String → String → List Request
unfolding enqueue_by_index watch_of
watch_requests l controller watched ns name = elim (watch_of controller watched) [
  | none ↦ []
  | some field ↦ enqueue_by_index l field ns name
]

-- What the pass over an object looks up, by the name that it is looked up under.
abbrev pub lookups_of_targets : List Target → List (Watched × String)
lookups_of_targets ts = map (λ t. (of_kind t.kind, t.name)) ts

abbrev pub lookups : Dependent → List (Watched × String)
lookups (a_class c) = lookups_of_targets (
    optional_target model c.spec.default_model_ref
    ++ (optional_target prompt_template c.spec.default_prompt_ref
        ++ targets_for policy c.spec.default_policy_refs))
lookups (a_tool t) = lookups_of_targets (tool_targets t)
lookups (a_set s) = lookups_of_targets (targets_for tool s.spec.tool_refs)
lookups (a_model m) = lookups_of_targets (optional_target credential m.spec.credential_ref)
lookups (a_skill s) = elim s.spec.content_config_map_ref [
  | none ↦ []
  | some ref ↦ (config_map, ref.name) ∷ []
]
lookups (a_credential c) = (secret, c.spec.secret_ref.name) ∷ []
lookups (a_trigger t) =
    (of_kind agent, t.spec.agent_ref.name)
    ∷ lookups_of_targets (optional_target credential t.spec.credential_ref)
lookups (a_policy p) = []
lookups (a_tool_policy p) = []
lookups (a_prompt p) = []
