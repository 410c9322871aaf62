-- ===== src/Api/Kinds.antt =====
-- The capability kinds of api/v1alpha1: tool, toolset, skill, model, prompttemplate, credential,
-- agentclass and mcpserver types. Text that the code carries through unread (JSON schemas, resource
-- requirements) is its JSON. The CRD bounds every number from below by 0.
use agent_plane.Base.{ℕ, String, Bool, Option, List}
use agent_plane.Api.Common.{
  LocalReference, SecretKeyReference, ConfigMapKeyReference, ObjectMeta, Condition, EnvVar,
}
use agent_plane.Api.Policies.{BasicStatus}

abbrev pub ToolType : Type 0
ToolType = String

abbrev pub tool_type_http : ToolType
tool_type_http = "http"

abbrev pub tool_type_mcp : ToolType
tool_type_mcp = "mcp"

pub record ToolSpec : Type 0 where
  pub type_of : ToolType
  pub description : String
  pub version : String
  pub mcp_tool_name : String
  pub endpoint : String
  pub mcp_server_ref : Option LocalReference
  pub agent_ref : Option LocalReference
  pub timeout_seconds : Option ℕ
  pub input_schema : Option String
  pub output_schema : Option String

pub record ToolStatus : Type 0 where
  pub conditions : List Condition
  pub observed_generation : ℕ
  pub healthy : Option Bool

pub record Tool : Type 0 where
  pub meta : ObjectMeta
  pub spec : ToolSpec
  pub status : ToolStatus

pub record ToolSetSpec : Type 0 where
  pub description : String
  pub tool_refs : List LocalReference

pub record ToolSetStatus : Type 0 where
  pub conditions : List Condition
  pub observed_generation : ℕ
  pub resolved_tools : ℕ

pub record ToolSet : Type 0 where
  pub meta : ObjectMeta
  pub spec : ToolSetSpec
  pub status : ToolSetStatus

pub record SkillSpec : Type 0 where
  pub description : String
  pub version : String
  pub content : String
  pub content_config_map_ref : Option ConfigMapKeyReference
  pub allowed_tools : List String

pub record SkillStatus : Type 0 where
  pub conditions : List Condition
  pub observed_generation : ℕ
  pub content_source : String

pub record Skill : Type 0 where
  pub meta : ObjectMeta
  pub spec : SkillSpec
  pub status : SkillStatus

pub record ModelDefaults : Type 0 where
  pub temperature : Option String
  pub max_tokens : Option ℕ

pub record ModelSpec : Type 0 where
  pub provider : String
  pub model_name : String
  pub endpoint : String
  pub credential_ref : Option LocalReference
  pub defaults : Option ModelDefaults

pub record Model : Type 0 where
  pub meta : ObjectMeta
  pub spec : ModelSpec
  pub status : BasicStatus

pub record RolePrompt : Type 0 where
  pub role : String
  pub content : String

pub record FewShotExample : Type 0 where
  pub input : String
  pub output : String

pub record PromptTemplateSpec : Type 0 where
  pub version : String
  pub system : String
  pub roles : List RolePrompt
  pub few_shot : List FewShotExample
  pub template : String

pub record PromptTemplate : Type 0 where
  pub meta : ObjectMeta
  pub spec : PromptTemplateSpec
  pub status : BasicStatus

pub record CredentialSpec : Type 0 where
  pub secret_ref : SecretKeyReference
  pub description : String

pub record CredentialStatus : Type 0 where
  pub conditions : List Condition
  pub observed_generation : ℕ
  pub secret_found : Option Bool

pub record Credential : Type 0 where
  pub meta : ObjectMeta
  pub spec : CredentialSpec
  pub status : CredentialStatus

pub record AgentClassSpec : Type 0 where
  pub description : String
  pub default_model_ref : Option LocalReference
  pub default_prompt_ref : Option LocalReference
  pub default_policy_refs : List LocalReference
  pub default_tool_policy_refs : List LocalReference
  pub default_tool_refs : List LocalReference
  pub default_skill_refs : List LocalReference

pub record AgentClass : Type 0 where
  pub meta : ObjectMeta
  pub spec : AgentClassSpec
  pub status : BasicStatus

pub record McpServerSpec : Type 0 where
  pub image : String
  pub external_endpoint : String
  pub transport : String
  pub port : ℕ
  pub replicas : ℕ
  pub env : List EnvVar
  pub resources : String

pub record McpServerStatus : Type 0 where
  pub conditions : List Condition
  pub observed_generation : ℕ
  pub endpoint : String
  pub available_replicas : ℕ

pub record McpServer : Type 0 where
  pub meta : ObjectMeta
  pub spec : McpServerSpec
  pub status : McpServerStatus

-- What is read of a core `ConfigMap` and of a core `Secret`.
pub record ConfigMap : Type 0 where
  pub meta : ObjectMeta
  pub entries : List (String × String)

pub record Secret : Type 0 where
  pub meta : ObjectMeta
  pub entries : List (String × String)
