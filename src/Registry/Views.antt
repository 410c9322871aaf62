-- ===== src/Registry/Views.antt =====
-- The payload that runtimes fetch: what cmd/registry/main.go sets of the types of the SDK. The spec is
-- shipped as JSON text.
use agent_plane.Base.{ℕ, String, Option, List}

pub record ModelView : Type 0 where
  pub provider : String
  pub model_name : String
  pub endpoint : String
  pub secret_name : String
  pub secret_key : String

pub record PromptView : Type 0 where
  pub name : String
  pub system : String

pub record ToolView : Type 0 where
  pub name : String
  pub type_of : String
  pub description : String
  pub endpoint : String
  pub mcp_tool_name : String
  pub input_schema : Option String

pub record SkillView : Type 0 where
  pub name : String
  pub description : String
  pub content : String
  pub allowed_tools : List String

pub record AccessRuleView : Type 0 where
  pub allow : List String
  pub deny : List String

pub record ToolRuleView : Type 0 where
  pub tool : String
  pub action : String
  pub max_calls_per_session : Option ℕ

pub record PolicyView : Type 0 where
  pub sources : List String
  pub models : Option AccessRuleView
  pub mcp : Option AccessRuleView
  pub tools : Option AccessRuleView
  pub default_tool_action : String
  pub tool_rules : List ToolRuleView

pub record AgentConfig : Type 0 where
  pub ns : String
  pub name : String
  pub config_hash : String
  pub phase : String
  pub spec : String
  pub prompt : Option PromptView
  pub model : Option ModelView
  pub tools : List ToolView
  pub skills : List SkillView
  pub policy : Option PolicyView
