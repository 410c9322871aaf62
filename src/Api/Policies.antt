-- ===== src/Api/Policies.antt =====
-- api/v1alpha1/policy_types.go and toolpolicy_types.go.
use agent_plane.Base.{ℕ, String, Option, List}
use agent_plane.Api.Common.{ObjectMeta, Condition}

pub record AccessRule : Type 0 where
  pub allow : List String
  pub deny : List String

pub record PolicySpec : Type 0 where
  pub models : Option AccessRule
  pub mcp : Option AccessRule
  pub tools : Option AccessRule

-- The status that the validation-only kinds share.
pub record BasicStatus : Type 0 where
  pub conditions : List Condition
  pub observed_generation : ℕ

pub record Policy : Type 0 where
  pub meta : ObjectMeta
  pub spec : PolicySpec
  pub status : BasicStatus

abbrev pub ToolAction : Type 0
ToolAction = String

abbrev pub tool_action_allow : ToolAction
tool_action_allow = "allow"

abbrev pub tool_action_deny : ToolAction
tool_action_deny = "deny"

pub record ToolRule : Type 0 where
  pub tool : String
  pub action : ToolAction
  pub max_calls_per_session : Option ℕ

pub record ToolPolicySpec : Type 0 where
  pub rules : List ToolRule
  pub default_action : ToolAction

pub record ToolPolicy : Type 0 where
  pub meta : ObjectMeta
  pub spec : ToolPolicySpec
  pub status : BasicStatus
