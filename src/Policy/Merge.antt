-- ===== src/Policy/Merge.antt =====
-- `EffectivePolicy`, `MergePolicies` and `PolicySources` of api/v1alpha1/policy_merge.go.
pub mod Laws
use agent_plane.Base.{
  String, ◌<>◌, ◌&&◌, Option, none, some, List, [], ◌∷◌, ◌++◌, ◌==◌, if◌then◌else◌, is_empty,
}
use agent_plane.Api.{
  AccessRule, Policy, ToolPolicy, ToolRule, ToolAction, tool_action_allow, tool_action_deny,
}
use agent_plane.Policy.Access.{merge_access_rule}

pub record EffectivePolicy : Type 0 where
  pub sources : List String
  pub models : Option AccessRule
  pub mcp : Option AccessRule
  pub tools : Option AccessRule
  pub tool_rules : List ToolRule
  pub default_tool_action : ToolAction

-- One round of the loop over `policies`.
merge_policy : EffectivePolicy → Policy → EffectivePolicy
merge_policy e p = record e {
  sources = e.sources ++ ("Policy/" <> p.meta.name) ∷ [];
  models = merge_access_rule e.models p.spec.models;
  mcp = merge_access_rule e.mcp p.spec.mcp;
  tools = merge_access_rule e.tools p.spec.tools;
}

-- One round of the loop over `toolPolicies`.
merge_tool_policy : EffectivePolicy → ToolPolicy → EffectivePolicy
merge_tool_policy e tp = record e {
  sources = e.sources ++ ("ToolPolicy/" <> tp.meta.name) ∷ [];
  tool_rules = e.tool_rules ++ tp.spec.rules;
  default_tool_action =
      if tp.spec.default_action == tool_action_deny
      then tool_action_deny
      else e.default_tool_action;
}

merge_all_policies : EffectivePolicy → List Policy → EffectivePolicy
merge_all_policies e [] = e
merge_all_policies e (p ∷ ps) = merge_all_policies (merge_policy e p) ps

merge_all_tool_policies : EffectivePolicy → List ToolPolicy → EffectivePolicy
merge_all_tool_policies e [] = e
merge_all_tool_policies e (tp ∷ tps) = merge_all_tool_policies (merge_tool_policy e tp) tps

abbrev pub unconstrained : EffectivePolicy
unconstrained = record {
  sources = [];
  models = none;
  mcp = none;
  tools = none;
  tool_rules = [];
  default_tool_action = tool_action_allow;
}

unfoldable pub merge_policies : List Policy → List ToolPolicy → Option EffectivePolicy
unfolding merge_policy merge_tool_policy merge_all_policies merge_all_tool_policies
merge_policies policies tool_policies =
    if is_empty policies && is_empty tool_policies
    then none
    else some (merge_all_tool_policies (merge_all_policies unconstrained policies) tool_policies)

unfoldable pub policy_sources : Option EffectivePolicy → List String
policy_sources none = []
policy_sources (some e) = e.sources
