-- ===== src/Policy/Violations.antt =====
-- `AgentReferences` and `Violations` of api/v1alpha1/policy_merge.go.
pub mod Laws
pub mod Order
use agent_plane.Base.{
  String, ◌<>◌, Bool, not, ◌&&◌, Option, none, some, List, [], ◌∷◌, ◌++◌, ◌==◌, if◌then◌else◌,
  quote, sort_strings, is_some,
}
use agent_plane.Api.{ToolRule, ToolAction, tool_action_deny}
use agent_plane.Policy.Access.{permits}
use agent_plane.Policy.Rules.{match_tool_rule}
use agent_plane.Policy.Merge.{EffectivePolicy}

pub record AgentReferences : Type 0 where
  pub model : String
  pub tools : List String
  pub mcp_servers : List String

model_violations : EffectivePolicy → String → List String
model_violations e model =
    if is_some e.models && not (model == "") && not (permits e.models model)
    then ("model " <> quote model <> " is denied by policy") ∷ []
    else []

-- The loop over `refs.MCPServers`.
mcp_violations : EffectivePolicy → List String → List String
mcp_violations e [] = []
mcp_violations e (name ∷ names) =
    let rest = mcp_violations e names in
    if is_some e.mcp && not (permits e.mcp name)
    then ("mcpServer " <> quote name <> " is denied by policy") ∷ rest
    else rest

-- What the matching rule, or the default action, has against the tool.
rule_violations : Option ToolRule → ToolAction → String → List String
rule_violations (some rule) default_action name =
    if rule.action == tool_action_deny
    then ("tool "
        <> quote name
        <> " is denied by a ToolPolicy rule (matched "
        <> quote rule.tool
        <> ")")
      ∷ []
    else []
rule_violations none default_action name =
    if default_action == tool_action_deny
    then ("tool " <> quote name <> " matches no ToolPolicy rule and the default action is deny")
      ∷ []
    else []

-- One round of the loop over `refs.Tools`.
tool_violation : EffectivePolicy → String → List String
unfolding rule_violations
tool_violation e name =
    if is_some e.tools && not (permits e.tools name)
    then ("tool " <> quote name <> " is denied by policy") ∷ []
    else rule_violations (match_tool_rule e.tool_rules name) e.default_tool_action name

tool_violations : EffectivePolicy → List String → List String
tool_violations e [] = []
tool_violations e (name ∷ names) = tool_violation e name ++ tool_violations e names

unfoldable pub violations : Option EffectivePolicy → AgentReferences → List String
unfolding model_violations mcp_violations tool_violation tool_violations
violations none refs = []
violations (some e) refs = sort_strings (
    model_violations e refs.model
    ++ (mcp_violations e refs.mcp_servers ++ tool_violations e refs.tools))
