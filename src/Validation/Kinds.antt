-- ===== src/Validation/Kinds.antt =====
-- The `Validate` methods of ToolPolicySpec, ToolSpec, SkillSpec and TriggerSpec in
-- api/v1alpha1/validation.go.
pub mod Laws
use agent_plane.Base.{
  String, ◌<>◌, Bool, not, ◌&&◌, Option, none, some, List, [], ◌∷◌, ◌==◌, if◌then◌else◌, is_some,
  true, false, quote,
}
use agent_plane.Api.{
  ToolRule, ToolAction, ToolPolicySpec, ToolSpec, tool_type_mcp, SkillSpec, TriggerSpec,
}
use agent_plane.Validation.Names.{env_names, duplicate_error}
use agent_plane.Validation.Agents.{or_then, env_error, env_agent_endpoint, env_credential_path}

-- `seen[tool]` and whether it is there; a later entry hides an earlier one.
pub seen_action : String → List (String × ToolAction) → Option ToolAction
seen_action tool [] = none
seen_action tool ((t, a) ∷ seen) =
    let rest = seen_action tool seen in if t == tool then some a else rest

-- What one rule of a specific tool has against the actions seen.
conflict : Option ToolAction → ToolRule → Option String
conflict none rule = none
conflict (some prev) rule =
    if prev == rule.action
    then none
    else some (
        "tool "
        <> quote rule.tool
        <> " has conflicting actions "
        <> quote prev
        <> " and "
        <> quote rule.action)

rules_error : List (String × ToolAction) → List ToolRule → Option String
rules_error seen [] = none
rules_error seen (rule ∷ rules) = elim (rule.tool == "*") [
  | true ↦ rules_error seen rules
  | false ↦
      or_then (conflict (seen_action rule.tool seen) rule)
        (rules_error ((rule.tool, rule.action) ∷ seen) rules)
]

unfoldable pub validate_tool_policy : ToolPolicySpec → Option String
unfolding seen_action conflict rules_error
validate_tool_policy s = rules_error [] s.rules

unfoldable pub validate_tool : ToolSpec → Option String
validate_tool s =
    if is_some s.mcp_server_ref && is_some s.agent_ref
    then some "set only one of spec.mcpServerRef or spec.agentRef, not both"
    else if s.type_of == tool_type_mcp
        && not (is_some s.mcp_server_ref)
        && not (is_some s.agent_ref)
    then some "tool of type mcp requires spec.mcpServerRef or spec.agentRef"
    else if is_some s.agent_ref && not (s.type_of == tool_type_mcp)
    then some ("spec.agentRef requires type mcp, got " <> quote s.type_of)
    else none

unfoldable pub validate_skill : SkillSpec → Option String
validate_skill s =
    let has_inline = not (s.content == "") in
    let has_ref = is_some s.content_config_map_ref in
    if has_inline && has_ref
    then some "set only one of spec.content or spec.contentConfigMapRef, not both"
    else if not has_inline && not has_ref
    then some "one of spec.content or spec.contentConfigMapRef is required"
    else none

abbrev pub reserved_trigger_env : List String
reserved_trigger_env =
    env_agent_endpoint ∷ "AGENTPLANE_AGENT_NAME" ∷ "AGENTPLANE_AGENT_NAMESPACE"
    ∷ "AGENTPLANE_TRIGGER_NAME" ∷ "AGENTPLANE_TRIGGER_CONFIG" ∷ env_credential_path ∷ []

unfoldable pub validate_trigger : TriggerSpec → Option String
unfolding env_error
validate_trigger s =
    if s.agent_ref.name == ""
    then some "spec.agentRef.name is required"
    else or_then (env_error "spec.env" reserved_trigger_env s.env)
        (duplicate_error "env var" (env_names s.env))
