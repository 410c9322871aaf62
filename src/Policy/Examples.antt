-- ===== src/Policy/Examples.antt =====
-- Tests of policy merging, and the theorems about it at concrete inputs.
use mathlib.Core.List.Perm
use agent_plane.Base.{
  String, true, false, ◌&&◌, Option, none, some, List, [], ◌∷◌, ◌≡◌, refl, ◌↔◌, All, mem,
  sort_strings, str_leb, quote,
}
use agent_plane.Api.{
  ObjectMeta, AccessRule, Policy, ToolPolicy, ToolRule, tool_action_allow, tool_action_deny,
}
use agent_plane.Policy.Access.{permits, merge_access_rule}
use agent_plane.Policy.Access.Laws.{permits-merge_access_rule}
use agent_plane.Policy.Rules.{match_tool_rule}
use agent_plane.Policy.Merge.{merge_policies}
use agent_plane.Policy.Merge.Laws.{IsMerged, merged, merge_policies-IsMerged}
use agent_plane.Policy.Violations.{AgentReferences, violations}
use agent_plane.Policy.Violations.Laws.{IsCompliant, violations-eq-nil_iff}
use agent_plane.Policy.Violations.Order.{violations_of_perm}
use agent_plane.Policy.Skills.{SkillToolScope, skill_tool_violations}
use agent_plane.Policy.Skills.Laws.{skill_tool_violations-eq-nil_iff}

abbrev meta_of : String → ObjectMeta
meta_of name = record {
  name = name;
  ns = "default";
  resource_version = "1";
  generation = 1;
  uid = "";
}

abbrev only : String → Option AccessRule
only name = some (record { allow = name ∷ []; deny = [] })

abbrev no_lark : Option AccessRule
no_lark = some (record { allow = []; deny = "lark" ∷ [] })

abbrev gpt_only : Policy
gpt_only = record {
  meta = meta_of "gpt-only";
  spec = record { models = only "gpt"; mcp = no_lark; tools = none };
  status = record { conditions = []; observed_generation = 1 };
}

abbrev claude_only : Policy
claude_only = record {
  meta = meta_of "claude-only";
  spec = record { models = only "claude"; mcp = none; tools = none };
  status = record { conditions = []; observed_generation = 1 };
}

abbrev rules : List ToolRule
rules =
    record { tool = "*"; action = tool_action_deny; max_calls_per_session = none }
    ∷ record { tool = "search"; action = tool_action_allow; max_calls_per_session = some 3 }
    ∷ []

abbrev search_only : ToolPolicy
search_only = record {
  meta = meta_of "search-only";
  spec = record { rules = rules; default_action = "" };
  status = record { conditions = []; observed_generation = 1 };
}

abbrev refs : AgentReferences
refs = record { model = "gpt"; tools = "search" ∷ "mail" ∷ []; mcp_servers = "lark" ∷ [] }

reports :
    violations (merge_policies (gpt_only ∷ []) (search_only ∷ [])) refs
    ≡ "mcpServer \"lark\" is denied by policy"
      ∷ "tool \"mail\" is denied by a ToolPolicy rule (matched \"*\")" ∷ []
unfolding violations merge_policies permits merge_access_rule match_tool_rule sort_strings str_leb
    quote
reports = refl

disjoint : permits (merge_access_rule (only "gpt") (only "claude")) "gpt" ≡ false
unfolding permits merge_access_rule
disjoint = refl

permits-merge_access_rule_example :
    permits (merge_access_rule (only "gpt") no_lark) "lark"
    ≡ (permits (only "gpt") "lark" && permits no_lark "lark")
permits-merge_access_rule_example = permits-merge_access_rule (only "gpt") no_lark "lark"

merge_policies-IsMerged_example :
    IsMerged (gpt_only ∷ []) (search_only ∷ []) (merged (gpt_only ∷ []) (search_only ∷ []))
unfolding merge_policies merged
merge_policies-IsMerged_example =
    merge_policies-IsMerged (gpt_only ∷ []) (search_only ∷ [])
      (merged (gpt_only ∷ []) (search_only ∷ [])) refl

violations-eq-nil_iff_example :
    (violations (merge_policies (gpt_only ∷ []) (search_only ∷ [])) refs ≡ [])
    ↔ IsCompliant (gpt_only ∷ []) (search_only ∷ []) refs
violations-eq-nil_iff_example = violations-eq-nil_iff (gpt_only ∷ []) (search_only ∷ []) refs

violations_of_perm_example :
    violations (merge_policies (claude_only ∷ gpt_only ∷ []) []) refs
    ≡ violations (merge_policies (gpt_only ∷ claude_only ∷ []) []) refs
violations_of_perm_example =
    violations_of_perm (claude_only ∷ gpt_only ∷ []) (gpt_only ∷ claude_only ∷ []) [] refs
      (Perm.swap gpt_only claude_only [])

abbrev scopes : List SkillToolScope
scopes = record { skill = "triage"; allowed_tools = "search" ∷ "jira" ∷ [] } ∷ []

skill_reports :
    skill_tool_violations scopes ("search" ∷ [])
    ≡ "skill \"triage\" allows tool \"jira\", which the Agent does not reference" ∷ []
unfolding skill_tool_violations sort_strings quote
skill_reports = refl

skill_tool_violations-eq-nil_iff_example :
    (skill_tool_violations scopes ("search" ∷ "jira" ∷ []) ≡ [])
    ↔ All (λ sk. All (λ t. mem t ("search" ∷ "jira" ∷ []) ≡ true) sk.allowed_tools) scopes
skill_tool_violations-eq-nil_iff_example =
    skill_tool_violations-eq-nil_iff scopes ("search" ∷ "jira" ∷ [])
