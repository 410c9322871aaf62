-- ===== src/Policy/Skills/Laws.antt =====
-- When `SkillToolViolations` reports nothing.
use agent_plane.Base.{
  String, Bool, true, List, [], ◌∷◌, ◌≡◌, refl, ◌↔◌, ◌∙◌, ap, sym, arith, is_empty, mem,
  is_empty-sort_strings, all, All, All-map, All-of_all, all_of_All,
}
use agent_plane.Policy.Violations.Laws.{is_empty-append, nil_of_is_empty}
use agent_plane.Policy.Skills.{
  SkillToolScope, unreachable_tools, scope_violations, skill_tool_violations,
}

unreachable_tools_lem :
    (available : List String) (skill : String) (tools : List String)
    → is_empty (unreachable_tools available skill tools) ≡ all (λ t. mem t available) tools
unfolding unreachable_tools
unreachable_tools_lem available skill [] = refl
unreachable_tools_lem available skill (tool ∷ tools) =
    ground (arith, unreachable_tools_lem available skill tools)

abbrev scopes_ok : List String → List SkillToolScope → Bool
scopes_ok available skills = all (λ sk. all (λ t. mem t available) sk.allowed_tools) skills

scope_violations_lem :
    (available : List String) (skills : List SkillToolScope)
    → is_empty (scope_violations available skills) ≡ scopes_ok available skills
unfolding scope_violations
scope_violations_lem available [] = refl
scope_violations_lem available (sk ∷ sks) = ground (
  arith,
  is_empty-append (unreachable_tools available sk.skill sk.allowed_tools)
      (scope_violations available sks),
  unreachable_tools_lem available sk.skill sk.allowed_tools,
  scope_violations_lem available sks,
)

is_empty-skill_tool_violations :
    (skills : List SkillToolScope) (available : List String)
    → is_empty (skill_tool_violations skills available) ≡ scopes_ok available skills
unfolding skill_tool_violations
is_empty-skill_tool_violations [] available = refl
is_empty-skill_tool_violations (sk ∷ sks) available =
    is_empty-sort_strings (scope_violations available (sk ∷ sks))
    ∙ scope_violations_lem available (sk ∷ sks)

-- No skill is reported exactly if every tool that a skill allows is available to the Agent; a
-- literal "*" among the allowed tools is a tool of that name.
pub skill_tool_violations-eq-nil_iff :
    (skills : List SkillToolScope) (available : List String)
    → (skill_tool_violations skills available ≡ [])
      ↔ All (λ sk. All (λ t. mem t available ≡ true) sk.allowed_tools) skills
skill_tool_violations-eq-nil_iff skills available =
    let same = is_empty-skill_tool_violations skills available in
    (
      λ none_reported.
          All-map (λ sk h. All-of_all (λ t. mem t available) sk.allowed_tools h) skills
            (All-of_all (λ sk. all (λ t. mem t available) sk.allowed_tools) skills
              (sym same ∙ ap is_empty none_reported)),
      λ h. nil_of_is_empty _ (
          same
          ∙ all_of_All (λ sk. all (λ t. mem t available) sk.allowed_tools) skills
              (All-map (λ sk k. all_of_All (λ t. mem t available) sk.allowed_tools k) skills h)),
    )
