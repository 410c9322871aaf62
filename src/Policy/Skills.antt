-- ===== src/Policy/Skills.antt =====
-- api/v1alpha1/skill_scope.go.
pub mod Laws
use agent_plane.Base.{
  String, ◌<>◌, Bool, List, [], ◌∷◌, ◌++◌, if◌then◌else◌, is_empty, mem, quote, sort_strings,
}

pub record SkillToolScope : Type 0 where
  pub skill : String
  pub allowed_tools : List String

-- The inner loop: the allowed tools of one skill that are not available.
unreachable_tools : List String → String → List String → List String
unreachable_tools available skill [] = []
unreachable_tools available skill (tool ∷ tools) =
    let rest = unreachable_tools available skill tools in
    if mem tool available
    then rest
    else ("skill "
        <> quote skill
        <> " allows tool "
        <> quote tool
        <> ", which the Agent does not reference")
      ∷ rest

-- The outer loop.
scope_violations : List String → List SkillToolScope → List String
scope_violations available [] = []
scope_violations available (sk ∷ sks) =
    unreachable_tools available sk.skill sk.allowed_tools ++ scope_violations available sks

unfoldable pub skill_tool_violations : List SkillToolScope → List String → List String
unfolding unreachable_tools scope_violations
skill_tool_violations skills available_tools =
    if is_empty skills then [] else sort_strings (scope_violations available_tools skills)
