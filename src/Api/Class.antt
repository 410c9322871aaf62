-- ===== src/Api/Class.antt =====
-- `ApplyClassDefaults` of api/v1alpha1/agent_types.go.
pub mod Laws
use agent_plane.Base.{Option, none, some, List, [], ◌∷◌}
use agent_plane.Api.Common.{LocalReference}
use agent_plane.Api.Kinds.{AgentClass}
use agent_plane.Api.Agents.{AgentSpec}

-- `if spec.X == nil && class.Spec.DefaultX != nil { spec.X = class.Spec.DefaultX }`
abbrev pub ref_or_default : Option LocalReference → Option LocalReference → Option LocalReference
ref_or_default (some own) dflt = some own
ref_or_default none (some dflt) = some dflt
ref_or_default none none = none

-- `if len(spec.X) == 0 && len(class.Spec.DefaultX) > 0 { spec.X = class.Spec.DefaultX }`
abbrev pub refs_or_default : List LocalReference → List LocalReference → List LocalReference
refs_or_default (own ∷ more) dflt = own ∷ more
refs_or_default [] (dflt ∷ more) = dflt ∷ more
refs_or_default [] [] = []

unfoldable pub apply_class_defaults : AgentSpec → Option AgentClass → AgentSpec
apply_class_defaults spec none = spec
apply_class_defaults spec (some class) = record spec {
  model_ref = ref_or_default spec.model_ref class.spec.default_model_ref;
  prompt_ref = ref_or_default spec.prompt_ref class.spec.default_prompt_ref;
  policy_refs = refs_or_default spec.policy_refs class.spec.default_policy_refs;
  tool_policy_refs = refs_or_default spec.tool_policy_refs class.spec.default_tool_policy_refs;
  tool_refs = refs_or_default spec.tool_refs class.spec.default_tool_refs;
  skill_refs = refs_or_default spec.skill_refs class.spec.default_skill_refs;
}
