-- ===== src/Api/Class/Laws.antt =====
-- What inheriting from an AgentClass keeps and fills in.
use agent_plane.Base.{Option, none, some, List, [], ◌∷◌, ◌≡◌, refl, arith}
use agent_plane.Api.Common.{LocalReference}
use agent_plane.Api.Kinds.{AgentClass}
use agent_plane.Api.Agents.{AgentSpec}
use agent_plane.Api.Class.{ref_or_default, refs_or_default, apply_class_defaults}

ref_or_default_twice :
    (own dflt : Option LocalReference)
    → ref_or_default (ref_or_default own dflt) dflt ≡ ref_or_default own dflt
ref_or_default_twice none none = refl
ref_or_default_twice none (some d) = refl
ref_or_default_twice (some o) d = refl

refs_or_default_twice :
    (own dflt : List LocalReference)
    → refs_or_default (refs_or_default own dflt) dflt ≡ refs_or_default own dflt
refs_or_default_twice [] [] = refl
refs_or_default_twice [] (d ∷ ds) = refl
refs_or_default_twice (o ∷ os) ds = refl

-- Inheriting from the same class a second time changes nothing, so that the Operator and the Registry
-- may each apply the defaults to a spec that already has them.
pub apply_class_defaults_twice :
    (spec : AgentSpec) (class : Option AgentClass)
    → apply_class_defaults (apply_class_defaults spec class) class ≡ apply_class_defaults spec class
unfolding apply_class_defaults
apply_class_defaults_twice spec none = refl
apply_class_defaults_twice spec (some c) = ground (
  arith,
  ref_or_default_twice spec.model_ref c.spec.default_model_ref,
  ref_or_default_twice spec.prompt_ref c.spec.default_prompt_ref,
  refs_or_default_twice spec.policy_refs c.spec.default_policy_refs,
  refs_or_default_twice spec.tool_policy_refs c.spec.default_tool_policy_refs,
  refs_or_default_twice spec.tool_refs c.spec.default_tool_refs,
  refs_or_default_twice spec.skill_refs c.spec.default_skill_refs,
)
