-- ===== src/Policy/Merge/Laws.antt =====
-- What the merged policy holds, in terms of the policies that it was merged from.
use agent_plane.Base.{
  String, ◌<>◌, Bool, ◌&&◌, Option, none, some, List, [], ◌∷◌, ◌++◌, ◌==◌, ◌≡◌, refl, sym, ◌∙◌, ap,
  arith, all, any, map, ◌⊎◌, inl, inr, if◌then◌else◌,
}
use mathlib.Core.List.{append_assoc, append-nil}
use agent_plane.Api.{
  AccessRule, PolicySpec, Policy, ToolPolicy, ToolRule, tool_action_allow, tool_action_deny,
}
use agent_plane.Policy.Access.{permits}
use agent_plane.Policy.Access.Laws.{permits-merge_access_rule}
use agent_plane.Policy.Merge.{
  EffectivePolicy, unconstrained, merge_policy, merge_tool_policy, merge_all_policies,
  merge_all_tool_policies, merge_policies,
}

-- Every policy permits the name in one of its sections.
abbrev pub all_permit : (PolicySpec → Option AccessRule) → List Policy → String → Bool
all_permit section policies name = all (λ p. permits (section p.spec) name) policies

-- Some ToolPolicy denies by default.
abbrev pub denies_by_default : List ToolPolicy → Bool
denies_by_default tps = any (λ tp. tp.spec.default_action == tool_action_deny) tps

abbrev pub all_rules : List ToolPolicy → List ToolRule
all_rules [] = []
all_rules (tp ∷ tps) = tp.spec.rules ++ all_rules tps

abbrev pub source_names : List Policy → List ToolPolicy → List String
source_names policies tool_policies =
    map (λ p. "Policy/" <> p.meta.name) policies
    ++ map (λ tp. "ToolPolicy/" <> tp.meta.name) tool_policies

-- The two loops leave alone what they do not write.
merge_all_tool_policies_access :
    (e : EffectivePolicy) (tps : List ToolPolicy)
    → ((merge_all_tool_policies e tps).models ≡ e.models)
      × ((merge_all_tool_policies e tps).mcp ≡ e.mcp)
      × ((merge_all_tool_policies e tps).tools ≡ e.tools)
unfolding merge_all_tool_policies merge_tool_policy
merge_all_tool_policies_access e [] = (refl, refl, refl)
merge_all_tool_policies_access e (tp ∷ tps) =
    merge_all_tool_policies_access (merge_tool_policy e tp) tps

merge_all_policies_rules :
    (e : EffectivePolicy) (ps : List Policy)
    → ((merge_all_policies e ps).tool_rules ≡ e.tool_rules)
      × ((merge_all_policies e ps).default_tool_action ≡ e.default_tool_action)
unfolding merge_all_policies merge_policy
merge_all_policies_rules e [] = (refl, refl)
merge_all_policies_rules e (p ∷ ps) = merge_all_policies_rules (merge_policy e p) ps

permits-merge_all_policies :
    (e : EffectivePolicy) (ps : List Policy) (n : String)
    → (permits (merge_all_policies e ps).models n
        ≡ (permits e.models n && all_permit (λ s. s.models) ps n))
      × (permits (merge_all_policies e ps).mcp n
          ≡ (permits e.mcp n && all_permit (λ s. s.mcp) ps n))
      × (permits (merge_all_policies e ps).tools n
          ≡ (permits e.tools n && all_permit (λ s. s.tools) ps n))
unfolding merge_all_policies merge_policy
permits-merge_all_policies e [] n = (ground arith, ground arith, ground arith)
permits-merge_all_policies e (p ∷ ps) n =
    let (h, k, l) = permits-merge_all_policies (merge_policy e p) ps n in
    (
      ground (arith, h, permits-merge_access_rule e.models p.spec.models n),
      ground (arith, k, permits-merge_access_rule e.mcp p.spec.mcp n),
      ground (arith, l, permits-merge_access_rule e.tools p.spec.tools n),
    )

merge_all_tool_policies_rules :
    (e : EffectivePolicy) (tps : List ToolPolicy)
    → ((merge_all_tool_policies e tps).tool_rules ≡ e.tool_rules ++ all_rules tps)
      × ((merge_all_tool_policies e tps).default_tool_action
          ≡ (if denies_by_default tps then tool_action_deny else e.default_tool_action))
unfolding merge_all_tool_policies merge_tool_policy
merge_all_tool_policies_rules e [] = (sym (append-nil _), refl)
merge_all_tool_policies_rules e (tp ∷ tps) =
    let (h, k) = merge_all_tool_policies_rules (merge_tool_policy e tp) tps in
    (h ∙ append_assoc e.tool_rules tp.spec.rules (all_rules tps), ground (arith, k))

merge_all_policies_sources :
    (e : EffectivePolicy) (ps : List Policy)
    → (merge_all_policies e ps).sources ≡ e.sources ++ map (λ p. "Policy/" <> p.meta.name) ps
unfolding merge_all_policies merge_policy
merge_all_policies_sources e [] = sym (append-nil _)
merge_all_policies_sources e (p ∷ ps) =
    merge_all_policies_sources (merge_policy e p) ps
    ∙ append_assoc e.sources (("Policy/" <> p.meta.name) ∷ []) _

merge_all_tool_policies_sources :
    (e : EffectivePolicy) (tps : List ToolPolicy)
    → (merge_all_tool_policies e tps).sources
      ≡ e.sources ++ map (λ tp. "ToolPolicy/" <> tp.meta.name) tps
unfolding merge_all_tool_policies merge_tool_policy
merge_all_tool_policies_sources e [] = sym (append-nil _)
merge_all_tool_policies_sources e (tp ∷ tps) =
    merge_all_tool_policies_sources (merge_tool_policy e tp) tps
    ∙ append_assoc e.sources (("ToolPolicy/" <> tp.meta.name) ∷ []) _

-- A policy and a name: what the merged policy must say of it.
pub record IsMerged (policies : List Policy) (tool_policies : List ToolPolicy) (e : EffectivePolicy)
    : Type 0 where
  pub models : (n : String) → permits e.models n ≡ all_permit (λ s. s.models) policies n
  pub mcp : (n : String) → permits e.mcp n ≡ all_permit (λ s. s.mcp) policies n
  pub tools : (n : String) → permits e.tools n ≡ all_permit (λ s. s.tools) policies n
  pub rules : e.tool_rules ≡ all_rules tool_policies
  pub default_action :
      e.default_tool_action
      ≡ (if denies_by_default tool_policies then tool_action_deny else tool_action_allow)
  pub sources : e.sources ≡ source_names policies tool_policies

-- The two loops of `MergePolicies`, run from the empty policy.
unfoldable pub merged : List Policy → List ToolPolicy → EffectivePolicy
unfolding merge_all_policies merge_all_tool_policies
merged policies tool_policies =
    merge_all_tool_policies (merge_all_policies unconstrained policies) tool_policies

pub merged-IsMerged :
    (policies : List Policy) (tool_policies : List ToolPolicy)
    → IsMerged policies tool_policies (merged policies tool_policies)
unfolding merged permits
merged-IsMerged ps tps =
    let e = merge_all_policies unconstrained ps in
    let (models, mcp, tools) = merge_all_tool_policies_access e tps in
    let (rules, dflt) = merge_all_tool_policies_rules e tps in
    let (no_rules, allow) = merge_all_policies_rules unconstrained ps in
    record {
      models =
          λ n. ap (λ r. permits r n) models ∙ (permits-merge_all_policies unconstrained ps n).0;
      mcp = λ n. ap (λ r. permits r n) mcp ∙ (permits-merge_all_policies unconstrained ps n).1;
      tools = λ n. ap (λ r. permits r n) tools ∙ (permits-merge_all_policies unconstrained ps n).2;
      rules = rules ∙ ap (λ l. l ++ all_rules tps) no_rules;
      default_action = dflt ∙ ap (λ a. if denies_by_default tps then tool_action_deny else a) allow;
      sources =
          merge_all_tool_policies_sources e tps
          ∙ ap (λ l. l ++ map (λ tp. "ToolPolicy/" <> tp.meta.name) tps)
              (merge_all_policies_sources unconstrained ps);
    }

-- `MergePolicies` returns nil for no policy at all, and else what the loops compute.
pub merge_policies-cases :
    (policies : List Policy) (tool_policies : List ToolPolicy)
    → ((merge_policies policies tool_policies ≡ none) × (policies ≡ []) × (tool_policies ≡ []))
      ⊎ (merge_policies policies tool_policies ≡ some (merged policies tool_policies))
unfolding merge_policies merged
merge_policies-cases [] [] = inl (refl, refl, refl)
merge_policies-cases [] (tp ∷ tps) = inr refl
merge_policies-cases (p ∷ ps) tps = inr refl

-- Where `MergePolicies` returns a policy: each of its three sections permits exactly the names that
-- every Policy permits there; its tool rules are those of the ToolPolicies, in order; its default
-- action is "deny" exactly if that of some ToolPolicy is, and else "allow"; and its sources are
-- the names of the Policies and then of the ToolPolicies.
pub merge_policies-IsMerged :
    (policies : List Policy) (tool_policies : List ToolPolicy) (e : EffectivePolicy)
    → merge_policies policies tool_policies ≡ some e
    → IsMerged policies tool_policies e
merge_policies-IsMerged ps tps e h = elim (merge_policies-cases ps tps) [
  | inl (nothing, _, _) ↦ cc
  | inr same ↦
      let equal : merged ps tps ≡ e = ground (arith, same) in rw equal at (merged-IsMerged ps tps)
]
