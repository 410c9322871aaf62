-- ===== src/Registry/Config/Enforcement.antt =====
-- The policy view that the Registry ships is that of the policies that the Operator checked.
use agent_plane.Base.{String, List, [], ◌∷◌, ◌≡◌, refl, arith}
use agent_plane.Api.{LocalReference, Agent, AgentSpec}
use agent_plane.Policy.{merge_policies}
use agent_plane.Cluster.{Reader, Result, ok}
use agent_plane.Resolve.Targets.{effective_spec}
use agent_plane.Resolve.Pass.{Resolution, resolve_refs}
use agent_plane.Resolve.Pass.Policies.{policies_named, tool_policies_named, resolve_refs-policies}
use agent_plane.Registry.Views.{AgentConfig}
use agent_plane.Registry.Config.{
  read_policies, read_tool_policies, policy_view, resolve_policy, build_config_from,
}

module _ (r : Reader) (ns : String) where
  read_policies-eq-policies_named :
      (refs : List LocalReference) → read_policies r ns refs ≡ policies_named r ns refs
  unfolding read_policies
  read_policies-eq-policies_named [] = refl
  read_policies-eq-policies_named (ref ∷ refs) =
      ground (arith, read_policies-eq-policies_named refs)

  read_tool_policies-eq-tool_policies_named :
      (refs : List LocalReference) → read_tool_policies r ns refs ≡ tool_policies_named r ns refs
  unfolding read_tool_policies
  read_tool_policies-eq-tool_policies_named [] = refl
  read_tool_policies-eq-tool_policies_named (ref ∷ refs) =
      ground (arith, read_tool_policies-eq-tool_policies_named refs)

-- Where the Operator's pass over an Agent succeeds, the policy view that the Registry ships for the
-- Agent, reading the same cluster, is the view of the merged policies that the Operator checked the
-- Agent against, so the two halves of enforcement do not disagree.
pub build_config_from-policy :
    (marshal : AgentSpec → Result String) (r : Reader) (a : Agent) (res : Resolution)
    (cfg : AgentConfig)
    → resolve_refs r a ≡ ok res
    → build_config_from marshal r a ≡ ok cfg
    → cfg.policy ≡ policy_view (merge_policies res.policies res.tool_policies)
unfolding build_config_from resolve_policy
build_config_from-policy marshal r a res cfg e b =
    let eff = effective_spec r a in
    let ns = a.meta.ns in
    let (policies, tool_policies) = resolve_refs-policies r a res e in
    let here : cfg.policy
        ≡ policy_view (
            merge_policies (read_policies r ns eff.policy_refs)
              (read_tool_policies r ns eff.tool_policy_refs)) =
      ground arith in
    rw
      (
        policies,
        tool_policies,
        ← read_policies-eq-policies_named r ns eff.policy_refs,
        ← read_tool_policies-eq-tool_policies_named r ns eff.tool_policy_refs,
      )
      here
