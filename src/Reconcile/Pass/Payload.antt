-- ===== src/Reconcile/Pass/Payload.antt =====
-- The two halves of enforcement together: what the Registry ships for an Agent that the Operator has
-- marked Ready.
use mathlib.Core.Path.{subst}
use agent_plane.Base.{
  String, true, List, [], ◌∷◌, ◌++◌, map, ◌==◌, ◌≡◌, ◌≢◌, refl, sym, ◌∙◌, ap, arith, inl, inr, All,
}
use agent_plane.Api.{Agent, AgentSpec, AgentStatus, agent_phase_ready, tool_action_deny}
use agent_plane.Policy.{permits}
use agent_plane.Policy.Violations.Laws.{applicable_action, IsCompliant, violations-eq-nil_iff}
use agent_plane.Cluster.{Got-cases, Reader, Result, ok}
use agent_plane.Resolve.Targets.{effective_spec}
use agent_plane.Resolve.Pass.Policies.{policies_named, tool_policies_named, resolve_refs-policies}
use agent_plane.Registry.Views.{AgentConfig}
use agent_plane.Registry.Config.{build_config_from}
use agent_plane.Registry.Config.Names.{IsNamed, readable}
use agent_plane.Registry.Config.Surface.{build_config_from-tools}
use agent_plane.Reconcile.Pass.{Env, reconcile_agent}
use agent_plane.Reconcile.Pass.Laws.{reconcile_agent-verdict}

-- No Policy that the Agent's effective spec names denies the tool, and the ToolPolicies that it names
-- do not either.
pub record IsPermittedTool (r : Reader) (a : Agent) (name : String) : Type 0 where
  pub policies :
      All
        (λ p. permits p.spec.tools name ≡ true)
        (policies_named r a.meta.ns (effective_spec r a).policy_refs)
  pub rules :
      applicable_action (tool_policies_named r a.meta.ns (effective_spec r a).tool_policy_refs) name
      ≢ tool_action_deny

nil_of_append : (xs ys : List String) → xs ++ ys ≡ [] → xs ≡ []
nil_of_append [] ys e = refl
nil_of_append (x ∷ xs) ys e = cc

All-readable :
    (P : String → Type 0) (r : Reader) (ns : String) (names : List String)
    → All P names
    → All P (readable r ns names)
All-readable P r ns [] h = tt
All-readable P r ns (name ∷ names) (h, hs) = elim (Got-cases (r.get_tool ns name)) [
  | inl (t, e) ↦ rw (readable, e) (h, All-readable P r ns names hs)
  | inr (inl e) ↦ rw (readable, e) (All-readable P r ns names hs)
  | inr (inr (x, e)) ↦ rw (readable, e) (All-readable P r ns names hs)
]

All-zip_permitted :
    (r : Reader) (a : Agent) (names : List String)
    → All
        (λ n.
          All
            (λ p. permits p.spec.tools n ≡ true)
            (policies_named r a.meta.ns (effective_spec r a).policy_refs)
          × (applicable_action
                (tool_policies_named r a.meta.ns (effective_spec r a).tool_policy_refs)
                n
              ≢ tool_action_deny))
        names
    → All (IsPermittedTool r a) names
All-zip_permitted r a [] h = tt
All-zip_permitted r a (n ∷ names) (h, hs) =
    (record { policies = h.0; rules = h.1 }, All-zip_permitted r a names hs)

-- Where a pass of the Operator marks an Agent Ready and the API server answers with the object of the
-- name asked for, every tool that the Registry ships for the Agent, reading the same cluster, is
-- permitted by each Policy that the Agent's effective spec names and by its ToolPolicies.
pub ready_payload-IsPermittedTool :
    (env : Env) (marshal : AgentSpec → Result String) (a : Agent) (st : AgentStatus)
    (cfg : AgentConfig)
    → IsNamed env.reader
    → reconcile_agent env a ≡ ok st
    → st.phase ≡ agent_phase_ready
    → build_config_from marshal env.reader a ≡ ok cfg
    → All (IsPermittedTool env.reader a) (map (λ v. v.name) cfg.tools)
ready_payload-IsPermittedTool env marshal a st cfg named ran ready built =
    elim (reconcile_agent-verdict env a st ran) [
      | inr (refused, d) ↦ ground (arith, ap (λ p. p == "Degraded") (sym ready ∙ d.phase))
      | inl (res, admitted, is_ready) ↦
          let r = env.reader in
          let (policies, tool_policies) = resolve_refs-policies r a res admitted.resolved in
          let compliant : IsCompliant res.policies res.tool_policies res.declared =
            (violations-eq-nil_iff res.policies res.tool_policies res.declared).0
              (nil_of_append _ _ admitted.allowed) in
          let here : IsCompliant (policies_named r a.meta.ns (effective_spec r a).policy_refs)
              (tool_policies_named r a.meta.ns (effective_spec r a).tool_policy_refs) res.declared =
            rw (← policies, ← tool_policies) compliant in
          subst (All (IsPermittedTool r a))
            (sym (build_config_from-tools marshal r a res cfg named admitted.resolved built))
            (All-readable (IsPermittedTool r a) r a.meta.ns res.declared.tools
              (All-zip_permitted r a res.declared.tools here.tools))
    ]
