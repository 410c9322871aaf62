-- ===== src/Resolve/Pass/Policies.antt =====
-- The policy objects that a pass gathers are those that the Agent's effective spec names.
use mathlib.Core.List.{append-nil}
use agent_plane.Base.{
  String, List, [], ◌∷◌, ◌++◌, ◌≡◌, refl, sym, ◌∙◌, ap, arith, inl, inr, if◌then◌else◌,
}
use agent_plane.Api.{LocalReference, Agent, AgentSpec, Policy, ToolPolicy}
use agent_plane.Cluster.{Got, found, Reader, ok}
use agent_plane.Resolve.Targets.{
  policy, tool_policy, Object, a_class, a_model, a_prompt, a_tool, a_tool_set, a_skill,
  a_credential, a_policy, a_tool_policy, got_map, Target, targets_for, targets_of, effective_spec,
}
use agent_plane.Resolve.Pass.Laws.{resolve_targets-cases}
use agent_plane.Resolve.Pass.{
  Resolution, collect, record_git, take_target, expand_surface, initial_resolution, resolve_refs,
}
use agent_plane.Resolve.Pass.Gather.{
  from_got, gathered, from_got-nothing, gathered-targets_for, gathered-targets_of, gathers,
}

-- The policies that some references name and that can be read, in order.
abbrev pub policies_named : Reader → String → List LocalReference → List Policy
policies_named r ns [] = []
policies_named r ns (ref ∷ refs) =
    elim (r.get_policy ns ref.name) [ found p ↦ p ∷ [] | _ ↦ [] ] ++ policies_named r ns refs

abbrev pub tool_policies_named : Reader → String → List LocalReference → List ToolPolicy
tool_policies_named r ns [] = []
tool_policies_named r ns (ref ∷ refs) =
    elim (r.get_tool_policy ns ref.name) [ found p ↦ p ∷ [] | _ ↦ [] ]
    ++ tool_policies_named r ns refs

abbrev policies_in : Object → List Policy
policies_in (a_policy p) = p ∷ []
policies_in _ = []

abbrev tool_policies_in : Object → List ToolPolicy
tool_policies_in (a_tool_policy p) = p ∷ []
tool_policies_in _ = []

policies_step :
    (res : Resolution) (t : Target) (got : Got Object) (res' : Resolution)
    → take_target res t got ≡ ok res'
    → res'.policies ≡ res.policies ++ (if t.git then [] else from_got policies_in got)
unfolding take_target collect record_git
policies_step res t got res' e = ground (arith, append-nil res.policies)

tool_policies_step :
    (res : Resolution) (t : Target) (got : Got Object) (res' : Resolution)
    → take_target res t got ≡ ok res'
    → res'.tool_policies
      ≡ res.tool_policies ++ (if t.git then [] else from_got tool_policies_in got)
unfolding take_target collect record_git
tool_policies_step res t got res' e = ground (arith, append-nil res.tool_policies)

module _ (r : Reader) (ns : String) where
  gathered-policies :
      (refs : List LocalReference)
      → gathered policies_in r ns (targets_for policy refs) ≡ policies_named r ns refs
  gathered-policies [] = refl
  gathered-policies (ref ∷ refs) = ground (arith, gathered-policies refs)

  gathered-tool_policies :
      (refs : List LocalReference)
      → gathered tool_policies_in r ns (targets_for tool_policy refs)
        ≡ tool_policies_named r ns refs
  gathered-tool_policies [] = refl
  gathered-tool_policies (ref ∷ refs) = ground (arith, gathered-tool_policies refs)

initial_policies :
    (eff : AgentSpec)
    → ((initial_resolution eff).policies ≡ []) × ((initial_resolution eff).tool_policies ≡ [])
initial_policies eff = ground arith

expand_policies :
    (r : Reader) (ns : String) (eff : AgentSpec) (res : Resolution)
    → ((expand_surface r ns eff res).policies ≡ res.policies)
      × ((expand_surface r ns eff res).tool_policies ≡ res.tool_policies)
unfolding expand_surface
expand_policies r ns eff res = (refl, refl)

abbrev silence :
    {X A : Type 0} (pick : Object → List X) (f : A → Object) (get : String → String → Got A)
    (ns : String)
    → ((a : A) → pick (f a) ≡ [])
    → (name : String) → from_got pick (got_map f (get ns name)) ≡ []
silence pick f get ns h name = from_got-nothing pick f h (get ns name)

targets-policies :
    (r : Reader) (ns : String) (spec eff : AgentSpec)
    → gathered policies_in r ns (targets_of spec eff) ≡ policies_named r ns eff.policy_refs
targets-policies r ns spec eff =
    gathered-targets_of policies_in r ns spec eff
      (silence policies_in a_class r.get_class ns (λ a. refl))
      (silence policies_in a_model r.get_model ns (λ a. refl))
      (silence policies_in a_prompt r.get_prompt ns (λ a. refl))
      (silence policies_in a_tool r.get_tool ns (λ a. refl))
      (silence policies_in a_tool_set r.get_tool_set ns (λ a. refl))
      (silence policies_in a_skill r.get_skill ns (λ a. refl))
      (silence policies_in a_credential r.get_credential ns (λ a. refl))
    ∙ ap (λ l. gathered policies_in r ns (targets_for policy eff.policy_refs) ++ l)
        (gathered-targets_for policies_in r ns tool_policy eff.tool_policy_refs
          (silence policies_in a_tool_policy r.get_tool_policy ns (λ a. refl)))
    ∙ append-nil (gathered policies_in r ns (targets_for policy eff.policy_refs))
    ∙ gathered-policies r ns eff.policy_refs

targets-tool_policies :
    (r : Reader) (ns : String) (spec eff : AgentSpec)
    → gathered tool_policies_in r ns (targets_of spec eff)
      ≡ tool_policies_named r ns eff.tool_policy_refs
targets-tool_policies r ns spec eff =
    gathered-targets_of tool_policies_in r ns spec eff
      (silence tool_policies_in a_class r.get_class ns (λ a. refl))
      (silence tool_policies_in a_model r.get_model ns (λ a. refl))
      (silence tool_policies_in a_prompt r.get_prompt ns (λ a. refl))
      (silence tool_policies_in a_tool r.get_tool ns (λ a. refl))
      (silence tool_policies_in a_tool_set r.get_tool_set ns (λ a. refl))
      (silence tool_policies_in a_skill r.get_skill ns (λ a. refl))
      (silence tool_policies_in a_credential r.get_credential ns (λ a. refl))
    ∙ ap (λ l. l ++ gathered tool_policies_in r ns (targets_for tool_policy eff.tool_policy_refs))
        (gathered-targets_for tool_policies_in r ns policy eff.policy_refs
          (silence tool_policies_in a_policy r.get_policy ns (λ a. refl)))
    ∙ gathered-tool_policies r ns eff.tool_policy_refs

-- A pass that succeeds has gathered the policies and the tool policies that the effective spec names
-- and that exist, in order.
pub resolve_refs-policies :
    (r : Reader) (a : Agent) (res : Resolution)
    → resolve_refs r a ≡ ok res
    → (res.policies ≡ policies_named r a.meta.ns (effective_spec r a).policy_refs)
      × (res.tool_policies ≡ tool_policies_named r a.meta.ns (effective_spec r a).tool_policy_refs)
unfolding resolve_refs
resolve_refs-policies r a res e =
    let eff = effective_spec r a in
    let ts = targets_of a.spec eff in
    let start = initial_resolution eff in
    let ns = a.meta.ns in
    elim (resolve_targets-cases r ns start ts) [
      | inr (x, stops, fails) ↦ ground (arith, stops, e)
      | inl (mid, ends, fine, adds) ↦
          let same : expand_surface r ns eff mid ≡ res = ground (arith, ends, e) in
          (
            ap (λ x. x.policies) (sym same)
                ∙ (expand_policies r ns eff mid).0
                ∙ gathers policies_in r ns (λ x. x.policies) policies_step start ts mid ends
                ∙ ap (λ l. l ++ gathered policies_in r ns ts) (initial_policies eff).0
                ∙ targets-policies r ns a.spec eff,
            ap (λ x. x.tool_policies) (sym same)
                ∙ (expand_policies r ns eff mid).1
                ∙ gathers tool_policies_in r ns (λ x. x.tool_policies) tool_policies_step start ts
                    mid ends
                ∙ ap (λ l. l ++ gathered tool_policies_in r ns ts) (initial_policies eff).1
                ∙ targets-tool_policies r ns a.spec eff,
          )
    ]
