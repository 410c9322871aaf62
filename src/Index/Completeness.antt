-- ===== src/Index/Completeness.antt =====
-- Every change of an object that a pass over an Agent looks up wakes the Agent.
use mathlib.Core.Path.{subst}
use agent_plane.Base.{
  String, Bool, true, false, Option, none, some, List, [], ◌∷◌, ◌==◌, ◌≡◌, refl, sym, ◌∙◌, ap,
  arith, eq_refl, Bool-cases, Option-cases, inl, inr, mem, mem-append, All, All-append,
}
use agent_plane.Api.{
  LocalReference, Agent, AgentSpec, AgentWorkspaceSpec, AgentClass, ToolSet, apply_class_defaults,
}
use agent_plane.Cluster.{Reader, found}
use agent_plane.Resolve.Targets.{
  Kind, agent_class, model, prompt_template, tool, tool_set, skill, policy, tool_policy, credential,
  Target, targets_for, optional_target, git_target, effective_spec, targets_of,
}
use agent_plane.Resolve.Pass.{names_of}
use agent_plane.Index.{
  ref_name, ref_names_of, AgentField, ClassField, by_model, by_prompt, by_tools, by_tool_sets,
  by_skills, by_policies, by_tool_policies, by_credentials, by_class, default_model, default_prompt,
  default_policies, default_tools, default_skills, default_tool_policies, agent_keys, class_keys,
  workspace_credential, Lister, has_request, agents_referencing, requests_for,
}
use agent_plane.Index.Laws.{request_of}
use agent_plane.Index.Routes.{IsIndexed, mem-ref_names_of, mem-ref_name, direct_route, set_route}
use agent_plane.Index.Inheritance.{effective-cases, refs_route, ref_route}

-- A change of this object wakes the Agent.
abbrev pub IsWoken : Lister → Agent → Kind → String → Type 0
IsWoken l a kind name = has_request (request_of a) (requests_for l kind a.meta.ns name) ≡ true

abbrev pub WakesFor : Lister → Agent → Target → Type 0
WakesFor l a t = (t.name == "") ≡ false → IsWoken l a t.kind t.name

module _ (l : Lister) (a : Agent) where
  All-targets_for :
      (kind : Kind) (refs : List LocalReference)
      → ((name : String)
          → (name == "") ≡ false
          → mem name (names_of refs) ≡ true
          → IsWoken l a kind name)
      → All (WakesFor l a) (targets_for kind refs)
  All-targets_for kind [] f = tt
  All-targets_for kind (ref ∷ refs) f = (
    (λ n. f ref.name n (rw (eq_refl ref.name) refl)),
    All-targets_for kind refs (λ name n h. f name n (ground (arith, h))),
  )

  All-optional_target :
      (kind : Kind) (ref : Option LocalReference)
      → ((x : LocalReference) → (x.name == "") ≡ false → ref ≡ some x → IsWoken l a kind x.name)
      → All (WakesFor l a) (optional_target kind ref)
  All-optional_target kind none f = tt
  All-optional_target kind (some ref) f = ((λ n. f ref n refl), tt)

  All-git_target :
      (ws : Option AgentWorkspaceSpec)
      → ((s : AgentWorkspaceSpec) (x : LocalReference)
          → (x.name == "") ≡ false
          → ws ≡ some s
          → s.credential_ref ≡ some x
          → IsWoken l a credential x.name)
      → All (WakesFor l a) (git_target ws)
  All-git_target none f = tt
  All-git_target (some s) f = elim (Bool-cases (s.repository == "")) [
    | inl e ↦ rw e tt
    | inr e ↦ elim (Option-cases s.credential_ref) [
      | inl k ↦ rw (e, k) tt
      | inr (x, k) ↦ rw (e, k) ((λ n. f s x n refl k), tt)
    ]
  ]

  -- All the targets, group by group.
  All-targets_of :
      (spec eff : AgentSpec)
      → All (WakesFor l a) (optional_target agent_class spec.agent_class_ref)
      → All (WakesFor l a) (optional_target model eff.model_ref)
      → All (WakesFor l a) (optional_target prompt_template eff.prompt_ref)
      → All (WakesFor l a) (targets_for tool eff.tool_refs)
      → All (WakesFor l a) (targets_for tool_set eff.tool_set_refs)
      → All (WakesFor l a) (targets_for skill eff.skill_refs)
      → All (WakesFor l a) (targets_for policy eff.policy_refs)
      → All (WakesFor l a) (targets_for tool_policy eff.tool_policy_refs)
      → All (WakesFor l a) (targets_for credential spec.credential_refs)
      → All (WakesFor l a) (git_target spec.workspace)
      → All (WakesFor l a) (targets_of spec eff)
  unfolding targets_of
  All-targets_of spec eff c m p t ts s po tp cr g = All-append _ _ _ c (
      All-append _ _ _ m (
        All-append _ _ _ p (
          All-append _ _ _ t (
            All-append _ _ _ ts (
              All-append _ _ _ s
                (All-append _ _ _ po (All-append _ _ _ tp (All-append _ _ _ cr g))))))))

module _ (l : Lister) (r : Reader) (is : IsIndexed l r) (a : Agent)
    (here : r.get_agent a.meta.ns a.meta.name ≡ found a) where
  own_refs :
      (field : AgentField) (cf : Option ClassField) (via : Bool) (refs : List LocalReference)
      (name : String)
      → agent_keys field a.spec ≡ ref_names_of refs
      → (name == "") ≡ false
      → mem name (names_of refs) ≡ true
      → has_request (request_of a) (agents_referencing l field cf via a.meta.ns name) ≡ true
  own_refs field cf via refs name keys n h =
      direct_route l r is a here field cf via name
        (ap (mem name) keys ∙ mem-ref_names_of name refs n h)

  own_ref :
      (field : AgentField) (cf : Option ClassField) (ref : Option LocalReference)
      (x : LocalReference)
      → agent_keys field a.spec ≡ ref_name ref
      → (x.name == "") ≡ false
      → ref ≡ some x
      → has_request (request_of a) (agents_referencing l field cf false a.meta.ns x.name) ≡ true
  own_ref field cf ref x keys n h =
      direct_route l r is a here field cf false x.name
        (ap (mem x.name) keys ∙ ap (λ o. mem x.name (ref_name o)) h ∙ mem-ref_name x n)

  -- The groups that no class changes.
  classes_woken : All (WakesFor l a) (optional_target agent_class a.spec.agent_class_ref)
  unfolding requests_for agent_keys
  classes_woken =
      All-optional_target l a agent_class a.spec.agent_class_ref
        (λ x n h. own_ref by_class none _ x refl n h)

  sets_woken : All (WakesFor l a) (targets_for tool_set a.spec.tool_set_refs)
  unfolding requests_for agent_keys
  sets_woken =
      All-targets_for l a tool_set a.spec.tool_set_refs
        (λ x n h. own_refs by_tool_sets none false _ x refl n h)

  credentials_woken : All (WakesFor l a) (targets_for credential a.spec.credential_refs)
  unfolding requests_for agent_keys
  credentials_woken = All-targets_for l a credential a.spec.credential_refs (λ x n h.
      direct_route l r is a here by_credentials none false x (
        ground (
          arith,
          mem-append x (ref_names_of a.spec.credential_refs)
              (workspace_credential a.spec.workspace),
          mem-ref_names_of x a.spec.credential_refs n h,
        )))

  git_woken : All (WakesFor l a) (git_target a.spec.workspace)
  unfolding requests_for agent_keys workspace_credential
  git_woken = All-git_target l a a.spec.workspace (λ s x n e k.
      let held : mem x.name (workspace_credential a.spec.workspace) ≡ true =
        ap (λ w. mem x.name (workspace_credential w)) e
        ∙ ap (λ o. mem x.name (ref_name o)) k
        ∙ mem-ref_name x n in
      direct_route l r is a here by_credentials none false x.name (
        ground (
          arith,
          mem-append x.name (ref_names_of a.spec.credential_refs)
              (workspace_credential a.spec.workspace),
          held,
        )))

  own_woken : All (WakesFor l a) (targets_of a.spec a.spec)
  unfolding requests_for agent_keys
  own_woken =
      All-targets_of l a a.spec a.spec classes_woken
        (All-optional_target l a model _
          (λ x n h. own_ref by_model (some default_model) _ x refl n h))
        (All-optional_target l a prompt_template _
          (λ x n h. own_ref by_prompt (some default_prompt) _ x refl n h))
        (All-targets_for l a tool _
          (λ x n h. own_refs by_tools (some default_tools) true _ x refl n h))
        sets_woken
        (All-targets_for l a skill _
          (λ x n h. own_refs by_skills (some default_skills) false _ x refl n h))
        (All-targets_for l a policy _
          (λ x n h. own_refs by_policies (some default_policies) false _ x refl n h))
        (All-targets_for l a tool_policy _
          (λ x n h. own_refs by_tool_policies (some default_tool_policies) false _ x refl n h))
        credentials_woken git_woken

  inherited_woken :
      (ref : LocalReference) (c : AgentClass)
      → a.spec.agent_class_ref ≡ some ref
      → r.get_class a.meta.ns ref.name ≡ found c
      → All (WakesFor l a) (targets_of a.spec (apply_class_defaults a.spec (some c)))
  unfolding requests_for agent_keys class_keys apply_class_defaults
  inherited_woken ref c named known =
      All-targets_of l a a.spec (apply_class_defaults a.spec (some c)) classes_woken
        (All-optional_target l a model _ (λ x n h.
          ref_route l r is a here by_model default_model _ _ ref c refl refl named known x n h))
        (All-optional_target l a prompt_template _ (λ x n h.
          ref_route l r is a here by_prompt default_prompt _ _ ref c refl refl named known x n h))
        (All-targets_for l a tool _ (λ x n h.
          refs_route l r is a here by_tools default_tools true _ _ ref c refl refl named known x n
            h))
        sets_woken
        (All-targets_for l a skill _ (λ x n h.
          refs_route l r is a here by_skills default_skills false _ _ ref c refl refl named known x
            n h))
        (All-targets_for l a policy _ (λ x n h.
          refs_route l r is a here by_policies default_policies false _ _ ref c refl refl named
            known x n h))
        (All-targets_for l a tool_policy _ (λ x n h.
          refs_route l r is a here by_tool_policies default_tool_policies false _ _ ref c refl refl
            named known x n h))
        credentials_woken git_woken

-- Where the index answers for the cluster that is read, and the cluster holds the Agent, a change of
-- any object that a pass over the Agent looks up as a reference, by a name that is not empty, wakes
-- the Agent, whether it names the object itself or inherits it from its class.
pub target_changes-wake :
    (l : Lister) (r : Reader) (a : Agent)
    → IsIndexed l r
    → r.get_agent a.meta.ns a.meta.name ≡ found a
    → All (WakesFor l a) (targets_of a.spec (effective_spec r a))
target_changes-wake l r a is here = elim (effective-cases r a) [
  | inl e ↦
      subst (λ eff. All (WakesFor l a) (targets_of a.spec eff)) (sym e) (own_woken l r is a here)
  | inr (ref, c, named, known, e) ↦
      subst (λ eff. All (WakesFor l a) (targets_of a.spec eff)) (sym e)
        (inherited_woken l r is a here ref c named known)
]

-- Under the same conditions, a change of a Tool that a ToolSet contributes wakes the Agent that names
-- the set.
pub member_change-wake :
    (l : Lister) (r : Reader) (a : Agent) (set name : String) (s : ToolSet)
    → IsIndexed l r
    → r.get_agent a.meta.ns a.meta.name ≡ found a
    → (set == "") ≡ false
    → (name == "") ≡ false
    → mem set (names_of a.spec.tool_set_refs) ≡ true
    → r.get_tool_set a.meta.ns set ≡ found s
    → mem name (names_of s.spec.tool_refs) ≡ true
    → IsWoken l a tool name
unfolding requests_for agent_keys
member_change-wake l r a set name s is here set_given name_given named known member =
    set_route l r is a here by_tools (some default_tools) name set s known
      (mem-ref_names_of set a.spec.tool_set_refs set_given named)
      (mem-ref_names_of name s.spec.tool_refs name_given member)
