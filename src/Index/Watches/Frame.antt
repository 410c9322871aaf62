-- ===== src/Index/Watches/Frame.antt =====
-- What the passes over the kinds other than Agents read: two clusters that answer their lookups alike
-- lead to the same outcome.
use agent_plane.Base.{
  String, Option, none, some, List, [], ◌∷◌, ◌≡◌, refl, arith, Option-cases, inl, inr, All,
}
use agent_plane.Api.{
  LocalReference, BasicStatus, ToolStatus, ToolSetStatus, SkillStatus, CredentialStatus,
  TriggerStatus, Tool, Skill, Trigger,
}
use agent_plane.Validation.Kinds.{validate_tool, validate_skill, validate_trigger}
use agent_plane.Cluster.{Reader, Result, Result-cases, ok, ◌>>=◌, StatusConditions}
use agent_plane.Resolve.Targets.{
  agent, credential, an_agent, a_credential as credential_object, get_object, Target,
  optional_target,
}
use agent_plane.Resolve.Pass.Frame.{got_map-injective}
use agent_plane.Reconcile.Workloads.{OwnedObjects}
use agent_plane.Controllers.{
  resolve_ref_targets, tool_targets, reconcile_model, reconcile_tool, reconcile_tool_set,
  reconcile_agent_class, reconcile_skill, reconcile_credential, reconcile_policy,
  reconcile_tool_policy, reconcile_prompt_template,
}
use agent_plane.Triggers.{agent_endpoint, secret_name_of, trigger_pass}
use agent_plane.Index.Watches.{
  Dependent, a_class, a_tool, a_set, a_model, a_skill, a_credential, a_trigger, a_policy,
  a_tool_policy, a_prompt, dependent_meta, Watched, of_kind, config_map, secret, lookups_of_targets,
  lookups,
}

-- The status that a pass writes, by the kind of the object.
pub data Status : Type 0 where
  basic : BasicStatus → Status
  of_tool : ToolStatus → Status
  of_set : ToolSetStatus → Status
  of_skill : SkillStatus → Status
  of_credential : CredentialStatus → Status
  of_trigger : TriggerStatus → Status

-- The pass over an object of any of the kinds.
unfoldable pub reconcile_dependent :
    StatusConditions → OwnedObjects → Reader → Dependent → Result Status
reconcile_dependent sc w r (a_class c) = reconcile_agent_class sc r c >>= λ s. ok (basic s)
reconcile_dependent sc w r (a_tool t) = reconcile_tool sc r t >>= λ s. ok (of_tool s)
reconcile_dependent sc w r (a_set t) = reconcile_tool_set sc r t >>= λ s. ok (of_set s)
reconcile_dependent sc w r (a_model m) = reconcile_model sc r m >>= λ s. ok (basic s)
reconcile_dependent sc w r (a_skill k) = reconcile_skill sc r k >>= λ s. ok (of_skill s)
reconcile_dependent sc w r (a_credential c) =
    reconcile_credential sc r c >>= λ s. ok (of_credential s)
reconcile_dependent sc w r (a_trigger t) = trigger_pass sc r w t >>= λ s. ok (of_trigger s)
reconcile_dependent sc w r (a_policy p) = ok (basic (reconcile_policy sc p))
reconcile_dependent sc w r (a_tool_policy p) = ok (basic (reconcile_tool_policy sc p))
reconcile_dependent sc w r (a_prompt p) = ok (basic (reconcile_prompt_template sc p))

-- Two clusters answer a lookup alike.
abbrev pub AnswersAlike : Reader → Reader → String → Watched × String → Type 0
AnswersAlike r r' ns (of_kind kind, name) = get_object r ns kind name ≡ get_object r' ns kind name
AnswersAlike r r' ns (config_map, name) = r.get_config_map ns name ≡ r'.get_config_map ns name
AnswersAlike r r' ns (secret, name) = r.get_secret ns name ≡ r'.get_secret ns name

module _ (r r' : Reader) (ns : String) where
  resolve_ref_targets-frame :
      (ts : List Target)
      → All (AnswersAlike r r' ns) (lookups_of_targets ts)
      → resolve_ref_targets r ns ts ≡ resolve_ref_targets r' ns ts
  unfolding resolve_ref_targets
  resolve_ref_targets-frame [] h = refl
  resolve_ref_targets-frame (t ∷ ts) (h, hs) = rw (h, resolve_ref_targets-frame ts hs) refl

  agent_alike :
      (name : String)
      → AnswersAlike r r' ns (of_kind agent, name)
      → r.get_agent ns name ≡ r'.get_agent ns name
  agent_alike name h = got_map-injective an_agent (λ a b e. cc) _ _ h

  credential_alike :
      (name : String)
      → AnswersAlike r r' ns (of_kind credential, name)
      → r.get_credential ns name ≡ r'.get_credential ns name
  credential_alike name h = got_map-injective credential_object (λ a b e. cc) _ _ h

module _ (r r' : Reader) (t : Trigger) where
  agent_endpoint-frame :
      AnswersAlike r r' t.meta.ns (of_kind agent, t.spec.agent_ref.name)
      → agent_endpoint r t ≡ agent_endpoint r' t
  unfolding agent_endpoint
  agent_endpoint-frame h =
      rw (agent_endpoint, agent_alike r r' t.meta.ns t.spec.agent_ref.name h) refl

  secret_name_of-frame :
      (ref : Option LocalReference)
      → All (AnswersAlike r r' t.meta.ns) (lookups_of_targets (optional_target credential ref))
      → secret_name_of r t ref ≡ secret_name_of r' t ref
  unfolding secret_name_of
  secret_name_of-frame none h = refl
  secret_name_of-frame (some ref) (h, _) =
      rw (secret_name_of, credential_alike r r' t.meta.ns ref.name h) refl

module _ (sc : StatusConditions) (r r' : Reader) where
  tool-frame :
      (t : Tool)
      → All (AnswersAlike r r' t.meta.ns) (lookups (a_tool t))
      → reconcile_tool sc r t ≡ reconcile_tool sc r' t
  unfolding reconcile_tool
  tool-frame t h = elim (Option-cases (validate_tool t.spec)) [
    | inr (e, invalid) ↦ rw (reconcile_tool, invalid) refl
    | inl valid ↦
        rw (reconcile_tool, valid, resolve_ref_targets-frame r r' t.meta.ns (tool_targets t) h) refl
  ]

  skill-frame :
      (k : Skill)
      → All (AnswersAlike r r' k.meta.ns) (lookups (a_skill k))
      → reconcile_skill sc r k ≡ reconcile_skill sc r' k
  unfolding reconcile_skill
  skill-frame k h = elim (Option-cases (validate_skill k.spec)) [
    | inr (e, invalid) ↦ rw (reconcile_skill, invalid) refl
    | inl valid ↦ elim (Option-cases k.spec.content_config_map_ref) [
      | inl inline ↦ rw (reconcile_skill, valid, inline) refl
      | inr (ref, named) ↦
          let (same, _) = rw named at h in
          let alike : r.get_config_map k.meta.ns ref.name ≡ r'.get_config_map k.meta.ns ref.name =
            same in
          ground (arith, valid, named, alike)
    ]
  ]

  trigger-frame :
      (w : OwnedObjects) (t : Trigger)
      → All (AnswersAlike r r' t.meta.ns) (lookups (a_trigger t))
      → trigger_pass sc r w t ≡ trigger_pass sc r' w t
  unfolding trigger_pass
  trigger-frame w t (h, hs) = elim (Option-cases (validate_trigger t.spec)) [
    | inr (e, invalid) ↦ rw (trigger_pass, invalid) refl
    | inl valid ↦
        let reached = agent_endpoint-frame r r' t h in
        elim (Result-cases (agent_endpoint r' t)) [
          | inr (e, stops) ↦ rw (trigger_pass, valid, reached, stops) refl
          | inl (endpoint, goes) ↦
              rw
                (
                  trigger_pass,
                  valid,
                  reached,
                  goes,
                  secret_name_of-frame r r' t t.spec.credential_ref hs,
                )
                refl
        ]
  ]

-- Two clusters that answer alike each lookup of a pass lead to the same status or error.
pub reconcile_dependent-frame :
    (sc : StatusConditions) (w : OwnedObjects) (r r' : Reader) (o : Dependent)
    → All (AnswersAlike r r' (dependent_meta o).ns) (lookups o)
    → reconcile_dependent sc w r o ≡ reconcile_dependent sc w r' o
unfolding reconcile_dependent reconcile_agent_class reconcile_tool_set reconcile_model
    reconcile_credential
reconcile_dependent-frame sc w r r' (a_class c) h =
    rw (resolve_ref_targets-frame r r' c.meta.ns _ h) refl
reconcile_dependent-frame sc w r r' (a_tool t) h = rw (tool-frame sc r r' t h) refl
reconcile_dependent-frame sc w r r' (a_set t) h =
    rw (resolve_ref_targets-frame r r' t.meta.ns _ h) refl
reconcile_dependent-frame sc w r r' (a_model m) h =
    rw (resolve_ref_targets-frame r r' m.meta.ns _ h) refl
reconcile_dependent-frame sc w r r' (a_skill k) h = rw (skill-frame sc r r' k h) refl
reconcile_dependent-frame sc w r r' (a_credential c) (h, _) = rw (reconcile_credential, h) refl
reconcile_dependent-frame sc w r r' (a_trigger t) h = rw (trigger-frame sc r r' w t h) refl
reconcile_dependent-frame sc w r r' (a_policy p) h = refl
reconcile_dependent-frame sc w r r' (a_tool_policy p) h = refl
reconcile_dependent-frame sc w r r' (a_prompt p) h = refl
