-- ===== src/Controllers/Skills.antt =====
-- When a Skill is Ready.
use agent_plane.Base.{
  String, ◌<>◌, quote, Bool, true, false, none, some, Option, ◌≡◌, ◌↔◌, refl, sym, ◌∙◌, ap, arith,
  Bool-cases, Option-cases, inl, inr,
}
use agent_plane.Api.{
  ConfigMapKeyReference, Skill, SkillStatus, condition_ready, reason_reconciled,
  reason_reference_missing, reason_invalid_spec,
}
use agent_plane.Validation.Kinds.{validate_skill}
use agent_plane.Cluster.{Got-cases, found, Reader, ok, StatusConditions}
use agent_plane.Reconcile.Pass.Laws.{status_in}
use agent_plane.Controllers.{has_key, skill_status, skill_from, reconcile_skill}
use agent_plane.Controllers.Laws.{set_self_status}

-- Whether the key that a Skill names, if it names one, is there.
abbrev pub content_exists : Reader → String → Option ConfigMapKeyReference → Bool
content_exists r ns none = true
content_exists r ns (some ref) = elim (r.get_config_map ns ref.name) [
  | found cm ↦ has_key ref.key cm.entries
  | _ ↦ false
]

module _ (sc : StatusConditions) where
  skill_verdict :
      (s : Skill) (source : String) (b : Bool) (reason message : String) (st : SkillStatus)
      → skill_status sc s source b reason message ≡ st
      → status_in condition_ready st.conditions ≡ some b
  unfolding skill_status
  skill_verdict s source b reason message st same =
      ap (λ x. status_in condition_ready x.conditions) (sym same)
      ∙ set_self_status sc s.status.conditions condition_ready b reason message s.meta.generation

  skill_from_verdict :
      (r : Reader) (s : Skill) (ref : ConfigMapKeyReference) (st : SkillStatus)
      → skill_from sc r s ref ≡ ok st
      → status_in condition_ready st.conditions ≡ some (content_exists r s.meta.ns (some ref))
  unfolding skill_from
  skill_from_verdict r s ref st h = elim (Got-cases (r.get_config_map s.meta.ns ref.name)) [
    | inr (inr (x, e)) ↦ ground (arith, h, e)
    | inr (inl e) ↦
        let gone = "configmap " <> quote ref.name <> " not found" in
        rw (content_exists, e)
          (skill_verdict s "configMap" false reason_reference_missing gone st
            (ground (arith, h, e)))
    | inl (cm, e) ↦ elim (Bool-cases (has_key ref.key cm.entries)) [
      | inl k ↦
          rw (content_exists, e, k)
            (skill_verdict s "configMap" true reason_reconciled
              "skill content resolved from configmap" st (ground (arith, h, e, k)))
      | inr k ↦
          let gone = "key " <> quote ref.key <> " not present in configmap " <> quote ref.name in
          rw (content_exists, e, k)
            (skill_verdict s "configMap" false reason_reference_missing gone st
              (ground (arith, h, e, k)))
    ]
  ]

  -- A pass over a Skill that writes a status marks it Ready exactly if its spec is valid and, where
  -- its content is in a ConfigMap, the ConfigMap exists and has the key.
  pub reconcile_skill-ready_iff :
      (r : Reader) (s : Skill) (st : SkillStatus)
      → reconcile_skill sc r s ≡ ok st
      → (status_in condition_ready st.conditions ≡ some true) ↔ (
          (validate_skill s.spec ≡ none)
          × (content_exists r s.meta.ns s.spec.content_config_map_ref ≡ true))
  unfolding reconcile_skill
  reconcile_skill-ready_iff r s st h = elim (Option-cases (validate_skill s.spec)) [
    | inr (e, invalid) ↦
        let status =
          skill_verdict s "" false reason_invalid_spec e st (ground (arith, h, invalid)) in
        ((λ x. ground (arith, x, status)), (λ x. ground (arith, x.0, invalid)))
    | inl valid ↦ elim (Option-cases s.spec.content_config_map_ref) [
      | inl inline ↦
          let status =
            skill_verdict s "inline" true reason_reconciled "inline skill content" st
              (ground (arith, h, valid, inline)) in
          ((λ x. (valid, rw inline refl)), (λ x. status))
      | inr (ref, named) ↦
          let status = skill_from_verdict r s ref st (ground (arith, h, valid, named)) in
          (
            (λ x. (valid, rw named ground (arith, x, status))),
            (λ x. ground (arith, x.1, status, named)),
          )
    ]
  ]
