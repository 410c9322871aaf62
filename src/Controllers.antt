-- ===== src/Controllers.antt =====
-- The controllers of the referenced kinds in internal/controller: refutil.go, and the pass of
-- model_controller.go, tool_controller.go, toolset_controller.go, agentclass_controller.go,
-- policy_controller.go, toolpolicy_controller.go, prompttemplate_controller.go, skill_controller.go and
-- credential_controller.go over an object that was read: the status that it writes.
pub mod Laws
pub mod Sets
pub mod Skills
mod Examples
use agent_plane.Base.{
  ℕ, String, ◌<>◌, ◌-◌, Bool, true, false, ◌||◌, Option, none, some, List, [], ◌∷◌, ◌++◌, ◌==◌,
  is_empty, if◌then◌else◌, length, quote, show_list,
}
use agent_plane.Api.{
  LocalReference, ConfigMapKeyReference, Condition, BasicStatus, Model, ToolStatus, Tool, ToolSet,
  ToolSetStatus, AgentClass, Policy, ToolPolicy, PromptTemplate, Skill, SkillStatus, Credential,
  CredentialStatus, ObjectMeta, condition_ready, condition_resolved, reason_reconciled,
  reason_reference_missing, reason_invalid_spec, reason_secret_missing,
}
use agent_plane.Validation.Kinds.{validate_tool, validate_tool_policy, validate_skill}
use agent_plane.Cluster.{
  Got, found, not_found, failed, Reader, Result, ok, err, ◌>>=◌, StatusConditions, set_condition,
}
use agent_plane.Resolve.Targets.{
  credential, mcp_server, agent, tool, model, prompt_template, policy, Object, get_object, Target,
  targets_for, optional_target,
}
use agent_plane.Resolve.Pass.{missing_name}

-- The switch of `resolveTargets` on the error of one `Get`.
note_target : Target → Got Object → Result (List String) → Result (List String)
note_target t (found o) rest = rest
note_target t not_found rest = rest >>= λ missing. ok (missing_name t ∷ missing)
note_target t (failed e) rest = err e

-- `resolveTargets` of refutil.go. The first error ends it.
unfoldable pub resolve_ref_targets : Reader → String → List Target → Result (List String)
unfolding note_target
resolve_ref_targets r ns [] = ok []
resolve_ref_targets r ns (t ∷ ts) =
    note_target t (get_object r ns t.kind t.name) (resolve_ref_targets r ns ts)

abbrev pub tool_targets : Tool → List Target
tool_targets t =
    optional_target mcp_server t.spec.mcp_server_ref ++ optional_target agent t.spec.agent_ref

-- Whether the map of a ConfigMap or a Secret has the key.
pub has_key : String → List (String × String) → Bool
has_key key [] = false
has_key key ((k, v) ∷ rest) = k == key || has_key key rest

module _ (sc : StatusConditions) where
  -- `applyReadyFromMissing`.
  unfoldable pub apply_ready_from_missing :
      List Condition → List String → ℕ → String → List Condition
  apply_ready_from_missing cs missing generation ready_message =
      let message = "unresolved references: " <> show_list missing in
      if is_empty missing
      then set_condition sc
          (set_condition sc cs condition_resolved true reason_reconciled "all references resolved"
            generation)
          condition_ready true reason_reconciled ready_message generation
      else set_condition sc
          (set_condition sc cs condition_resolved false reason_reference_missing message generation)
          condition_ready false reason_reference_missing message generation

  -- A status with its generation, and the Ready condition set.
  abbrev marked : BasicStatus → ObjectMeta → Bool → String → String → BasicStatus
  marked st meta status reason message = record {
    conditions =
        set_condition sc st.conditions condition_ready status reason message meta.generation;
    observed_generation = meta.generation;
  }

  basic_status : BasicStatus → ObjectMeta → String → List String → BasicStatus
  basic_status st meta ready_message missing = record {
    conditions = apply_ready_from_missing st.conditions missing meta.generation ready_message;
    observed_generation = meta.generation;
  }

  unfoldable pub reconcile_model : Reader → Model → Result BasicStatus
  unfolding basic_status
  reconcile_model r m =
      resolve_ref_targets r m.meta.ns (optional_target credential m.spec.credential_ref)
      >>= λ missing. ok (basic_status m.status m.meta "model ready" missing)

  unfoldable pub reconcile_tool : Reader → Tool → Result ToolStatus
  reconcile_tool r t = elim (validate_tool t.spec) [
    | some e ↦ ok (record (t.status) {
      conditions =
          set_condition sc t.status.conditions condition_ready false reason_invalid_spec e
            t.meta.generation;
      observed_generation = t.meta.generation;
    })
    | none ↦ resolve_ref_targets r t.meta.ns (tool_targets t) >>= λ missing. ok (record (t.status) {
      conditions =
          apply_ready_from_missing t.status.conditions missing t.meta.generation "tool ready";
      observed_generation = t.meta.generation;
    })
  ]

  unfoldable pub reconcile_tool_set : Reader → ToolSet → Result ToolSetStatus
  reconcile_tool_set r s =
      resolve_ref_targets r s.meta.ns (targets_for tool s.spec.tool_refs) >>= λ missing.
      ok (record {
        conditions =
            apply_ready_from_missing s.status.conditions missing s.meta.generation
              "all member tools resolved";
        observed_generation = s.meta.generation;
        resolved_tools = length s.spec.tool_refs - length missing;
      })

  unfoldable pub reconcile_agent_class : Reader → AgentClass → Result BasicStatus
  unfolding basic_status
  reconcile_agent_class r c =
      resolve_ref_targets r c.meta.ns (
        optional_target model c.spec.default_model_ref
        ++ (optional_target prompt_template c.spec.default_prompt_ref
            ++ targets_for policy c.spec.default_policy_refs))
      >>= λ missing. ok (basic_status c.status c.meta "agent class ready" missing)

  unfoldable pub reconcile_policy : Policy → BasicStatus
  reconcile_policy p = marked p.status p.meta true reason_reconciled "policy ready"

  unfoldable pub reconcile_prompt_template : PromptTemplate → BasicStatus
  reconcile_prompt_template p =
      marked p.status p.meta true reason_reconciled "prompt template ready"

  unfoldable pub reconcile_tool_policy : ToolPolicy → BasicStatus
  reconcile_tool_policy p = elim (validate_tool_policy p.spec) [
    | some e ↦ marked p.status p.meta false reason_invalid_spec e
    | none ↦ marked p.status p.meta true reason_reconciled "tool policy ready"
  ]

  skill_status : Skill → String → Bool → String → String → SkillStatus
  skill_status s source status reason message = record {
    conditions =
        set_condition sc s.status.conditions condition_ready status reason message
          s.meta.generation;
    observed_generation = s.meta.generation;
    content_source = source;
  }

  skill_from : Reader → Skill → ConfigMapKeyReference → Result SkillStatus
  unfolding skill_status has_key
  skill_from r s ref = elim (r.get_config_map s.meta.ns ref.name) [
    | failed e ↦ err e
    | not_found ↦ ok (
        skill_status s "configMap" false reason_reference_missing
          ("configmap " <> quote ref.name <> " not found"))
    | found cm ↦ ok (
        if has_key ref.key cm.entries
        then skill_status s "configMap" true reason_reconciled
            "skill content resolved from configmap"
        else skill_status s "configMap" false reason_reference_missing
            ("key " <> quote ref.key <> " not present in configmap " <> quote ref.name))
  ]

  unfoldable pub reconcile_skill : Reader → Skill → Result SkillStatus
  unfolding skill_status skill_from
  reconcile_skill r s = elim (validate_skill s.spec) [
    | some e ↦ ok (skill_status s "" false reason_invalid_spec e)
    | none ↦ elim s.spec.content_config_map_ref [
      | none ↦ ok (skill_status s "inline" true reason_reconciled "inline skill content")
      | some ref ↦ skill_from r s ref
    ]
  ]

  -- `setSecretStatus`.
  set_secret_status : Credential → Bool → String → CredentialStatus
  set_secret_status c is_found message = record {
    conditions =
        set_condition sc c.status.conditions condition_ready is_found
          (if is_found then reason_reconciled else reason_secret_missing) message c.meta.generation;
    observed_generation = c.meta.generation;
    secret_found = some is_found;
  }

  unfoldable pub reconcile_credential : Reader → Credential → Result CredentialStatus
  unfolding set_secret_status has_key
  reconcile_credential r c =
      let name = c.spec.secret_ref.name in
      elim (r.get_secret c.meta.ns name) [
        | failed e ↦ err e
        | not_found ↦ ok (set_secret_status c false ("secret " <> quote name <> " not found"))
        | found s ↦ ok (
            if has_key c.spec.secret_ref.key s.entries
            then set_secret_status c true "secret and key present"
            else set_secret_status c false
                ("key " <> quote c.spec.secret_ref.key <> " not present in secret " <> quote name))
      ]
