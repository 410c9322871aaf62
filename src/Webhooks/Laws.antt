-- ===== src/Webhooks/Laws.antt =====
-- Admission and the pass of the controller apply the same validation.
use mathlib.Core.Path.{subst}
use agent_plane.Base.{
  ℕ, String, false, List, is_empty, ◌≡◌, refl, sym, ◌∙◌, ap, arith, Bool-cases, Option-cases, inl,
  inr,
}
use agent_plane.Api.{
  Agent, AgentStatus, Condition, Tool, ToolStatus, condition_ready, reason_invalid_spec,
  reason_reconciled, reason_reference_missing,
}
use agent_plane.Validation.Kinds.{validate_tool}
use agent_plane.Cluster.{ok, Result-cases, Reader, StatusConditions, find_condition, set_condition}
use agent_plane.Reconcile.Pass.{Env, reconcile_agent}
use agent_plane.Reconcile.Pass.Reasons.{
  Reports, HasOtherReason, set_other_reason, reconcile_agent-Reports,
}
use agent_plane.Controllers.{
  tool_targets, resolve_ref_targets, apply_ready_from_missing, reconcile_tool,
}
use agent_plane.Webhooks.{
  RuntimeObject, of_agent, of_tool, validate_agent_create, validate_agent_update,
  validate_tool_create, validate_tool_update,
}

-- Whatever the Agent was before: creating it and updating it to this spec meet the same answer, and a
-- pass over it that writes a status gives InvalidSpec as the reason of a false Ready condition exactly if
-- admission refuses the Agent, with the text of that refusal.
pub admission-Reports :
    (env : Env) (old : RuntimeObject) (a : Agent) (st : AgentStatus)
    → reconcile_agent env a ≡ ok st
    → (validate_agent_create env.parse_quantity (of_agent a)
        ≡ validate_agent_update env.parse_quantity old (of_agent a))
      × Reports
          (validate_agent_update env.parse_quantity old (of_agent a))
          a.meta.generation
          st.conditions
unfolding validate_agent_create validate_agent_update
admission-Reports env old a st ran = (refl, reconcile_agent-Reports env a st ran)

module _ (sc : StatusConditions) where
  apply_ready-HasOtherReason :
      (cs : List Condition) (missing : List String) (g : ℕ) (message : String)
      → HasOtherReason (apply_ready_from_missing sc cs missing g message)
  unfolding apply_ready_from_missing
  apply_ready-HasOtherReason cs missing g message = elim (Bool-cases (is_empty missing)) [
    | inl m ↦ rw (apply_ready_from_missing, m) (set_other_reason sc _ _ reason_reconciled _ _ refl)
    | inr m ↦
        rw (apply_ready_from_missing, m) (set_other_reason sc _ _ reason_reference_missing _ _ refl)
  ]

  -- The same of a Tool.
  pub tool_admission-Reports :
      (r : Reader) (old : RuntimeObject) (t : Tool) (st : ToolStatus)
      → reconcile_tool sc r t ≡ ok st
      → (validate_tool_create (of_tool t) ≡ validate_tool_update old (of_tool t))
        × Reports (validate_tool_update old (of_tool t)) t.meta.generation st.conditions
  unfolding validate_tool_create validate_tool_update reconcile_tool
  tool_admission-Reports r old t st h = elim (Option-cases (validate_tool t.spec)) [
    | inr (e, invalid) ↦
        let written =
          set_condition sc t.status.conditions condition_ready false reason_invalid_spec e
            t.meta.generation in
        let whole : ToolStatus = record (t.status) {
          conditions = written;
          observed_generation = t.meta.generation;
        } in
        let equal : whole ≡ st = ground (arith, h, invalid) in
        let same : written ≡ st.conditions = ap (λ x. x.conditions) equal in
        (
          refl,
          inr (
            e,
            invalid,
            ap (find_condition condition_ready) (sym same) ∙ sc.set_self t.status.conditions _,
          ),
        )
    | inl valid ↦ elim (Result-cases (resolve_ref_targets r t.meta.ns (tool_targets t))) [
      | inr (x, stops) ↦ ground (arith, h, valid, stops)
      | inl (missing, read) ↦
          let written =
            apply_ready_from_missing sc t.status.conditions missing t.meta.generation
              "tool ready" in
          let whole : ToolStatus = record (t.status) {
            conditions = written;
            observed_generation = t.meta.generation;
          } in
          let equal : whole ≡ st = ground (arith, h, valid, read) in
          (
            refl,
            inl (
              valid,
              subst HasOtherReason (ap (λ x. x.conditions) equal) (
                  apply_ready-HasOtherReason t.status.conditions missing t.meta.generation
                    "tool ready"),
            ),
          )
    ]
  ]
