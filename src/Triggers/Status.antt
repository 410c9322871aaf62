-- ===== src/Triggers/Status.antt =====
-- The statuses that a pass over a Trigger writes.
use agent_plane.Base.{
  String, true, false, some, ◌<◌, ltb, ◌≡◌, ◌⊎◌, sym, ◌∙◌, ap, arith, Bool-cases, inl, inr,
}
use agent_plane.Api.{Trigger, TriggerStatus, condition_ready, reason_reconciled, reason_progressing}
use agent_plane.Cluster.{StatusConditions, set_condition}
use agent_plane.Reconcile.Pass.Laws.{status_in}
use agent_plane.Triggers.{
  trigger_phase_pending, trigger_phase_running, trigger_phase_degraded, degrade_trigger,
  available_status,
}
use agent_plane.Controllers.Laws.{set_self_status}

module _ (sc : StatusConditions) (t : Trigger) where
  -- The status of a Trigger that is given up.
  pub degraded_status :
      (before : TriggerStatus) (reason message : String) (st : TriggerStatus)
      → degrade_trigger sc t before reason message ≡ st
      → (st.observed_generation ≡ before.observed_generation)
        × (st.phase ≡ trigger_phase_degraded)
        × (status_in condition_ready st.conditions ≡ some false)
  unfolding degrade_trigger
  degraded_status before reason message st same = (
    ap (λ s. s.observed_generation) (sym same),
    ap (λ s. s.phase) (sym same),
    ap (λ s. status_in condition_ready s.conditions) (sym same)
        ∙ set_self_status sc before.conditions condition_ready false reason message
            t.meta.generation,
  )

  -- The status of a Trigger whose adapter is written.
  pub running_status :
      (before st : TriggerStatus)
      → available_status sc t before ≡ st
      → (st.observed_generation ≡ before.observed_generation)
        × (st.agent_endpoint ≡ before.agent_endpoint)
        × (st.available_replicas ≡ before.available_replicas)
        × (((st.phase ≡ trigger_phase_running)
              × (status_in condition_ready st.conditions ≡ some true)
              × (0 < st.available_replicas))
            ⊎ ((st.phase ≡ trigger_phase_pending)
                × (status_in condition_ready st.conditions ≡ some false)
                × (st.available_replicas ≡ 0)))
  unfolding available_status
  running_status before st same = elim (Bool-cases (ltb 0 before.available_replicas)) [
    | inl e ↦
        let written : record before {
          phase = trigger_phase_running;
          conditions =
              set_condition sc before.conditions condition_ready true reason_reconciled
                "adapter running" t.meta.generation;
        }
            ≡ st =
          ground (arith, same, e) in
        let ready : status_in condition_ready st.conditions ≡ some true =
          ap (λ s. status_in condition_ready s.conditions) (sym written)
          ∙ set_self_status sc before.conditions condition_ready true reason_reconciled
              "adapter running" t.meta.generation in
        (
          ap (λ s. s.observed_generation) (sym written),
          ap (λ s. s.agent_endpoint) (sym written),
          ap (λ s. s.available_replicas) (sym written),
          inl (
            ap (λ s. s.phase) (sym written),
            ready,
            ground (arith, ap (λ s. s.available_replicas) written, e),
          ),
        )
    | inr e ↦
        let written : record before {
          phase = trigger_phase_pending;
          conditions =
              set_condition sc before.conditions condition_ready false reason_progressing
                "waiting for the adapter to become available" t.meta.generation;
        }
            ≡ st =
          ground (arith, same, e) in
        let ready : status_in condition_ready st.conditions ≡ some false =
          ap (λ s. status_in condition_ready s.conditions) (sym written)
          ∙ set_self_status sc before.conditions condition_ready false reason_progressing
              "waiting for the adapter to become available" t.meta.generation in
        (
          ap (λ s. s.observed_generation) (sym written),
          ap (λ s. s.agent_endpoint) (sym written),
          ap (λ s. s.available_replicas) (sym written),
          inr (
            ap (λ s. s.phase) (sym written),
            ready,
            ground (arith, ap (λ s. s.available_replicas) written, e),
          ),
        )
  ]
