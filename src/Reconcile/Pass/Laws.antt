-- ===== src/Reconcile/Pass/Laws.antt =====
-- The verdict of a pass: Ready exactly if everything holds, and otherwise Degraded.
use mathlib.Core.Path.{subst}
use agent_plane.Base.{
  String, Bool, true, false, Option, none, some, List, [], is_empty, ◌==◌, ◌≡◌, ◌⊎◌, refl, sym, ◌∙◌,
  ap, arith, Bool-cases, inl, inr,
}
use agent_plane.Api.{
  Agent, AgentStatus, Condition, agent_phase_ready, agent_phase_degraded, condition_ready,
  condition_resolved, condition_policy_compliant,
}
use agent_plane.Policy.Violations.Laws.{nil_of_is_empty}
use agent_plane.Validation.Agents.{validate_agent}
use agent_plane.Cluster.{ok, set_condition, find_condition}
use agent_plane.Resolve.Pass.{Resolution, resolve_refs}
use agent_plane.Resolve.Hash.{config_hash}
use agent_plane.Reconcile.Pass.Branches.{reconcile_agent-cases}
use agent_plane.Reconcile.Pass.{
  Env, mark, all_violations, invalid_status, unresolved_status, forbidden_status, ready_status,
  judge, reconcile_agent,
}

-- The status of a condition, where the Agent has it.
abbrev pub status_in : String → List Condition → Option Bool
status_in type_of cs = elim (find_condition type_of cs) [ none ↦ none | some c ↦ some c.status ]

abbrev pub status_of : String → AgentStatus → Option Bool
status_of type_of st = status_in type_of st.conditions

-- What admits an Agent: its spec is valid, its references are there, and nothing is violated.
pub record IsAdmitted (env : Env) (a : Agent) (res : Resolution) : Type 0 where
  pub valid : validate_agent env.parse_quantity a.spec ≡ none
  pub resolved : resolve_refs env.reader a ≡ ok res
  pub complete : res.missing ≡ []
  pub allowed : all_violations env a res ≡ []

pub record IsReady (env : Env) (a : Agent) (res : Resolution) (st : AgentStatus) : Type 0 where
  pub phase : st.phase ≡ agent_phase_ready
  pub hash : st.resolved_config_hash ≡ config_hash env.sha256 res.refs
  pub ready : status_of condition_ready st ≡ some true
  pub resolved : status_of condition_resolved st ≡ some true
  pub compliant : status_of condition_policy_compliant st ≡ some true
  pub generation : st.observed_generation ≡ a.meta.generation

pub record IsDegraded (a : Agent) (st : AgentStatus) : Type 0 where
  pub phase : st.phase ≡ agent_phase_degraded
  pub hash : st.resolved_config_hash ≡ ""
  pub ready : status_of condition_ready st ≡ some false
  pub generation : st.observed_generation ≡ a.meta.generation

module _ (env : Env) (a : Agent) where
  mark_self :
      (cs : List Condition) (type_of : String) (status : Bool) (reason message : String)
      → status_in type_of
          (set_condition env.conditions cs type_of status reason message a.meta.generation)
        ≡ some status
  mark_self cs type_of status reason message =
      rw
        (
          status_in,
          env.conditions.set_self cs (record {
            type_of = type_of;
            status = status;
            reason = reason;
            message = message;
            observed_generation = a.meta.generation;
          }),
        )
        refl

  mark_other :
      (cs : List Condition) (type_of other : String) (status : Bool) (reason message : String)
      → (type_of == other) ≡ false
      → status_in other
          (set_condition env.conditions cs type_of status reason message a.meta.generation)
        ≡ status_in other cs
  mark_other cs type_of other status reason message h =
      rw
        (
          status_in,
          env.conditions.set_other cs
              (record {
                type_of = type_of;
                status = status;
                reason = reason;
                message = message;
                observed_generation = a.meta.generation;
              })
              other h,
        )
        refl

  ready_status-IsReady :
      (res : Resolution) (st : AgentStatus)
      → st.observed_generation ≡ a.meta.generation
      → IsReady env a res (ready_status env a res st)
  unfolding ready_status
  ready_status-IsReady res st g = record {
    phase = refl;
    hash = refl;
    ready = mark_self _ condition_ready true _ _;
    resolved =
        mark_other _ condition_ready condition_resolved true _ _ refl
        ∙ mark_other _ condition_policy_compliant condition_resolved true _ _ refl
        ∙ mark_self _ condition_resolved true _ _;
    compliant =
        mark_other _ condition_ready condition_policy_compliant true _ _ refl
        ∙ mark_self _ condition_policy_compliant true _ _;
    generation = g;
  }

  degraded_lem :
      (reason message : String) (st : AgentStatus)
      → st.phase ≡ agent_phase_degraded
      → st.resolved_config_hash ≡ ""
      → st.observed_generation ≡ a.meta.generation
      → IsDegraded a (mark env a condition_ready false reason message st)
  degraded_lem reason message st p h g = record {
    phase = p;
    hash = h;
    ready = mark_self st.conditions condition_ready false reason message;
    generation = g;
  }

  -- The last part of a pass.
  judge-cases :
      (res : Resolution) (st : AgentStatus)
      → st.observed_generation ≡ a.meta.generation
      → ((res.missing ≡ [])
          × (all_violations env a res ≡ [])
          × IsReady env a res (judge env a res st))
        ⊎ (((res.missing ≡ []) → (all_violations env a res ≡ []) → ⊥)
            × IsDegraded a (judge env a res st))
  unfolding judge unresolved_status forbidden_status
  judge-cases res st g = elim (Bool-cases (is_empty res.missing)) [
    | inr m ↦ rw (judge, m) (inr ((λ n x. ground (arith, m, n)), degraded_lem _ _ _ refl refl g))
    | inl m ↦ elim (Bool-cases (is_empty (all_violations env a res))) [
      | inl v ↦
          rw (judge, m, v)
            (inl (
              nil_of_is_empty res.missing m,
              nil_of_is_empty (all_violations env a res) v,
              ready_status-IsReady res st g,
            ))
      | inr v ↦
          rw (judge, m, v)
            (inr ((λ n x. ground (arith, v, ap is_empty x)), degraded_lem _ _ _ refl refl g))
    ]
  ]

-- A pass that writes a status either marks the Agent Ready, with its conditions true and the hash of
-- what was resolved, and then the Agent is admitted; or it marks the Agent Degraded, with a false
-- Ready condition and no hash, and then no resolution admits it. Both observe the generation.
pub reconcile_agent-verdict :
    (env : Env) (a : Agent) (st : AgentStatus)
    → reconcile_agent env a ≡ ok st
    → ((res : Resolution) × IsAdmitted env a res × IsReady env a res st)
      ⊎ (((res : Resolution) → IsAdmitted env a res → ⊥) × IsDegraded a st)
unfolding invalid_status
reconcile_agent-verdict env a st e = elim (reconcile_agent-cases env a st e) [
  | inl (x, invalid, same) ↦ inr (
    (λ res h. ground (arith, h.valid, invalid)),
    subst (IsDegraded a) same (degraded_lem env a _ _ _ refl refl refl),
  )
  | inr (res, st', valid, resolved, generation, same) ↦
      elim (judge-cases env a res st' generation) [
        | inl (complete, allowed, ready) ↦ inl (
          res,
          record { valid = valid; resolved = resolved; complete = complete; allowed = allowed },
          subst (IsReady env a res) same ready,
        )
        | inr (refused, degraded) ↦ inr (
          (λ other h.
              let one : other ≡ res = ground (arith, h.resolved, resolved) in
              refused (ap (λ x. x.missing) (sym one) ∙ h.complete)
                (ap (all_violations env a) (sym one) ∙ h.allowed)),
          subst (IsDegraded a) same degraded,
        )
      ]
]
