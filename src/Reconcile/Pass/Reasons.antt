-- ===== src/Reconcile/Pass/Reasons.antt =====
-- The reason that a pass gives for the Ready condition.
use mathlib.Core.Path.{subst}
use agent_plane.Base.{
  ℕ, String, Bool, false, Option, none, some, List, is_empty, ◌==◌, ◌≡◌, ◌⊎◌, refl, sym, ◌∙◌, ap,
  Bool-cases, inl, inr,
}
use agent_plane.Api.{
  Agent, AgentStatus, Condition, condition_ready, reason_invalid_spec, reason_reconciled,
  reason_reference_missing, reason_policy_violation,
}
use agent_plane.Validation.Agents.{validate_agent}
use agent_plane.Cluster.{ok, find_condition, set_condition, StatusConditions}
use agent_plane.Resolve.Pass.{Resolution}
use agent_plane.Reconcile.Pass.Branches.{reconcile_agent-cases}
use agent_plane.Reconcile.Pass.{
  Env, all_violations, invalid_status, unresolved_status, forbidden_status, ready_status, judge,
  reconcile_agent,
}

-- The Ready condition is false because of the spec, with the message.
abbrev pub SaysInvalid : String → ℕ → List Condition → Type 0
SaysInvalid message generation cs =
    find_condition condition_ready cs
    ≡ some (record {
      type_of = condition_ready;
      status = false;
      reason = reason_invalid_spec;
      message = message;
      observed_generation = generation;
    })

-- There is a Ready condition, and its reason is another.
abbrev pub HasOtherReason : List Condition → Type 0
HasOtherReason cs =
    (c : Condition) × (find_condition condition_ready cs ≡ some c)
    × ((c.reason == reason_invalid_spec) ≡ false)

-- A spec that is not valid is what the Ready condition is about, and only such a spec.
abbrev pub Reports : Option String → ℕ → List Condition → Type 0
Reports problem generation cs =
    ((problem ≡ none) × HasOtherReason cs)
    ⊎ ((e : String) × (problem ≡ some e) × SaysInvalid e generation cs)

pub set_other_reason :
    (sc : StatusConditions) (cs : List Condition) (status : Bool) (reason message : String) (g : ℕ)
    → (reason == reason_invalid_spec) ≡ false
    → HasOtherReason (set_condition sc cs condition_ready status reason message g)
set_other_reason sc cs status reason message g h = (_, sc.set_self cs _, h)

judge-HasOtherReason :
    (env : Env) (a : Agent) (res : Resolution) (st : AgentStatus)
    → HasOtherReason (judge env a res st).conditions
unfolding judge unresolved_status forbidden_status ready_status
judge-HasOtherReason env a res st = elim (Bool-cases (is_empty res.missing)) [
  | inr m ↦ rw (judge, m) (set_other_reason env.conditions _ _ reason_reference_missing _ _ refl)
  | inl m ↦ elim (Bool-cases (is_empty (all_violations env a res))) [
    | inl v ↦ rw (judge, m, v) (set_other_reason env.conditions _ _ reason_reconciled _ _ refl)
    | inr v ↦
        rw (judge, m, v) (set_other_reason env.conditions _ _ reason_policy_violation _ _ refl)
  ]
]

pub reconcile_agent-Reports :
    (env : Env) (a : Agent) (st : AgentStatus)
    → reconcile_agent env a ≡ ok st
    → Reports (validate_agent env.parse_quantity a.spec) a.meta.generation st.conditions
unfolding invalid_status
reconcile_agent-Reports env a st e = elim (reconcile_agent-cases env a st e) [
  | inl (x, invalid, same) ↦ inr (
    x,
    invalid,
    ap (λ s. find_condition condition_ready s.conditions) (sym same) ∙ env.conditions.set_self _ _,
  )
  | inr (res, st', valid, resolved, generation, same) ↦
      inl
        (valid, subst (λ s. HasOtherReason s.conditions) same (judge-HasOtherReason env a res st'))
]
