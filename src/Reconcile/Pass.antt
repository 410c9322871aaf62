-- ===== src/Reconcile/Pass.antt =====
-- `Reconcile`, `violationMessage` and `policyCompliantMessage` of
-- internal/controller/agent_controller.go.
pub mod Branches
pub mod Laws
pub mod Payload
pub mod Order
pub mod Served
pub mod Reasons
pub mod Rest
mod Held
mod Examples
use agent_plane.Base.{
  ℕ, String, ◌<>◌, Bool, true, false, Option, none, some, List, [], ◌∷◌, ◌++◌, is_empty,
  if◌then◌else◌, length, show_list,
}
use agent_plane.Api.{
  Agent, AgentSpec, AgentStatus, AgentRuntimeSpec, AgentExposeSpec, Condition, agent_phase_ready,
  agent_phase_degraded, condition_ready, condition_resolved, condition_policy_compliant,
  reason_reconciled, reason_reference_missing, reason_invalid_spec, reason_policy_violation,
}
use agent_plane.Policy.{EffectivePolicy, merge_policies, violations, skill_tool_violations}
use agent_plane.Validation.Agents.{ParseQuantity, validate_agent}
use agent_plane.Cluster.{
  Got, found, not_found, failed, Reader, Result, ok, err, ◌>>=◌, StatusConditions, set_condition,
}
use agent_plane.Resolve.Pass.{Resolution, resolve_refs}
use agent_plane.Resolve.Hash.{config_hash}
use agent_plane.Reconcile.Workloads.{OwnedObjects, reconcile_runtime}
use agent_plane.Reconcile.Peers.{peer_violations, reconcile_peer}

unfoldable pub violation_message : List String → Option EffectivePolicy → String
violation_message vs none = "declaration not permitted: " <> show_list vs
violation_message vs (some p) =
    if is_empty p.sources
    then "declaration not permitted: " <> show_list vs
    else "declaration not permitted: "
      <> show_list vs
      <> " (policies: "
      <> show_list p.sources
      <> ")"

unfoldable pub policy_compliant_message : Option EffectivePolicy → String
policy_compliant_message none = "no policies referenced"
policy_compliant_message (some p) = "references permitted by " <> show_list p.sources

-- What a pass works against: the parameters, and the API server.
pub record Env : Type 0 where
  pub conditions : StatusConditions
  pub parse_quantity : ParseQuantity
  pub sha256 : String → String
  pub registry_url : String
  pub reader : Reader
  pub workloads : OwnedObjects

abbrev pub mark : Env → Agent → String → Bool → String → String → AgentStatus → AgentStatus
mark env a type_of status reason message st = record st {
  conditions =
      set_condition env.conditions st.conditions type_of status reason message a.meta.generation;
}

-- A degraded Agent has no hash.
abbrev pub degraded : AgentStatus → AgentStatus
degraded st = record st { phase = agent_phase_degraded; resolved_config_hash = "" }

-- `violations` with what the skills and the peers add.
abbrev pub all_violations : Env → Agent → Resolution → List String
all_violations env a res =
    violations (merge_policies res.policies res.tool_policies) res.declared
    ++ (skill_tool_violations res.skill_scopes res.declared.tools
        ++ peer_violations env.reader a res.peers)

pub with_runtime :
    Env → Agent → Resolution → Option AgentRuntimeSpec → AgentStatus → Result AgentStatus
with_runtime env a res none st = ok st
with_runtime env a res (some rt) st =
    reconcile_runtime env.parse_quantity env.registry_url env.reader env.workloads a rt res st

pub with_peer : Env → Agent → Option AgentExposeSpec → AgentStatus → Result AgentStatus
with_peer env a none st = ok (record st { peer_endpoint = "" })
with_peer env a (some e) st = reconcile_peer env.workloads a e st

pub invalid_status : Env → Agent → String → AgentStatus → AgentStatus
invalid_status env a e st = mark env a condition_ready false reason_invalid_spec e (degraded st)

pub unresolved_status : Env → Agent → Resolution → AgentStatus → AgentStatus
unresolved_status env a res st =
    let message = "unresolved references: " <> show_list res.missing in
    mark env a condition_ready false reason_reference_missing message
      (mark env a condition_resolved false reason_reference_missing message (degraded st))

abbrev pub resolved_status : Env → Agent → AgentStatus → AgentStatus
resolved_status env a st =
    mark env a condition_resolved true reason_reconciled "all references resolved" st

pub forbidden_status : Env → Agent → Resolution → AgentStatus → AgentStatus
forbidden_status env a res st =
    let message =
      violation_message (all_violations env a res)
        (merge_policies res.policies res.tool_policies) in
    mark env a condition_ready false reason_policy_violation message (
      mark env a condition_policy_compliant false reason_policy_violation message
        (degraded (resolved_status env a st)))

pub ready_status : Env → Agent → Resolution → AgentStatus → AgentStatus
ready_status env a res st =
    let compliant =
      mark env a condition_policy_compliant true reason_reconciled
        (policy_compliant_message (merge_policies res.policies res.tool_policies))
        (resolved_status env a st) in
    mark env a condition_ready true reason_reconciled "agent configuration assembled"
      (record compliant {
        phase = agent_phase_ready;
        resolved_config_hash = config_hash env.sha256 res.refs;
      })

-- The verdict, after the workloads.
pub judge : Env → Agent → Resolution → AgentStatus → AgentStatus
unfolding unresolved_status forbidden_status ready_status
judge env a res st =
    if is_empty res.missing
    then (if is_empty (all_violations env a res)
        then ready_status env a res st
        else forbidden_status env a res st)
    else unresolved_status env a res st

-- A pass over an Agent that was read: the status that it writes, or the error that it returns.
unfoldable pub reconcile_agent : Env → Agent → Result AgentStatus
unfolding with_runtime with_peer invalid_status judge
reconcile_agent env a =
    let st = record (a.status) { observed_generation = a.meta.generation } in
    elim (validate_agent env.parse_quantity a.spec) [
      | some e ↦ ok (invalid_status env a e st)
      | none ↦ resolve_refs env.reader a >>= λ res.
          with_runtime env a res a.spec.runtime (record st { resolved_refs = length res.refs })
          >>= λ st'. with_peer env a a.spec.expose st' >>= λ st''. ok (judge env a res st'')
    ]

-- `Reconcile` of a request: nothing is written where the Agent is gone.
unfoldable pub reconcile : Env → String → String → Result (Option AgentStatus)
reconcile env ns name = elim (env.reader.get_agent ns name) [
  | not_found ↦ ok none
  | failed e ↦ err e
  | found a ↦ reconcile_agent env a >>= λ st. ok (some st)
]
