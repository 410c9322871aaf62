-- ===== src/Reconcile/Examples.antt =====
-- A pass over the Agent of a small cluster, and the theorems about it there.
use agent_plane.Base.{
  String, true, [], ◌∷◌, map, ◌≡◌, ◌⊎◌, refl, All, arith, eq_iff, sort_strings, str_leb, quote,
  digit, keep_first, show_list,
}
use agent_plane.Api.{AgentStatus, Condition, apply_class_defaults}
use agent_plane.Policy.{
  merge_access_rule, merge_policies, violations, skill_tool_violations, permits, match_tool_rule,
}
use agent_plane.Validation.Names.{first_duplicate, duplicate_error}
use agent_plane.Validation.Volumes.{validate_volumes}
use agent_plane.Validation.Agents.{
  validate_agent, validate_workspace, validate_runtime_env, validate_expose,
}
use agent_plane.Reconcile.Peers.{peer_violations}
use agent_plane.Cluster.{ok, upserting}
use agent_plane.Resolve.Targets.{effective_spec, targets_of}
use agent_plane.Resolve.Pass.{Resolution, resolve_refs}
use agent_plane.Resolve.Hash.{config_hash}
use agent_plane.Registry.Config.{resolve_tool, tool_views, resolve_policy, build_config_from}
use agent_plane.Registry.Config.Names.{IsNamed}
use agent_plane.Reconcile.Pass.{Env, policy_compliant_message, reconcile_agent}
use agent_plane.Reconcile.Pass.Laws.{IsAdmitted, IsReady, IsDegraded, reconcile_agent-verdict}
use agent_plane.Reconcile.Pass.Rest.{again, reconcile_agent_twice}
use agent_plane.Reconcile.Pass.Payload.{IsPermittedTool, ready_payload-IsPermittedTool}
use agent_plane.Reconcile.Fixtures.{env_over}
use agent_plane.Samples.{marshal, payload, governed_cluster, governed}

abbrev env : Env
env = env_over governed_cluster

abbrev condition : String → String → Condition
condition type_of message = record {
  type_of = type_of;
  status = true;
  reason = "Reconciled";
  message = message;
  observed_generation = 1;
}

abbrev written : AgentStatus
written = record {
  conditions =
      condition "Resolved" "all references resolved"
      ∷ condition "PolicyCompliant" "references permitted by [Policy/search-only]"
      ∷ condition "Ready" "agent configuration assembled"
      ∷ [];
  observed_generation = 1;
  phase = "Ready";
  resolved_config_hash = "digest";
  resolved_refs = 4;
  runtime_available_replicas = 0;
  peer_endpoint = "";
  workspace_claim = "";
}

runs : reconcile_agent env governed ≡ ok written
unfolding reconcile_agent validate_agent duplicate_error first_duplicate validate_workspace
    validate_volumes validate_runtime_env validate_expose resolve_refs targets_of effective_spec
    apply_class_defaults violations merge_policies sort_strings merge_access_rule permits
    match_tool_rule skill_tool_violations peer_violations str_leb quote digit keep_first
    policy_compliant_message show_list config_hash upserting
runs = refl

reconcile_agent-verdict_example :
    ((res : Resolution) × IsAdmitted env governed res × IsReady env governed res written)
    ⊎ (((res : Resolution) → IsAdmitted env governed res → ⊥) × IsDegraded governed written)
reconcile_agent-verdict_example = reconcile_agent-verdict env governed written runs

named : IsNamed governed_cluster
named ns name t h = ground (arith, eq_iff name "search", h)

builds : build_config_from marshal governed_cluster governed ≡ ok payload
unfolding build_config_from effective_spec apply_class_defaults tool_views resolve_tool
    resolve_policy merge_policies
builds = refl

ready_payload-IsPermittedTool_example :
    All (IsPermittedTool governed_cluster governed) (map (λ v. v.name) payload.tools)
unfolding build_config_from effective_spec apply_class_defaults tool_views resolve_tool
    resolve_policy merge_policies
ready_payload-IsPermittedTool_example =
    ready_payload-IsPermittedTool env marshal governed written payload named runs refl builds

reconcile_agent_twice_example : reconcile_agent env (again governed written) ≡ ok written
reconcile_agent_twice_example = reconcile_agent_twice env governed written runs
