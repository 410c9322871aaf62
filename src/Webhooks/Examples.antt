-- ===== src/Webhooks/Examples.antt =====
-- Agents under review: one that names a Tool twice, and one that is in order.
use agent_plane.Base.{false, none, some, [], ◌∷◌, ◌≡◌, refl, quote}
use agent_plane.Api.{Agent, AgentStatus}
use agent_plane.Validation.Names.{first_duplicate, duplicate_error}
use agent_plane.Validation.Agents.{validate_agent}
use agent_plane.Cluster.{ok, upserting}
use agent_plane.Reconcile.Pass.{Env, reconcile_agent}
use agent_plane.Reconcile.Pass.Reasons.{Reports}
use agent_plane.Webhooks.{
  of_agent, validate_agent_create, validate_agent_update, validate_agent_delete,
  validate_tool_create,
}
use agent_plane.Webhooks.Laws.{admission-Reports}
use agent_plane.Reconcile.Fixtures.{env_over}
use agent_plane.Samples.{ref, bare_spec, agent_of, governed, empty_cluster}

abbrev twice : Agent
twice = agent_of "twice" (record bare_spec { tool_refs = ref "search" ∷ ref "search" ∷ [] })

abbrev env : Env
env = env_over empty_cluster

refuses_another_kind :
    validate_tool_create (of_agent twice) ≡ some "expected a Tool object but got *v1alpha1.Agent"
unfolding validate_tool_create
refuses_another_kind = refl

deletes : validate_agent_delete (of_agent twice) ≡ none
unfolding validate_agent_delete
deletes = refl

abbrev written : AgentStatus
written = record {
  conditions =
      record {
        type_of = "Ready";
        status = false;
        reason = "InvalidSpec";
        message = "duplicate toolRef \"search\"";
        observed_generation = 1;
      }
      ∷ [];
  observed_generation = 1;
  phase = "Degraded";
  resolved_config_hash = "";
  resolved_refs = 0;
  runtime_available_replicas = 0;
  peer_endpoint = "";
  workspace_claim = "";
}

runs : reconcile_agent env twice ≡ ok written
unfolding reconcile_agent validate_agent duplicate_error first_duplicate quote upserting
runs = refl

admission-Reports_example :
    (validate_agent_create env.parse_quantity (of_agent twice)
      ≡ validate_agent_update env.parse_quantity (of_agent governed) (of_agent twice))
    × Reports
        (validate_agent_update env.parse_quantity (of_agent governed) (of_agent twice))
        1
        written.conditions
admission-Reports_example = admission-Reports env (of_agent governed) twice written runs
