-- ===== src/Reconcile/Pass/Examples.antt =====
-- An Agent whose Policy denies its tool, and that has a runtime.
use agent_plane.Base.{
  Bool, String, none, some, true, false, [], ◌∷◌, ◌≡◌, refl, arith, ap, sort_strings, str_leb,
  quote, digit, keep_first, show_list, if◌then◌else◌, ◌==◌, is_empty, inr,
}
use agent_plane.Api.{
  Agent, Condition, AgentStatus, Policy, apply_class_defaults, agent_phase_degraded,
}
use agent_plane.Policy.{
  merge_access_rule, merge_policies, violations, skill_tool_violations, permits, match_tool_rule,
}
use agent_plane.Validation.Names.{first_duplicate, duplicate_error}
use agent_plane.Validation.Volumes.{validate_volumes}
use agent_plane.Validation.Agents.{
  validate_agent, validate_workspace, validate_runtime_env, validate_expose,
}
use agent_plane.Reconcile.Peers.{peer_violations}
use agent_plane.Cluster.{Reader, found, not_found, ok, err, upserting}
use agent_plane.Resolve.Targets.{effective_spec, targets_of}
use agent_plane.Resolve.Pass.{Resolution, resolve_refs}
use agent_plane.Registry.Views.{AgentConfig}
use agent_plane.Registry.Server.{handle_config}
use agent_plane.Reconcile.Workloads.{wants_git, workspace_ready}
use agent_plane.Reconcile.Pass.{Env, all_violations, violation_message, reconcile_agent}
use agent_plane.Reconcile.Pass.Laws.{IsAdmitted}
use agent_plane.Reconcile.Pass.Order.{reconcile_agent-err_iff, first_error}
use agent_plane.Reconcile.Pass.Served.{IsServed, refused-IsServed}
use agent_plane.Reconcile.Fixtures.{idle, env_over}
use agent_plane.Samples.{
  meta_of, ref, bare_spec, bare_runtime, agent_of, marshal, search_policy, small_cluster,
}

abbrev no_search : Policy
no_search = record search_policy {
  meta = meta_of "no-search";
  spec = record (search_policy.spec) { tools = some (record { allow = []; deny = "search" ∷ [] }) };
}

abbrev strict_cluster : Reader
strict_cluster = record small_cluster {
  get_policy = λ ns name. if name == "no-search" then found no_search else not_found;
}

abbrev forbidden : Agent
forbidden = agent_of "forbidden" (record bare_spec {
  model_ref = some (ref "gpt");
  tool_refs = ref "search" ∷ [];
  policy_refs = ref "no-search" ∷ [];
})

abbrev env : Env
env = env_over strict_cluster

abbrev resolved : Resolution
resolved = record {
  refs =
      record { kind = "Model"; name = "gpt"; resource_version = "7" }
      ∷ record { kind = "Tool"; name = "search"; resource_version = "7" }
      ∷ record { kind = "Policy"; name = "no-search"; resource_version = "7" }
      ∷ [];
  missing = [];
  policies = no_search ∷ [];
  tool_policies = [];
  declared = record { model = "gpt"; tools = "search" ∷ []; mcp_servers = "lark" ∷ [] };
  skill_scopes = [];
  credentials = [];
  git_secret = "";
  peers = [];
}

resolves : resolve_refs strict_cluster forbidden ≡ ok resolved
unfolding resolve_refs effective_spec targets_of apply_class_defaults
resolves = refl

violated : is_empty (all_violations env forbidden resolved) ≡ false
unfolding violations merge_policies sort_strings merge_access_rule permits match_tool_rule
    skill_tool_violations peer_violations str_leb quote digit keep_first
violated = refl

refused : (res : Resolution) → IsAdmitted env forbidden res → ⊥
refused res h =
    let same : resolved ≡ res = ground (arith, resolves, h.resolved) in
    let none_there : is_empty (all_violations env forbidden res) ≡ true = ap is_empty h.allowed in
    ground (arith, violated, none_there, ap (λ x. is_empty (all_violations env forbidden x)) same)

abbrev message : String
message =
    "declaration not permitted: [tool \"search\" is denied by policy] (policies: [Policy/no-search])"

abbrev condition : String → Bool → String → String → Condition
condition type_of status reason text = record {
  type_of = type_of;
  status = status;
  reason = reason;
  message = text;
  observed_generation = 1;
}

abbrev written : AgentStatus
written = record {
  conditions =
      condition "Resolved" true "Reconciled" "all references resolved"
      ∷ condition "PolicyCompliant" false "PolicyViolation" message
      ∷ condition "Ready" false "PolicyViolation" message
      ∷ [];
  observed_generation = 1;
  phase = "Degraded";
  resolved_config_hash = "";
  resolved_refs = 3;
  runtime_available_replicas = 0;
  peer_endpoint = "";
  workspace_claim = "";
}

runs : reconcile_agent env forbidden ≡ ok written
unfolding reconcile_agent validate_agent duplicate_error first_duplicate validate_workspace
    validate_volumes validate_runtime_env validate_expose resolve_refs targets_of effective_spec
    apply_class_defaults violations merge_policies sort_strings merge_access_rule permits
    match_tool_rule skill_tool_violations peer_violations str_leb quote digit keep_first
    violation_message show_list upserting
runs = refl

-- The Registry reads the Agent as the pass left it.
abbrev later_cluster : Reader
later_cluster = record strict_cluster {
  get_agent = λ ns name. found (record forbidden { status = written });
}

refused-IsServed_example :
    (cfg : AgentConfig) × (cfg.phase ≡ agent_phase_degraded)
    × (cfg.config_hash ≡ "")
    × IsServed
        (λ c. some c.phase)
        later_cluster
        forbidden
        (handle_config marshal (λ c. some c.phase) later_cluster "default" "forbidden")
        cfg
refused-IsServed_example =
    refused-IsServed env marshal (λ c. some c.phase) later_cluster forbidden written "{}" runs
      refused refl refl

-- The same Agent with a runtime, whose Deployment the API server does not take.
abbrev running : Agent
running = record forbidden { spec = record (forbidden.spec) { runtime = some bare_runtime } }

abbrev full_env : Env
full_env = record env {
  workloads = record idle { write_deployment = λ ns name f. some "quota exceeded" };
}

valid : validate_agent full_env.parse_quantity running.spec ≡ none
unfolding validate_agent duplicate_error first_duplicate validate_workspace validate_volumes
    validate_runtime_env validate_expose
valid = refl

running_resolves : resolve_refs strict_cluster running ≡ ok resolved
unfolding resolve_refs effective_spec targets_of apply_class_defaults
running_resolves = refl

reconcile_agent-err_iff_example : reconcile_agent full_env running ≡ err "quota exceeded"
unfolding wants_git workspace_ready first_error
reconcile_agent-err_iff_example =
    (reconcile_agent-err_iff full_env running "quota exceeded").1
      (valid, inr (resolved, running_resolves, refl))
