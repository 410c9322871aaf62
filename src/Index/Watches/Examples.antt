-- ===== src/Index/Watches/Examples.antt =====
-- The watches over a Tool that an MCPServer backs.
use agent_plane.Base.{
  true, none, some, [], ◌∷◌, ◌==◌, ◌≡◌, ◌⊎◌, refl, if◌then◌else◌, mem, inl, inr, eq_iff, Bool-cases,
}
use agent_plane.Api.{McpServer}
use agent_plane.Cluster.{Reader, found, not_found, upserting}
use agent_plane.Resolve.Targets.{
  agent_class, model, prompt_template, tool, tool_set, skill, policy, tool_policy, credential,
  mcp_server, agent,
}
use agent_plane.Reconcile.Workloads.{OwnedObjects}
use agent_plane.Index.{has_request}
use agent_plane.Index.Watches.{
  a_tool, tools, watch_keys, of_kind, config_map, secret, WatchLister, watch_requests,
}
use agent_plane.Index.Watches.Laws.{IsListed}
use agent_plane.Index.Watches.Frame.{reconcile_dependent}
use agent_plane.Index.Watches.Stability.{DiffersOnlyAt, change-wakes_or_keeps_status}
use agent_plane.Samples.{meta_of, small_cluster, search_tool}

-- A cache that holds the Tool and no more.
abbrev cache : WatchLister
cache field ns name =
    some (if mem name (watch_keys field (a_tool search_tool)) then search_tool.meta ∷ [] else [])

is_listed : IsListed cache (a_tool search_tool)
is_listed field name held = (search_tool.meta ∷ [], rw held refl, inl (refl, refl))

server_wakes :
    watch_requests cache tools (of_kind mcp_server) "default" "lark"
    ≡ record { ns = "default"; name = "search" } ∷ []
unfolding watch_requests watch_keys
server_wakes = refl

agent_does_not : watch_requests cache tools (of_kind agent) "default" "lark" ≡ []
unfolding watch_requests watch_keys
agent_does_not = refl

-- The cluster before and after its MCPServer appears.
abbrev lark : McpServer
lark = record {
  meta = meta_of "lark";
  spec = record {
    image = "lark-mcp:v1";
    external_endpoint = "";
    transport = "http";
    port = 0;
    replicas = 1;
    env = [];
    resources = "";
  };
  status = record {
    conditions = [];
    observed_generation = 0;
    endpoint = "";
    available_replicas = 0;
  };
}

abbrev with_lark : Reader
with_lark = record small_cluster {
  get_mcp_server = λ ns name. if name == "lark" then found lark else not_found;
}

abbrev idle : OwnedObjects
idle = record {
  get_claim = λ ns name. not_found;
  create_claim = λ c. none;
  write_deployment = λ ns name f. none;
  write_service = λ ns name s. none;
  get_deployment = λ ns name. not_found;
}

only_lark : DiffersOnlyAt small_cluster with_lark "default" (of_kind mcp_server) "lark"
only_lark (of_kind mcp_server) name other = elim (Bool-cases (name == "lark")) [
  | inl e ↦ absurd (other (refl, (eq_iff name "lark").0 e))
  | inr e ↦ rw e refl
]
only_lark (of_kind agent_class) name other = refl
only_lark (of_kind model) name other = refl
only_lark (of_kind prompt_template) name other = refl
only_lark (of_kind tool) name other = refl
only_lark (of_kind tool_set) name other = refl
only_lark (of_kind skill) name other = refl
only_lark (of_kind policy) name other = refl
only_lark (of_kind tool_policy) name other = refl
only_lark (of_kind credential) name other = refl
only_lark (of_kind agent) name other = refl
only_lark config_map name other = refl
only_lark secret name other = refl

change-wakes_or_keeps_status_example :
    (reconcile_dependent upserting idle small_cluster (a_tool search_tool)
      ≡ reconcile_dependent upserting idle with_lark (a_tool search_tool))
    ⊎ (has_request
          (record { ns = "default"; name = "search" })
          (watch_requests cache tools (of_kind mcp_server) "default" "lark")
        ≡ true)
change-wakes_or_keeps_status_example =
    change-wakes_or_keeps_status upserting idle cache small_cluster with_lark (a_tool search_tool)
      (of_kind mcp_server) "lark" is_listed refl only_lark
