-- ===== src/Registry/Config/Examples.antt =====
-- The payload of a small cluster, and the theorems about it there.
use agent_plane.Base.{[], ◌∷◌, map, ◌≡◌, refl, arith, eq_iff}
use agent_plane.Api.{apply_class_defaults}
use agent_plane.Policy.{merge_policies}
use agent_plane.Cluster.{ok}
use agent_plane.Resolve.Targets.{effective_spec, targets_of}
use agent_plane.Resolve.Pass.{Resolution, resolve_refs}
use agent_plane.Registry.Config.{
  resolve_tool, tool_views, policy_view, resolve_policy, build_config_from,
}
use agent_plane.Registry.Config.Names.{IsNamed, readable}
use agent_plane.Registry.Config.Enforcement.{build_config_from-policy}
use agent_plane.Registry.Config.Surface.{build_config_from-tools}
use agent_plane.Samples.{marshal, payload, search_policy, governed_cluster, governed}

abbrev resolved : Resolution
resolved = record {
  refs =
      record { kind = "Model"; name = "gpt"; resource_version = "7" }
      ∷ record { kind = "Tool"; name = "search"; resource_version = "7" }
      ∷ record { kind = "ToolSet"; name = "bundle"; resource_version = "7" }
      ∷ record { kind = "Policy"; name = "search-only"; resource_version = "7" }
      ∷ [];
  missing = [];
  policies = search_policy ∷ [];
  tool_policies = [];
  declared = record { model = "gpt"; tools = "search" ∷ []; mcp_servers = "lark" ∷ [] };
  skill_scopes = [];
  credentials = [];
  git_secret = "";
  peers = [];
}

resolves : resolve_refs governed_cluster governed ≡ ok resolved
unfolding resolve_refs effective_spec targets_of apply_class_defaults
resolves = refl

builds : build_config_from marshal governed_cluster governed ≡ ok payload
unfolding build_config_from effective_spec apply_class_defaults tool_views resolve_tool
    resolve_policy merge_policies
builds = refl

build_config_from-policy_example :
    payload.policy ≡ policy_view (merge_policies (search_policy ∷ []) [])
build_config_from-policy_example =
    build_config_from-policy marshal governed_cluster governed resolved payload resolves builds

governed-IsNamed : IsNamed governed_cluster
governed-IsNamed ns name t h = ground (arith, eq_iff name "search", h)

build_config_from-tools_example :
    map (λ v. v.name) payload.tools ≡ readable governed_cluster "default" ("search" ∷ [])
build_config_from-tools_example =
    build_config_from-tools marshal governed_cluster governed resolved payload governed-IsNamed
      resolves builds
