-- ===== src/Resolve/Examples.antt =====
-- Tests of a pass over an Agent's references, and the theorems about it at concrete inputs.
use agent_plane.Base.{String, some, List, [], ◌∷◌, ◌≡◌, refl, ◌↔◌, true, mem, All, IsDistinct}
use agent_plane.Api.{Tool, apply_class_defaults}
use agent_plane.Samples.{small_cluster, helper, bundle}
use agent_plane.Cluster.{Got, not_found, failed, Reader, ok, err}
use agent_plane.Resolve.Targets.{effective_spec, targets_of}
use agent_plane.Resolve.Pass.{ResolvedRef, Resolution, resolve_refs}
use agent_plane.Resolve.Pass.Laws.{first_failure}
use agent_plane.Resolve.Pass.Results.{
  agent_targets, IsResolved, resolve_refs-IsResolved, resolve_refs-err_iff,
}
use agent_plane.Resolve.Pass.{server_of}
use agent_plane.Resolve.Pass.Surface.{set_tool_declared}
use agent_plane.Resolve.Pass.Coverage.{with_tools, refs_ignore_set_tools}

abbrev helper_refs : List ResolvedRef
helper_refs =
    record { kind = "Model"; name = "gpt"; resource_version = "7" }
    ∷ record { kind = "ToolSet"; name = "bundle"; resource_version = "7" }
    ∷ []

abbrev resolved : Resolution
resolved = record {
  refs = helper_refs;
  missing = "Skill/triage" ∷ [];
  policies = [];
  tool_policies = [];
  declared = record { model = "gpt"; tools = "search" ∷ []; mcp_servers = "lark" ∷ [] };
  skill_scopes = [];
  credentials = [];
  git_secret = "";
  peers = [];
}

resolves : resolve_refs small_cluster helper ≡ ok resolved
unfolding resolve_refs effective_spec targets_of apply_class_defaults
resolves = refl

resolve_refs-IsResolved_example : IsResolved small_cluster helper resolved
resolve_refs-IsResolved_example = resolve_refs-IsResolved small_cluster helper resolved resolves

abbrev broken_cluster : Reader
broken_cluster = record small_cluster { get_skill = λ ns name. failed "timeout" }

resolve_refs-err_iff_example : (resolve_refs broken_cluster helper ≡ err "timeout") ↔ (
    first_failure broken_cluster "default" (agent_targets broken_cluster helper) ≡ some "timeout")
resolve_refs-err_iff_example = resolve_refs-err_iff broken_cluster helper "timeout"

set_tool_declared_example :
    (mem "search" resolved.declared.tools ≡ true)
    × IsDistinct resolved.declared.tools
    × All
        (λ server. mem server resolved.declared.mcp_servers ≡ true)
        (server_of (small_cluster.get_tool "default" "search"))
unfolding effective_spec apply_class_defaults
set_tool_declared_example =
    set_tool_declared small_cluster helper resolved "bundle" "search" bundle resolves refl refl refl

abbrev no_tools : String → String → Got Tool
no_tools ns name = not_found

abbrev resolved_without : Resolution
resolved_without = record resolved {
  declared = record { model = "gpt"; tools = "search" ∷ []; mcp_servers = [] };
}

resolves_without : resolve_refs (with_tools small_cluster no_tools) helper ≡ ok resolved_without
unfolding resolve_refs effective_spec targets_of apply_class_defaults
resolves_without = refl

refs_ignore_set_tools_example : resolved_without.refs ≡ resolved.refs
unfolding effective_spec apply_class_defaults
refs_ignore_set_tools_example =
    refs_ignore_set_tools small_cluster no_tools helper resolved resolved_without refl resolves
      resolves_without
