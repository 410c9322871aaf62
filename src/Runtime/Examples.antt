-- ===== src/Runtime/Examples.antt =====
-- The Deployment of a small Agent, and its wiring.
use agent_plane.Base.{none, some, [], ◌∷◌, ◌≡◌, refl, has_prefix, trim_right}
use agent_plane.Api.{AgentRuntimeSpec, AgentWorkspaceSpec}
use agent_plane.Validation.Volumes.{clean_path}
use agent_plane.Validation.Volumes.Laws.{IsAllowed}
use agent_plane.Samples.{bare_spec, bare_runtime, bare_workspace, volume_at, agent_of}
use agent_plane.Runtime.Pod.{Deployment, volume_names}
use agent_plane.Runtime.Volumes.{source_of, user_volumes, credential_volumes}
use agent_plane.Runtime.Workspace.{pod_volumes, workspace_pod_spec}
use agent_plane.Runtime.Assembly.{set_deployment}
use agent_plane.Runtime.Assembly.Wiring.{IsWired, set_deployment-IsWired}

abbrev empty_deployment : Deployment
empty_deployment = record {
  labels = [];
  replicas = 0;
  selector = [];
  strategy = none;
  template_labels = [];
  volumes = [];
  init_containers = [];
  containers = [];
  fs_group = none;
  service_account_name = "";
  runtime_class_name = none;
  available_replicas = 0;
}

abbrev coder_runtime : AgentRuntimeSpec
coder_runtime = record bare_runtime { volumes = volume_at "nas" "/mnt/nas" ∷ [] }

abbrev coder_workspace : AgentWorkspaceSpec
coder_workspace = record bare_workspace { repository = "https://example.invalid/app.git" }

abbrev written : Deployment
written =
    set_deployment "http://registry" (agent_of "coder" bare_spec) coder_runtime
      (some coder_workspace) "git" "" (record { name = "jira"; secret = "jira-token" } ∷ [])
      empty_deployment

nas_IsAllowed : IsAllowed (some coder_workspace) (volume_at "nas" "/mnt/nas")
unfolding has_prefix clean_path trim_right
nas_IsAllowed = record {
  name_free = refl;
  no_prefix = refl;
  absolute = refl;
  path_free = refl;
  outside = refl;
}

set_deployment-IsWired_example : IsWired written
set_deployment-IsWired_example =
    set_deployment-IsWired "http://registry" (agent_of "coder" bare_spec) coder_runtime
      (some coder_workspace) "git" "" (record { name = "jira"; secret = "jira-token" } ∷ [])
      empty_deployment (nas_IsAllowed, tt) (refl, tt) (refl, tt)

volumes_written :
    volume_names written.volumes
    ≡ "workspace" ∷ "tmp" ∷ "git-credential" ∷ "nas" ∷ "credential-jira" ∷ []
unfolding set_deployment workspace_pod_spec pod_volumes source_of user_volumes credential_volumes
volumes_written = refl
