-- ===== src/Runtime/Workspace.antt =====
-- `workspacePodSpec`, `cloneInitContainer` and the constants they use, of
-- internal/controller/agent_controller.go.
use agent_plane.Base.{
  ℕ, String, ◌<>◌, Bool, true, false, Option, none, some, List, [], ◌∷◌, ◌++◌, ◌==◌, if◌then◌else◌,
  show_nat,
}
use agent_plane.Api.{EnvVar, Probe, exec, Agent, AgentWorkspaceSpec}
use agent_plane.Runtime.Script.{agent_home_dir_name, clone_script, empty_script, prepare_script}
use agent_plane.Runtime.Pod.{
  claim, secret, empty_dir, Volume, VolumeMount, SecurityContext, Container,
}
use agent_plane.Runtime.Volumes.{sandbox_security_context}

abbrev pub workspace_volume_name : String
workspace_volume_name = "workspace"

abbrev pub tmp_volume_name : String
tmp_volume_name = "tmp"

abbrev pub git_credential_volume_name : String
git_credential_volume_name = "git-credential"

abbrev pub model_credential_volume_name : String
model_credential_volume_name = "model-credential"

abbrev pub git_credential_mount_path : String
git_credential_mount_path = "/var/run/agentplane/git"

abbrev pub model_credential_mount_path : String
model_credential_mount_path = "/var/run/agentplane/model"

abbrev git_credential_helper : String
git_credential_helper =
    "!f() { echo \"username=x-access-token\"; echo \"password=$(cat \"$AGENTPLANE_GIT_CREDENTIAL_FILE\")\"; }; f"

abbrev pub workspace_claim_name : Agent → String
workspace_claim_name a = a.meta.name <> "-workspace"

abbrev pub workspace_mount_path : AgentWorkspaceSpec → String
workspace_mount_path ws = if ws.mount_path == "" then "/workspace" else ws.mount_path

abbrev pub env_var : String → String → EnvVar
env_var name value = record { name = name; value = value; value_from = none }

unfoldable pub default_workspace_readiness_probe : ℕ → Probe
default_workspace_readiness_probe port =
    exec
      ("sh"
        ∷ "-c"
        ∷ ("curl -sf -m 5 http://127.0.0.1:"
            <> show_nat port
            <> "/config | grep -q '\"model\":\"agent-plane/'")
        ∷ [])
      20 15 10 12

pub record RuntimePod : Type 0 where
  pub volumes : List Volume
  pub mounts : List VolumeMount
  pub env : List EnvVar
  pub security_context : Option SecurityContext

abbrev secret_volume : String → String → List Volume
secret_volume volume name =
    if name == "" then [] else record { name = volume; source = secret name none } ∷ []

abbrev secret_mount : String → String → String → List VolumeMount
secret_mount volume path name =
    if name == "" then [] else record { name = volume; mount_path = path; read_only = true } ∷ []

unfoldable pub pod_volumes : Agent → String → String → List Volume
pod_volumes a git_secret model_secret =
    record { name = workspace_volume_name; source = claim (workspace_claim_name a) false }
    ∷ record { name = tmp_volume_name; source = empty_dir "" none }
    ∷ (secret_volume git_credential_volume_name git_secret
        ++ secret_volume model_credential_volume_name model_secret)

unfoldable pub pod_mounts : AgentWorkspaceSpec → String → String → List VolumeMount
pod_mounts ws git_secret model_secret =
    record { name = workspace_volume_name; mount_path = workspace_mount_path ws; read_only = false }
    ∷ record { name = tmp_volume_name; mount_path = "/tmp"; read_only = false }
    ∷ (secret_mount git_credential_volume_name git_credential_mount_path git_secret
        ++ secret_mount model_credential_volume_name model_credential_mount_path model_secret)

-- `gitConfigCount`, where it is above 0. A Secret makes it 2, whether or not there is a repository.
git_config_count : AgentWorkspaceSpec → String → List EnvVar
git_config_count ws git_secret =
    if git_secret == ""
    then (if ws.repository == "" then [] else env_var "GIT_CONFIG_COUNT" "1" ∷ [])
    else env_var "GIT_CONFIG_COUNT" "2" ∷ []

git_config_env : AgentWorkspaceSpec → String → List EnvVar
git_config_env ws git_secret =
    (if ws.repository == ""
      then []
      else env_var "GIT_CONFIG_KEY_0" "safe.directory"
        ∷ env_var "GIT_CONFIG_VALUE_0" (workspace_mount_path ws)
        ∷ [])
    ++ (if git_secret == ""
        then []
        else env_var "GIT_CONFIG_KEY_1" "credential.helper"
          ∷ env_var "GIT_CONFIG_VALUE_1" git_credential_helper
          ∷ [])

pub pod_env : AgentWorkspaceSpec → String → List EnvVar
unfolding git_config_count git_config_env
pod_env ws git_secret =
    let mount = workspace_mount_path ws in
    let home = mount <> "/" <> agent_home_dir_name in
    env_var "AGENTPLANE_WORKSPACE" mount
    ∷ env_var "AGENTPLANE_AGENT_HOME" home
    ∷ env_var "HOME" home
    ∷ env_var "XDG_CONFIG_HOME" (home <> "/.config")
    ∷ env_var "XDG_DATA_HOME" (home <> "/share")
    ∷ env_var "XDG_STATE_HOME" (home <> "/state")
    ∷ env_var "XDG_CACHE_HOME" (home <> "/cache")
    ∷ (git_config_count ws git_secret
        ++ ((if git_secret == ""
              then []
              else env_var "AGENTPLANE_GIT_CREDENTIAL_FILE" (git_credential_mount_path <> "/token")
                ∷ [])
            ++ git_config_env ws git_secret))

unfoldable pub workspace_pod_spec : Agent → AgentWorkspaceSpec → String → String → RuntimePod
unfolding pod_volumes pod_mounts pod_env
workspace_pod_spec a ws git_secret model_secret = record {
  volumes = pod_volumes a git_secret model_secret;
  mounts = pod_mounts ws git_secret model_secret;
  env = pod_env ws git_secret;
  security_context = some sandbox_security_context;
}

unfoldable pub clone_init_container : AgentWorkspaceSpec → Bool → Container
clone_init_container ws has_credential =
    let mount = workspace_mount_path ws in
    let clone = if ws.repository == "" then empty_script else clone_script in
    record {
      name = "clone";
      image = "alpine/git:latest";
      command = "/bin/sh" ∷ "-c" ∷ prepare_script clone ∷ [];
      env =
          (if ws.repository == "" then [] else env_var "AGENTPLANE_REPOSITORY" ws.repository ∷ [])
          ++ (env_var "AGENTPLANE_WORKSPACE" mount ∷ []
              ++ ((if ws.branch == "" then [] else env_var "AGENTPLANE_BRANCH" ws.branch ∷ [])
                  ++ (if has_credential
                      then env_var "AGENTPLANE_GIT_CREDENTIAL_FILE"
                          (git_credential_mount_path <> "/token")
                        ∷ []
                      else [])));
      ports = [];
      resources = "";
      readiness_probe = none;
      volume_mounts =
          record { name = workspace_volume_name; mount_path = mount; read_only = false }
          ∷ (if has_credential
              then record {
                name = git_credential_volume_name;
                mount_path = git_credential_mount_path;
                read_only = true;
              }
                ∷ []
              else []);
      security_context = none;
    }
