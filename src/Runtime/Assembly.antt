-- ===== src/Runtime/Assembly.antt =====
-- The Deployment and the Service that `reconcileRuntime` of internal/controller/agent_controller.go
-- writes: the functions it hands to `CreateOrUpdate`, up to the owner reference.
mod Names
mod Managed
pub mod Wiring
use agent_plane.Base.{
  ℕ, String, ◌<>◌, Bool, true, false, not, Option, none, some, List, [], ◌∷◌, ◌++◌, ◌==◌, ◌==ℕ◌,
  if◌then◌else◌, is_empty,
}
use agent_plane.Api.{EnvVar, Probe, Agent, AgentRuntimeSpec, AgentWorkspaceSpec}
use agent_plane.Validation.Agents.{env_credentials_path}
use agent_plane.Resolve.Pass.{MountedCredential}
use agent_plane.Runtime.Pod.{
  Volume, VolumeMount, SecurityContext, Container, Labels, Deployment, owned_labels,
}
use agent_plane.Runtime.Volumes.{
  user_volumes, credential_volumes, credentials_mount_path, sandbox_security_context,
}
use agent_plane.Runtime.Workspace.{
  RuntimePod, env_var, workspace_pod_spec, clone_init_container, default_workspace_readiness_probe,
}

abbrev pub agent_runtime_labels : Agent → Labels
agent_runtime_labels a = owned_labels "agent-runtime" a.meta.name

-- An explicit probe wins; a workspace runtime with a port gets the default.
probe_of : AgentRuntimeSpec → Option AgentWorkspaceSpec → Option Probe
probe_of rt ws = elim rt.readiness_probe [
  | some p ↦ some p
  | none ↦ elim ws [
    | none ↦ none
    | some w ↦ if rt.port ==ℕ 0 then none else some (default_workspace_readiness_probe rt.port)
  ]
]

-- The container before the workspace and the volumes are added.
plain_container : String → Agent → AgentRuntimeSpec → Option AgentWorkspaceSpec → Container
unfolding probe_of
plain_container registry_url a rt ws = record {
  name = "runtime";
  image = rt.image;
  command = [];
  env =
      env_var "AGENTPLANE_REGISTRY" registry_url
      ∷ env_var "AGENTPLANE_AGENT_NAMESPACE" a.meta.ns
      ∷ env_var "AGENTPLANE_AGENT_NAME" a.meta.name
      ∷ rt.env;
  ports = if rt.port ==ℕ 0 then [] else ("http", rt.port) ∷ [];
  resources = rt.resources;
  readiness_probe = probe_of rt ws;
  volume_mounts = [];
  security_context = none;
}

abbrev no_pod : RuntimePod
no_pod = record { volumes = []; mounts = []; env = []; security_context = none }

-- What the workspace adds.
unfoldable pub pod_of : Agent → Option AgentWorkspaceSpec → String → String → RuntimePod
pod_of a none git_secret model_secret = no_pod
pod_of a (some ws) git_secret model_secret = workspace_pod_spec a ws git_secret model_secret

abbrev sandboxed : Option SecurityContext → Bool → Option SecurityContext
sandboxed (some c) mounts_nothing = some c
sandboxed none mounts_nothing = if mounts_nothing then none else some sandbox_security_context

pub init_containers_of : Option AgentWorkspaceSpec → String → List Container
init_containers_of none git_secret = []
init_containers_of (some ws) git_secret = clone_init_container ws (not (git_secret == "")) ∷ []

-- The function over the Deployment that is there, or over an empty one.
unfoldable pub set_deployment :
    String
    → Agent
    → AgentRuntimeSpec
    → Option AgentWorkspaceSpec
    → String
    → String
    → List MountedCredential
    → Deployment
    → Deployment
unfolding plain_container pod_of init_containers_of
set_deployment registry_url a rt ws git_secret model_secret credentials dep =
    let labels = agent_runtime_labels a in
    let plain = plain_container registry_url a rt ws in
    let pod = pod_of a ws git_secret model_secret in
    let own = user_volumes rt.volumes in
    let creds = credential_volumes credentials in
    record dep {
      labels = labels;
      replicas = elim ws [ none ↦ rt.replicas | some w ↦ 1 ];
      selector = labels;
      strategy = elim ws [ none ↦ none | some w ↦ some "Recreate" ];
      template_labels = labels;
      volumes = pod.volumes ++ (own.0 ++ creds.0);
      init_containers = init_containers_of ws git_secret;
      containers =
          record plain {
            env =
                plain.env
                ++ (pod.env
                    ++ (if is_empty creds.0
                        then []
                        else env_var env_credentials_path credentials_mount_path ∷ []));
            volume_mounts = pod.mounts ++ (own.1 ++ creds.1);
            security_context =
                sandboxed (sandboxed pod.security_context (is_empty own.0)) (is_empty creds.0);
          }
          ∷ [];
      fs_group = elim ws [ none ↦ none | some w ↦ some 10001 ];
      service_account_name = rt.service_account_name;
      runtime_class_name = if rt.runtime_class_name == "" then none else some rt.runtime_class_name;
    }
