-- ===== src/Validation/Volumes.antt =====
-- `validateVolumes` of api/v1alpha1/validation.go.
pub mod Laws
pub mod Shadowing
use agent_plane.Base.{
  String, ◌<>◌, Bool, not, ◌&&◌, Option, none, some, List, [], ◌∷◌, ◌++◌, ◌==◌, if◌then◌else◌,
  is_empty, mem, quote, has_prefix, trim_right,
}
use agent_plane.Api.{AgentSpec, AgentRuntimeSpec, AgentWorkspaceSpec, AgentVolume}

abbrev pub reserved_volume_names : List String
reserved_volume_names = "workspace" ∷ "tmp" ∷ "git-credential" ∷ "model-credential" ∷ []

abbrev pub credentials_dir_path : String
credentials_dir_path = "/var/run/agentplane/credentials"

abbrev pub reserved_mount_paths : List String
reserved_mount_paths =
    "/tmp" ∷ "/var/run/agentplane/git" ∷ "/var/run/agentplane/model" ∷ credentials_dir_path ∷ []

abbrev pub reserved_volume_name_prefix : String
reserved_volume_name_prefix = "credential-"

-- The workspace's path as `validateVolumes` reserves it.
abbrev pub reserved_workspace_path : AgentWorkspaceSpec → String
reserved_workspace_path ws = if ws.mount_path == "" then "/workspace" else ws.mount_path

abbrev pub reserved_paths : Option AgentWorkspaceSpec → List String
reserved_paths none = reserved_mount_paths
reserved_paths (some ws) = reserved_workspace_path ws ∷ reserved_mount_paths

-- `clean`: the mount path without its trailing slashes, and "/" where nothing is left.
unfoldable pub clean_path : String → String
clean_path path = let clean = trim_right path b'/' in if clean == "" then "/" else clean

about : AgentVolume → String
about v = "mountPath " <> quote v.mount_path <> " for volume " <> quote v.name

-- The checks of one round, in their order.
volume_error : List String → List String → AgentVolume → Option String
unfolding about
volume_error reserved seen v =
    if mem v.name reserved_volume_names
    then some ("spec.runtime.volumes: " <> quote v.name <> " is a volume name the Operator manages")
    else if has_prefix v.name reserved_volume_name_prefix
    then some (
        "spec.runtime.volumes: "
        <> quote v.name
        <> " uses the "
        <> quote reserved_volume_name_prefix
        <> " prefix, which the Operator reserves for spec.credentialRefs")
    else if not (has_prefix v.mount_path "/")
    then some ("spec.runtime.volumes: " <> about v <> " must be absolute")
    else if mem (clean_path v.mount_path) reserved
    then some ("spec.runtime.volumes: " <> about v <> " is used by the Operator")
    else if has_prefix (clean_path v.mount_path) (credentials_dir_path <> "/")
    then some (
        "spec.runtime.volumes: "
        <> about v
        <> " is inside "
        <> credentials_dir_path
        <> ", which the Operator manages")
    else if mem (clean_path v.mount_path) seen
    then some ("spec.runtime.volumes: duplicate mountPath " <> quote v.mount_path)
    else none

-- The loop over the volumes, with the paths taken so far.
volumes_error : List String → List String → List AgentVolume → Option String
volumes_error reserved seen [] = none
volumes_error reserved seen (v ∷ vs) = elim (volume_error reserved seen v) [
  | some err ↦ some err
  | none ↦ volumes_error reserved (clean_path v.mount_path ∷ seen) vs
]

runtime_volumes_error : Option AgentRuntimeSpec → Option AgentWorkspaceSpec → Option String
runtime_volumes_error none ws = none
runtime_volumes_error (some rt) ws =
    if is_empty rt.volumes then none else volumes_error (reserved_paths ws) [] rt.volumes

unfoldable pub validate_volumes : AgentSpec → Option String
unfolding runtime_volumes_error volumes_error volume_error
validate_volumes s = runtime_volumes_error s.runtime s.workspace
