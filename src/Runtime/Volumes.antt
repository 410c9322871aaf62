-- ===== src/Runtime/Volumes.antt =====
-- `userVolumes`, `credentialVolumes` and `sandboxSecurityContext` of
-- internal/controller/agent_controller.go.
use agent_plane.Base.{
  String, ◌<>◌, Bool, true, false, Option, none, some, List, [], ◌∷◌, ◌==◌, if◌then◌else◌,
}
use agent_plane.Api.{
  AgentVolume, AgentPvcVolumeSource, AgentObjectVolumeSource, AgentEmptyDirVolumeSource,
}
use agent_plane.Resolve.Pass.{MountedCredential}
use agent_plane.Runtime.Pod.{
  VolumeSource, claim, config_map, secret, empty_dir, Volume, VolumeMount, SecurityContext,
}

-- The source of a declared volume: the first that is set, in the order of the switch.
empty_dir_of : Option AgentEmptyDirVolumeSource → Option VolumeSource
empty_dir_of none = none
empty_dir_of (some e) = some (empty_dir e.medium e.size_limit)

secret_of : Option AgentObjectVolumeSource → Option VolumeSource → Option VolumeSource
secret_of none rest = rest
secret_of (some s) rest = some (secret s.name s.optional)

config_map_of : Option AgentObjectVolumeSource → Option VolumeSource → Option VolumeSource
config_map_of none rest = rest
config_map_of (some c) rest = some (config_map c.name c.optional)

claim_of : Option AgentPvcVolumeSource → Bool → Option VolumeSource → Option VolumeSource
claim_of none read_only rest = rest
claim_of (some p) read_only rest = some (claim p.claim_name read_only)

unfoldable pub source_of : AgentVolume → Option VolumeSource
unfolding claim_of config_map_of secret_of empty_dir_of
source_of v =
    claim_of v.persistent_volume_claim v.read_only
      (config_map_of v.config_map (secret_of v.secret (empty_dir_of v.empty_dir)))

-- A volume without a source contributes neither a volume nor a mount.
unfoldable pub user_volumes : List AgentVolume → List Volume × List VolumeMount
user_volumes [] = ([], [])
user_volumes (v ∷ vs) =
    let rest = user_volumes vs in
    elim (source_of v) [
      | none ↦ rest
      | some src ↦ (
        record { name = v.name; source = src } ∷ rest.0,
        record { name = v.name; mount_path = v.mount_path; read_only = v.read_only } ∷ rest.1,
      )
    ]

abbrev pub credentials_mount_path : String
credentials_mount_path = "/var/run/agentplane/credentials"

-- A credential without a Secret behind it mounts nothing.
unfoldable pub credential_volumes : List MountedCredential → List Volume × List VolumeMount
credential_volumes [] = ([], [])
credential_volumes (c ∷ cs) =
    let rest = credential_volumes cs in
    if c.secret == "" then rest else (
      record { name = "credential-" <> c.name; source = secret c.secret none } ∷ rest.0,
      record {
        name = "credential-" <> c.name;
        mount_path = credentials_mount_path <> "/" <> c.name;
        read_only = true;
      }
          ∷ rest.1,
    )

abbrev pub sandbox_security_context : SecurityContext
sandbox_security_context = record {
  allow_privilege_escalation = false;
  read_only_root_filesystem = true;
  run_as_non_root = true;
  dropped_capabilities = "ALL" ∷ [];
  seccomp_profile = "RuntimeDefault";
}
