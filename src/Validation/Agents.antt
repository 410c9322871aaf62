-- ===== src/Validation/Agents.antt =====
-- `AgentSpec.Validate` of api/v1alpha1/validation.go and the checks that it runs.
pub mod Workspace
pub mod Laws
use agent_plane.Base.{
  String, ◌<>◌, Bool, not, ◌&&◌, Option, none, some, List, [], ◌∷◌, ◌==◌, if◌then◌else◌, is_some,
  mem, quote, has_prefix,
}
use agent_plane.Api.{AgentSpec, AgentRuntimeSpec, AgentWorkspaceSpec, AgentExposeSpec, EnvVar}
use agent_plane.Validation.Names.{ref_names, duplicate_error}
use agent_plane.Validation.Volumes.{validate_volumes}

abbrev pub env_agent_endpoint : String
env_agent_endpoint = "AGENTPLANE_AGENT_ENDPOINT"

abbrev pub env_credential_path : String
env_credential_path = "AGENTPLANE_CREDENTIAL_PATH"

abbrev pub env_credentials_path : String
env_credentials_path = "AGENTPLANE_CREDENTIALS_PATH"

abbrev pub reserved_runtime_env : List String
reserved_runtime_env = env_credentials_path ∷ []

-- The first error: `if err := a; err != nil { return err }; b`.
abbrev pub or_then : Option String → Option String → Option String
or_then (some err) next = some err
or_then none next = next

-- The loop over a container's variables against the reserved ones.
unfoldable pub env_error : String → List String → List EnvVar → Option String
env_error field reserved [] = none
env_error field reserved (e ∷ es) =
    let rest = env_error field reserved es in
    if mem e.name reserved
    then some (field <> " may not set " <> quote e.name <> ": it is injected by the Operator")
    else rest

abbrev runtime_env_error : Option AgentRuntimeSpec → Option String
runtime_env_error none = none
runtime_env_error (some rt) = env_error "spec.runtime.env" reserved_runtime_env rt.env

unfoldable pub validate_runtime_env : AgentSpec → Option String
unfolding env_error
validate_runtime_env s = runtime_env_error s.runtime

-- `resource.ParseQuantity`, of which only the error is read: `none` where the text is a quantity.
abbrev pub ParseQuantity : Type 0
ParseQuantity = String → Option String

size_error : ParseQuantity → String → Option String
size_error parse_quantity size = if size == "" then none else elim (parse_quantity size) [
  | none ↦ none
  | some err ↦ some ("spec.workspace.size " <> quote size <> " is not a valid quantity: " <> err)
]

-- The two fields that only describe a clone, where there is no repository.
clone_error : AgentWorkspaceSpec → Option String
clone_error ws =
    if ws.repository == ""
    then (if not (ws.branch == "")
        then some
            "spec.workspace.branch needs spec.workspace.repository: there is nothing to check out"
        else if is_some ws.credential_ref
        then some
            "spec.workspace.credentialRef needs spec.workspace.repository: there is nothing to authenticate against"
        else none)
    else none

mount_path_error : AgentWorkspaceSpec → Option String
mount_path_error ws =
    if not (ws.mount_path == "") && not (has_prefix ws.mount_path "/")
    then some ("spec.workspace.mountPath " <> quote ws.mount_path <> " must be absolute")
    else none

pub workspace_error :
    ParseQuantity → Option AgentRuntimeSpec → Option AgentWorkspaceSpec → Option String
workspace_error parse_quantity rt none = none
workspace_error parse_quantity none (some ws) =
    some
      "spec.workspace requires spec.runtime: the working directory is mounted into the runtime pod"
workspace_error parse_quantity (some rt) (some ws) =
    or_then (clone_error ws) (or_then (mount_path_error ws) (size_error parse_quantity ws.size))

unfoldable pub validate_workspace : ParseQuantity → AgentSpec → Option String
unfolding workspace_error clone_error mount_path_error size_error
validate_workspace parse_quantity s = workspace_error parse_quantity s.runtime s.workspace

expose_error : Option AgentRuntimeSpec → Option AgentExposeSpec → Option String
expose_error rt none = none
expose_error none (some e) =
    some "spec.expose requires spec.runtime: there is no runtime to publish"
expose_error (some rt) (some e) = none

unfoldable pub validate_expose : AgentSpec → Option String
unfolding expose_error
validate_expose s = expose_error s.runtime s.expose

-- The six checks for a name that a list repeats.
duplicate_refs_error : AgentSpec → Option String
duplicate_refs_error s = or_then (duplicate_error "toolRef" (ref_names s.tool_refs)) (
    or_then (duplicate_error "toolSetRef" (ref_names s.tool_set_refs)) (
      or_then (duplicate_error "skillRef" (ref_names s.skill_refs)) (
        or_then (duplicate_error "policyRef" (ref_names s.policy_refs)) (
          or_then (duplicate_error "toolPolicyRef" (ref_names s.tool_policy_refs))
            (duplicate_error "credentialRef" (ref_names s.credential_refs))))))

unfoldable pub validate_agent : ParseQuantity → AgentSpec → Option String
unfolding duplicate_refs_error
validate_agent parse_quantity s = or_then (duplicate_refs_error s) (
    or_then (validate_workspace parse_quantity s)
      (or_then (validate_volumes s) (or_then (validate_runtime_env s) (validate_expose s))))
