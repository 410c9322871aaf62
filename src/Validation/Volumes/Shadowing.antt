-- ===== src/Validation/Volumes/Shadowing.antt =====
-- A workspace whose mount path is written with a trailing slash is not protected: `validateVolumes`
-- reserves the path as it is written, and compares it with paths whose slashes are trimmed.
use agent_plane.Base.{
  none, some, List, [], ◌∷◌, ◌==◌, ◌≡◌, ◌≢◌, refl, sym, arith, eq_iff, Option-cases, inl, inr, ◌∙◌,
  false,
}
use agent_plane.Api.{AgentSpec, AgentRuntimeSpec, AgentWorkspaceSpec, AgentVolume}
use agent_plane.Validation.Agents.{
  ParseQuantity, validate_agent, validate_workspace, validate_runtime_env, validate_expose,
}
use agent_plane.Validation.Volumes.{reserved_workspace_path, clean_path, validate_volumes}
use agent_plane.Validation.Volumes.Laws.{IsAllowed, volumes_of, validate_volumes-eq-none_iff}

IsAllowed-beside :
    (ws : AgentWorkspaceSpec) (v : AgentVolume)
    → IsAllowed none v
    → clean_path v.mount_path ≢ reserved_workspace_path ws
    → IsAllowed (some ws) v
IsAllowed-beside ws v a differs = record {
  name_free = a.name_free;
  no_prefix = a.no_prefix;
  absolute = a.absolute;
  path_free =
      ground (arith, a.path_free, eq_iff (reserved_workspace_path ws) (clean_path v.mount_path));
  outside = a.outside;
}

shadowing_volumes :
    (s : AgentSpec) (rt : AgentRuntimeSpec) (ws : AgentWorkspaceSpec) (v : AgentVolume)
    → s.runtime ≡ some rt
    → rt.volumes ≡ v ∷ []
    → s.workspace ≡ some ws
    → IsAllowed none v
    → clean_path v.mount_path ≡ clean_path ws.mount_path
    → ws.mount_path ≢ clean_path ws.mount_path
    → ws.mount_path ≢ ""
    → validate_volumes s ≡ none
shadowing_volumes s rt ws v has_rt single has_ws a same_directory slash set =
    let only_v : volumes_of s ≡ v ∷ [] = rw (has_rt, single) in
    let unset : (ws.mount_path == "") ≡ false = ground (arith, eq_iff ws.mount_path "") in
    let differs : clean_path v.mount_path ≢ reserved_workspace_path ws =
      λ e. slash (sym (e ∙ (rw unset)) ∙ same_directory) in
    (validate_volumes-eq-none_iff s).1
      (rw (only_v, has_ws) ((IsAllowed-beside ws v a differs, tt), (refl, tt)))

-- The Agent with this runtime and these volumes.
abbrev pub with_volumes : AgentSpec → AgentRuntimeSpec → List AgentVolume → AgentSpec
with_volumes s rt vs = record s { runtime = some (record rt { volumes = vs }) }

-- The other checks do not look at the volumes.
module _ (s : AgentSpec) (rt : AgentRuntimeSpec) (vs : List AgentVolume) where
  no_volumes : validate_volumes (with_volumes s rt []) ≡ none
  unfolding validate_volumes
  no_volumes = refl

  validate_workspace-volumes :
      (parse_quantity : ParseQuantity)
      → validate_workspace parse_quantity (with_volumes s rt vs)
        ≡ validate_workspace parse_quantity (with_volumes s rt [])
  unfolding validate_workspace
  validate_workspace-volumes parse_quantity = elim (Option-cases s.workspace) [
    | inl e ↦ rw e refl
    | inr (ws, e) ↦ rw e refl
  ]

  validate_expose-volumes :
      validate_expose (with_volumes s rt vs) ≡ validate_expose (with_volumes s rt [])
  unfolding validate_expose
  validate_expose-volumes = elim (Option-cases s.expose) [
    | inl e ↦ rw e refl
    | inr (ex, e) ↦ rw e refl
  ]

  validate_agent-volumes :
      (parse_quantity : ParseQuantity)
      → validate_volumes (with_volumes s rt vs) ≡ none
      → validate_agent parse_quantity (with_volumes s rt vs)
        ≡ validate_agent parse_quantity (with_volumes s rt [])
  unfolding validate_agent validate_runtime_env
  validate_agent-volumes parse_quantity volumes =
      rw
        (
          validate_agent,
          volumes,
          no_volumes,
          validate_workspace-volumes parse_quantity,
          validate_expose-volumes,
        )
        refl

-- Where `AgentSpec.Validate` accepts an Agent without volumes whose workspace has a mount path that is
-- written with a trailing slash, it accepts the Agent also with a single volume at that same directory,
-- which hides the working tree, if the volume is one that is allowed where there is no workspace.
pub shadowing_accepted :
    (parse_quantity : ParseQuantity) (s : AgentSpec) (rt : AgentRuntimeSpec)
    (ws : AgentWorkspaceSpec) (v : AgentVolume)
    → validate_agent parse_quantity (with_volumes s rt []) ≡ none
    → s.workspace ≡ some ws
    → IsAllowed none v
    → clean_path v.mount_path ≡ clean_path ws.mount_path
    → ws.mount_path ≢ clean_path ws.mount_path
    → ws.mount_path ≢ ""
    → validate_agent parse_quantity (with_volumes s rt (v ∷ [])) ≡ none
shadowing_accepted parse_quantity s rt ws v accepted has_ws a same_directory slash set =
    validate_agent-volumes s rt (v ∷ []) parse_quantity (
      shadowing_volumes (with_volumes s rt (v ∷ [])) (record rt { volumes = v ∷ [] }) ws v refl refl
        has_ws a same_directory slash set)
    ∙ accepted
