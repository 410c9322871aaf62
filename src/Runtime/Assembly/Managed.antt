-- ===== src/Runtime/Assembly/Managed.antt =====
-- The volumes that the Operator itself gives a workspace's pod.
use agent_plane.Base.{
  String, true, false, not, Option, none, some, ◌==◌, ◌≡◌, refl, sym, ◌∙◌, ap, arith, eq_iff, All,
  Bool-cases, inl, inr, has_prefix, mem, IsDistinct,
}
use agent_plane.Api.{Agent, AgentWorkspaceSpec}
use agent_plane.Validation.Volumes.{reserved_volume_names, reserved_volume_name_prefix}
use agent_plane.Runtime.Pod.{volume_names, mount_names}
use agent_plane.Runtime.Workspace.{
  pod_volumes, pod_mounts, workspace_pod_spec, clone_init_container,
}
use agent_plane.Runtime.Assembly.{pod_of}

-- What an equal text does not begin with.
no_prefix_of_eq :
    (s name : String)
    → (s == name) ≡ true
    → has_prefix s reserved_volume_name_prefix ≡ false
    → has_prefix name reserved_volume_name_prefix ≡ false
no_prefix_of_eq s name e h =
    ap (λ n. has_prefix n reserved_volume_name_prefix) (sym ((eq_iff s name).0 e)) ∙ h

pub reserved_no_prefix :
    (name : String)
    → mem name reserved_volume_names ≡ true
    → has_prefix name reserved_volume_name_prefix ≡ false
unfolding has_prefix
reserved_no_prefix name h = elim (Bool-cases ("workspace" == name)) [
  | inl e ↦ no_prefix_of_eq "workspace" name e refl
  | inr e ↦ elim (Bool-cases ("tmp" == name)) [
    | inl f ↦ no_prefix_of_eq "tmp" name f refl
    | inr f ↦ elim (Bool-cases ("git-credential" == name)) [
      | inl g ↦ no_prefix_of_eq "git-credential" name g refl
      | inr g ↦ no_prefix_of_eq "model-credential" name (ground (arith, h, e, f, g)) refl
    ]
  ]
]

-- The volumes of the Operator.
module _ (a : Agent) (git model : String) where
  pub pod_names_match :
      (ws : Option AgentWorkspaceSpec)
      → mount_names (pod_of a ws git model).mounts ≡ volume_names (pod_of a ws git model).volumes
  unfolding pod_of workspace_pod_spec pod_volumes pod_mounts
  pod_names_match none = refl
  pod_names_match (some ws) = elim (Bool-cases (git == "")) [
    | inl e ↦ elim (Bool-cases (model == "")) [ inl f ↦ rw (e, f) refl | inr f ↦ rw (e, f) refl ]
    | inr e ↦ elim (Bool-cases (model == "")) [ inl f ↦ rw (e, f) refl | inr f ↦ rw (e, f) refl ]
  ]

  pub pod_names_distinct :
      (ws : Option AgentWorkspaceSpec) → IsDistinct (volume_names (pod_of a ws git model).volumes)
  unfolding pod_of workspace_pod_spec pod_volumes
  pod_names_distinct none = tt
  pod_names_distinct (some ws) = elim (Bool-cases (git == "")) [
    | inl e ↦ elim (Bool-cases (model == "")) [
      | inl f ↦ rw (e, f) (refl, (refl, tt))
      | inr f ↦ rw (e, f) (refl, (refl, (refl, tt)))
    ]
    | inr e ↦ elim (Bool-cases (model == "")) [
      | inl f ↦ rw (e, f) (refl, (refl, (refl, tt)))
      | inr f ↦ rw (e, f) (refl, (refl, (refl, (refl, tt))))
    ]
  ]

  pub pod_names_reserved :
      (ws : Option AgentWorkspaceSpec) (name : String)
      → mem name (volume_names (pod_of a ws git model).volumes) ≡ true
      → mem name reserved_volume_names ≡ true
  unfolding pod_of workspace_pod_spec pod_volumes
  pod_names_reserved none name h = ground (arith, h)
  pod_names_reserved (some ws) name h = elim (Bool-cases (git == "")) [
    | inl e ↦ elim (Bool-cases (model == "")) [
      | inl f ↦ ground (arith, rw (e, f) at h)
      | inr f ↦ ground (arith, rw (e, f) at h)
    ]
    | inr e ↦ elim (Bool-cases (model == "")) [
      | inl f ↦ ground (arith, rw (e, f) at h)
      | inr f ↦ ground (arith, rw (e, f) at h)
    ]
  ]

  -- What the step that prepares the workspace mounts is there.
  pub clone_mounts_held :
      (ws : AgentWorkspaceSpec)
      → All
          (λ m. mem m.name (volume_names (pod_of a (some ws) git model).volumes) ≡ true)
          (clone_init_container ws (not (git == ""))).volume_mounts
  unfolding pod_of workspace_pod_spec pod_volumes clone_init_container
  clone_mounts_held ws = elim (Bool-cases (git == "")) [
    | inl e ↦ rw e (refl, tt)
    | inr e ↦ rw e (refl, (rw (pod_of, workspace_pod_spec, pod_volumes, e) refl, tt))
  ]
