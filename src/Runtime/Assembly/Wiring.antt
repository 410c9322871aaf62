-- ===== src/Runtime/Assembly/Wiring.antt =====
-- The volumes of the pod and the mounts of its containers fit together.
use mathlib.Core.Path.{subst}
use agent_plane.Base.{
  String, true, Option, none, some, List, [], ◌∷◌, ◌++◌, map, ◌≡◌, refl, sym, ◌∙◌, ap, arith, All,
  Bool-cases, inl, inr, mem, mem-append, IsDistinct,
}
use agent_plane.Api.{Agent, AgentRuntimeSpec, AgentWorkspaceSpec, AgentVolume}
use agent_plane.Validation.Volumes.Laws.{IsAllowed}
use agent_plane.Resolve.Pass.{MountedCredential}
use agent_plane.Runtime.Pod.{VolumeMount, Deployment, volume_names, mount_names}
use agent_plane.Runtime.Volumes.{user_volumes, credential_volumes}
use agent_plane.Runtime.Assembly.{pod_of, init_containers_of, set_deployment}
use agent_plane.Runtime.Assembly.Names.{
  IsDistinct-append, map-concat, names_match, mem-user_volumes, distinct_user_volumes,
  user_volumes_apart, distinct_credential_volumes, credential_volumes_prefixed,
  credential_names_match,
}
use agent_plane.Runtime.Assembly.Managed.{
  reserved_no_prefix, pod_names_match, pod_names_distinct, pod_names_reserved, clone_mounts_held,
}

-- How a Deployment's pod is wired: no two volumes share a name, each container's mounts name exactly
-- the volumes, and the mounts of the steps before name some of them.
pub record IsWired (d : Deployment) : Type 0 where
  pub distinct : IsDistinct (volume_names d.volumes)
  pub mounted : All (λ c. mount_names c.volume_mounts ≡ volume_names d.volumes) d.containers
  pub prepared :
      All
        (λ c. All (λ m. mem m.name (volume_names d.volumes) ≡ true) c.volume_mounts)
        d.init_containers

mem_left : (name : String) (xs ys : List String) → mem name xs ≡ true → mem name (xs ++ ys) ≡ true
mem_left name xs ys h = ground (arith, mem-append name xs ys, h)

All-mem_left :
    (ms : List VolumeMount) (xs ys : List String)
    → All (λ m. mem m.name xs ≡ true) ms
    → All (λ m. mem m.name (xs ++ ys) ≡ true) ms
All-mem_left [] xs ys h = tt
All-mem_left (m ∷ ms) xs ys (h, hs) = (mem_left m.name xs ys h, All-mem_left ms xs ys hs)

init_mounts_held :
    (a : Agent) (ws : Option AgentWorkspaceSpec) (git model : String) (others : List String)
    → All
        (λ c.
          All
            (λ m. mem m.name (volume_names (pod_of a ws git model).volumes ++ others) ≡ true)
            c.volume_mounts)
        (init_containers_of ws git)
unfolding init_containers_of
init_mounts_held a none git model others = tt
init_mounts_held a (some ws) git model others =
    (All-mem_left _ _ others (clone_mounts_held a git model ws), tt)

-- The three groups of names do not meet.
own_distinct :
    (ws : Option AgentWorkspaceSpec) (vs : List AgentVolume) (cs : List MountedCredential)
    → All (IsAllowed ws) vs
    → IsDistinct (map (λ v. v.name) vs)
    → IsDistinct (map (λ c. c.name) cs)
    → IsDistinct (volume_names (user_volumes vs).0 ++ volume_names (credential_volumes cs).0)
own_distinct ws vs cs ok d e =
    IsDistinct-append _ _ (distinct_user_volumes vs d) (distinct_credential_volumes cs e) (λ name m.
      elim (Bool-cases (mem name (volume_names (credential_volumes cs).0))) [
        | inl k ↦ ground (
          arith,
          credential_volumes_prefixed name cs k,
          (user_volumes_apart ws name vs ok (mem-user_volumes name vs m)).1,
        )
        | inr k ↦ k
      ])

all_distinct :
    (a : Agent) (ws : Option AgentWorkspaceSpec) (git model : String) (vs : List AgentVolume)
    (cs : List MountedCredential)
    → All (IsAllowed ws) vs
    → IsDistinct (map (λ v. v.name) vs)
    → IsDistinct (map (λ c. c.name) cs)
    → IsDistinct (
        volume_names (pod_of a ws git model).volumes
        ++ (volume_names (user_volumes vs).0 ++ volume_names (credential_volumes cs).0))
all_distinct a ws git model vs cs ok d e =
    IsDistinct-append _ _ (pod_names_distinct a git model ws) (own_distinct ws vs cs ok d e)
      (λ name m.
        let reserved = pod_names_reserved a git model ws name m in
        elim (Bool-cases (mem name (volume_names (user_volumes vs).0))) [
          | inl k ↦
              ground
                (arith, (user_volumes_apart ws name vs ok (mem-user_volumes name vs k)).0, reserved)
          | inr k ↦ elim (Bool-cases (mem name (volume_names (credential_volumes cs).0))) [
            | inl l ↦
                ground
                  (arith, credential_volumes_prefixed name cs l, reserved_no_prefix name reserved)
            | inr l ↦ ground (
              arith,
              k,
              l,
              mem-append name (volume_names (user_volumes vs).0)
                  (volume_names (credential_volumes cs).0),
            )
          ]
        ])

-- Where the Agent's volumes are allowed and, as the CRD has it, differ in their names, and the
-- credentials differ in theirs, the Deployment that is written over any other is wired: no two of
-- its volumes share a name, the runtime container mounts each volume once and nothing else, and the
-- step that prepares the workspace mounts volumes that are there.
pub set_deployment-IsWired :
    (registry_url : String) (a : Agent) (rt : AgentRuntimeSpec) (ws : Option AgentWorkspaceSpec)
    (git model : String) (cs : List MountedCredential) (dep : Deployment)
    → All (IsAllowed ws) rt.volumes
    → IsDistinct (map (λ v. v.name) rt.volumes)
    → IsDistinct (map (λ c. c.name) cs)
    → IsWired (set_deployment registry_url a rt ws git model cs dep)
unfolding set_deployment init_containers_of
set_deployment-IsWired registry_url a rt ws git model cs dep ok d e =
    let pod = pod_of a ws git model in
    let own = user_volumes rt.volumes in
    let creds = credential_volumes cs in
    let names : volume_names (pod.volumes ++ (own.0 ++ creds.0))
        ≡ volume_names pod.volumes ++ (volume_names own.0 ++ volume_names creds.0) =
      map-concat (λ v. v.name) pod.volumes (own.0 ++ creds.0)
      ∙ ap (λ l. volume_names pod.volumes ++ l) (map-concat (λ v. v.name) own.0 creds.0) in
    let mounts : mount_names (pod.mounts ++ (own.1 ++ creds.1))
        ≡ volume_names pod.volumes ++ (volume_names own.0 ++ volume_names creds.0) =
      map-concat (λ v. v.name) pod.mounts (own.1 ++ creds.1)
      ∙ ap (λ l. mount_names pod.mounts ++ l) (map-concat (λ v. v.name) own.1 creds.1)
      ∙ rw (pod_names_match a git model ws, names_match rt.volumes, credential_names_match cs)
          refl in
    record {
      distinct = subst IsDistinct (sym names) (all_distinct a ws git model rt.volumes cs ok d e);
      mounted = (mounts ∙ sym names, tt);
      prepared =
          subst
            (λ l.
              All (λ c. All (λ m. mem m.name l ≡ true) c.volume_mounts) (init_containers_of ws git))
            (sym names)
            (init_mounts_held a ws git model (volume_names own.0 ++ volume_names creds.0));
    }
