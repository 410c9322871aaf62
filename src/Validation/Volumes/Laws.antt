-- ===== src/Validation/Volumes/Laws.antt =====
-- Which volumes an Agent may declare.
use agent_plane.Base.{
  String, ◌<>◌, Bool, true, false, not, ◌&&◌, Option, none, some, List, [], ◌∷◌, ◌≡◌, refl, sym,
  ◌∙◌, ◌↔◌, arith, if◌then◌else◌, mem, map, is_some, is_empty, has_prefix, all, All, All-of_all,
  all_of_All, All-map, IsDistinct,
}
use agent_plane.Api.{AgentSpec, AgentRuntimeSpec, AgentWorkspaceSpec, AgentVolume}
use agent_plane.Validation.Names.Laws.{distinct, distinct-eq-true_iff, fresh, fresh-cons, fresh_nil}
use agent_plane.Validation.Volumes.{
  reserved_volume_names, credentials_dir_path, reserved_paths, reserved_volume_name_prefix,
  clean_path, volume_error, volumes_error, runtime_volumes_error, validate_volumes,
}

-- What a volume must satisfy by itself.
pub record IsAllowed (ws : Option AgentWorkspaceSpec) (v : AgentVolume) : Type 0 where
  pub name_free : mem v.name reserved_volume_names ≡ false
  pub no_prefix : has_prefix v.name reserved_volume_name_prefix ≡ false
  pub absolute : has_prefix v.mount_path "/" ≡ true
  pub path_free : mem (clean_path v.mount_path) (reserved_paths ws) ≡ false
  pub outside : has_prefix (clean_path v.mount_path) (credentials_dir_path <> "/") ≡ false

pub allowed : List String → AgentVolume → Bool
allowed reserved v =
    not (mem v.name reserved_volume_names)
    && (not (has_prefix v.name reserved_volume_name_prefix)
        && (has_prefix v.mount_path "/"
            && (not (mem (clean_path v.mount_path) reserved)
                && not (has_prefix (clean_path v.mount_path) (credentials_dir_path <> "/")))))

abbrev pub clean_paths : List AgentVolume → List String
clean_paths vs = map (λ v. clean_path v.mount_path) vs

volume_error_lem :
    (reserved seen : List String) (v : AgentVolume)
    → not (is_some (volume_error reserved seen v))
      ≡ (allowed reserved v && not (mem (clean_path v.mount_path) seen))
unfolding volume_error allowed
volume_error_lem reserved seen v = ground arith

volumes_error_lem :
    (reserved seen : List String) (vs : List AgentVolume)
    → not (is_some (volumes_error reserved seen vs))
      ≡ (all (allowed reserved) vs && (fresh seen (clean_paths vs) && distinct (clean_paths vs)))
unfolding volumes_error
volumes_error_lem reserved seen [] = refl
volumes_error_lem reserved seen (v ∷ vs) = ground (
  arith,
  volume_error_lem reserved seen v,
  volumes_error_lem reserved (clean_path v.mount_path ∷ seen) vs,
  fresh-cons (clean_path v.mount_path) seen (clean_paths vs),
)

-- The volumes of an Agent, which has none without a runtime.
abbrev pub volumes_of : AgentSpec → List AgentVolume
volumes_of s = elim s.runtime [ none ↦ [] | some rt ↦ rt.volumes ]

unguarded :
    (reserved : List String) (vs : List AgentVolume)
    → not (is_some (if is_empty vs then none else volumes_error reserved [] vs))
      ≡ (all (allowed reserved) vs && distinct (clean_paths vs))
unguarded reserved [] = refl
unguarded reserved (v ∷ vs) =
    ground (arith, volumes_error_lem reserved [] (v ∷ vs), fresh_nil (clean_paths (v ∷ vs)))

abbrev pub volumes_ok : AgentSpec → Bool
volumes_ok s =
    all (allowed (reserved_paths s.workspace)) (volumes_of s)
    && distinct (clean_paths (volumes_of s))

runtime_volumes_error_lem :
    (rt : Option AgentRuntimeSpec) (ws : Option AgentWorkspaceSpec)
    → not (is_some (runtime_volumes_error rt ws)) ≡ (
        all (allowed (reserved_paths ws)) (elim rt [ none ↦ [] | some r ↦ r.volumes ])
        && distinct (clean_paths (elim rt [ none ↦ [] | some r ↦ r.volumes ])))
unfolding runtime_volumes_error
runtime_volumes_error_lem none ws = refl
runtime_volumes_error_lem (some rt) ws = unguarded (reserved_paths ws) rt.volumes

pub validate_volumes_lem : (s : AgentSpec) → not (is_some (validate_volumes s)) ≡ volumes_ok s
unfolding validate_volumes
validate_volumes_lem s = runtime_volumes_error_lem s.runtime s.workspace

module _ (ws : Option AgentWorkspaceSpec) (v : AgentVolume) where
  allowed_sound : allowed (reserved_paths ws) v ≡ true → IsAllowed ws v
  unfolding allowed
  allowed_sound h = ground arith

  allowed_complete : IsAllowed ws v → allowed (reserved_paths ws) v ≡ true
  unfolding allowed
  allowed_complete a = ground arith

-- An Agent's volumes are accepted exactly if each has a name that is neither reserved nor begins with
-- "credential-", an absolute mount path that, without its trailing slashes, is not reserved and
-- not under the credentials directory, and no two of these paths are equal.
pub validate_volumes-eq-none_iff :
    (s : AgentSpec)
    → (validate_volumes s ≡ none)
      ↔ (All (IsAllowed s.workspace) (volumes_of s) × IsDistinct (clean_paths (volumes_of s)))
validate_volumes-eq-none_iff s = (
  λ e.
      let h : volumes_ok s ≡ true = sym (validate_volumes_lem s) ∙ (rw e) in
      (
        All-map (allowed_sound s.workspace) (volumes_of s)
            (All-of_all (allowed (reserved_paths s.workspace)) (volumes_of s) (ground arith)),
        (distinct-eq-true_iff _).0 (ground arith),
      ),
  λ (a, d).
      let h : volumes_ok s ≡ true = ground (
        arith,
        all_of_All (allowed (reserved_paths s.workspace)) (volumes_of s)
            (All-map (allowed_complete s.workspace) (volumes_of s) a),
        (distinct-eq-true_iff _).1 d,
      ) in
      ground (arith, validate_volumes_lem s),
)
