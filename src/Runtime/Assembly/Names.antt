-- ===== src/Runtime/Assembly/Names.antt =====
-- The names of the volumes that an Agent declares and of those for its credentials.
use text.Mathlib.TextLemmas.{cons-append, append_cancel_left}
use agent_plane.Base.{
  String, ◌<>◌, true, false, Option, List, [], ◌∷◌, ◌++◌, ◌==◌, map, ◌≡◌, refl, sym, ◌∙◌, ap, arith,
  eq_iff, eq_refl, All, Bool-cases, Option-cases, inl, inr, has_prefix, mem, mem-append, IsDistinct,
}
use agent_plane.Api.{AgentWorkspaceSpec, AgentVolume}
use agent_plane.Validation.Volumes.{reserved_volume_names, reserved_volume_name_prefix}
use agent_plane.Validation.Volumes.Laws.{IsAllowed}
use agent_plane.Resolve.Pass.{MountedCredential}
use agent_plane.Runtime.Pod.{volume_names, mount_names}
use agent_plane.Runtime.Volumes.{source_of, user_volumes, credential_volumes}

pub IsDistinct-append :
    (xs ys : List String)
    → IsDistinct xs
    → IsDistinct ys
    → ((v : String) → mem v xs ≡ true → mem v ys ≡ false)
    → IsDistinct (xs ++ ys)
IsDistinct-append [] ys d e h = e
IsDistinct-append (x ∷ xs) ys (f, d) e h = (
  ground (arith, mem-append x xs ys, h x (rw (eq_refl x) refl), f),
  IsDistinct-append xs ys d e (λ v m. h v (ground (arith, m))),
)

pub map-concat :
    {A : Type 0} (f : A → String) (xs ys : List A) → map f (xs ++ ys) ≡ map f xs ++ map f ys
map-concat f [] ys = refl
map-concat f (x ∷ xs) ys = ap (λ l. f x ∷ l) (map-concat f xs ys)

has_prefix_nil : (s : String) → has_prefix s "" ≡ true
unfolding has_prefix
has_prefix_nil String.[] = refl
has_prefix_nil (String.◌∷◌ c s) = refl

has_prefix_self : (p s : String) → has_prefix (p <> s) p ≡ true
unfolding has_prefix
has_prefix_self String.[] s = has_prefix_nil ("" <> s)
has_prefix_self (String.◌∷◌ c p) s = rw (cons-append c p s) (ground (arith, has_prefix_self p s))

pub names_match :
    (vs : List AgentVolume) → mount_names (user_volumes vs).1 ≡ volume_names (user_volumes vs).0
unfolding user_volumes
names_match [] = refl
names_match (v ∷ vs) = elim (Option-cases (source_of v)) [
  | inl e ↦ rw (user_volumes, e) (names_match vs)
  | inr (src, e) ↦ rw (user_volumes, e) (ap (λ l. v.name ∷ l) (names_match vs))
]

pub mem-user_volumes :
    (name : String) (vs : List AgentVolume)
    → mem name (volume_names (user_volumes vs).0) ≡ true
    → mem name (map (λ v. v.name) vs) ≡ true
unfolding user_volumes
mem-user_volumes name [] h = h
mem-user_volumes name (v ∷ vs) h = ground (arith, mem-user_volumes name vs, h)

pub distinct_user_volumes :
    (vs : List AgentVolume)
    → IsDistinct (map (λ v. v.name) vs)
    → IsDistinct (volume_names (user_volumes vs).0)
unfolding user_volumes
distinct_user_volumes [] d = tt
distinct_user_volumes (v ∷ vs) (f, d) = elim (Option-cases (source_of v)) [
  | inl e ↦ rw (user_volumes, e) (distinct_user_volumes vs d)
  | inr (src, e) ↦
      rw (user_volumes, e)
        (ground (arith, mem-user_volumes v.name vs, f), distinct_user_volumes vs d)
]

-- No volume of the Agent has a name of the Operator's or of a credential's.
pub user_volumes_apart :
    (ws : Option AgentWorkspaceSpec) (name : String) (vs : List AgentVolume)
    → All (IsAllowed ws) vs
    → mem name (map (λ v. v.name) vs) ≡ true
    → (mem name reserved_volume_names ≡ false)
      × (has_prefix name reserved_volume_name_prefix ≡ false)
user_volumes_apart ws name [] h m = ground (arith, m)
user_volumes_apart ws name (v ∷ vs) (h, hs) m = elim (Bool-cases (v.name == name)) [
  | inl e ↦
      let same = (eq_iff v.name name).0 e in
      (
        ap (λ n. mem n reserved_volume_names) (sym same) ∙ h.name_free,
        ap (λ n. has_prefix n reserved_volume_name_prefix) (sym same) ∙ h.no_prefix,
      )
  | inr e ↦ user_volumes_apart ws name vs hs (ground (arith, m, e))
]

abbrev credential_volume_name : String → String
credential_volume_name name = "credential-" <> name

mem-credential_volumes :
    (name : String) (cs : List MountedCredential)
    → mem (credential_volume_name name) (volume_names (credential_volumes cs).0) ≡ true
    → mem name (map (λ c. c.name) cs) ≡ true
unfolding credential_volumes
mem-credential_volumes name [] h = h
mem-credential_volumes name (c ∷ cs) h = elim (Bool-cases (c.secret == "")) [
  | inl e ↦ ground (arith, mem-credential_volumes name cs (rw (credential_volumes, e) at h))
  | inr e ↦ elim (Bool-cases (credential_volume_name c.name == credential_volume_name name)) [
    | inl s ↦
        let same : c.name ≡ name =
          append_cancel_left "credential-" c.name name ((eq_iff _ _).0 s) in
        rw (same, eq_refl name) refl
    | inr s ↦
        ground (arith, mem-credential_volumes name cs (rw s at (rw (credential_volumes, e) at h)))
  ]
]

pub distinct_credential_volumes :
    (cs : List MountedCredential)
    → IsDistinct (map (λ c. c.name) cs)
    → IsDistinct (volume_names (credential_volumes cs).0)
unfolding credential_volumes
distinct_credential_volumes [] d = tt
distinct_credential_volumes (c ∷ cs) (f, d) = elim (Bool-cases (c.secret == "")) [
  | inl e ↦ rw (credential_volumes, e) (distinct_credential_volumes cs d)
  | inr e ↦
      rw (credential_volumes, e)
        (
          elim (Bool-cases
              (mem (credential_volume_name c.name) (volume_names (credential_volumes cs).0))) [
                | inl m ↦ ground (arith, mem-credential_volumes c.name cs m, f)
                | inr m ↦ m
              ],
          distinct_credential_volumes cs d,
        )
]

pub credential_volumes_prefixed :
    (name : String) (cs : List MountedCredential)
    → mem name (volume_names (credential_volumes cs).0) ≡ true
    → has_prefix name reserved_volume_name_prefix ≡ true
unfolding credential_volumes
credential_volumes_prefixed name [] h = ground (arith, h)
credential_volumes_prefixed name (c ∷ cs) h = elim (Bool-cases (c.secret == "")) [
  | inl e ↦ credential_volumes_prefixed name cs (rw (credential_volumes, e) at h)
  | inr e ↦ elim (Bool-cases (credential_volume_name c.name == name)) [
    | inl s ↦
        ap (λ n. has_prefix n "credential-") (sym ((eq_iff _ _).0 s))
        ∙ has_prefix_self "credential-" c.name
    | inr s ↦
        credential_volumes_prefixed name cs (ground (arith, rw (credential_volumes, e) at h, s))
  ]
]

pub credential_names_match :
    (cs : List MountedCredential)
    → mount_names (credential_volumes cs).1 ≡ volume_names (credential_volumes cs).0
unfolding credential_volumes
credential_names_match [] = refl
credential_names_match (c ∷ cs) = elim (Bool-cases (c.secret == "")) [
  | inl e ↦ rw (credential_volumes, e) (credential_names_match cs)
  | inr e ↦
      rw (credential_volumes, e)
        (ap (λ l. ("credential-" <> c.name) ∷ l) (credential_names_match cs))
]
