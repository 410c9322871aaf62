-- ===== src/Validation/Agents/Workspace.antt =====
-- Which workspaces `validateWorkspace` accepts.
use mathlib.Core.Bool.{false≢true}
use agent_plane.Base.{
  String, true, Option, none, some, ◌==◌, ◌≡◌, refl, ◌↔◌, ◌≢◌, arith, ◌⊎◌, inl, inr, eq_iff,
  is_some, has_prefix, Bool-cases,
}
use agent_plane.Api.{AgentRuntimeSpec, AgentWorkspaceSpec}
use agent_plane.Validation.Agents.{
  ParseQuantity, or_then, size_error, clone_error, mount_path_error, workspace_error,
}

pub or_then-eq-none : (a b : Option String) → (or_then a b ≡ none) ↔ ((a ≡ none) × (b ≡ none))
or_then-eq-none none b = (λ h. (refl, h), λ h. h.1)
or_then-eq-none (some e) b = (λ h. cc, λ h. h.0)

-- A workspace is coherent: it has a runtime; without a repository it names neither a branch nor a
-- credential; its mount path is unset or absolute; and its size is unset or a quantity.
pub record IsCoherent (parse_quantity : ParseQuantity) (rt : Option AgentRuntimeSpec)
    (ws : AgentWorkspaceSpec) : Type 0 where
  pub runtime : is_some rt ≡ true
  pub clone : (ws.repository ≢ "") ⊎ ((ws.branch ≡ "") × (ws.credential_ref ≡ none))
  pub mount_path : (ws.mount_path ≡ "") ⊎ (has_prefix ws.mount_path "/" ≡ true)
  pub size : (ws.size ≡ "") ⊎ (parse_quantity ws.size ≡ none)

clone_sound :
    (ws : AgentWorkspaceSpec)
    → clone_error ws ≡ none
    → (ws.repository ≢ "") ⊎ ((ws.branch ≡ "") × (ws.credential_ref ≡ none))
unfolding clone_error
clone_sound ws h = elim (Bool-cases (ws.repository == "")) [
  | inl e ↦ inr (ground (arith, eq_iff ws.branch ""), ground arith)
  | inr e ↦ inl (λ p. ground (arith, eq_iff ws.repository ""))
]

clone_complete :
    (ws : AgentWorkspaceSpec)
    → (ws.repository ≢ "") ⊎ ((ws.branch ≡ "") × (ws.credential_ref ≡ none))
    → clone_error ws ≡ none
unfolding clone_error
clone_complete ws h = ground (arith, eq_iff ws.repository "", eq_iff ws.branch "")

mount_sound :
    (ws : AgentWorkspaceSpec)
    → mount_path_error ws ≡ none
    → (ws.mount_path ≡ "") ⊎ (has_prefix ws.mount_path "/" ≡ true)
unfolding mount_path_error
mount_sound ws h = ground (arith, eq_iff ws.mount_path "")

mount_complete :
    (ws : AgentWorkspaceSpec)
    → (ws.mount_path ≡ "") ⊎ (has_prefix ws.mount_path "/" ≡ true)
    → mount_path_error ws ≡ none
unfolding mount_path_error
mount_complete ws h = ground (arith, eq_iff ws.mount_path "")

size_sound :
    (parse_quantity : ParseQuantity) (size : String)
    → size_error parse_quantity size ≡ none
    → (size ≡ "") ⊎ (parse_quantity size ≡ none)
unfolding size_error
size_sound parse_quantity size h = ground (arith, eq_iff size "")

size_complete :
    (parse_quantity : ParseQuantity) (size : String)
    → (size ≡ "") ⊎ (parse_quantity size ≡ none)
    → size_error parse_quantity size ≡ none
unfolding size_error
size_complete parse_quantity size h = ground (arith, eq_iff size "")

-- A property of what is there.
abbrev pub Where {ℓ κ} : {A : Type ℓ} → (A → Type κ) → Option A → Type κ
Where P none = Unit
Where P (some a) = P a

pub workspace_sound :
    (parse_quantity : ParseQuantity) (rt : Option AgentRuntimeSpec) (ws : Option AgentWorkspaceSpec)
    → workspace_error parse_quantity rt ws ≡ none
    → Where (IsCoherent parse_quantity rt) ws
unfolding workspace_error
workspace_sound parse_quantity rt none h = tt
workspace_sound parse_quantity none (some ws) h = cc
workspace_sound parse_quantity (some rt) (some ws) h =
    let (clone, rest) = (or_then-eq-none (clone_error ws) _).0 h in
    let (mount, size) = (or_then-eq-none (mount_path_error ws) _).0 rest in
    record {
      runtime = refl;
      clone = clone_sound ws clone;
      mount_path = mount_sound ws mount;
      size = size_sound parse_quantity ws.size size;
    }

pub workspace_complete :
    (parse_quantity : ParseQuantity) (rt : Option AgentRuntimeSpec) (ws : Option AgentWorkspaceSpec)
    → Where (IsCoherent parse_quantity rt) ws
    → workspace_error parse_quantity rt ws ≡ none
unfolding workspace_error
workspace_complete parse_quantity rt none c = refl
workspace_complete parse_quantity none (some ws) c = absurd (false≢true c.runtime)
workspace_complete parse_quantity (some rt) (some ws) c = (or_then-eq-none (clone_error ws) _).1 (
  clone_complete ws c.clone,
  (or_then-eq-none (mount_path_error ws) _).1
      (mount_complete ws c.mount_path, size_complete parse_quantity ws.size c.size),
)
