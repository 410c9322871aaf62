-- ===== src/Resolve/Pass/Gather.antt =====
-- A field of the resolution that the loop extends by what the objects of its targets contribute.
use mathlib.Core.List.{append_assoc, append-nil}
use agent_plane.Base.{
  String, Option, none, some, List, [], ◌∷◌, ◌++◌, ◌≡◌, refl, sym, ◌∙◌, ap, arith, inl, inr,
  if◌then◌else◌, ◌==◌, Bool-cases, Option-cases,
}
use agent_plane.Api.{LocalReference, AgentWorkspaceSpec, AgentSpec}
use agent_plane.Cluster.{Got, found, not_found, failed, Reader, ok, ◌>>=◌}
use agent_plane.Resolve.Targets.{
  Kind, agent_class, model, prompt_template, tool, tool_set, skill, policy, tool_policy, credential,
  Object, got_map, get_object, Target, targets_for, optional_target, git_target, targets_of,
}
use agent_plane.Resolve.Pass.Laws.{take_target-cases}
use agent_plane.Resolve.Pass.{Resolution, take_target, resolve_targets}

abbrev pub from_got : {X : Type 0} → (Object → List X) → Got Object → List X
from_got pick (found o) = pick o
from_got pick not_found = []
from_got pick (failed e) = []

-- A target contributes its object, unless it is the workspace's git credential.
abbrev pub from_target : {X : Type 0} → (Object → List X) → Reader → String → Target → List X
from_target pick r ns t = if t.git then [] else from_got pick (get_object r ns t.kind t.name)

-- What the targets that can be read contribute.
abbrev pub gathered : {X : Type 0} → (Object → List X) → Reader → String → List Target → List X
gathered pick r ns [] = []
gathered pick r ns (t ∷ ts) = from_target pick r ns t ++ gathered pick r ns ts

pub gathered-append :
    {X : Type 0} (pick : Object → List X) (r : Reader) (ns : String) (ts us : List Target)
    → gathered pick r ns (ts ++ us) ≡ gathered pick r ns ts ++ gathered pick r ns us
gathered-append pick r ns [] us = refl
gathered-append pick r ns (t ∷ ts) us =
    ap (λ l. from_target pick r ns t ++ l) (gathered-append pick r ns ts us)
    ∙ sym (append_assoc (from_target pick r ns t) _ _)

-- Nothing comes from a lookup of an object of a kind that contributes nothing.
pub from_got-nothing :
    {X A : Type 0} (pick : Object → List X) (f : A → Object)
    → ((a : A) → pick (f a) ≡ [])
    → (g : Got A) → from_got pick (got_map f g) ≡ []
from_got-nothing pick f h (found a) = h a
from_got-nothing pick f h not_found = refl
from_got-nothing pick f h (failed e) = refl

module _ {X : Type 0} (pick : Object → List X) (r : Reader) (ns : String) where
  abbrev pub IsSilent : Kind → Type 0
  IsSilent kind = (name : String) → from_got pick (get_object r ns kind name) ≡ []

  pub gathered-targets_for :
      (kind : Kind) (refs : List LocalReference)
      → IsSilent kind
      → gathered pick r ns (targets_for kind refs) ≡ []
  gathered-targets_for kind [] h = refl
  gathered-targets_for kind (ref ∷ refs) h = rw (h ref.name, gathered-targets_for kind refs h) refl

  gathered-optional_target :
      (kind : Kind) (ref : Option LocalReference)
      → IsSilent kind
      → gathered pick r ns (optional_target kind ref) ≡ []
  gathered-optional_target kind none h = refl
  gathered-optional_target kind (some ref) h = rw (h ref.name) refl

  gathered-git_target : (ws : Option AgentWorkspaceSpec) → gathered pick r ns (git_target ws) ≡ []
  gathered-git_target none = refl
  gathered-git_target (some ws) = elim (Bool-cases (ws.repository == "")) [
    | inl e ↦ rw e refl
    | inr e ↦ elim (Option-cases ws.credential_ref) [
      | inl k ↦ rw (e, k) refl
      | inr (ref, k) ↦ rw (e, k) refl
    ]
  ]

  -- Of the targets of a pass, those of the policy kinds may contribute.
  pub gathered-targets_of :
      (spec eff : AgentSpec)
      → IsSilent agent_class
      → IsSilent model
      → IsSilent prompt_template
      → IsSilent tool
      → IsSilent tool_set
      → IsSilent skill
      → IsSilent credential
      → gathered pick r ns (targets_of spec eff)
        ≡ gathered pick r ns (targets_for policy eff.policy_refs)
          ++ gathered pick r ns (targets_for tool_policy eff.tool_policy_refs)
  unfolding targets_of
  gathered-targets_of spec eff a b c d e f g =
      rw
        (
          gathered-append pick r ns (optional_target agent_class spec.agent_class_ref),
          gathered-append pick r ns (optional_target model eff.model_ref),
          gathered-append pick r ns (optional_target prompt_template eff.prompt_ref),
          gathered-append pick r ns (targets_for tool eff.tool_refs),
          gathered-append pick r ns (targets_for tool_set eff.tool_set_refs),
          gathered-append pick r ns (targets_for skill eff.skill_refs),
          gathered-append pick r ns (targets_for policy eff.policy_refs),
          gathered-append pick r ns (targets_for tool_policy eff.tool_policy_refs),
          gathered-append pick r ns (targets_for credential spec.credential_refs),
          gathered-optional_target agent_class spec.agent_class_ref a,
          gathered-optional_target model eff.model_ref b,
          gathered-optional_target prompt_template eff.prompt_ref c,
          gathered-targets_for tool eff.tool_refs d,
          gathered-targets_for tool_set eff.tool_set_refs e,
          gathered-targets_for skill eff.skill_refs f,
          gathered-targets_for credential spec.credential_refs g,
          gathered-git_target spec.workspace,
          append-nil (gathered pick r ns (targets_for tool_policy eff.tool_policy_refs)),
        )
        refl

  -- The loop appends what it gathers to a field that one target extends by its object.
  pub gathers :
      (field : Resolution → List X)
      → ((res : Resolution) (t : Target) (got : Got Object) (res' : Resolution)
          → take_target res t got ≡ ok res'
          → field res' ≡ field res ++ (if t.git then [] else from_got pick got))
      → (res : Resolution) (ts : List Target) (res' : Resolution)
      → resolve_targets r ns res ts ≡ ok res'
      → field res' ≡ field res ++ gathered pick r ns ts
  unfolding resolve_targets
  gathers field step res [] res' e =
      let same : res ≡ res' = cc in sym (ap field same) ∙ sym (append-nil (field res))
  gathers field step res (t ∷ ts) res' e =
      let got = get_object r ns t.kind t.name in
      elim (take_target-cases res t got) [
        | inr (x, stops, fails) ↦ ground (arith, stops, e)
        | inl (mid, goes, fine) ↦
            gathers field step mid ts res'
              (sym (ap (λ m. m >>= λ res''. resolve_targets r ns res'' ts) goes) ∙ e)
            ∙ ap (λ l. l ++ gathered pick r ns ts) (step res t got mid goes)
            ∙ append_assoc (field res) (from_target pick r ns t) _
      ]
