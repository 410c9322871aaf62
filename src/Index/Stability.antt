-- ===== src/Index/Stability.antt =====
-- That no change which matters to an Agent's resolution is missed.
use mathlib.Core.Path.{subst}
use agent_plane.Base.{
  String, true, false, List, [], ◌∷◌, ◌==◌, ◌≡◌, ◌⊎◌, refl, sym, ◌∙◌, ap, arith, eq_iff, eq_refl,
  Bool-cases, inl, inr, mem, All, All-append, map,
}
use agent_plane.Api.{LocalReference, Agent, ToolSet, apply_class_defaults}
use agent_plane.Cluster.{Got-cases, Reader, found}
use agent_plane.Resolve.Targets.{Kind, tool, Target, effective_spec, targets_of}
use agent_plane.Resolve.Pass.{names_of, set_tools, resolve_refs}
use agent_plane.Resolve.Pass.Frame.{Agrees, lookups_of, resolve_refs-frame}
use agent_plane.Index.{Lister}
use agent_plane.Index.Routes.{IsIndexed}
use agent_plane.Index.Inheritance.{effective-cases}
use agent_plane.Index.Completeness.{IsWoken, WakesFor, target_changes-wake, member_change-wake}

-- The cluster after a change of one object: every other lookup in the namespace is answered as before.
abbrev pub DiffersAt : Reader → Reader → String → Kind → String → Type 0
DiffersAt r r' ns kind name =
    (t : Target) → ((t.kind ≡ kind) × (t.name ≡ name) → ⊥) → Agrees r r' ns t

pub Kind-discrete : Discrete Kind
Kind-discrete = hlevel

All-of_mem :
    (P : String → Type 0) (xs : List String) → ((x : String) → mem x xs ≡ true → P x) → All P xs
All-of_mem P [] f = tt
All-of_mem P (x ∷ xs) f =
    (f x (rw (eq_refl x) refl), All-of_mem P xs (λ y m. f y (ground (arith, m))))

All-map_of :
    {A B : Type 0} (f : A → B) (P : B → Type 0) (xs : List A)
    → All (λ x. P (f x)) xs
    → All P (map f xs)
All-map_of f P [] h = tt
All-map_of f P (x ∷ xs) (h, hs) = (h, All-map_of f P xs hs)

pub extend : {P Q R : Type 0} → P → Q ⊎ R → (P × Q) ⊎ R
extend p (inl q) = inl (p, q)
extend p (inr r) = inr r

-- Either the changed object is not looked up, or what holds of each lookup holds of it.
frame_or_hit :
    (r r' : Reader) (ns : String) (kind : Kind) (name : String) (P : Kind → String → Type 0)
    → DiffersAt r r' ns kind name
    → (ts : List Target) → All (λ t. P t.kind t.name) ts
    → All (Agrees r r' ns) ts ⊎ P kind name
frame_or_hit r r' ns kind name P change [] h = inl tt
frame_or_hit r r' ns kind name P change (t ∷ ts) (h, hs) =
    let rest = frame_or_hit r r' ns kind name P change ts hs in
    elim (Kind-discrete t.kind kind) [
      | no other ↦ extend (change t (λ e. other e.0)) rest
      | yes same ↦ elim (Bool-cases (t.name == name)) [
        | inl e ↦ inr (subst (λ n. P kind n) ((eq_iff _ _).0 e) (subst (λ k. P k t.name) same (h)))
        | inr e ↦ extend (change t (λ both. ground (arith, eq_iff t.name name, e, both.1))) rest
      ]
    ]

module _ (l : Lister) (r : Reader) (a : Agent) (is : IsIndexed l r)
    (here : r.get_agent a.meta.ns a.meta.name ≡ found a) where
  set_given :
      (set : String) (s : ToolSet) → r.get_tool_set a.meta.ns set ≡ found s → (set == "") ≡ false
  set_given set s known = elim (Bool-cases (set == "")) [
    | inl e ↦ absurd (
        is.set_named a.meta.ns s
          (ap (r.get_tool_set a.meta.ns) (sym ((eq_iff set "").0 e)) ∙ known))
    | inr e ↦ e
  ]

  -- The Tools that ToolSets contribute.
  members-IsWoken :
      (refs : List LocalReference)
      → ((set : String)
          → mem set (names_of refs) ≡ true
          → mem set (names_of a.spec.tool_set_refs) ≡ true)
      → All (λ name. (name == "") ≡ false → IsWoken l a tool name) (set_tools r a.meta.ns refs)
  unfolding set_tools
  members-IsWoken [] inside = tt
  members-IsWoken (ref ∷ refs) inside =
      let rest = members-IsWoken refs (λ set m. inside set (ground (arith, m))) in
      let named = inside ref.name (rw (eq_refl ref.name) refl) in
      elim (Got-cases (r.get_tool_set a.meta.ns ref.name)) [
        | inr (inl e) ↦ rw e rest
        | inr (inr (x, e)) ↦ rw e rest
        | inl (s, e) ↦ rw e (
            All-append _ (names_of s.spec.tool_refs) (set_tools r a.meta.ns refs)
              (All-of_mem _ (names_of s.spec.tool_refs) (λ name m given.
                member_change-wake l r a ref.name name s is here (set_given ref.name s e) given
                  named e m))
              rest)
      ]

  effective_sets : (effective_spec r a).tool_set_refs ≡ a.spec.tool_set_refs
  unfolding apply_class_defaults
  effective_sets = elim (effective-cases r a) [
    | inl e ↦ ap (λ s. s.tool_set_refs) e
    | inr (ref, c, named, known, e) ↦ ap (λ s. s.tool_set_refs) e
  ]

  lookups_woken : All (WakesFor l a) (lookups_of r a)
  lookups_woken =
      All-append (WakesFor l a) (targets_of a.spec (effective_spec r a)) _
        (target_changes-wake l r a is here)
        (All-map_of _ (WakesFor l a) (set_tools r a.meta.ns (effective_spec r a).tool_set_refs)
          (rw effective_sets (members-IsWoken a.spec.tool_set_refs (λ set m. m))))

-- Where the index answers for the cluster, and the cluster holds the Agent, a change of one object of
-- the Agent's namespace either leaves the resolution of the Agent as it is, its error or its entries,
-- missing names, policies, tools, credentials and peers; or it wakes the Agent.
pub change-wakes_or_keeps :
    (l : Lister) (r r' : Reader) (a : Agent) (kind : Kind) (name : String)
    → IsIndexed l r
    → r.get_agent a.meta.ns a.meta.name ≡ found a
    → (name == "") ≡ false
    → DiffersAt r r' a.meta.ns kind name
    → (resolve_refs r a ≡ resolve_refs r' a) ⊎ IsWoken l a kind name
change-wakes_or_keeps l r r' a kind name is here given change =
    elim (frame_or_hit r r' a.meta.ns kind name (λ k n. (n == "") ≡ false → IsWoken l a k n) change
      (lookups_of r a) (lookups_woken l r a is here)) [
        | inl agrees ↦ inl (resolve_refs-frame r r' a agrees)
        | inr hit ↦ inr (hit given)
      ]
