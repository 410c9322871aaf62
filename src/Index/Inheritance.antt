-- ===== src/Index/Inheritance.antt =====
-- What an Agent inherits from its class, and the routes to it.
use agent_plane.Base.{
  String, Bool, true, false, Option, none, some, List, [], ◌∷◌, ◌==◌, ◌≡◌, refl, sym, ◌∙◌, ap,
  eq_iff, Bool-cases, inl, inr, ◌⊎◌, mem,
}
use agent_plane.Api.{
  LocalReference, Agent, AgentSpec, AgentClass, apply_class_defaults, ref_or_default,
  refs_or_default,
}
use agent_plane.Cluster.{Got-cases, Reader, found}
use agent_plane.Resolve.Targets.{class_named, effective_spec}
use agent_plane.Resolve.Pass.{names_of}
use agent_plane.Index.{
  ref_name, ref_names_of, AgentField, ClassField, agent_keys, class_keys, Lister, has_request,
  agents_referencing,
}
use agent_plane.Index.Laws.{request_of}
use agent_plane.Index.Routes.{IsIndexed, mem-ref_names_of, mem-ref_name, direct_route, class_route}

-- The class that `ApplyClassDefaults` is given, where it is found.
abbrev pub Inherits : Reader → Agent → AgentSpec → Type 0
Inherits r a eff =
    (ref : LocalReference) × (c : AgentClass) × (a.spec.agent_class_ref ≡ some ref)
    × (r.get_class a.meta.ns ref.name ≡ found c)
    × (eff ≡ apply_class_defaults a.spec (some c))

class_named-cases :
    (r : Reader) (ns : String) (own : Option LocalReference)
    → (class_named r ns own ≡ none)
      ⊎ ((ref : LocalReference) × (c : AgentClass) × (own ≡ some ref)
          × (r.get_class ns ref.name ≡ found c)
          × (class_named r ns own ≡ some c))
class_named-cases r ns none = inl refl
class_named-cases r ns (some ref) = elim (Got-cases (r.get_class ns ref.name)) [
  | inl (c, g) ↦ inr (ref, c, refl, g, rw (class_named, g) refl)
  | inr (inl g) ↦ inl (rw (class_named, g) refl)
  | inr (inr (x, g)) ↦ inl (rw (class_named, g) refl)
]

pub effective-cases :
    (r : Reader) (a : Agent) → (effective_spec r a ≡ a.spec) ⊎ Inherits r a (effective_spec r a)
unfolding effective_spec apply_class_defaults
effective-cases r a = elim (class_named-cases r a.meta.ns a.spec.agent_class_ref) [
  | inl e ↦ inl (ap (apply_class_defaults a.spec) e)
  | inr (ref, c, named, g, e) ↦ inr (ref, c, named, g, ap (apply_class_defaults a.spec) e)
]

mem-refs_or_default :
    (name : String) (own dflt : List LocalReference)
    → mem name (names_of (refs_or_default own dflt)) ≡ true
    → (mem name (names_of own) ≡ true) ⊎ (mem name (names_of dflt) ≡ true)
mem-refs_or_default name (x ∷ own) dflt h = inl h
mem-refs_or_default name [] (y ∷ dflt) h = inr h
mem-refs_or_default name [] [] h = inl h

ref_or_default-cases :
    (own dflt : Option LocalReference) (ref : LocalReference)
    → ref_or_default own dflt ≡ some ref
    → (own ≡ some ref) ⊎ (dflt ≡ some ref)
ref_or_default-cases (some x) dflt ref h = inl h
ref_or_default-cases none (some y) ref h = inr h
ref_or_default-cases none none ref h = inl h

module _ (l : Lister) (r : Reader) (is : IsIndexed l r) (a : Agent)
    (here : r.get_agent a.meta.ns a.meta.name ≡ found a) where
  class_set :
      (ref : LocalReference) (c : AgentClass)
      → r.get_class a.meta.ns ref.name ≡ found c
      → (ref.name == "") ≡ false
  class_set ref c known = elim (Bool-cases (ref.name == "")) [
    | inl e ↦ absurd (
        is.class_named a.meta.ns c
          (ap (r.get_class a.meta.ns) (sym ((eq_iff ref.name "").0 e)) ∙ known))
    | inr e ↦ e
  ]

  -- The Agent's own reference, or its class's.
  pub refs_route :
      (field : AgentField) (cf : ClassField) (via : Bool) (own dflt : List LocalReference)
      (ref : LocalReference) (c : AgentClass)
      → agent_keys field a.spec ≡ ref_names_of own
      → class_keys cf c.spec ≡ ref_names_of dflt
      → a.spec.agent_class_ref ≡ some ref
      → r.get_class a.meta.ns ref.name ≡ found c
      → (name : String) → (name == "") ≡ false
      → mem name (names_of (refs_or_default own dflt)) ≡ true
      → has_request (request_of a) (agents_referencing l field (some cf) via a.meta.ns name) ≡ true
  unfolding agent_keys
  refs_route field cf via own dflt ref c keys defaults named known name n h =
      elim (mem-refs_or_default name own dflt h) [
        | inl k ↦
            direct_route l r is a here field (some cf) via name
              (ap (mem name) keys ∙ mem-ref_names_of name own n k)
        | inr k ↦
            class_route l r is a here field cf via name ref.name c known
              (ap (λ x. mem ref.name (ref_name x)) named ∙ mem-ref_name ref (class_set ref c known))
              (ap (mem name) defaults ∙ mem-ref_names_of name dflt n k)
      ]

  pub ref_route :
      (field : AgentField) (cf : ClassField) (own dflt : Option LocalReference)
      (ref : LocalReference) (c : AgentClass)
      → agent_keys field a.spec ≡ ref_name own
      → class_keys cf c.spec ≡ ref_name dflt
      → a.spec.agent_class_ref ≡ some ref
      → r.get_class a.meta.ns ref.name ≡ found c
      → (x : LocalReference) → (x.name == "") ≡ false
      → ref_or_default own dflt ≡ some x
      → has_request (request_of a) (agents_referencing l field (some cf) false a.meta.ns x.name)
        ≡ true
  unfolding agent_keys
  ref_route field cf own dflt ref c keys defaults named known x n h =
      elim (ref_or_default-cases own dflt x h) [
        | inl k ↦
            direct_route l r is a here field (some cf) false x.name
              (ap (mem x.name) keys ∙ ap (λ o. mem x.name (ref_name o)) k ∙ mem-ref_name x n)
        | inr k ↦
            class_route l r is a here field cf false x.name ref.name c known
              (ap (λ o. mem ref.name (ref_name o)) named ∙ mem-ref_name ref (class_set ref c known))
              (ap (mem x.name) defaults ∙ ap (λ o. mem x.name (ref_name o)) k ∙ mem-ref_name x n)
      ]
