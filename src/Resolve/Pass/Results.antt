-- ===== src/Resolve/Pass/Results.antt =====
-- What `resolveRefs` returns: every target is accounted for, and only an error other than NotFound
-- ends the pass.
use agent_plane.Base.{
  String, Option, none, some, List, [], ◌∷◌, ◌++◌, ◌≡◌, refl, ◌∙◌, ap, ◌↔◌, ◌⊎◌, inl, inr, arith,
}
use agent_plane.Api.{Agent, AgentSpec, LocalReference}
use agent_plane.Cluster.{Reader, ok, err}
use agent_plane.Resolve.Targets.{Target, targets_of, effective_spec}
use agent_plane.Resolve.Pass.{
  Resolution, expand_surface, initial_resolution, no_model, resolve_refs, declared_tools,
}
use agent_plane.Resolve.Pass.Laws.{found_refs, missing_names, first_failure, resolve_targets-cases}

-- What is missing before any lookup: an effective model.
abbrev pub missing_model : Option LocalReference → List String
missing_model none = no_model ∷ []
missing_model (some ref) = []

abbrev pub model_name_of : Option LocalReference → String
model_name_of none = ""
model_name_of (some ref) = ref.name

-- The targets of a pass over an Agent.
abbrev pub agent_targets : Reader → Agent → List Target
agent_targets r a = targets_of a.spec (effective_spec r a)

initial_lem :
    (eff : AgentSpec)
    → ((initial_resolution eff).refs ≡ [])
      × ((initial_resolution eff).missing ≡ missing_model eff.model_ref)
      × ((initial_resolution eff).declared.model ≡ model_name_of eff.model_ref)
initial_lem eff = ground arith

expand_keeps :
    (r : Reader) (ns : String) (eff : AgentSpec) (res : Resolution)
    → ((expand_surface r ns eff res).refs ≡ res.refs)
      × ((expand_surface r ns eff res).missing ≡ res.missing)
      × ((expand_surface r ns eff res).declared.model ≡ res.declared.model)
      × ((expand_surface r ns eff res).declared.tools ≡ declared_tools r ns eff)
unfolding expand_surface
expand_keeps r ns eff res = (refl, refl, refl, refl)

-- What a pass returns where it succeeds.
pub record IsResolved (r : Reader) (a : Agent) (res : Resolution) : Type 0 where
  pub refs : res.refs ≡ found_refs r a.meta.ns (agent_targets r a)
  pub missing :
      res.missing
      ≡ missing_model (effective_spec r a).model_ref
        ++ missing_names r a.meta.ns (agent_targets r a)
  pub model : res.declared.model ≡ model_name_of (effective_spec r a).model_ref
  pub tools : res.declared.tools ≡ declared_tools r a.meta.ns (effective_spec r a)

pub resolve_refs-cases :
    (r : Reader) (a : Agent)
    → ((res : Resolution) × (resolve_refs r a ≡ ok res)
        × (first_failure r a.meta.ns (agent_targets r a) ≡ none)
        × IsResolved r a res)
      ⊎ ((e : String) × (resolve_refs r a ≡ err e)
          × (first_failure r a.meta.ns (agent_targets r a) ≡ some e))
unfolding resolve_refs
resolve_refs-cases r a =
    let eff = effective_spec r a in
    let start = initial_resolution eff in
    elim (resolve_targets-cases r a.meta.ns start (targets_of a.spec eff)) [
      | inr (e, stops, fails) ↦ inr (e, (rw stops), fails)
      | inl (mid, ends, fine, adds) ↦
          let (refs, missing, model, tools) = expand_keeps r a.meta.ns eff mid in
          let (no_refs, no_missing, start_model) = initial_lem eff in
          inl (
            expand_surface r a.meta.ns eff mid,
            (rw ends),
            fine,
            record {
              refs =
                  refs
                  ∙ adds.refs_added
                  ∙ ap (λ l. l ++ found_refs r a.meta.ns (targets_of a.spec eff)) no_refs;
              missing =
                  missing
                  ∙ adds.missing_added
                  ∙ ap (λ l. l ++ missing_names r a.meta.ns (targets_of a.spec eff)) no_missing;
              model = model ∙ ap (λ d. d.model) adds.declared_kept ∙ start_model;
              tools = tools;
            },
          )
    ]

-- Where a pass succeeds, its entries are those of the targets that were found, in the order of the
-- targets; its missing names are those of the targets that were not, after a line for a missing
-- effective model; and it declares the effective model and the expanded tools.
pub resolve_refs-IsResolved :
    (r : Reader) (a : Agent) (res : Resolution) → resolve_refs r a ≡ ok res → IsResolved r a res
resolve_refs-IsResolved r a res h = elim (resolve_refs-cases r a) [
  | inr (e, stops, fails) ↦ cc
  | inl (found_res, ends, fine, is) ↦ let same : found_res ≡ res = cc in rw same at is
]

-- A pass returns an error exactly if some lookup of a target fails with an error other than NotFound,
-- and then it is the first such error.
pub resolve_refs-err_iff :
    (r : Reader) (a : Agent) (e : String)
    → (resolve_refs r a ≡ err e) ↔ (first_failure r a.meta.ns (agent_targets r a) ≡ some e)
resolve_refs-err_iff r a e = elim (resolve_refs-cases r a) [
  | inr (x, stops, fails) ↦ (λ h. cc, λ h. cc)
  | inl (res, ends, fine, is) ↦ (λ h. cc, λ h. cc)
]
