-- ===== src/Controllers/Sets.antt =====
-- What the status of a ToolSet counts.
use agent_plane.Base.{
  String, true, none, some, List, [], ◌∷◌, ◌+◌, ◌-◌, length, is_empty, ◌≡◌, ◌↔◌, refl, sym, ◌∙◌, ap,
  arith, inl, inr,
}
use agent_plane.Api.{LocalReference, ToolSet, ToolSetStatus, condition_ready}
use agent_plane.Cluster.{Got-cases, found, Reader, ok, StatusConditions}
use agent_plane.Resolve.Targets.{tool, targets_for, get_object}
use agent_plane.Resolve.Pass.Laws.{missing_names, first_failure}
use agent_plane.Reconcile.Pass.Laws.{status_in}
use agent_plane.Controllers.{apply_ready_from_missing, reconcile_tool_set}
use agent_plane.Controllers.Laws.{resolve_ref_targets-cases, apply_ready_lem, some-is_empty}

-- The references of a list that name a Tool that exists.
abbrev pub existing_tools : Reader → String → List LocalReference → List LocalReference
existing_tools r ns [] = []
existing_tools r ns (ref ∷ refs) =
    let rest = existing_tools r ns refs in
    elim (get_object r ns tool ref.name) [ found o ↦ ref ∷ rest | _ ↦ rest ]

-- Where no lookup fails, a reference is either missing or one that exists.
missing-existing :
    (r : Reader) (ns : String) (refs : List LocalReference)
    → first_failure r ns (targets_for tool refs) ≡ none
    → length (missing_names r ns (targets_for tool refs)) + length (existing_tools r ns refs)
      ≡ length refs
missing-existing r ns [] fine = refl
missing-existing r ns (ref ∷ refs) fine = elim (Got-cases (get_object r ns tool ref.name)) [
  | inl (o, e) ↦
      rw e (let rest = missing-existing r ns refs (ground (arith, fine, e)) in ground (arith, rest))
  | inr (inl e) ↦
      rw e (let rest = missing-existing r ns refs (ground (arith, fine, e)) in ground (arith, rest))
  | inr (inr (x, e)) ↦ ground (arith, fine, e)
]

length-eq-zero : (xs : List String) → length xs ≡ 0 → xs ≡ []
length-eq-zero [] h = refl
length-eq-zero (x ∷ xs) h = ground (arith, h)

module _ (sc : StatusConditions) where
  -- A pass over a ToolSet that writes a status counts in resolvedTools the references that name a
  -- Tool that exists, and marks the ToolSet Ready exactly if all of them do.
  pub reconcile_tool_set-counts :
      (r : Reader) (s : ToolSet) (st : ToolSetStatus)
      → reconcile_tool_set sc r s ≡ ok st
      → (st.resolved_tools ≡ length (existing_tools r s.meta.ns s.spec.tool_refs))
        × ((status_in condition_ready st.conditions ≡ some true)
            ↔ (st.resolved_tools ≡ length s.spec.tool_refs))
  unfolding reconcile_tool_set
  reconcile_tool_set-counts r s st h =
      elim (resolve_ref_targets-cases r s.meta.ns (targets_for tool s.spec.tool_refs)) [
        | inr (x, stops) ↦ ground (arith, h, stops)
        | inl (missing, fine) ↦
            let names = missing_names r s.meta.ns (targets_for tool s.spec.tool_refs) in
            let total = missing-existing r s.meta.ns s.spec.tool_refs fine in
            let same : record {
              conditions =
                  apply_ready_from_missing sc s.status.conditions names s.meta.generation
                    "all member tools resolved";
              observed_generation = s.meta.generation;
              resolved_tools = length s.spec.tool_refs - length names;
            }
                ≡ st =
              ground (arith, h, missing) in
            let status : status_in condition_ready st.conditions ≡ some (is_empty names) =
              ap (λ x. status_in condition_ready x.conditions) (sym same)
              ∙ apply_ready_lem sc s.status.conditions names s.meta.generation
                  "all member tools resolved" in
            let count : st.resolved_tools ≡ length s.spec.tool_refs - length names =
              ap (λ x. x.resolved_tools) (sym same) in
            (
              omega (arith, count, total),
              (
                (λ x.
                    let none_missing : length names ≡ 0 =
                      ap length ((some-is_empty sc names).0 (sym status ∙ x)) in
                    omega (arith, count, total, none_missing)),
                (λ x.
                    status
                    ∙ (some-is_empty sc names).1
                        (length-eq-zero names (omega (arith, count, total, x)))),
              ),
            )
      ]
