-- ===== src/Registry/Config/Loop.antt =====
-- The loops of `addTool` over the names, and the views that they append.
use mathlib.Core.List.{append_assoc, append-nil}
use agent_plane.Base.{
  String, true, false, none, some, List, [], ◌∷◌, ◌++◌, ◌≡◌, refl, sym, ◌∙◌, ap, ◌⊎◌, if◌then◌else◌,
  mem, Bool-cases, Option-cases, inl, inr,
}
use agent_plane.Api.{LocalReference}
use agent_plane.Cluster.{Got-cases, Reader}
use agent_plane.Resolve.Pass.{names_of, set_tools}
use agent_plane.Registry.Views.{ToolView}
use agent_plane.Registry.Config.{resolve_tool, Tools, add_tool, add_tools, add_sets}

module _ (r : Reader) (ns : String) where
  -- The views that a loop of `addTool` appends.
  abbrev pub added : List String → List String → List ToolView
  added seen [] = []
  added seen (name ∷ names) =
      let same = added seen names in
      let more = added (name ∷ seen) names in
      if mem name seen
      then same
      else elim (resolve_tool r ns name) [ none ↦ same | some v ↦ v ∷ more ]

  add_tool-added :
      (st : Tools) (name : String) (v : ToolView)
      → mem name st.seen ≡ false
      → resolve_tool r ns name ≡ some v
      → add_tool r ns st name ≡ record { seen = name ∷ st.seen; views = st.views ++ v ∷ [] }
  unfolding add_tool
  add_tool-added st name v e k = rw (e, k) refl

  add_tool-kept :
      (st : Tools) (name : String)
      → (mem name st.seen ≡ true) ⊎ (resolve_tool r ns name ≡ none)
      → add_tool r ns st name ≡ st
  unfolding add_tool
  add_tool-kept st name (inl e) = rw e refl
  add_tool-kept st name (inr k) = elim (Bool-cases (mem name st.seen)) [
    | inl e ↦ rw e refl
    | inr e ↦ rw (e, k) refl
  ]

  pub add_tools-views :
      (st : Tools) (names : List String)
      → (add_tools r ns st names).views ≡ st.views ++ added st.seen names
  unfolding add_tools
  add_tools-views st [] = sym (append-nil st.views)
  add_tools-views st (name ∷ names) = elim (Bool-cases (mem name st.seen)) [
    | inl e ↦
        ap (λ s. (add_tools r ns s names).views) (add_tool-kept st name (inl e))
        ∙ rw e (add_tools-views st names)
    | inr e ↦ elim (Option-cases (resolve_tool r ns name)) [
      | inl k ↦
          ap (λ s. (add_tools r ns s names).views) (add_tool-kept st name (inr k))
          ∙ rw (e, k) (add_tools-views st names)
      | inr (v, k) ↦
          ap (λ s. (add_tools r ns s names).views) (add_tool-added st name v e k)
          ∙ rw (e, k)
              (add_tools-views (record { seen = name ∷ st.seen; views = st.views ++ v ∷ [] }) names
                ∙ append_assoc st.views (v ∷ []) (added (name ∷ st.seen) names))
    ]
  ]

  pub add_tools-append :
      (st : Tools) (xs ys : List String)
      → add_tools r ns st (xs ++ ys) ≡ add_tools r ns (add_tools r ns st xs) ys
  unfolding add_tools
  add_tools-append st [] ys = refl
  add_tools-append st (x ∷ xs) ys = add_tools-append (add_tool r ns st x) xs ys

  pub add_sets-eq-add_tools :
      (st : Tools) (refs : List LocalReference)
      → add_sets r ns st refs ≡ add_tools r ns st (set_tools r ns refs)
  unfolding add_sets set_tools add_tools
  add_sets-eq-add_tools st [] = refl
  add_sets-eq-add_tools st (ref ∷ refs) = elim (Got-cases (r.get_tool_set ns ref.name)) [
    | inl (ts, e) ↦ rw e (
        add_sets-eq-add_tools (add_tools r ns st (names_of ts.spec.tool_refs)) refs
        ∙ sym (add_tools-append st (names_of ts.spec.tool_refs) (set_tools r ns refs)))
    | inr (inl e) ↦ rw e (add_sets-eq-add_tools st refs)
    | inr (inr (x, e)) ↦ rw e (add_sets-eq-add_tools st refs)
  ]
