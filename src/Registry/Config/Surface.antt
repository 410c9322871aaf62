-- ===== src/Registry/Config/Surface.antt =====
-- The tools that the Registry ships are those that the Operator checked.
use agent_plane.Base.{
  String, true, false, ◌||◌, some, List, [], ◌∷◌, ◌++◌, ◌==◌, map, ◌≡◌, refl, sym, ◌∙◌, ap, arith,
  eq_iff, mem, keep_first, keep_first-seen, keep_first-new, Bool-cases, inl, inr,
}
use agent_plane.Api.{Agent, AgentSpec, Tool}
use agent_plane.Cluster.{Got-cases, found, Reader, Result, ok}
use agent_plane.Resolve.Targets.{effective_spec}
use agent_plane.Resolve.Pass.{Resolution, names_of, set_tools, declared_tools, dedupe, resolve_refs}
use agent_plane.Resolve.Pass.Results.{resolve_refs-IsResolved}
use agent_plane.Registry.Views.{ToolView, AgentConfig}
use agent_plane.Registry.Config.{resolve_tool, Tools, add_tools, tool_views, build_config_from}
use agent_plane.Registry.Config.Loop.{
  added, add_tools-views, add_tools-append, add_sets-eq-add_tools,
}
use agent_plane.Registry.Config.Names.{
  IsNamed, readable, is_readable, resolve_tool-found, resolve_tool-unreadable,
}

module _ (r : Reader) (ns : String) where
  -- The two sets of seen names agree on the tools that can be read.
  abbrev Agrees : List String → List String → Type 0
  Agrees seen kept = (v : String) → is_readable r ns v ≡ true → mem v seen ≡ mem v kept

  Agrees-unreadable :
      (seen kept : List String) (name : String)
      → is_readable r ns name ≡ false
      → Agrees seen kept
      → Agrees seen (name ∷ kept)
  Agrees-unreadable seen kept name e h v k =
      let other : (name == v) ≡ false = elim (Bool-cases (name == v)) [
        | inl s ↦ ground (arith, ap (is_readable r ns) ((eq_iff name v).0 s), k, e)
        | inr s ↦ s
      ] in
      rw other (h v k)

  is_readable-found :
      (name : String) → is_readable r ns name ≡ true → (t : Tool) × (r.get_tool ns name ≡ found t)
  is_readable-found name h = elim (Got-cases (r.get_tool ns name)) [
    | inl found_it ↦ found_it
    | inr (inl e) ↦ ground (arith, h, e)
    | inr (inr (x, e)) ↦ ground (arith, h, e)
  ]

  readable-found :
      (name : String) (names : List String) (t : Tool)
      → r.get_tool ns name ≡ found t
      → readable r ns (name ∷ names) ≡ name ∷ readable r ns names
  readable-found name names t e = rw (readable, e) refl

  added-seen :
      (seen : List String) (name : String) (names : List String)
      → mem name seen ≡ true
      → added r ns seen (name ∷ names) ≡ added r ns seen names
  added-seen seen name names e = rw e refl

  added-new :
      (seen : List String) (name : String) (names : List String) (v : ToolView)
      → mem name seen ≡ false
      → resolve_tool r ns name ≡ some v
      → added r ns seen (name ∷ names) ≡ v ∷ added r ns (name ∷ seen) names
  added-new seen name names v e k = rw (e, k) refl

  readable-unreadable :
      (name : String) (names : List String)
      → is_readable r ns name ≡ false
      → readable r ns (name ∷ names) ≡ readable r ns names
  readable-unreadable name names h = elim (Got-cases (r.get_tool ns name)) [
    | inl (t, e) ↦ ground (arith, h, e)
    | inr (inl e) ↦ rw (readable, e) refl
    | inr (inr (x, e)) ↦ rw (readable, e) refl
  ]

  added-unreadable :
      (seen : List String) (name : String) (names : List String)
      → is_readable r ns name ≡ false
      → added r ns seen (name ∷ names) ≡ added r ns seen names
  added-unreadable seen name names h = elim (Bool-cases (mem name seen)) [
    | inl e ↦ rw e refl
    | inr e ↦ rw (e, resolve_tool-unreadable r ns name h) refl
  ]

  added-names :
      IsNamed r
      → (seen kept names : List String) → Agrees seen kept
      → map (λ v. v.name) (added r ns seen names) ≡ readable r ns (keep_first kept names)
  unfolding keep_first
  added-names named seen kept [] h = refl
  added-names named seen kept (name ∷ names) h = elim (Bool-cases (is_readable r ns name)) [
    | inl here ↦
        let (t, e) = is_readable-found name here in
        let (v, resolves, same) = resolve_tool-found r ns named name t e in
        elim (Bool-cases (mem name kept)) [
          | inl k ↦
              ap (map (λ v. v.name)) (added-seen seen name names (h name here ∙ k))
              ∙ added-names named seen kept names h
              ∙ sym (ap (readable r ns) (keep_first-seen kept name names k))
          | inr k ↦
              ap (map (λ v. v.name)) (added-new seen name names v (h name here ∙ k) resolves)
              ∙ ap (λ n. n ∷ map (λ v. v.name) (added r ns (name ∷ seen) names)) same
              ∙ ap (λ l. name ∷ l)
                  (added-names named (name ∷ seen) (name ∷ kept) names
                    (λ x y. ap (λ b. name == x || b) (h x y)))
              ∙ sym (
                  ap (readable r ns) (keep_first-new kept name names k)
                  ∙ readable-found name (keep_first (name ∷ kept) names) t e)
        ]
    | inr gone ↦
        ap (map (λ v. v.name)) (added-unreadable seen name names gone)
        ∙ elim (Bool-cases (mem name kept)) [
          | inl k ↦
              added-names named seen kept names h
              ∙ sym (ap (readable r ns) (keep_first-seen kept name names k))
          | inr k ↦
              added-names named seen (name ∷ kept) names (Agrees-unreadable seen kept name gone h)
              ∙ sym (
                  ap (readable r ns) (keep_first-new kept name names k)
                  ∙ readable-unreadable name (keep_first (name ∷ kept) names) gone)
        ]
  ]

  -- All the tools of the payload, in terms of the loop over the names.
  tool_views-names :
      IsNamed r
      → (eff : AgentSpec)
      → map (λ v. v.name) (tool_views r ns eff) ≡ readable r ns (declared_tools r ns eff)
  unfolding tool_views dedupe
  tool_views-names named eff =
      let start : Tools = record { seen = []; views = [] } in
      let direct = names_of eff.tool_refs in
      let from_sets = set_tools r ns eff.tool_set_refs in
      ap (λ s. map (λ v. v.name) s.views)
        (add_sets-eq-add_tools r ns (add_tools r ns start direct) eff.tool_set_refs
          ∙ sym (add_tools-append r ns start direct from_sets))
      ∙ ap (map (λ v. v.name)) (add_tools-views r ns start (direct ++ from_sets))
      ∙ added-names named [] [] (direct ++ from_sets) (λ v h. refl)

-- Where the API server answers with the object of the name asked for and the Operator's pass over an
-- Agent succeeds, the tools that the Registry ships for the Agent, reading the same cluster, are
-- those that the Operator declared and checked, without the ones that cannot be read, each once and
-- in the same order.
pub build_config_from-tools :
    (marshal : AgentSpec → Result String) (r : Reader) (a : Agent) (res : Resolution)
    (cfg : AgentConfig)
    → IsNamed r
    → resolve_refs r a ≡ ok res
    → build_config_from marshal r a ≡ ok cfg
    → map (λ v. v.name) cfg.tools ≡ readable r a.meta.ns res.declared.tools
unfolding build_config_from
build_config_from-tools marshal r a res cfg named e b =
    let here : cfg.tools ≡ tool_views r a.meta.ns (effective_spec r a) = ground arith in
    ap (map (λ v. v.name)) here
    ∙ tool_views-names r a.meta.ns named (effective_spec r a)
    ∙ ap (readable r a.meta.ns) (sym (resolve_refs-IsResolved r a res e).tools)
