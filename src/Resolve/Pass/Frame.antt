-- ===== src/Resolve/Pass/Frame.antt =====
-- What a pass over the references reads: two clusters that answer its lookups alike resolve alike.
use mathlib.Core.Path.{fun_ext}
use agent_plane.Base.{
  String, true, false, Bool-cases, none, some, Option, List, [], ◌∷◌, ◌++◌, ◌==◌, ◌≡◌, refl, sym,
  ◌∙◌, ap, arith, eq_iff, eq_refl, inl, inr, mem, mem-append, All, All-of_append, map,
}
use agent_plane.Api.{LocalReference, Agent, AgentSpec, apply_class_defaults}
use agent_plane.Cluster.{Got, found, not_found, failed, Reader, Result, ok, ◌>>=◌}
use agent_plane.Resolve.Targets.{
  agent_class, model, prompt_template, tool, tool_set, Object, a_class, a_tool, a_tool_set, got_map,
  get_object, Target, targets_for, optional_target, class_named, effective_spec, targets_of,
}
use agent_plane.Resolve.Pass.Surface.{mem-dedupe}
use agent_plane.Resolve.Pass.{
  Resolution, take_target, resolve_targets, names_of, set_tools, server_names, peer_refs,
  declared_tools, expand_surface, initial_resolution, resolve_refs,
}

-- Two clusters answer a lookup alike.
abbrev pub Agrees : Reader → Reader → String → Target → Type 0
Agrees r r' ns t = get_object r ns t.kind t.name ≡ get_object r' ns t.kind t.name

-- What the pass looks up: its targets, and the Tools that the ToolSets contribute.
abbrev pub lookups_of : Reader → Agent → List Target
lookups_of r a =
    let eff = effective_spec r a in
    targets_of a.spec eff
    ++ map (λ name. record { kind = tool; name = name; git = false })
        (set_tools r a.meta.ns eff.tool_set_refs)

pub got_map-injective :
    {A : Type 0} (f : A → Object)
    → ((a b : A) → f a ≡ f b → a ≡ b)
    → (g h : Got A) → got_map f g ≡ got_map f h
    → g ≡ h
got_map-injective f inj (found a) (found b) e = ap found (inj a b cc)
got_map-injective f inj (found a) not_found e = cc
got_map-injective f inj (found a) (failed y) e = cc
got_map-injective f inj not_found (found b) e = cc
got_map-injective f inj not_found not_found e = refl
got_map-injective f inj not_found (failed y) e = cc
got_map-injective f inj (failed x) (found b) e = cc
got_map-injective f inj (failed x) not_found e = cc
got_map-injective f inj (failed x) (failed y) e = cc

module _ (r r' : Reader) (ns : String) where
  resolve_targets-frame :
      (res : Resolution) (ts : List Target)
      → All (Agrees r r' ns) ts
      → resolve_targets r ns res ts ≡ resolve_targets r' ns res ts
  unfolding resolve_targets
  resolve_targets-frame res [] h = refl
  resolve_targets-frame res (t ∷ ts) (h, hs) =
      ap (λ g. take_target res t g >>= λ res'. resolve_targets r ns res' ts) h
      ∙ ap (λ k. take_target res t (get_object r' ns t.kind t.name) >>= k)
          (fun_ext (λ res'. resolve_targets-frame res' ts hs))

  set_tools-frame :
      (refs : List LocalReference)
      → All (Agrees r r' ns) (targets_for tool_set refs)
      → set_tools r ns refs ≡ set_tools r' ns refs
  unfolding set_tools
  set_tools-frame [] h = refl
  set_tools-frame (ref ∷ refs) (h, hs) =
      let same : r.get_tool_set ns ref.name ≡ r'.get_tool_set ns ref.name =
        got_map-injective a_tool_set (λ a b e. cc) _ _ h in
      rw (same, set_tools-frame refs hs) refl

  -- A tool that is looked up is looked up alike.
  abbrev ToolsAgree : List String → Type 0
  ToolsAgree names =
      (name : String) → mem name names ≡ true → r.get_tool ns name ≡ r'.get_tool ns name

  tool_agrees :
      (name : String)
      → get_object r ns tool name ≡ get_object r' ns tool name
      → r.get_tool ns name ≡ r'.get_tool ns name
  tool_agrees name h = got_map-injective a_tool (λ a b e. cc) _ _ h

  server_names-frame :
      (names : List String) → ToolsAgree names → server_names r ns names ≡ server_names r' ns names
  unfolding server_names
  server_names-frame [] h = refl
  server_names-frame (name ∷ names) h =
      rw
        (h name (rw (eq_refl name) refl), server_names-frame names (λ n k. h n (ground (arith, k))))
        refl

  peer_refs-frame :
      (names : List String) → ToolsAgree names → peer_refs r ns names ≡ peer_refs r' ns names
  unfolding peer_refs
  peer_refs-frame [] h = refl
  peer_refs-frame (name ∷ names) h =
      rw (h name (rw (eq_refl name) refl), peer_refs-frame names (λ n k. h n (ground (arith, k))))
        refl

  class_named-frame :
      (ref : Option LocalReference)
      → All (Agrees r r' ns) (optional_target agent_class ref)
      → class_named r ns ref ≡ class_named r' ns ref
  class_named-frame none h = refl
  class_named-frame (some ref) (h, _) =
      let same : r.get_class ns ref.name ≡ r'.get_class ns ref.name =
        got_map-injective a_class (λ a b e. cc) _ _ h in
      rw (class_named, same) refl

  All-member :
      (names : List String)
      → All (Agrees r r' ns) (map (λ name. record { kind = tool; name = name; git = false }) names)
      → ToolsAgree names
  All-member [] h name m = cc
  All-member (x ∷ names) (h, hs) name m = elim (Bool-cases (x == name)) [
    | inl e ↦
        ap (r.get_tool ns) (sym ((eq_iff x name).0 e))
        ∙ tool_agrees x h
        ∙ ap (r'.get_tool ns) ((eq_iff x name).0 e)
    | inr e ↦ All-member names hs name (ground (arith, m, e))
  ]

  All-tool_ref :
      (refs : List LocalReference)
      → All (Agrees r r' ns) (targets_for tool refs)
      → ToolsAgree (names_of refs)
  All-tool_ref [] h name m = cc
  All-tool_ref (x ∷ refs) (h, hs) name m = elim (Bool-cases (x.name == name)) [
    | inl e ↦
        ap (r.get_tool ns) (sym ((eq_iff x.name name).0 e))
        ∙ tool_agrees x.name h
        ∙ ap (r'.get_tool ns) ((eq_iff x.name name).0 e)
    | inr e ↦ All-tool_ref refs hs name (ground (arith, m, e))
  ]

  -- The expansion of the tool surface reads the ToolSets and the declared Tools.
  expand_surface-frame :
      (eff : AgentSpec) (res : Resolution)
      → All (Agrees r r' ns) (targets_for tool eff.tool_refs)
      → All (Agrees r r' ns) (targets_for tool_set eff.tool_set_refs)
      → ToolsAgree (set_tools r ns eff.tool_set_refs)
      → expand_surface r ns eff res ≡ expand_surface r' ns eff res
  unfolding expand_surface
  expand_surface-frame eff res tools sets members =
      let same : set_tools r' ns eff.tool_set_refs ≡ set_tools r ns eff.tool_set_refs =
        sym (set_tools-frame eff.tool_set_refs sets) in
      let agree : ToolsAgree (declared_tools r ns eff) = λ name m.
        elim (Bool-cases (mem name (names_of eff.tool_refs))) [
          | inl e ↦ All-tool_ref eff.tool_refs tools name e
          | inr e ↦ members name (
              ground (
                arith,
                m,
                e,
                mem-dedupe name (names_of eff.tool_refs ++ set_tools r ns eff.tool_set_refs),
                mem-append name (names_of eff.tool_refs) (set_tools r ns eff.tool_set_refs),
              ))
        ] in
      rw
        (
          same,
          server_names-frame (declared_tools r ns eff) agree,
          peer_refs-frame (declared_tools r ns eff) agree,
        )
        refl

-- The groups of targets that the frame needs.
class_and_tools :
    (P : Target → Type 0) (spec eff : AgentSpec)
    → All P (targets_of spec eff)
    → All P (optional_target agent_class spec.agent_class_ref)
      × All P (targets_for tool eff.tool_refs)
      × All P (targets_for tool_set eff.tool_set_refs)
unfolding targets_of
class_and_tools P spec eff h =
    let (classes, h1) = All-of_append P (optional_target agent_class spec.agent_class_ref) _ h in
    let (models, h2) = All-of_append P (optional_target model eff.model_ref) _ h1 in
    let (prompts, h3) = All-of_append P (optional_target prompt_template eff.prompt_ref) _ h2 in
    let (tools, h4) = All-of_append P (targets_for tool eff.tool_refs) _ h3 in
    let (sets, h5) = All-of_append P (targets_for tool_set eff.tool_set_refs) _ h4 in
    (classes, tools, sets)

-- Two clusters that answer alike each lookup of a pass over an Agent resolve the Agent alike.
pub resolve_refs-frame :
    (r r' : Reader) (a : Agent)
    → All (Agrees r r' a.meta.ns) (lookups_of r a)
    → resolve_refs r a ≡ resolve_refs r' a
unfolding resolve_refs effective_spec
resolve_refs-frame r r' a h =
    let ns = a.meta.ns in
    let eff = effective_spec r a in
    let start = initial_resolution eff in
    let targets = targets_of a.spec eff in
    let (direct, members) = All-of_append (Agrees r r' ns) targets _ h in
    let (classes, tools, sets) = class_and_tools (Agrees r r' ns) a.spec eff direct in
    let same : eff ≡ effective_spec r' a =
      ap (apply_class_defaults a.spec) (class_named-frame r r' ns a.spec.agent_class_ref classes) in
    ap (λ m. m >>= λ res. ok (expand_surface r ns eff res))
      (resolve_targets-frame r r' ns start targets direct)
    ∙ ap (λ (k : Resolution → Result Resolution). resolve_targets r' ns start targets >>= k)
        (fun_ext (λ res.
          ap ok (expand_surface-frame r r' ns eff res tools sets (All-member r r' ns _ members))))
    ∙ ap
        (λ e. resolve_targets r' ns (initial_resolution e) (targets_of a.spec e) >>= λ res.
          ok (expand_surface r' ns e res))
        same
