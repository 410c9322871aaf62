-- ===== src/Registry/Config/Names.antt =====
-- The names of the tools that resolve.
use agent_plane.Base.{
  String, Bool, true, false, Option, none, some, List, [], ◌∷◌, ◌==◌, ◌≡◌, refl, ◌∙◌, arith,
  Bool-cases, inl, inr,
}
use agent_plane.Api.{LocalReference, AgentExposeSpec, Tool, tool_type_mcp}
use agent_plane.Cluster.{Got-cases, found, Reader}
use agent_plane.Registry.Views.{ToolView}
use agent_plane.Registry.Config.{tool_view, with_peer, with_server, described, resolve_tool}

-- The API server answers a Get with an object of that name.
abbrev pub IsNamed : Reader → Type 0
IsNamed r = (ns name : String) (t : Tool) → r.get_tool ns name ≡ found t → t.meta.name ≡ name

-- The names of the tools that can be read.
abbrev pub readable : Reader → String → List String → List String
readable r ns [] = []
readable r ns (name ∷ names) =
    let rest = readable r ns names in elim (r.get_tool ns name) [ found t ↦ name ∷ rest | _ ↦ rest ]

module _ (r : Reader) (ns : String) where
  described-name : (e : Option AgentExposeSpec) (v : ToolView) → (described e v).name ≡ v.name
  unfolding described
  described-name none v = refl
  described-name (some e) v = ground arith

  with_peer-name :
      (ref : Option LocalReference) (v : ToolView) → (with_peer r ns ref v).name ≡ v.name
  unfolding with_peer
  with_peer-name none v = refl
  with_peer-name (some ref) v = elim (Got-cases (r.get_agent ns ref.name)) [
    | inl (a, e) ↦
        rw (with_peer, e)
          (described-name a.spec.expose (record v { endpoint = a.status.peer_endpoint }))
    | inr (inl e) ↦ rw (with_peer, e) refl
    | inr (inr (x, e)) ↦ rw (with_peer, e) refl
  ]

  with_server-name :
      (ref : Option LocalReference) (v : ToolView) → (with_server r ns ref v).name ≡ v.name
  unfolding with_server
  with_server-name none v = refl
  with_server-name (some ref) v = elim (Got-cases (r.get_mcp_server ns ref.name)) [
    | inl (a, e) ↦ rw (with_server, e) refl
    | inr (inl e) ↦ rw (with_server, e) refl
    | inr (inr (x, e)) ↦ rw (with_server, e) refl
  ]

  tool_view-name : (t : Tool) → (tool_view r ns t).name ≡ t.meta.name
  unfolding tool_view
  tool_view-name t = elim (Bool-cases (t.spec.type_of == tool_type_mcp)) [
    | inl e ↦ rw e (with_peer-name t.spec.agent_ref _ ∙ with_server-name t.spec.mcp_server_ref _)
    | inr e ↦ rw e refl
  ]

  -- The view of a tool that can be read carries its name.
  pub resolve_tool-found :
      IsNamed r
      → (name : String) (t : Tool) → r.get_tool ns name ≡ found t
      → (v : ToolView) × (resolve_tool r ns name ≡ some v) × (v.name ≡ name)
  unfolding resolve_tool
  resolve_tool-found named name t e =
      (tool_view r ns t, rw (resolve_tool, e) refl, tool_view-name t ∙ named ns name t e)

  abbrev pub is_readable : String → Bool
  is_readable name = elim (r.get_tool ns name) [ found t ↦ true | _ ↦ false ]

  pub resolve_tool-unreadable :
      (name : String) → is_readable name ≡ false → resolve_tool r ns name ≡ none
  unfolding resolve_tool
  resolve_tool-unreadable name e = ground arith
