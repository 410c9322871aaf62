-- ===== src/Resolve/Pass/Surface.antt =====
-- The tool surface: what a ToolSet contributes is declared, and so is the MCPServer behind it.
use mathlib.Core.Path.{subst}
use agent_plane.Base.{
  inl, inr, Bool-cases, String, true, ◌||◌, some, List, [], ◌∷◌, ◌==◌, ◌≡◌, refl, sym, ◌∙◌, ap,
  arith, eq_iff, eq_refl, mem, All, All-map, Option-cases, mem-append, mem-keep_first, IsDistinct,
  keep_first-IsDistinct,
}
use agent_plane.Api.{Agent, AgentSpec, LocalReference, Tool, ToolSet}
use agent_plane.Cluster.{found, Got-cases, Reader, ok}
use agent_plane.Resolve.Targets.{effective_spec, targets_of}
use agent_plane.Resolve.Pass.{
  Resolution, dedupe, names_of, set_members, server_of, set_tools, server_names, declared_tools,
  expand_surface, initial_resolution, resolve_refs,
}
use agent_plane.Resolve.Pass.Laws.{resolve_targets-cases}
use agent_plane.Resolve.Pass.Results.{resolve_refs-IsResolved}

pub mem-dedupe : (v : String) (names : List String) → mem v (dedupe names) ≡ mem v names
unfolding dedupe
mem-dedupe v names = ground (arith, mem-keep_first v [] names)

module _ (r : Reader) (ns : String) where
  mem-set_tools :
      (ref : String) (refs : List LocalReference) (ts : ToolSet) (tool : String)
      → mem ref (names_of refs) ≡ true
      → r.get_tool_set ns ref ≡ found ts
      → mem tool (names_of ts.spec.tool_refs) ≡ true
      → mem tool (set_tools r ns refs) ≡ true
  unfolding set_tools
  mem-set_tools ref [] ts tool h k l = cc
  mem-set_tools ref (s ∷ refs) ts tool h k l = elim (Bool-cases (s.name == ref)) [
    | inl e ↦
        let here : r.get_tool_set ns s.name ≡ found ts =
          ap (r.get_tool_set ns) ((eq_iff _ _).0 e) ∙ k in
        rw (here, mem-append tool (names_of ts.spec.tool_refs) (set_tools r ns refs), l) refl
    | inr e ↦ ground (
      arith,
      mem-append tool (set_members (r.get_tool_set ns s.name)) (set_tools r ns refs),
      mem-set_tools ref refs ts tool (ground arith) k l,
    )
  ]

  mem-server_names :
      (name : String) (names : List String) (t : Tool) (server : LocalReference)
      → mem name names ≡ true
      → r.get_tool ns name ≡ found t
      → t.spec.mcp_server_ref ≡ some server
      → mem server.name (server_names r ns names) ≡ true
  unfolding server_names
  mem-server_names name [] t server h k l = cc
  mem-server_names name (n ∷ names) t server h k l = elim (Bool-cases (n == name)) [
    | inl e ↦
        let here : r.get_tool ns n ≡ found t = ap (r.get_tool ns) ((eq_iff _ _).0 e) ∙ k in
        rw (here, l, eq_refl server.name) refl
    | inr e ↦ ground (
      arith,
      mem-append server.name (server_of (r.get_tool ns n)) (server_names r ns names),
      mem-server_names name names t server (ground arith) k l,
    )
  ]

mem-declared_direct :
    (r : Reader) (ns : String) (eff : AgentSpec) (tool : String)
    → mem tool (declared_tools r ns eff)
      ≡ (mem tool (names_of eff.tool_refs) || mem tool (set_tools r ns eff.tool_set_refs))
mem-declared_direct r ns eff tool =
    mem-dedupe tool _ ∙ mem-append tool (names_of eff.tool_refs) (set_tools r ns eff.tool_set_refs)

declared_servers :
    (r : Reader) (a : Agent) (res : Resolution)
    → resolve_refs r a ≡ ok res
    → res.declared.mcp_servers
      ≡ dedupe (server_names r a.meta.ns (declared_tools r a.meta.ns (effective_spec r a)))
unfolding resolve_refs expand_surface
declared_servers r a res h =
    let eff = effective_spec r a in
    elim (resolve_targets-cases r a.meta.ns (initial_resolution eff) (targets_of a.spec eff)) [
      | inr (e, stops, fails) ↦ ground (arith, stops)
      | inl (mid, ends, fine, adds) ↦ ground (arith, ends)
    ]

-- The MCPServer of a tool, where it can be read and has one, is among those of the tools.
servers_of_member :
    (r : Reader) (ns name : String) (names : List String)
    → mem name names ≡ true
    → All (λ s. mem s (server_names r ns names) ≡ true) (server_of (r.get_tool ns name))
servers_of_member r ns name names member = elim (Got-cases (r.get_tool ns name)) [
  | inr (inl e) ↦ rw e tt
  | inr (inr (x, e)) ↦ rw e tt
  | inl (t, e) ↦ elim (Option-cases t.spec.mcp_server_ref) [
    | inl unbacked ↦ rw (e, unbacked) tt
    | inr (server, backed) ↦
        rw (e, backed) (mem-server_names r ns name names t server member e backed, tt)
  ]
]

-- A tool that a referenced ToolSet contributes is among the Agent's declared tools, each of which is
-- declared once, whether or not the tool can be read; and the MCPServer that it names, where it can be
-- read and names one, is declared too.
pub set_tool_declared :
    (r : Reader) (a : Agent) (res : Resolution) (ref tool : String) (ts : ToolSet)
    → resolve_refs r a ≡ ok res
    → mem ref (names_of (effective_spec r a).tool_set_refs) ≡ true
    → r.get_tool_set a.meta.ns ref ≡ found ts
    → mem tool (names_of ts.spec.tool_refs) ≡ true
    → (mem tool res.declared.tools ≡ true)
      × IsDistinct res.declared.tools
      × All
          (λ server. mem server res.declared.mcp_servers ≡ true)
          (server_of (r.get_tool a.meta.ns tool))
unfolding dedupe
set_tool_declared r a res ref tool ts h in_spec set member =
    let eff = effective_spec r a in
    let tools = (resolve_refs-IsResolved r a res h).tools in
    let declared : mem tool (declared_tools r a.meta.ns eff) ≡ true = ground (
      arith,
      mem-declared_direct r a.meta.ns eff tool,
      mem-set_tools r a.meta.ns ref eff.tool_set_refs ts tool in_spec set member,
    ) in
    (
      ap (mem tool) tools ∙ declared,
      subst IsDistinct (sym tools) (keep_first-IsDistinct [] _),
      All-map
          (λ server behind.
            ap (mem server) (declared_servers r a res h) ∙ mem-dedupe server _ ∙ behind)
          (server_of (r.get_tool a.meta.ns tool)) (servers_of_member r a.meta.ns tool _ declared),
    )
