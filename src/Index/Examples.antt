-- ===== src/Index/Examples.antt =====
-- The requests of a small cluster, and the theorems about them there.
use agent_plane.Base.{
  String, true, false, some, List, [], ◌∷◌, ◌==◌, ◌≡◌, refl, sym, ◌∙◌, ap, arith, eq_iff,
  if◌then◌else◌, mem, inl, inr, Bool-cases, ◌⊎◌,
}
use agent_plane.Api.{Agent, ToolSet}
use agent_plane.Cluster.{Reader, found, not_found}
use agent_plane.Resolve.Targets.{
  Kind, agent_class, model, prompt_template, tool, tool_set, skill, policy, tool_policy, credential,
  mcp_server, agent,
}
use agent_plane.Index.{AgentField, agent_keys, ref_names_of, Lister}
use agent_plane.Index.Laws.{HasAgent, HasSet}
use agent_plane.Index.Routes.{IsIndexed}
use agent_plane.Index.Completeness.{IsWoken}
use agent_plane.Resolve.Pass.{resolve_refs}
use agent_plane.Resolve.Pass.Frame.{Agrees}
use agent_plane.Index.Stability.{change-wakes_or_keeps}
use agent_plane.Samples.{bundle, governed, governed_cluster}

abbrev cluster : Reader
cluster = record governed_cluster {
  get_agent = λ ns name. if name == "governed" then found governed else not_found;
}

abbrev lister : Lister
lister = record {
  list_agents = λ field ns name.
      some (if mem name (agent_keys field governed.spec) then governed ∷ [] else []);
  list_classes = λ field ns name. some [];
  list_tool_sets =
      λ ns name. some (if mem name (ref_names_of bundle.spec.tool_refs) then bundle ∷ [] else []);
}

finds_agent :
    (a : Agent) (field : AgentField) (name : String)
    → cluster.get_agent a.meta.ns a.meta.name ≡ found a
    → mem name (agent_keys field a.spec) ≡ true
    → (items : List Agent) × (lister.list_agents field a.meta.ns name ≡ some items)
      × HasAgent a items
finds_agent a field name h k =
    let same : governed ≡ a = ground (arith, h) in
    let held : mem name (agent_keys field governed.spec) ≡ true =
      ap (λ x. mem name (agent_keys field x.spec)) same ∙ k in
    (governed ∷ [], rw held refl, inl (ap (λ x. x.meta.ns) same, ap (λ x. x.meta.name) same))

finds_set :
    (ns set : String) (s : ToolSet) (name : String)
    → cluster.get_tool_set ns set ≡ found s
    → mem name (ref_names_of s.spec.tool_refs) ≡ true
    → (ss : List ToolSet) × (lister.list_tool_sets ns name ≡ some ss) × HasSet set ss
finds_set ns set s name h k =
    let same : bundle ≡ s = ground (arith, h) in
    let held : mem name (ref_names_of bundle.spec.tool_refs) ≡ true =
      ap (λ x. mem name (ref_names_of x.spec.tool_refs)) same ∙ k in
    let called : (set == "bundle") ≡ true = ground (arith, h) in
    (bundle ∷ [], rw held refl, inl (sym ((eq_iff set "bundle").0 called)))

indexed : IsIndexed lister cluster
indexed = record {
  finds_agent = finds_agent;
  finds_class = λ ns class c field name h k. ground (arith, h);
  finds_set = finds_set;
  class_named = λ ns c h. ground (arith, h);
  set_named = λ ns s h. ground (arith, h);
}

-- The same cluster without the Tool.
abbrev without_search : Reader
without_search = record cluster { get_tool = λ ns name. not_found }

only_search :
    (kind : Kind) (name : String)
    → ((kind ≡ tool) × (name ≡ "search") → ⊥)
    → Agrees cluster without_search "default" (record { kind = kind; name = name; git = false })
only_search tool name other = elim (Bool-cases (name == "search")) [
  | inl e ↦ absurd (other (refl, (eq_iff name "search").0 e))
  | inr e ↦ rw e refl
]
only_search agent_class name other = refl
only_search model name other = refl
only_search prompt_template name other = refl
only_search tool_set name other = refl
only_search skill name other = refl
only_search policy name other = refl
only_search tool_policy name other = refl
only_search credential name other = refl
only_search mcp_server name other = refl
only_search agent name other = refl

change-wakes_or_keeps_example :
    (resolve_refs cluster governed ≡ resolve_refs without_search governed)
    ⊎ IsWoken lister governed tool "search"
change-wakes_or_keeps_example =
    change-wakes_or_keeps lister cluster without_search governed tool "search" indexed refl refl
      (λ t other. only_search t.kind t.name other)
