-- ===== src/Index/Routes.antt =====
-- The three routes by which a changed object wakes an Agent.
use agent_plane.Base.{
  String, Bool, true, false, Option, none, some, List, [], ◌∷◌, ◌==◌, ◌≡◌, refl, arith, eq_iff,
  eq_refl, Option-cases, inl, inr, mem,
}
use agent_plane.Api.{LocalReference, Agent, AgentClass, ToolSet}
use agent_plane.Cluster.{Reader, found}
use agent_plane.Resolve.Pass.{names_of}
use agent_plane.Index.{
  ref_name, ref_names_of, AgentField, ClassField, by_class, by_tool_sets, agent_keys, class_keys,
  Lister, Request, has_request, requests_matching, add_classes, add_tool_sets, agents_referencing,
}
use agent_plane.Index.Laws.{
  HasAgent, HasClass, HasSet, request_of, has_request-add, has_request-requests_matching,
  has_request-via_classes, has_request-via_tool_sets,
}

-- The index of the API server's cache answers, with the objects that hold the key; the cluster that
-- the controller reads is the one that is indexed.
pub record IsIndexed (l : Lister) (r : Reader) : Type 0 where
  pub finds_agent :
      (a : Agent) (field : AgentField) (name : String)
      → r.get_agent a.meta.ns a.meta.name ≡ found a
      → mem name (agent_keys field a.spec) ≡ true
      → (items : List Agent) × (l.list_agents field a.meta.ns name ≡ some items) × HasAgent a items
  pub finds_class :
      (ns class : String) (c : AgentClass) (field : ClassField) (name : String)
      → r.get_class ns class ≡ found c
      → mem name (class_keys field c.spec) ≡ true
      → (cs : List AgentClass) × (l.list_classes field ns name ≡ some cs) × HasClass class cs
  pub finds_set :
      (ns set : String) (s : ToolSet) (name : String)
      → r.get_tool_set ns set ≡ found s
      → mem name (ref_names_of s.spec.tool_refs) ≡ true
      → (ss : List ToolSet) × (l.list_tool_sets ns name ≡ some ss) × HasSet set ss
  -- No class and no ToolSet has an empty name.
  pub class_named : (ns : String) (c : AgentClass) → r.get_class ns "" ≡ found c → ⊥
  pub set_named : (ns : String) (s : ToolSet) → r.get_tool_set ns "" ≡ found s → ⊥

-- A name that is not empty is a key.
pub mem-ref_names_of :
    (name : String) (refs : List LocalReference)
    → (name == "") ≡ false
    → mem name (names_of refs) ≡ true
    → mem name (ref_names_of refs) ≡ true
unfolding ref_names_of
mem-ref_names_of name [] n h = ground (arith, h)
mem-ref_names_of name (ref ∷ refs) n h = ground (
  arith,
  mem-ref_names_of name refs n,
  eq_iff ref.name name,
  eq_iff ref.name "",
  eq_iff name "",
  h,
  n,
)

pub mem-ref_name :
    (ref : LocalReference) → (ref.name == "") ≡ false → mem ref.name (ref_name (some ref)) ≡ true
unfolding ref_name
mem-ref_name ref n = rw (ref_name, n, eq_refl ref.name) refl

module _ (l : Lister) (r : Reader) (is : IsIndexed l r) (a : Agent)
    (here : r.get_agent a.meta.ns a.meta.name ≡ found a) where
  matching :
      (field : AgentField) (name : String)
      → mem name (agent_keys field a.spec) ≡ true
      → has_request (request_of a) (requests_matching l field a.meta.ns name) ≡ true
  matching field name h =
      let (items, listed, holds) = is.finds_agent a field name here h in
      has_request-requests_matching l a field name items listed holds

  keeps_classes :
      (cf : Option ClassField) (name : String) (reqs : List Request)
      → has_request (request_of a) reqs ≡ true
      → has_request (request_of a) (add_classes l cf a.meta.ns name reqs) ≡ true
  unfolding add_classes
  keeps_classes none name reqs h = h
  keeps_classes (some field) name reqs h =
      elim (Option-cases (l.list_classes field a.meta.ns name)) [
        | inl e ↦ rw (add_classes, e) h
        | inr (cs, e) ↦ rw (add_classes, e) (has_request-via_classes l a "" reqs cs (inl h))
      ]

  keeps_sets :
      (via : Bool) (name : String) (reqs : List Request)
      → has_request (request_of a) reqs ≡ true
      → has_request (request_of a) (add_tool_sets l via a.meta.ns name reqs) ≡ true
  unfolding add_tool_sets
  keeps_sets false name reqs h = h
  keeps_sets true name reqs h = elim (Option-cases (l.list_tool_sets a.meta.ns name)) [
    | inl e ↦ rw (add_tool_sets, e) h
    | inr (ss, e) ↦ rw (add_tool_sets, e) (has_request-via_tool_sets l a "" reqs ss (inl h))
  ]

  -- The Agent names the object itself.
  pub direct_route :
      (field : AgentField) (cf : Option ClassField) (via : Bool) (name : String)
      → mem name (agent_keys field a.spec) ≡ true
      → has_request (request_of a) (agents_referencing l field cf via a.meta.ns name) ≡ true
  unfolding agents_referencing
  direct_route field cf via name h =
      keeps_sets via name _ (
        keeps_classes cf name _ (has_request-add (request_of a) [] _ (inr (matching field name h))))

  -- The Agent's class names it as a default.
  pub class_route :
      (field : AgentField) (cf : ClassField) (via : Bool) (name class : String) (c : AgentClass)
      → r.get_class a.meta.ns class ≡ found c
      → mem class (agent_keys by_class a.spec) ≡ true
      → mem name (class_keys cf c.spec) ≡ true
      → has_request (request_of a) (agents_referencing l field (some cf) via a.meta.ns name) ≡ true
  unfolding agents_referencing add_classes
  class_route field cf via name class c known in_class h =
      let (cs, listed, holds) = is.finds_class a.meta.ns class c cf name known h in
      keeps_sets via name _ (
        rw (add_classes, listed)
          (has_request-via_classes l a class _ cs (inr (holds, matching by_class class in_class))))

  -- A ToolSet that the Agent names contributes it.
  pub set_route :
      (field : AgentField) (cf : Option ClassField) (name set : String) (s : ToolSet)
      → r.get_tool_set a.meta.ns set ≡ found s
      → mem set (agent_keys by_tool_sets a.spec) ≡ true
      → mem name (ref_names_of s.spec.tool_refs) ≡ true
      → has_request (request_of a) (agents_referencing l field cf true a.meta.ns name) ≡ true
  unfolding agents_referencing add_tool_sets
  set_route field cf name set s known in_spec h =
      let (ss, listed, holds) = is.finds_set a.meta.ns set s name known h in
      rw (add_tool_sets, listed)
        (has_request-via_tool_sets l a set _ ss (inr (holds, matching by_tool_sets set in_spec)))
