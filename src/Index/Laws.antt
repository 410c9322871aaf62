-- ===== src/Index/Laws.antt =====
-- What is among the requests.
use agent_plane.Base.{
  String, true, ◌&&◌, ◌||◌, some, List, [], ◌∷◌, ◌++◌, ◌==◌, ◌≡◌, refl, ◌∙◌, ap, arith, eq_iff,
  Bool-cases, inl, inr, ◌⊎◌,
}
use agent_plane.Api.{Agent, AgentClass, ToolSet}
use agent_plane.Index.{
  AgentField, by_class, by_tool_sets, Lister, Request, has_request, add, requests_of,
  requests_matching, via_classes, via_tool_sets,
}

has_request-append :
    (q : Request) (xs ys : List Request)
    → has_request q (xs ++ ys) ≡ (has_request q xs || has_request q ys)
unfolding has_request
has_request-append q [] ys = refl
has_request-append q (x ∷ xs) ys = ground (arith, has_request-append q xs ys)

-- A request that equals one that is there is there.
has_request_of_same :
    (q p : Request) (xs : List Request)
    → (p.ns == q.ns && p.name == q.name) ≡ true
    → has_request p xs ≡ true
    → has_request q xs ≡ true
unfolding has_request
has_request_of_same q p [] e h = h
has_request_of_same q p (x ∷ xs) e h = ground (
  arith,
  has_request_of_same q p xs e,
  h,
  eq_iff p.ns q.ns,
  eq_iff p.name q.name,
  eq_iff x.ns q.ns,
  eq_iff x.name q.name,
  eq_iff x.ns p.ns,
  eq_iff x.name p.name,
)

pub has_request-add :
    (q : Request) (reqs qs : List Request)
    → (has_request q reqs ≡ true) ⊎ (has_request q qs ≡ true)
    → has_request q (add reqs qs) ≡ true
unfolding add has_request
has_request-add q reqs [] (inl h) = h
has_request-add q reqs [] (inr h) = ground (arith, h)
has_request-add q reqs (p ∷ qs) h = elim (Bool-cases (has_request p reqs)) [
  | inl k ↦ rw k (has_request-add q reqs qs (known k h))
  | inr k ↦ rw k (has_request-add q (reqs ++ p ∷ []) qs (fresh h))
]
  where
    known :
        has_request p reqs ≡ true
        → (has_request q reqs ≡ true) ⊎ (has_request q (p ∷ qs) ≡ true)
        → (has_request q reqs ≡ true) ⊎ (has_request q qs ≡ true)
    known k (inl e) = inl e
    known k (inr e) = elim (Bool-cases (p.ns == q.ns && p.name == q.name)) [
      | inl s ↦ inl (has_request_of_same q p reqs s k)
      | inr s ↦ inr (ground (arith, e, s))
    ]

    fresh :
        (has_request q reqs ≡ true) ⊎ (has_request q (p ∷ qs) ≡ true)
        → (has_request q (reqs ++ p ∷ []) ≡ true) ⊎ (has_request q qs ≡ true)
    fresh (inl e) = inl (ground (arith, has_request-append q reqs (p ∷ []), e))
    fresh (inr e) = elim (Bool-cases (p.ns == q.ns && p.name == q.name)) [
      | inl s ↦ inl (ground (arith, has_request-append q reqs (p ∷ []), s))
      | inr s ↦ inr (ground (arith, e, s))
    ]

-- An object of this name is in the list.
abbrev pub HasAgent : Agent → List Agent → Type 0
HasAgent a [] = ⊥
HasAgent a (x ∷ xs) = ((x.meta.ns ≡ a.meta.ns) × (x.meta.name ≡ a.meta.name)) ⊎ HasAgent a xs

abbrev pub HasClass : String → List AgentClass → Type 0
HasClass name [] = ⊥
HasClass name (c ∷ cs) = (c.meta.name ≡ name) ⊎ HasClass name cs

abbrev pub HasSet : String → List ToolSet → Type 0
HasSet name [] = ⊥
HasSet name (s ∷ ss) = (s.meta.name ≡ name) ⊎ HasSet name ss

abbrev pub request_of : Agent → Request
request_of a = record { ns = a.meta.ns; name = a.meta.name }

has_request-requests_of :
    (a : Agent) (items : List Agent)
    → HasAgent a items
    → has_request (request_of a) (requests_of items) ≡ true
unfolding requests_of has_request
has_request-requests_of a [] h = absurd h
has_request-requests_of a (x ∷ items) (inl (e, f)) =
    ground (arith, eq_iff x.meta.ns a.meta.ns, eq_iff x.meta.name a.meta.name, e, f)
has_request-requests_of a (x ∷ items) (inr h) = ground (arith, has_request-requests_of a items h)

module _ (l : Lister) (a : Agent) where
  pub has_request-requests_matching :
      (field : AgentField) (name : String) (items : List Agent)
      → l.list_agents field a.meta.ns name ≡ some items
      → HasAgent a items
      → has_request (request_of a) (requests_matching l field a.meta.ns name) ≡ true
  unfolding requests_matching
  has_request-requests_matching field name items e h =
      rw (requests_matching, e)
        (has_request-add (request_of a) [] (requests_of items)
          (inr (has_request-requests_of a items h)))

  pub has_request-via_classes :
      (class : String) (reqs : List Request) (cs : List AgentClass)
      → (has_request (request_of a) reqs ≡ true)
        ⊎ (HasClass class cs
            × (has_request (request_of a) (requests_matching l by_class a.meta.ns class) ≡ true))
      → has_request (request_of a) (via_classes l a.meta.ns reqs cs) ≡ true
  unfolding via_classes
  has_request-via_classes class reqs [] (inl h) = h
  has_request-via_classes class reqs [] (inr h) = absurd h.0
  has_request-via_classes class reqs (c ∷ cs) (inl h) =
      has_request-via_classes class (add reqs (requests_matching l by_class a.meta.ns c.meta.name))
        cs
        (inl (
          has_request-add (request_of a) reqs (requests_matching l by_class a.meta.ns c.meta.name)
            (inl h)))
  has_request-via_classes class reqs (c ∷ cs) (inr (inl e, k)) =
      has_request-via_classes class (add reqs (requests_matching l by_class a.meta.ns c.meta.name))
        cs
        (inl (
          has_request-add (request_of a) reqs _ (
            inr (
              ap (λ n. has_request (request_of a) (requests_matching l by_class a.meta.ns n)) e
              ∙ k))))
  has_request-via_classes class reqs (c ∷ cs) (inr (inr h, k)) =
      has_request-via_classes class (add reqs (requests_matching l by_class a.meta.ns c.meta.name))
        cs (inr (h, k))

  pub has_request-via_tool_sets :
      (set : String) (reqs : List Request) (ss : List ToolSet)
      → (has_request (request_of a) reqs ≡ true)
        ⊎ (HasSet set ss
            × (has_request (request_of a) (requests_matching l by_tool_sets a.meta.ns set) ≡ true))
      → has_request (request_of a) (via_tool_sets l a.meta.ns reqs ss) ≡ true
  unfolding via_tool_sets
  has_request-via_tool_sets set reqs [] (inl h) = h
  has_request-via_tool_sets set reqs [] (inr h) = absurd h.0
  has_request-via_tool_sets set reqs (s ∷ ss) (inl h) =
      has_request-via_tool_sets set
        (add reqs (requests_matching l by_tool_sets a.meta.ns s.meta.name)) ss
        (inl (
          has_request-add (request_of a) reqs
            (requests_matching l by_tool_sets a.meta.ns s.meta.name) (inl h)))
  has_request-via_tool_sets set reqs (s ∷ ss) (inr (inl e, k)) =
      has_request-via_tool_sets set
        (add reqs (requests_matching l by_tool_sets a.meta.ns s.meta.name)) ss
        (inl (
          has_request-add (request_of a) reqs _ (
            inr (
              ap (λ n. has_request (request_of a) (requests_matching l by_tool_sets a.meta.ns n)) e
              ∙ k))))
  has_request-via_tool_sets set reqs (s ∷ ss) (inr (inr h, k)) =
      has_request-via_tool_sets set
        (add reqs (requests_matching l by_tool_sets a.meta.ns s.meta.name)) ss (inr (h, k))
