-- ===== src/Policy/Violations/Laws.antt =====
-- When `Violations` reports nothing.
use agent_plane.Base.{
  String, Bool, true, false, not, ◌&&◌, ◌||◌, Option, none, some, List, [], ◌∷◌, ◌++◌, ◌==◌, ◌≡◌,
  refl, ◌↔◌, ◌⊎◌, ◌≢◌, inl, inr, sym, ◌∙◌, ap, arith, eq_iff, if◌then◌else◌, all, is_empty, is_some,
  is_empty-sort_strings, Bool-cases, All, All-map, all-eq-true, All-of_all, all_of_All, find,
}
use agent_plane.Api.{
  AccessRule, Policy, ToolPolicy, ToolRule, ToolAction, tool_action_allow, tool_action_deny,
}
use agent_plane.Policy.Access.{permits}
use agent_plane.Policy.Rules.{match_tool_rule}
use agent_plane.Policy.Rules.Laws.{match_tool_rule_exact_first}
use agent_plane.Base.{or_else}
use agent_plane.Policy.Merge.{EffectivePolicy, unconstrained, merge_policies}
use agent_plane.Policy.Merge.Laws.{denies_by_default, all_rules, IsMerged, merged, merged-IsMerged}
use agent_plane.Policy.Violations.{
  AgentReferences, model_violations, mcp_violations, rule_violations, tool_violation,
  tool_violations, violations,
}

-- The action that applies to a tool: that of its rule, or the default.
abbrev pub action_of : Option ToolRule → ToolAction → ToolAction
action_of none default_action = default_action
action_of (some rule) default_action = rule.action

-- What a policy must say of each reference, as a test.
abbrev pub tool_ok : EffectivePolicy → String → Bool
tool_ok e name =
    permits e.tools name
    && not (action_of (match_tool_rule e.tool_rules name) e.default_tool_action == tool_action_deny)

abbrev pub refs_ok : EffectivePolicy → AgentReferences → Bool
refs_ok e refs =
    (refs.model == "" || permits e.models refs.model)
    && (all (permits e.mcp) refs.mcp_servers && all (tool_ok e) refs.tools)

pub is_empty-append : (xs ys : List String) → is_empty (xs ++ ys) ≡ (is_empty xs && is_empty ys)
is_empty-append [] ys = refl
is_empty-append (x ∷ xs) ys = refl

permits_none : (n : String) (r : Option AccessRule) → is_some r ≡ false → permits r n ≡ true
unfolding permits
permits_none n none h = refl
permits_none n (some r) h = cc

model_violations_lem :
    (e : EffectivePolicy) (model : String)
    → is_empty (model_violations e model) ≡ (model == "" || permits e.models model)
unfolding model_violations
model_violations_lem e model = ground (arith, permits_none model e.models)

mcp_violations_lem :
    (e : EffectivePolicy) (names : List String)
    → is_empty (mcp_violations e names) ≡ all (permits e.mcp) names
unfolding mcp_violations
mcp_violations_lem e [] = refl
mcp_violations_lem e (name ∷ names) =
    ground (arith, permits_none name e.mcp, mcp_violations_lem e names)

rule_violations_lem :
    (rule : Option ToolRule) (dflt : ToolAction) (name : String)
    → is_empty (rule_violations rule dflt name) ≡ not (action_of rule dflt == tool_action_deny)
unfolding rule_violations
rule_violations_lem none dflt name = ground arith
rule_violations_lem (some rule) dflt name = ground arith

tool_violation_lem :
    (e : EffectivePolicy) (name : String) → is_empty (tool_violation e name) ≡ tool_ok e name
unfolding tool_violation
tool_violation_lem e name = ground (
  arith,
  permits_none name e.tools,
  rule_violations_lem (match_tool_rule e.tool_rules name) e.default_tool_action name,
)

tool_violations_lem :
    (e : EffectivePolicy) (names : List String)
    → is_empty (tool_violations e names) ≡ all (tool_ok e) names
unfolding tool_violations
tool_violations_lem e [] = refl
tool_violations_lem e (name ∷ names) = ground (
  arith,
  is_empty-append (tool_violation e name) (tool_violations e names),
  tool_violation_lem e name,
  tool_violations_lem e names,
)

pub is_empty-violations :
    (e : EffectivePolicy) (refs : AgentReferences)
    → is_empty (violations (some e) refs) ≡ refs_ok e refs
unfolding violations
is_empty-violations e refs =
    let ms = model_violations e refs.model in
    let ss = mcp_violations e refs.mcp_servers in
    let ts = tool_violations e refs.tools in
    is_empty-sort_strings (ms ++ (ss ++ ts))
    ∙ ground (
      arith,
      is_empty-append ms (ss ++ ts),
      is_empty-append ss ts,
      model_violations_lem e refs.model,
      mcp_violations_lem e refs.mcp_servers,
      tool_violations_lem e refs.tools,
    )

-- The rule that applies to a tool under these ToolPolicies: the first that names it, else the first
-- wildcard; and the action where no rule applies.
abbrev pub applicable_action : List ToolPolicy → String → ToolAction
applicable_action tps name =
    action_of
      (or_else (find (λ r. r.tool == name) (all_rules tps))
        (find (λ r. r.tool == "*") (all_rules tps)))
      (if denies_by_default tps then tool_action_deny else tool_action_allow)

-- An Agent's references comply with the policies one by one.
pub record IsCompliant (ps : List Policy) (tps : List ToolPolicy) (refs : AgentReferences)
    : Type 0 where
  pub model : (refs.model ≡ "") ⊎ All (λ p. permits p.spec.models refs.model ≡ true) ps
  pub mcp_servers : All (λ n. All (λ p. permits p.spec.mcp n ≡ true) ps) refs.mcp_servers
  pub tools :
      All
        (λ n.
          All (λ p. permits p.spec.tools n ≡ true) ps
          × (applicable_action tps n ≢ tool_action_deny))
        refs.tools

pub unconstrained_ok : (refs : AgentReferences) → refs_ok unconstrained refs ≡ true
unfolding permits match_tool_rule
unconstrained_ok refs = ground (
  arith,
  all-eq-true (permits none) refs.mcp_servers (λ n. refl),
  all-eq-true (tool_ok unconstrained) refs.tools (λ n. refl),
)

-- `MergePolicies` returns nil where it could as well return the policy that allows everything.
violations-merge_policies :
    (ps : List Policy) (tps : List ToolPolicy) (refs : AgentReferences)
    → is_empty (violations (merge_policies ps tps) refs) ≡ refs_ok (merged ps tps) refs
unfolding merge_policies merged violations
violations-merge_policies [] [] refs = sym (unconstrained_ok refs)
violations-merge_policies [] (tp ∷ tps) refs = is_empty-violations (merged [] (tp ∷ tps)) refs
violations-merge_policies (p ∷ ps) tps refs = is_empty-violations (merged (p ∷ ps) tps) refs

module _ (ps : List Policy) (tps : List ToolPolicy) (e : EffectivePolicy)
    (m : IsMerged ps tps e) where
  action-applicable :
      (n : String)
      → action_of (match_tool_rule e.tool_rules n) e.default_tool_action ≡ applicable_action tps n
  action-applicable n =
      rw (m.rules, m.default_action, match_tool_rule_exact_first (all_rules tps) n)

  tool_ok_sound :
      (n : String)
      → tool_ok e n ≡ true
      → All (λ p. permits p.spec.tools n ≡ true) ps × (applicable_action tps n ≢ tool_action_deny)
  tool_ok_sound n h = (
    All-of_all (λ p. permits p.spec.tools n) ps (ground (arith, m.tools n)),
    λ d. ground (arith, action-applicable n, eq_iff (applicable_action tps n) tool_action_deny),
  )

  tool_ok_complete :
      (n : String)
      → All (λ p. permits p.spec.tools n ≡ true) ps × (applicable_action tps n ≢ tool_action_deny)
      → tool_ok e n ≡ true
  tool_ok_complete n (h, k) = ground (
    arith,
    m.tools n,
    all_of_All (λ p. permits p.spec.tools n) ps h,
    action-applicable n,
    eq_iff (applicable_action tps n) tool_action_deny,
  )

  refs_ok_sound : (refs : AgentReferences) → refs_ok e refs ≡ true → IsCompliant ps tps refs
  refs_ok_sound refs h = record {
    model = elim (Bool-cases (refs.model == "")) [
      | inl unset ↦ inl ((eq_iff _ _).0 unset)
      | inr set ↦ inr (
          All-of_all (λ p. permits p.spec.models refs.model) ps
            (ground (arith, m.models refs.model)))
    ];
    mcp_servers =
        All-map (λ n h. All-of_all (λ p. permits p.spec.mcp n) ps (sym (m.mcp n) ∙ h))
          refs.mcp_servers (All-of_all (permits e.mcp) refs.mcp_servers (ground arith));
    tools = All-map tool_ok_sound refs.tools (All-of_all (tool_ok e) refs.tools (ground arith));
  }

  refs_ok_complete : (refs : AgentReferences) → IsCompliant ps tps refs → refs_ok e refs ≡ true
  refs_ok_complete refs c =
      let servers = all_of_All (permits e.mcp) refs.mcp_servers (
        All-map (λ n h. m.mcp n ∙ all_of_All (λ p. permits p.spec.mcp n) ps h) refs.mcp_servers
          c.mcp_servers) in
      let tools = all_of_All (tool_ok e) refs.tools (All-map tool_ok_complete refs.tools c.tools) in
      elim c.model [
        | inl unset ↦ ground (arith, servers, tools, eq_iff refs.model "")
        | inr h ↦ ground (
          arith,
          servers,
          tools,
          m.models refs.model,
          all_of_All (λ p. permits p.spec.models refs.model) ps h,
        )
      ]

pub nil_of_is_empty : (xs : List String) → is_empty xs ≡ true → xs ≡ []
nil_of_is_empty [] h = refl
nil_of_is_empty (x ∷ xs) h = cc

-- The merged policy reports no violation exactly if the references comply with every policy on its
-- own: no Policy denies the model (where one is named), an MCPServer or a tool, and the ToolPolicy
-- rule that applies to a tool (or, where none applies, the default action) is not "deny".
pub violations-eq-nil_iff :
    (ps : List Policy) (tps : List ToolPolicy) (refs : AgentReferences)
    → (violations (merge_policies ps tps) refs ≡ []) ↔ IsCompliant ps tps refs
violations-eq-nil_iff ps tps refs =
    let m = merged-IsMerged ps tps in
    let same = violations-merge_policies ps tps refs in
    (
      λ none_reported.
          refs_ok_sound ps tps (merged ps tps) m refs (sym same ∙ ap is_empty none_reported),
      λ c. nil_of_is_empty _ (same ∙ refs_ok_complete ps tps (merged ps tps) m refs c),
    )
