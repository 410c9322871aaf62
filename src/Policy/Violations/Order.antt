-- ===== src/Policy/Violations/Order.antt =====
-- What `Violations` reports does not depend on the order in which Policies are attached.
use mathlib.Core.Logic.{∥∥₁_elim}
use mathlib.Core.List.{Perm, Permᴰ}
use text.Mathlib.TextEquality.{IsScalar-prop}
use agent_plane.Base.{
  String, Bool, not, ◌&&◌, Option, none, some, List, [], ◌∷◌, ◌≡◌, refl, sym, ◌∙◌, arith, all,
  is_some,
}
use agent_plane.Api.{AccessRule, Policy, ToolPolicy}
use agent_plane.Policy.Access.{permits}
use agent_plane.Policy.Merge.{EffectivePolicy, unconstrained, merge_policies}
use agent_plane.Policy.Merge.Laws.{merged, merged-IsMerged}
use agent_plane.Policy.Violations.Laws.{is_empty-violations, unconstrained_ok, nil_of_is_empty}
use agent_plane.Policy.Violations.{
  AgentReferences, model_violations, mcp_violations, tool_violation, tool_violations, violations,
}

all-perm : (p : Policy → Bool) {ps qs : List Policy} → Permᴰ ps qs → all p ps ≡ all p qs
all-perm p Permᴰ.nil = refl
all-perm p (Permᴰ.cons e h) = rw (e, all-perm p h)
all-perm p (Permᴰ.swap e f) = rw (e, f) (ground arith)
all-perm p (Permᴰ.trans h k) = all-perm p h ∙ all-perm p k

permits_absent :
    (r : Option AccessRule) (n : String) → (is_some r && not (permits r n)) ≡ not (permits r n)
unfolding permits
permits_absent none n = refl
permits_absent (some r) n = refl

strings_set : IsSet (List String)
strings_set = hlevel (IsScalar-prop)

-- Two policies that permit the same and have the same rules report the same.
module _ (e f : EffectivePolicy) (models : (n : String) → permits e.models n ≡ permits f.models n)
    (mcp : (n : String) → permits e.mcp n ≡ permits f.mcp n)
    (tools : (n : String) → permits e.tools n ≡ permits f.tools n)
    (rules : e.tool_rules ≡ f.tool_rules)
    (default_action : e.default_tool_action ≡ f.default_tool_action) where
  same_model : (n : String) → model_violations e n ≡ model_violations f n
  unfolding model_violations
  same_model n = ground (arith, permits_absent e.models n, permits_absent f.models n, models n)

  same_mcp : (ns : List String) → mcp_violations e ns ≡ mcp_violations f ns
  unfolding mcp_violations
  same_mcp [] = refl
  same_mcp (n ∷ ns) =
      ground (arith, permits_absent e.mcp n, permits_absent f.mcp n, mcp n, same_mcp ns)

  same_tool : (n : String) → tool_violation e n ≡ tool_violation f n
  unfolding tool_violation
  same_tool n =
      rw (permits_absent e.tools n, permits_absent f.tools n, tools n, rules, default_action)

  same_tools : (ns : List String) → tool_violations e ns ≡ tool_violations f ns
  unfolding tool_violations
  same_tools [] = refl
  same_tools (n ∷ ns) = rw (same_tool n, same_tools ns)

  same_violations : (refs : AgentReferences) → violations (some e) refs ≡ violations (some f) refs
  unfolding violations
  same_violations refs =
      rw (same_model refs.model, same_mcp refs.mcp_servers, same_tools refs.tools)

-- The policy that allows everything reports nothing, as nil does.
violations-unconstrained : (refs : AgentReferences) → violations (some unconstrained) refs ≡ []
violations-unconstrained refs =
    nil_of_is_empty _ (is_empty-violations unconstrained refs ∙ unconstrained_ok refs)

violations-merged :
    (ps : List Policy) (tps : List ToolPolicy) (refs : AgentReferences)
    → violations (merge_policies ps tps) refs ≡ violations (some (merged ps tps)) refs
unfolding merge_policies merged violations
violations-merged [] [] refs = sym (violations-unconstrained refs)
violations-merged [] (tp ∷ tps) refs = refl
violations-merged (p ∷ ps) tps refs = refl

violations_of_permᴰ :
    {ps qs : List Policy} (tps : List ToolPolicy) (refs : AgentReferences)
    → Permᴰ ps qs
    → violations (some (merged ps tps)) refs ≡ violations (some (merged qs tps)) refs
violations_of_permᴰ {ps} {qs} tps refs h =
    let m = merged-IsMerged ps tps in
    let k = merged-IsMerged qs tps in
    same_violations (merged ps tps) (merged qs tps)
      (λ n. m.models n ∙ all-perm (λ p. permits p.spec.models n) h ∙ sym (k.models n))
      (λ n. m.mcp n ∙ all-perm (λ p. permits p.spec.mcp n) h ∙ sym (k.mcp n))
      (λ n. m.tools n ∙ all-perm (λ p. permits p.spec.tools n) h ∙ sym (k.tools n))
      (m.rules ∙ sym k.rules) (m.default_action ∙ sym k.default_action) refs

-- Attaching the same Policies in another order leaves the reported violations as they are, messages
-- and their order included.
pub violations_of_perm :
    (ps qs : List Policy) (tps : List ToolPolicy) (refs : AgentReferences)
    → Perm ps qs
    → violations (merge_policies ps tps) refs ≡ violations (merge_policies qs tps) refs
violations_of_perm ps qs tps refs h =
    violations-merged ps tps refs
    ∙ ∥∥₁_elim h (strings_set _ _) (violations_of_permᴰ tps refs)
    ∙ sym (violations-merged qs tps refs)
