-- ===== src/Policy/Rules/Laws.antt =====
-- Which rule `MatchToolRule` returns.
use agent_plane.Base.{
  String, Option, none, some, List, [], ◌∷◌, ◌==◌, ◌≡◌, refl, arith, find, or_else,
}
use agent_plane.Api.{ToolRule}
use agent_plane.Policy.Rules.{match_from, match_tool_rule}

match_from_lem :
    (rules : List ToolRule) (name : String) (wildcard : Option ToolRule)
    → match_from rules name wildcard
      ≡ or_else
          (find (λ r. r.tool == name) rules)
          (or_else wildcard (find (λ r. r.tool == "*") rules))
unfolding match_from
match_from_lem [] name none = refl
match_from_lem [] name (some w) = refl
match_from_lem (r ∷ rs) name wildcard =
    ground (arith, match_from_lem rs name wildcard, match_from_lem rs name (some r))

-- The rule that applies to a tool is the first rule that names it; where there is none, the first
-- rule for "*"; and where there is none either, no rule. So the place of a wildcard among the
-- rules does not matter.
pub match_tool_rule_exact_first :
    (rules : List ToolRule) (name : String)
    → match_tool_rule rules name
      ≡ or_else (find (λ r. r.tool == name) rules) (find (λ r. r.tool == "*") rules)
unfolding match_tool_rule
match_tool_rule_exact_first rules name = match_from_lem rules name none
