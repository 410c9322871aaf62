-- ===== src/Policy/Rules.antt =====
-- `MatchToolRule` of api/v1alpha1/policy_merge.go.
pub mod Laws
use agent_plane.Base.{String, Option, none, some, List, [], ◌∷◌, ◌==◌, if◌then◌else◌}
use agent_plane.Api.{ToolRule}

abbrev keep_wildcard : Option ToolRule → ToolRule → Option ToolRule
keep_wildcard none r = some r
keep_wildcard (some w) r = some w

-- The loop of `MatchToolRule`, with the wildcard rule seen so far.
match_from : List ToolRule → String → Option ToolRule → Option ToolRule
match_from [] name wildcard = wildcard
match_from (r ∷ rs) name wildcard =
    if r.tool == name
    then some r
    else match_from rs name (if r.tool == "*" then keep_wildcard wildcard r else wildcard)

unfoldable pub match_tool_rule : List ToolRule → String → Option ToolRule
unfolding match_from
match_tool_rule rules name = match_from rules name none
