-- ===== src/Policy/Access.antt =====
-- `AccessRule.Permits`, `mergeAccessRule` and what it calls, in api/v1alpha1/policy_merge.go.
pub mod Laws
use agent_plane.Base.{
  String, Bool, true, false, not, ◌&&◌, ◌||◌, Option, none, some, List, [], ◌∷◌, ◌++◌, ◌==◌,
  if◌then◌else◌, is_empty, mem, keep_first,
}
use agent_plane.Api.{AccessRule}

-- The loop over `r.Deny`: whether some entry is the name or "*".
denied_by : List String → String → Bool
denied_by [] name = false
denied_by (d ∷ ds) name = d == name || d == "*" || denied_by ds name

-- The loop over `r.Allow`.
allowed_by : List String → String → Bool
allowed_by [] name = false
allowed_by (a ∷ rest) name = a == name || a == "*" || allowed_by rest name

unfoldable pub permits : Option AccessRule → String → Bool
unfolding denied_by allowed_by
permits none name = true
permits (some r) name =
    if denied_by r.deny name
    then false
    else if is_empty r.allow
    then true
    else allowed_by r.allow name

contains_wildcard : List String → Bool
contains_wildcard [] = false
contains_wildcard (v ∷ vs) = v == "*" || contains_wildcard vs

-- The last loop of `intersectOrKeep`: the names of `a` that are in `b`, in order.
intersect : List String → List String → List String
intersect [] b = []
intersect (v ∷ vs) b = let rest = intersect vs b in if mem v b then v ∷ rest else rest

intersect_or_keep : List String → List String → List String
unfolding contains_wildcard intersect
intersect_or_keep a b =
    if is_empty a
    then b
    else if is_empty b
    then a
    else if contains_wildcard a
    then b
    else if contains_wildcard b
    then a
    else intersect a b

-- `union`: the loop over `a` followed by `b`, whose `seen` starts empty.
union : List String → List String → List String
unfolding keep_first
union a b = keep_first [] (a ++ b)

-- What `mergeAccessRule` does of two rules that are both there.
merge_rules : AccessRule → AccessRule → AccessRule
unfolding intersect_or_keep union
merge_rules into add =
    let allow = intersect_or_keep into.allow add.allow in
    let deny = union into.deny add.deny in
    if not (is_empty into.allow) && not (is_empty add.allow) && is_empty allow
    then record { allow = []; deny = union deny ("*" ∷ []) }
    else record { allow = allow; deny = deny }

unfoldable pub merge_access_rule : Option AccessRule → Option AccessRule → Option AccessRule
unfolding merge_rules
merge_access_rule into none = into
merge_access_rule none (some add) = some add
merge_access_rule (some into) (some add) = some (merge_rules into add)
