-- ===== src/Validation/Kinds/Laws.antt =====
-- What the checks of the other kinds accept.
use agent_plane.Base.{
  String, Bool, true, false, not, ◌&&◌, ◌||◌, Option, none, some, List, [], ◌∷◌, ◌==◌, ◌≡◌, refl,
  ◌↔◌, ◌≢◌, arith, inl, inr, eq_iff, is_some, all, All, All-of_all, all_of_All, All-map, IsDistinct,
  Bool-cases,
}
use agent_plane.Api.{ToolRule, ToolAction, ToolPolicySpec, ToolSpec, tool_type_mcp, TriggerSpec}
use agent_plane.Validation.Names.{env_names}
use agent_plane.Validation.Agents.Workspace.{or_then-eq-none}
use agent_plane.Validation.Agents.Laws.{AvoidsEnv, HasNames, env_error-eq-none_iff, duplicate_iff}
use agent_plane.Validation.Kinds.{
  seen_action, conflict, rules_error, validate_tool_policy, validate_tool, validate_trigger,
  reserved_trigger_env,
}

-- Two rules are at odds: they name one specific tool, with different actions.
abbrev pub at_odds : ToolRule → ToolRule → Bool
at_odds r s = not (r.tool == "*") && (r.tool == s.tool && not (r.action == s.action))

abbrev pub HasNoConflict : List ToolRule → Type 0
HasNoConflict [] = Unit
HasNoConflict (r ∷ rs) = All (λ s. at_odds r s ≡ false) rs × HasNoConflict rs

abbrev no_conflict : List ToolRule → Bool
no_conflict [] = true
no_conflict (r ∷ rs) = all (λ s. not (at_odds r s)) rs && no_conflict rs

no_conflict_iff : (rs : List ToolRule) → (no_conflict rs ≡ true) ↔ HasNoConflict rs
no_conflict_iff [] = (λ h. tt, λ h. refl)
no_conflict_iff (r ∷ rs) = (
  λ h. (
    All-map (λ s k. ground arith) rs (All-of_all (λ s. not (at_odds r s)) rs (ground arith)),
    (no_conflict_iff rs).0 (ground arith),
  ),
  λ h. ground (
    arith,
    all_of_All (λ s. not (at_odds r s)) rs (All-map (λ s k. ground arith) rs h.0),
    (no_conflict_iff rs).1 h.1,
  ),
)

-- The action seen, if any, is this one.
abbrev matches : Option ToolAction → ToolAction → Bool
matches none action = true
matches (some prev) action = prev == action

-- A rule agrees with the actions seen.
agrees : List (String × ToolAction) → ToolRule → Bool
agrees seen r = r.tool == "*" || matches (seen_action r.tool seen) r.action

conflict_lem :
    (o : Option ToolAction) (r : ToolRule) → not (is_some (conflict o r)) ≡ matches o r.action
unfolding conflict
conflict_lem none r = refl
conflict_lem (some prev) r = ground arith

seen_of_eq :
    {a b : String} (seen : List (String × ToolAction))
    → a ≡ b
    → seen_action a seen ≡ seen_action b seen
seen_of_eq seen e = rw e

all_agree_nil : (rs : List ToolRule) → all (agrees []) rs ≡ true
unfolding agrees seen_action
all_agree_nil [] = refl
all_agree_nil (r ∷ rs) = ground (arith, all_agree_nil rs)

-- An action that is seen and matches one action matches another exactly if the two are equal.
eq_trans_action :
    (o : Option ToolAction) (a b : ToolAction)
    → matches o a ≡ true
    → (matches o b && a == b) ≡ (a == b)
eq_trans_action none a b h = refl
eq_trans_action (some prev) a b h = ground (arith, eq_iff prev a, eq_iff prev b, eq_iff a b)

agrees-cons :
    (seen : List (String × ToolAction)) (r s : ToolRule)
    → (r.tool == "*") ≡ false
    → agrees seen r ≡ true
    → agrees ((r.tool, r.action) ∷ seen) s ≡ (agrees seen s && not (at_odds r s))
unfolding agrees seen_action
agrees-cons seen r s specific h = elim (Bool-cases (r.tool == s.tool)) [
  | inl e ↦
      let same : r.tool ≡ s.tool = (eq_iff _ _).0 e in
      ground (
        arith,
        seen_of_eq seen same,
        eq_iff r.tool "*",
        eq_iff s.tool "*",
        eq_iff r.action s.action,
        eq_trans_action (seen_action r.tool seen) r.action s.action,
      )
  | inr e ↦ ground arith
]

all_agree-cons :
    (seen : List (String × ToolAction)) (r : ToolRule) (rs : List ToolRule)
    → (r.tool == "*") ≡ false
    → agrees seen r ≡ true
    → all (agrees ((r.tool, r.action) ∷ seen)) rs
      ≡ (all (agrees seen) rs && all (λ s. not (at_odds r s)) rs)
all_agree-cons seen r [] specific h = refl
all_agree-cons seen r (s ∷ rs) specific h =
    ground (arith, agrees-cons seen r s specific h, all_agree-cons seen r rs specific h)

wildcard_agrees :
    (r : ToolRule) (rs : List ToolRule)
    → (r.tool == "*") ≡ true
    → all (λ s. not (at_odds r s)) rs ≡ true
wildcard_agrees r [] h = refl
wildcard_agrees r (s ∷ rs) h = ground (arith, wildcard_agrees r rs h)

rules_error_lem :
    (seen : List (String × ToolAction)) (rs : List ToolRule)
    → not (is_some (rules_error seen rs)) ≡ (all (agrees seen) rs && no_conflict rs)
unfolding rules_error agrees
rules_error_lem seen [] = refl
rules_error_lem seen (r ∷ rs) = elim (Bool-cases (r.tool == "*")) [
  | inl e ↦ ground (arith, rules_error_lem seen rs, wildcard_agrees r rs e)
  | inr e ↦ ground (
    arith,
    rules_error_lem ((r.tool, r.action) ∷ seen) rs,
    conflict_lem (seen_action r.tool seen) r,
    all_agree-cons seen r rs e,
  )
]

-- A ToolPolicy is accepted exactly if no two of its rules name one tool, other than "*", with
-- different actions.
pub validate_tool_policy-eq-none_iff :
    (s : ToolPolicySpec) → (validate_tool_policy s ≡ none) ↔ HasNoConflict s.rules
unfolding validate_tool_policy
validate_tool_policy-eq-none_iff s =
    let same = rules_error_lem [] s.rules in
    (
      λ h. (no_conflict_iff s.rules).0 (ground (arith, same, all_agree_nil s.rules)),
      λ h. ground (arith, same, all_agree_nil s.rules, (no_conflict_iff s.rules).1 h),
    )

-- What backs a Tool.
pub data IsBacked (s : ToolSpec) : Type 0 where
  by_server :
      s.type_of ≡ tool_type_mcp → is_some s.mcp_server_ref ≡ true → s.agent_ref ≡ none → IsBacked s
  by_agent :
      s.type_of ≡ tool_type_mcp → s.mcp_server_ref ≡ none → is_some s.agent_ref ≡ true → IsBacked s
  by_endpoint : s.type_of ≢ tool_type_mcp → s.agent_ref ≡ none → IsBacked s

IsBacked-sound : (s : ToolSpec) → validate_tool s ≡ none → IsBacked s
unfolding validate_tool
IsBacked-sound s h = elim (Bool-cases (s.type_of == tool_type_mcp)) [
  | inl e ↦ elim (Bool-cases (is_some s.agent_ref)) [
    | inl a ↦ by_agent ((eq_iff _ _).0 e) (ground arith) a
    | inr a ↦ by_server ((eq_iff _ _).0 e) (ground arith) (ground arith)
  ]
  | inr e ↦ by_endpoint (λ p. ground (arith, eq_iff s.type_of tool_type_mcp)) (ground arith)
]

backed_complete : (s : ToolSpec) → IsBacked s → validate_tool s ≡ none
unfolding validate_tool
backed_complete s (by_server t m a) = ground (arith, eq_iff s.type_of tool_type_mcp)
backed_complete s (by_agent t m a) = ground (arith, eq_iff s.type_of tool_type_mcp)
backed_complete s (by_endpoint t a) = ground (arith, eq_iff s.type_of tool_type_mcp)

-- A Tool is accepted exactly if it is of type mcp and backed by an MCPServer or else by an Agent, but
-- not by both, or of another type and backed by no Agent.
pub validate_tool-eq-none_iff : (s : ToolSpec) → (validate_tool s ≡ none) ↔ IsBacked s
validate_tool-eq-none_iff s = (IsBacked-sound s, backed_complete s)

-- A Trigger whose variables all have names is accepted exactly if it names an Agent, sets no reserved
-- variable and sets no variable twice.
pub validate_trigger-eq-none_iff :
    (s : TriggerSpec)
    → HasNames (env_names s.env)
    → (validate_trigger s ≡ none) ↔ (
        (s.agent_ref.name ≢ "")
        × AvoidsEnv reserved_trigger_env s.env
        × IsDistinct (env_names s.env))
unfolding validate_trigger
validate_trigger-eq-none_iff s named = elim (Bool-cases (s.agent_ref.name == "")) [
  | inl e ↦ rw e (λ h. cc, λ h. absurd (h.0 ((eq_iff _ _).0 e)))
  | inr e ↦ rw e (
    λ h.
        let (env, dup) = (or_then-eq-none _ _).0 h in
        (
          λ p. ground (arith, eq_iff s.agent_ref.name ""),
          (env_error-eq-none_iff "spec.env" reserved_trigger_env s.env).0 env,
          (duplicate_iff "env var" _ named).0 dup,
        ),
    λ h. (or_then-eq-none _ _).1 (
      (env_error-eq-none_iff "spec.env" reserved_trigger_env s.env).1 h.1,
      (duplicate_iff "env var" _ named).1 h.2,
    ),
  )
]
