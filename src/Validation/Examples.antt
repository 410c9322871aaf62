-- ===== src/Validation/Examples.antt =====
-- Tests of validation, and the theorems about it at concrete inputs.
use agent_plane.Base.{
  String, none, some, [], ◌∷◌, ◌≡◌, ◌≢◌, refl, ◌↔◌, IsDistinct, All, has_prefix, trim_right, quote,
  eq_iff, arith,
}
use agent_plane.Api.{AgentSpec, AgentRuntimeSpec, AgentWorkspaceSpec, ToolPolicySpec, TriggerSpec}
use agent_plane.Samples.{bare_spec, bare_runtime, bare_workspace, volume_at, bare_tool, ref}
use agent_plane.Validation.Names.{duplicate_error, first_duplicate, env_names}
use agent_plane.Validation.Volumes.{clean_path, validate_volumes}
use agent_plane.Validation.Volumes.Laws.{
  IsAllowed, volumes_of, clean_paths, validate_volumes-eq-none_iff,
}
use agent_plane.Validation.Volumes.Shadowing.{with_volumes, shadowing_accepted}
use agent_plane.Validation.Agents.{
  ParseQuantity, validate_agent, validate_workspace, validate_runtime_env, validate_expose,
}
use agent_plane.Validation.Agents.Laws.{
  HasProperRefs, HasNames, AvoidsEnv, IsWellFormed, validate_agent-eq-none_iff,
}
use agent_plane.Validation.Kinds.{
  validate_tool_policy, validate_tool, validate_trigger, reserved_trigger_env,
}
use agent_plane.Validation.Kinds.Laws.{
  HasNoConflict, validate_tool_policy-eq-none_iff, IsBacked, validate_tool-eq-none_iff,
  validate_trigger-eq-none_iff,
}

repeats : first_duplicate ("a" ∷ "b" ∷ "a" ∷ "b" ∷ []) ≡ "a"
unfolding first_duplicate
repeats = refl

-- A repeated empty name is not found.
repeats_empty : first_duplicate ("" ∷ "" ∷ []) ≡ ""
unfolding first_duplicate
repeats_empty = refl

abbrev slashed : AgentWorkspaceSpec
slashed = record bare_workspace { mount_path = "/work/" }

abbrev with_volume : AgentRuntimeSpec
with_volume = record bare_runtime { volumes = volume_at "nas" "/work" ∷ [] }

abbrev shadowed : AgentSpec
shadowed = record bare_spec { runtime = some with_volume; workspace = some slashed }

abbrev unslashed : AgentSpec
unslashed = record shadowed { workspace = some (record bare_workspace { mount_path = "/work" }) }

rejected_path :
    validate_volumes unslashed
    ≡ some "spec.runtime.volumes: mountPath \"/work\" for volume \"nas\" is used by the Operator"
unfolding validate_volumes clean_path has_prefix trim_right quote
rejected_path = refl

validate_volumes-eq-none_iff_example : (validate_volumes unslashed ≡ none) ↔ (
    All (IsAllowed unslashed.workspace) (volumes_of unslashed)
    × IsDistinct (clean_paths (volumes_of unslashed)))
validate_volumes-eq-none_iff_example = validate_volumes-eq-none_iff unslashed

nas_IsAllowed : IsAllowed none (volume_at "nas" "/work")
unfolding clean_path has_prefix trim_right
nas_IsAllowed = record {
  name_free = refl;
  no_prefix = refl;
  absolute = refl;
  path_free = refl;
  outside = refl;
}

slash_differs : ◌≢◌ {A = String} "/work/" "/work"
slash_differs = ground (arith, eq_iff "/work/" "/work")

path_set : ◌≢◌ {A = String} "/work/" ""
path_set = ground (arith, eq_iff "/work/" "")

abbrev any_quantity : ParseQuantity
any_quantity size = none

without_volumes : validate_agent any_quantity (with_volumes shadowed with_volume []) ≡ none
unfolding validate_agent duplicate_error first_duplicate validate_workspace has_prefix
    validate_volumes validate_runtime_env validate_expose
without_volumes = refl

shadowing_accepted_example :
    validate_agent any_quantity (with_volumes shadowed with_volume (volume_at "nas" "/work" ∷ []))
    ≡ none
unfolding clean_path trim_right
shadowing_accepted_example =
    shadowing_accepted any_quantity shadowed with_volume slashed (volume_at "nas" "/work")
      without_volumes refl nas_IsAllowed refl slash_differs path_set

proper : HasProperRefs shadowed HasNames
proper = record {
  tools = refl;
  tool_sets = refl;
  skills = refl;
  policies = refl;
  tool_policies = refl;
  credentials = refl;
}

validate_agent-eq-none_iff_example :
    (validate_agent any_quantity shadowed ≡ none) ↔ IsWellFormed any_quantity shadowed
validate_agent-eq-none_iff_example = validate_agent-eq-none_iff any_quantity shadowed proper

abbrev odd_rules : ToolPolicySpec
odd_rules = record {
  rules =
      record { tool = "mail"; action = "allow"; max_calls_per_session = none }
      ∷ record { tool = "*"; action = "allow"; max_calls_per_session = none }
      ∷ record { tool = "*"; action = "deny"; max_calls_per_session = none }
      ∷ record { tool = "mail"; action = "deny"; max_calls_per_session = none }
      ∷ [];
  default_action = "";
}

odd_rules_rejected :
    validate_tool_policy odd_rules
    ≡ some "tool \"mail\" has conflicting actions \"allow\" and \"deny\""
unfolding validate_tool_policy quote
odd_rules_rejected = refl

validate_tool_policy-eq-none_iff_example :
    (validate_tool_policy odd_rules ≡ none) ↔ HasNoConflict odd_rules.rules
validate_tool_policy-eq-none_iff_example = validate_tool_policy-eq-none_iff odd_rules

validate_tool-eq-none_iff_example :
    (validate_tool (record bare_tool { agent_ref = some (ref "peer") }) ≡ none)
    ↔ IsBacked (record bare_tool { agent_ref = some (ref "peer") })
validate_tool-eq-none_iff_example =
    validate_tool-eq-none_iff (record bare_tool { agent_ref = some (ref "peer") })

abbrev lark : TriggerSpec
lark = record {
  agent_ref = ref "support";
  image = "lark:v1";
  credential_ref = none;
  config = none;
  replicas = 1;
  env = record { name = "LEVEL"; value = "debug"; value_from = none } ∷ [];
  resources = "";
}

validate_trigger-eq-none_iff_example : (validate_trigger lark ≡ none) ↔ (
    (lark.agent_ref.name ≢ "")
    × AvoidsEnv reserved_trigger_env lark.env
    × IsDistinct (env_names lark.env))
validate_trigger-eq-none_iff_example = validate_trigger-eq-none_iff lark refl
