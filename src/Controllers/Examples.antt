-- ===== src/Controllers/Examples.antt =====
-- Passes over a Tool, a Credential, a ToolSet and a Skill of a small cluster.
use agent_plane.Base.{
  String, true, false, none, some, [], ◌∷◌, ◌≡◌, refl, ◌==◌, ◌<>◌, if◌then◌else◌, show_list,
}
use agent_plane.Api.{
  ToolStatus, Condition, ToolSet, ToolSetStatus, Skill, SkillStatus, ConfigMap, Credential,
  CredentialStatus, Secret,
}
use agent_plane.Validation.Kinds.{validate_skill, validate_tool}
use agent_plane.Cluster.{Reader, found, not_found, ok, upserting}
use agent_plane.Controllers.{
  resolve_ref_targets, apply_ready_from_missing, reconcile_tool, reconcile_credential,
  reconcile_tool_set, reconcile_skill,
}
use agent_plane.Samples.{meta_of, ref, empty_cluster, small_cluster, search_tool}

abbrev missing_reference : String → String → Condition
missing_reference type_of name = record {
  type_of = type_of;
  status = false;
  reason = "ReferenceNotFound";
  message = "unresolved references: [" <> name <> "]";
  observed_generation = 1;
}

abbrev unresolved : ToolStatus
unresolved = record {
  conditions =
      missing_reference "Resolved" "MCPServer/lark"
      ∷ missing_reference "Ready" "MCPServer/lark"
      ∷ [];
  observed_generation = 1;
  healthy = none;
}

tool_runs : reconcile_tool upserting small_cluster search_tool ≡ ok unresolved
unfolding reconcile_tool validate_tool resolve_ref_targets apply_ready_from_missing upserting
    show_list
tool_runs = refl

abbrev api_key : Credential
api_key = record {
  meta = meta_of "api-key";
  spec = record { secret_ref = record { name = "keys"; key = "openai" }; description = "" };
  status = record { conditions = []; observed_generation = 0; secret_found = none };
}

abbrev keys : Secret
keys = record { meta = meta_of "keys"; entries = ("openai", "sk") ∷ [] }

abbrev with_keys : Reader
with_keys = record empty_cluster {
  get_secret = λ ns name. if name == "keys" then found keys else not_found;
}

abbrev present : CredentialStatus
present = record {
  conditions =
      record {
        type_of = "Ready";
        status = true;
        reason = "Reconciled";
        message = "secret and key present";
        observed_generation = 1;
      }
      ∷ [];
  observed_generation = 1;
  secret_found = some true;
}

credential_runs : reconcile_credential upserting with_keys api_key ≡ ok present
unfolding reconcile_credential upserting
credential_runs = refl

-- A set of two members, one of which is not there.
abbrev partial : ToolSet
partial = record {
  meta = meta_of "partial";
  spec = record { description = ""; tool_refs = ref "search" ∷ ref "gone" ∷ [] };
  status = record { conditions = []; observed_generation = 0; resolved_tools = 0 };
}

abbrev counted : ToolSetStatus
counted = record {
  conditions =
      missing_reference "Resolved" "Tool/gone" ∷ missing_reference "Ready" "Tool/gone" ∷ [];
  observed_generation = 1;
  resolved_tools = 1;
}

set_runs : reconcile_tool_set upserting small_cluster partial ≡ ok counted
unfolding reconcile_tool_set resolve_ref_targets apply_ready_from_missing upserting show_list
set_runs = refl

abbrev triage : Skill
triage = record {
  meta = meta_of "triage";
  spec = record {
    description = "";
    version = "";
    content = "";
    content_config_map_ref = some (record { name = "skills"; key = "triage.md" });
    allowed_tools = [];
  };
  status = record { conditions = []; observed_generation = 0; content_source = "" };
}

abbrev skill_texts : ConfigMap
skill_texts = record { meta = meta_of "skills"; entries = ("triage.md", "# Triage") ∷ [] }

abbrev with_skills : Reader
with_skills = record empty_cluster {
  get_config_map = λ ns name. if name == "skills" then found skill_texts else not_found;
}

abbrev resolved : SkillStatus
resolved = record {
  conditions =
      record {
        type_of = "Ready";
        status = true;
        reason = "Reconciled";
        message = "skill content resolved from configmap";
        observed_generation = 1;
      }
      ∷ [];
  observed_generation = 1;
  content_source = "configMap";
}

skill_runs : reconcile_skill upserting with_skills triage ≡ ok resolved
unfolding reconcile_skill validate_skill upserting
skill_runs = refl
