-- ===== src/Api/Agents.antt =====
-- api/v1alpha1/agent_types.go and trigger_types.go. Text that the code carries through unread
-- (resource requirements, size limits, a declared probe) is its JSON. The CRD bounds every number
-- from below by 0.
use agent_plane.Base.{ℕ, String, Bool, Option, List}
use agent_plane.Api.Common.{LocalReference, ObjectMeta, Condition, EnvVar}

pub record AgentPvcVolumeSource : Type 0 where
  pub claim_name : String

pub record AgentObjectVolumeSource : Type 0 where
  pub name : String
  pub optional : Option Bool

pub record AgentEmptyDirVolumeSource : Type 0 where
  pub size_limit : Option String
  pub medium : String

pub record AgentVolume : Type 0 where
  pub name : String
  pub mount_path : String
  pub read_only : Bool
  pub persistent_volume_claim : Option AgentPvcVolumeSource
  pub config_map : Option AgentObjectVolumeSource
  pub secret : Option AgentObjectVolumeSource
  pub empty_dir : Option AgentEmptyDirVolumeSource

-- A `corev1.Probe`: one that the Agent declares, or an exec probe of the Operator with its command,
-- initial delay, period, timeout and failure threshold.
pub data Probe : Type 0 where
  declared : String → Probe
  exec : List String → ℕ → ℕ → ℕ → ℕ → Probe

pub record AgentRuntimeSpec : Type 0 where
  pub image : String
  pub replicas : ℕ
  pub port : ℕ
  pub env : List EnvVar
  pub service_account_name : String
  pub resources : String
  pub readiness_probe : Option Probe
  pub runtime_class_name : String
  pub volumes : List AgentVolume

pub record AgentWorkspaceSpec : Type 0 where
  pub repository : String
  pub branch : String
  pub credential_ref : Option LocalReference
  pub mount_path : String
  pub size : String
  pub storage_class_name : Option String

pub record AgentExposeSpec : Type 0 where
  pub port : ℕ
  pub description : String

pub record AgentSpec : Type 0 where
  pub description : String
  pub agent_class_ref : Option LocalReference
  pub model_ref : Option LocalReference
  pub prompt_ref : Option LocalReference
  pub tool_refs : List LocalReference
  pub tool_set_refs : List LocalReference
  pub skill_refs : List LocalReference
  pub policy_refs : List LocalReference
  pub tool_policy_refs : List LocalReference
  pub credential_refs : List LocalReference
  pub runtime : Option AgentRuntimeSpec
  pub workspace : Option AgentWorkspaceSpec
  pub expose : Option AgentExposeSpec

abbrev pub AgentPhase : Type 0
AgentPhase = String

abbrev pub agent_phase_pending : AgentPhase
agent_phase_pending = "Pending"

abbrev pub agent_phase_ready : AgentPhase
agent_phase_ready = "Ready"

abbrev pub agent_phase_degraded : AgentPhase
agent_phase_degraded = "Degraded"

pub record AgentStatus : Type 0 where
  pub conditions : List Condition
  pub observed_generation : ℕ
  pub phase : AgentPhase
  pub resolved_config_hash : String
  pub resolved_refs : ℕ
  pub runtime_available_replicas : ℕ
  pub peer_endpoint : String
  pub workspace_claim : String

pub record Agent : Type 0 where
  pub meta : ObjectMeta
  pub spec : AgentSpec
  pub status : AgentStatus

pub record TriggerSpec : Type 0 where
  pub agent_ref : LocalReference
  pub image : String
  pub credential_ref : Option LocalReference
  pub config : Option String
  pub replicas : ℕ
  pub env : List EnvVar
  pub resources : String

pub record TriggerStatus : Type 0 where
  pub conditions : List Condition
  pub observed_generation : ℕ
  pub phase : String
  pub available_replicas : ℕ
  pub agent_endpoint : String

pub record Trigger : Type 0 where
  pub meta : ObjectMeta
  pub spec : TriggerSpec
  pub status : TriggerStatus
