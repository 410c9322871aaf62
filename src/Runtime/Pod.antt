-- ===== src/Runtime/Pod.antt =====
-- What internal/controller/agent_controller.go sets of the Kubernetes pod and workload types.
use agent_plane.Base.{ℕ, String, Bool, Option, List, [], ◌∷◌, map}
use agent_plane.Api.{EnvVar, Probe}

pub data VolumeSource : Type 0 where
  claim : (claim_name : String) (read_only : Bool) → VolumeSource
  config_map : (name : String) (optional : Option Bool) → VolumeSource
  secret : (name : String) (optional : Option Bool) → VolumeSource
  empty_dir : (medium : String) (size_limit : Option String) → VolumeSource

pub record Volume : Type 0 where
  pub name : String
  pub source : VolumeSource

pub record VolumeMount : Type 0 where
  pub name : String
  pub mount_path : String
  pub read_only : Bool

pub record SecurityContext : Type 0 where
  pub allow_privilege_escalation : Bool
  pub read_only_root_filesystem : Bool
  pub run_as_non_root : Bool
  pub dropped_capabilities : List String
  pub seccomp_profile : String

pub record Container : Type 0 where
  pub name : String
  pub image : String
  pub command : List String
  pub env : List EnvVar
  pub ports : List (String × ℕ)
  pub resources : String
  pub readiness_probe : Option Probe
  pub volume_mounts : List VolumeMount
  pub security_context : Option SecurityContext

-- The values of `ownedLabels`: component, instance and manager.
abbrev pub Labels : Type 0
Labels = List (String × String)

-- A Deployment with the part of its pod template that the Operator sets.
pub record Deployment : Type 0 where
  pub labels : Labels
  pub replicas : ℕ
  pub selector : Labels
  pub strategy : Option String
  pub template_labels : Labels
  pub volumes : List Volume
  pub init_containers : List Container
  pub containers : List Container
  pub fs_group : Option ℕ
  pub service_account_name : String
  pub runtime_class_name : Option String
  pub available_replicas : ℕ

abbrev pub volume_names : List Volume → List String
volume_names vs = map (λ v. v.name) vs

abbrev pub mount_names : List VolumeMount → List String
mount_names ms = map (λ m. m.name) ms

abbrev pub owned_labels : String → String → Labels
owned_labels component instance_name =
    ("app.kubernetes.io/name", component)
    ∷ ("app.kubernetes.io/instance", instance_name)
    ∷ ("app.kubernetes.io/managed-by", "agent-plane")
    ∷ []
