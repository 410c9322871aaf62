-- ===== src/Api/Common.antt =====
-- api/v1alpha1/common_types.go, and what the models read of the Kubernetes object metadata.
use agent_plane.Base.{ℕ, String, Bool, Option}

pub record LocalReference : Type 0 where
  pub name : String

pub record SecretKeyReference : Type 0 where
  pub name : String
  pub key : String

pub record ConfigMapKeyReference : Type 0 where
  pub name : String
  pub key : String

pub record ObjectMeta : Type 0 where
  pub name : String
  pub ns : String
  pub resource_version : String
  pub generation : ℕ
  pub uid : String

abbrev pub condition_ready : String
condition_ready = "Ready"

abbrev pub condition_resolved : String
condition_resolved = "Resolved"

abbrev pub condition_policy_compliant : String
condition_policy_compliant = "PolicyCompliant"

abbrev pub reason_reconciled : String
reason_reconciled = "Reconciled"

abbrev pub reason_reference_missing : String
reason_reference_missing = "ReferenceNotFound"

abbrev pub reason_progressing : String
reason_progressing = "Progressing"

abbrev pub reason_create_failed : String
reason_create_failed = "CreateFailed"

abbrev pub reason_invalid_spec : String
reason_invalid_spec = "InvalidSpec"

abbrev pub reason_secret_missing : String
reason_secret_missing = "SecretNotFound"

abbrev pub reason_policy_violation : String
reason_policy_violation = "PolicyViolation"

-- A `metav1.Condition`, without the time of its last transition. The status is "True" or "False".
pub record Condition : Type 0 where
  pub type_of : String
  pub status : Bool
  pub reason : String
  pub message : String
  pub observed_generation : ℕ

-- A `corev1.EnvVar`. `value_from` is carried through unread, as its JSON.
pub record EnvVar : Type 0 where
  pub name : String
  pub value : String
  pub value_from : Option String
