-- ===== src/Triggers.antt =====
-- internal/controller/trigger_controller.go: the adapter of a Trigger, and the pass that writes it.
pub mod Variables
mod Status
pub mod Laws
pub mod Address
mod Examples
use agent_plane.Base.{
  ℕ, String, ◌<>◌, Bool, true, false, Option, none, some, List, [], ◌∷◌, ◌++◌, ◌==◌, ◌==ℕ◌, ltb,
  if◌then◌else◌, quote, show_nat,
}
use agent_plane.Api.{
  LocalReference, EnvVar, Trigger, TriggerStatus, Agent, AgentRuntimeSpec, condition_ready,
  reason_reconciled, reason_reference_missing, reason_invalid_spec, reason_progressing,
}
use agent_plane.Validation.Agents.{env_agent_endpoint, env_credential_path}
use agent_plane.Validation.Kinds.{validate_trigger}
use agent_plane.Cluster.{
  Got, found, not_found, failed, Reader, Result, ok, err, StatusConditions, set_condition,
}
use agent_plane.Runtime.Pod.{
  VolumeSource, secret, Volume, VolumeMount, Container, Labels, Deployment, owned_labels,
}
use agent_plane.Runtime.Workspace.{env_var}
use agent_plane.Reconcile.Workloads.{OwnedObjects, after_write}

abbrev pub TriggerPhase : Type 0
TriggerPhase = String

abbrev pub trigger_phase_pending : TriggerPhase
trigger_phase_pending = "Pending"

abbrev pub trigger_phase_running : TriggerPhase
trigger_phase_running = "Running"

abbrev pub trigger_phase_degraded : TriggerPhase
trigger_phase_degraded = "Degraded"

abbrev pub credential_mount_path : String
credential_mount_path = "/var/run/agentplane/credential"

abbrev pub adapter_name : Trigger → String
adapter_name t = t.meta.name <> "-adapter"

abbrev pub adapter_labels : Trigger → Labels
adapter_labels t = owned_labels "agent-plane-adapter" t.meta.name

-- What an Agent that was read gives as its address.
runtime_endpoint : String → Agent → Option AgentRuntimeSpec → Result String
runtime_endpoint name a none = err (
    "agent "
    <> quote name
    <> " has no spec.runtime, so it exposes no endpoint for an adapter to call")
runtime_endpoint name a (some rt) =
    if rt.port ==ℕ 0
    then err (
        "agent "
        <> quote name
        <> " has spec.runtime but no port, so no Service is created for an adapter to call")
    else ok ("http://" <> a.meta.name <> "-runtime." <> a.meta.ns <> ".svc:" <> show_nat rt.port)

-- `agentEndpoint`.
unfoldable pub agent_endpoint : Reader → Trigger → Result String
unfolding runtime_endpoint
agent_endpoint r t = elim (r.get_agent t.meta.ns t.spec.agent_ref.name) [
  | not_found ↦ err ("agent " <> quote t.spec.agent_ref.name <> " not found")
  | failed e ↦ err e
  | found a ↦ runtime_endpoint t.spec.agent_ref.name a a.spec.runtime
]

-- A configuration that is absent or empty sets no variable.
config_env : Option String → List EnvVar
config_env none = []
config_env (some raw) = if raw == "" then [] else env_var "AGENTPLANE_TRIGGER_CONFIG" raw ∷ []

-- `adapterEnv`: the injected variables come after the Trigger's own.
unfoldable pub adapter_env : Trigger → String → String → List EnvVar
unfolding config_env
adapter_env t endpoint secret_name =
    t.spec.env
    ++ (env_var env_agent_endpoint endpoint
        ∷ env_var "AGENTPLANE_AGENT_NAME" t.spec.agent_ref.name
        ∷ env_var "AGENTPLANE_AGENT_NAMESPACE" t.meta.ns
        ∷ env_var "AGENTPLANE_TRIGGER_NAME" t.meta.name
        ∷ (config_env t.spec.config
            ++ (if secret_name == ""
                then []
                else env_var env_credential_path credential_mount_path ∷ [])))

-- The function that `reconcileAdapter` hands to `CreateOrUpdate`, up to the owner reference.
unfoldable pub set_adapter : Trigger → String → String → Deployment → Deployment
set_adapter t endpoint secret_name dep =
    let labels = adapter_labels t in
    record dep {
      labels = labels;
      replicas = t.spec.replicas;
      selector = labels;
      template_labels = labels;
      strategy = some "Recreate";
      volumes =
          if secret_name == ""
          then []
          else record { name = "credential"; source = secret secret_name none } ∷ [];
      containers =
          record {
            name = "adapter";
            image = t.spec.image;
            command = [];
            env = adapter_env t endpoint secret_name;
            ports = [];
            resources = t.spec.resources;
            readiness_probe = none;
            volume_mounts =
                if secret_name == ""
                then []
                else record {
                  name = "credential";
                  mount_path = credential_mount_path;
                  read_only = true;
                }
                  ∷ [];
            security_context = none;
          }
          ∷ [];
    }

-- `reconcileAdapter`: its error, where there is one.
unfoldable pub reconcile_adapter : OwnedObjects → Trigger → String → String → Option String
reconcile_adapter w t endpoint secret_name =
    w.write_deployment t.meta.ns (adapter_name t) (set_adapter t endpoint secret_name)

-- The Secret of the Credential, where the Trigger names one; `none` where the Credential is gone.
unfoldable pub secret_name_of : Reader → Trigger → Option LocalReference → Result (Option String)
secret_name_of r t none = ok (some "")
secret_name_of r t (some ref) = elim (r.get_credential t.meta.ns ref.name) [
  | not_found ↦ ok none
  | failed e ↦ err e
  | found c ↦ ok (some c.spec.secret_ref.name)
]

-- The message for a Credential that is gone.
abbrev credential_missing : Option LocalReference → String
credential_missing none = ""
credential_missing (some ref) = "credential " <> quote ref.name <> " not found"

-- The number that the live Deployment has, or the last known.
pub live_replicas : OwnedObjects → Trigger → ℕ
live_replicas w t = elim (w.get_deployment t.meta.ns (adapter_name t)) [
  | found d ↦ d.available_replicas
  | _ ↦ t.status.available_replicas
]

module _ (sc : StatusConditions) where
  -- `degrade`: the status that it writes.
  pub degrade_trigger : Trigger → TriggerStatus → String → String → TriggerStatus
  degrade_trigger t st reason message = record st {
    phase = trigger_phase_degraded;
    conditions =
        set_condition sc st.conditions condition_ready false reason message t.meta.generation;
  }

  -- What the Deployment's availability says.
  pub available_status : Trigger → TriggerStatus → TriggerStatus
  available_status t st =
      if ltb 0 st.available_replicas
      then record st {
        phase = trigger_phase_running;
        conditions =
            set_condition sc st.conditions condition_ready true reason_reconciled "adapter running"
              t.meta.generation;
      }
      else record st {
        phase = trigger_phase_pending;
        conditions =
            set_condition sc st.conditions condition_ready false reason_progressing
              "waiting for the adapter to become available" t.meta.generation;
      }

  with_adapter :
      OwnedObjects → Trigger → TriggerStatus → String → Option String → Result TriggerStatus
  unfolding degrade_trigger available_status live_replicas
  with_adapter w t st endpoint none =
      ok (degrade_trigger t st reason_reference_missing (credential_missing t.spec.credential_ref))
  with_adapter w t st endpoint (some secret_name) =
      after_write (reconcile_adapter w t endpoint secret_name)
        (ok (available_status t (record st { available_replicas = live_replicas w t })))

  -- `Reconcile` of a Trigger that was read, up to the update of its status: the status that it hands to
  -- the update, or the error with which it returns before that.
  unfoldable pub trigger_pass : Reader → OwnedObjects → Trigger → Result TriggerStatus
  unfolding degrade_trigger secret_name_of with_adapter
  trigger_pass r w t =
      let st = record (t.status) { observed_generation = t.meta.generation } in
      elim (validate_trigger t.spec) [
        | some e ↦ ok (degrade_trigger t st reason_invalid_spec e)
        | none ↦ elim (agent_endpoint r t) [
          | err e ↦ ok (degrade_trigger t st reason_reference_missing e)
          | ok endpoint ↦ elim (secret_name_of r t t.spec.credential_ref) [
            | err e ↦ err e
            | ok name ↦ with_adapter w t (record st { agent_endpoint = endpoint }) endpoint name
          ]
        ]
      ]

  -- `Reconcile`: the error that it returns, where there is one. The arguments answer the `Get` of the
  -- Trigger and the update of its status, whose error is returned on every way to it.
  unfoldable pub reconcile_trigger :
      Reader → OwnedObjects → (TriggerStatus → Option String) → Got Trigger → Option String
  reconcile_trigger r w update not_found = none
  reconcile_trigger r w update (failed e) = some e
  reconcile_trigger r w update (found t) = elim (trigger_pass r w t) [
    | err e ↦ some e
    | ok st ↦ update st
  ]
