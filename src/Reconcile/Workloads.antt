-- ===== src/Reconcile/Workloads.antt =====
-- `reconcileWorkspace`, `resolveModelSecret` and `reconcileRuntime` of
-- internal/controller/agent_controller.go, over the API server's answers for the objects that an Agent
-- owns.
use agent_plane.Base.{
  ℕ, String, ◌<>◌, Bool, false, not, ◌&&◌, Option, none, some, ◌==◌, ◌==ℕ◌, if◌then◌else◌, is_some,
  quote,
}
use agent_plane.Api.{LocalReference, Agent, AgentStatus, AgentRuntimeSpec, AgentWorkspaceSpec}
use agent_plane.Cluster.{Got, found, not_found, failed, Reader, Result, ok, err}
use agent_plane.Validation.Agents.{ParseQuantity}
use agent_plane.Resolve.Targets.{effective_spec}
use agent_plane.Resolve.Pass.{Resolution}
use agent_plane.Runtime.Pod.{Deployment}
use agent_plane.Runtime.{Labels, agent_runtime_labels, set_deployment, workspace_claim_name}

pub record Claim : Type 0 where
  pub name : String
  pub ns : String
  pub labels : Labels
  pub storage_class_name : Option String
  pub size : String

-- The fields that the Operator sets of a Service: one TCP port, which is also the target's.
pub record Service : Type 0 where
  pub labels : Labels
  pub selector : Labels
  pub port_name : String
  pub port : ℕ

-- How the API server answers for owned objects; a write answers with its error, where there is one.
-- `write_deployment` is `CreateOrUpdate` with the function that sets the fields and the owner.
pub record OwnedObjects : Type 0 where
  pub get_claim : String → String → Got Claim
  pub create_claim : Claim → Option String
  pub write_deployment : String → String → (Deployment → Deployment) → Option String
  pub write_service : String → String → Service → Option String
  pub get_deployment : String → String → Got Deployment

-- A write, and what follows where it succeeds.
abbrev pub after_write {ℓ} : {A : Type ℓ} → Option String → Result A → Result A
after_write none next = next
after_write (some e) next = err e

abbrev claim_size : String → String
claim_size size = if size == "" then "10Gi" else size

-- `reconcileWorkspace`: its error, where there is one. A claim that is there is left alone.
pub reconcile_workspace : ParseQuantity → OwnedObjects → Agent → AgentWorkspaceSpec → Option String
reconcile_workspace parse_quantity w a ws =
    let name = workspace_claim_name a in
    let size = claim_size ws.size in
    elim (w.get_claim a.meta.ns name) [
      | found c ↦ none
      | failed e ↦ some e
      | not_found ↦ elim (parse_quantity size) [
        | some e ↦ some ("workspace size " <> quote size <> ": " <> e)
        | none ↦ w.create_claim (record {
          name = name;
          ns = a.meta.ns;
          labels = agent_runtime_labels a;
          storage_class_name = ws.storage_class_name;
          size = size;
        })
      ]
    ]

credential_secret : Reader → String → Option LocalReference → String
credential_secret r ns none = ""
credential_secret r ns (some ref) = elim (r.get_credential ns ref.name) [
  | found c ↦ c.spec.secret_ref.name
  | _ ↦ ""
]

model_secret_of : Reader → String → Option LocalReference → String
unfolding credential_secret
model_secret_of r ns none = ""
model_secret_of r ns (some ref) = elim (r.get_model ns ref.name) [
  | found m ↦ credential_secret r ns m.spec.credential_ref
  | _ ↦ ""
]

unfoldable pub resolve_model_secret : Reader → Agent → String
unfolding model_secret_of
resolve_model_secret r a = model_secret_of r a.meta.ns (effective_spec r a).model_ref

-- Whether the workspace clones with a credential.
unfoldable pub wants_git : Option AgentWorkspaceSpec → Bool
wants_git none = false
wants_git (some ws) = not (ws.repository == "") && is_some ws.credential_ref

abbrev pub default_registry_url : String → String
default_registry_url url =
    if url == "" then "http://agent-plane-registry.agent-plane-system.svc:9090" else url

unfoldable pub workspace_ready :
    ParseQuantity → OwnedObjects → Agent → Option AgentWorkspaceSpec → Option String
workspace_ready parse_quantity w a none = none
workspace_ready parse_quantity w a (some ws) = reconcile_workspace parse_quantity w a ws

unfoldable pub write_runtime_service : OwnedObjects → Agent → AgentRuntimeSpec → Option String
write_runtime_service w a rt =
    if rt.port ==ℕ 0
    then none
    else w.write_service a.meta.ns (a.meta.name <> "-runtime") (record {
      labels = agent_runtime_labels a;
      selector = agent_runtime_labels a;
      port_name = "http";
      port = rt.port;
    })

-- The status after the writes.
runtime_status : OwnedObjects → Agent → Option AgentWorkspaceSpec → AgentStatus → AgentStatus
runtime_status w a ws st = record st {
  runtime_available_replicas = elim (w.get_deployment a.meta.ns (a.meta.name <> "-runtime")) [
    | found d ↦ d.available_replicas
    | _ ↦ st.runtime_available_replicas
  ];
  workspace_claim = elim ws [ none ↦ "" | some s ↦ workspace_claim_name a ];
}

-- `reconcileRuntime`, on the status. Nothing is written while the git credential is missing.
unfoldable pub reconcile_runtime :
    ParseQuantity
    → String
    → Reader
    → OwnedObjects
    → Agent
    → AgentRuntimeSpec
    → Resolution
    → AgentStatus
    → Result AgentStatus
unfolding wants_git workspace_ready write_runtime_service runtime_status reconcile_workspace
reconcile_runtime parse_quantity registry_url r w a rt res st =
    let ws = a.spec.workspace in
    let git_secret = if wants_git ws then res.git_secret else "" in
    let model_secret : String = elim ws [ none ↦ "" | some s ↦ resolve_model_secret r a ] in
    if wants_git ws && res.git_secret == ""
    then ok st
    else after_write (workspace_ready parse_quantity w a ws) (
        after_write
          (w.write_deployment a.meta.ns (a.meta.name <> "-runtime") (
            set_deployment (default_registry_url registry_url) a rt ws git_secret model_secret
              res.credentials))
          (after_write (write_runtime_service w a rt) (ok (runtime_status w a ws st))))
