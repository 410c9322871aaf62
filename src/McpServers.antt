-- ===== src/McpServers.antt =====
-- internal/controller/mcpserver_controller.go: the workload of an MCPServer, and the pass that writes
-- or deletes it. A pass is what it asks of the API server, with the status that it writes and the
-- error that it returns.
pub mod Laws
pub mod Reach
mod Examples
use agent_plane.Base.{
  ℕ, String, ◌<>◌, Bool, true, false, not, ◌&&◌, Option, none, some, List, [], ◌∷◌, ◌++◌, ◌==◌,
  ◌==ℕ◌, ltb, if◌then◌else◌, show_nat,
}
use agent_plane.Api.{
  McpServer, McpServerStatus, condition_ready, reason_reconciled, reason_create_failed,
  reason_progressing,
}
use agent_plane.Cluster.{Got, found, not_found, failed, StatusConditions, set_condition}
use agent_plane.Runtime.Pod.{Labels, Deployment, owned_labels}
use agent_plane.Reconcile.Workloads.{Service}

-- An object with the identity of the object that controls it, where one does.
pub record Owned {ℓ} (A : Type ℓ) : Type ℓ where
  pub object : A
  pub controller : Option String

-- `metav1.IsControlledBy`.
pub is_controlled_by : Option String → String → Bool
is_controlled_by none uid = false
is_controlled_by (some controller) uid = controller == uid

-- How the API server answers a deletion.
pub data Deletion : Type 0 where
  deleted gone : Deletion
  refused : String → Deletion

-- How the API server answers for the workload; a write answers with its error, where there is one.
pub record ManagedObjects : Type 0 where
  pub get_deployment : String → String → Got (Owned Deployment)
  pub get_service : String → String → Got (Owned Service)
  pub delete_deployment : String → String → Deletion
  pub delete_service : String → String → Deletion
  pub write_deployment : String → String → (Deployment → Deployment) → Option String
  pub write_service : String → String → Service → Option String

-- What a pass asks for, in order.
pub data Call : Type 0 where
  delete_deployment delete_service : (ns name : String) → Call
  write_deployment : (ns name : String) (set : Deployment → Deployment) → Call
  write_service : (ns name : String) (service : Service) → Call

abbrev pub mcp_labels : McpServer → Labels
mcp_labels m = owned_labels "mcpserver" m.meta.name

abbrev pub service_port : McpServer → ℕ
service_port m = if m.spec.port ==ℕ 0 then 8080 else m.spec.port

-- An object that is gone already is no error.
pub deletion_error : Deletion → Option String
deletion_error deleted = none
deletion_error gone = none
deletion_error (refused e) = some e

-- One half of `deleteManaged`. An object that cannot be read or is another's is left alone.
pub delete_own {ℓ} :
    {A : Type ℓ} → Got (Owned A) → String → Call → Deletion → List Call × Option String
unfolding is_controlled_by deletion_error
delete_own (found o) uid call answer =
    if is_controlled_by o.controller uid then (call ∷ [], deletion_error answer) else ([], none)
delete_own not_found uid call answer = ([], none)
delete_own (failed e) uid call answer = ([], none)

-- The second half is left out where the first fails.
pub in_order : List Call × Option String → List Call × Option String → List Call × Option String
in_order (calls, some e) next = (calls, some e)
in_order (calls, none) (more, error) = (calls ++ more, error)

-- `deleteManaged`: what it asks for, and its error, where there is one.
unfoldable pub delete_managed : ManagedObjects → McpServer → List Call × Option String
unfolding delete_own in_order
delete_managed w m =
    let ns = m.meta.ns in
    let name = m.meta.name in
    in_order
      (delete_own (w.get_deployment ns name) m.meta.uid (delete_deployment ns name)
        (w.delete_deployment ns name))
      (delete_own (w.get_service ns name) m.meta.uid (delete_service ns name)
        (w.delete_service ns name))

-- The function that `reconcileDeployment` hands to `CreateOrUpdate`, up to the owner reference.
unfoldable pub set_server : McpServer → Deployment → Deployment
set_server m dep =
    let labels = mcp_labels m in
    record dep {
      labels = labels;
      replicas = m.spec.replicas;
      selector = labels;
      template_labels = labels;
      containers =
          record {
            name = "mcp";
            image = m.spec.image;
            command = [];
            env = m.spec.env;
            ports = ("mcp", service_port m) ∷ [];
            resources = m.spec.resources;
            readiness_probe = none;
            volume_mounts = [];
            security_context = none;
          }
          ∷ [];
    }

-- What `reconcileService` sets.
pub server_service : McpServer → Service
server_service m = record {
  labels = mcp_labels m;
  selector = mcp_labels m;
  port_name = "mcp";
  port = service_port m;
}

-- What comes of a pass.
pub record Outcome : Type 0 where
  pub calls : List Call
  pub written : Option McpServerStatus
  pub error : Option String

-- The number that the Deployment has, or the last known.
pub available_replicas_of : ManagedObjects → McpServer → ℕ
available_replicas_of w m = elim (w.get_deployment m.meta.ns m.meta.name) [
  | found d ↦ d.object.available_replicas
  | _ ↦ m.status.available_replicas
]

module _ (sc : StatusConditions) where
  abbrev pub mark_server : McpServer → McpServerStatus → Bool → String → String → McpServerStatus
  mark_server m st status reason message = record st {
    conditions =
        set_condition sc st.conditions condition_ready status reason message m.meta.generation;
  }

  pub external_status : McpServer → McpServerStatus
  external_status m =
      mark_server m
        (record (m.status) {
          observed_generation = m.meta.generation;
          endpoint = m.spec.external_endpoint;
          available_replicas = 0;
        })
        true reason_reconciled "external endpoint"

  -- The status of a server whose workload could not be written.
  pub failed_status : McpServer → String → McpServerStatus
  failed_status m e = mark_server m m.status false reason_create_failed e

  pub server_status : McpServer → ℕ → McpServerStatus
  server_status m available =
      let st : McpServerStatus = record (m.status) {
        available_replicas = available;
        observed_generation = m.meta.generation;
        endpoint =
            "http://" <> m.meta.name <> "." <> m.meta.ns <> ".svc:" <> show_nat (service_port m);
      } in
      if ltb 0 m.spec.replicas && not (ltb available m.spec.replicas)
      then mark_server m st true reason_reconciled "deployment available"
      else mark_server m st false reason_progressing "waiting for deployment to become available"

  external_pass : ManagedObjects → McpServer → Outcome
  unfolding external_status
  external_pass w m =
      let (calls, stop) = delete_managed w m in
      elim stop [
        | some e ↦ record { calls = calls; written = none; error = some e }
        | none ↦ record { calls = calls; written = some (external_status m); error = none }
      ]

  image_pass : ManagedObjects → McpServer → Outcome
  unfolding failed_status available_replicas_of server_status server_service
  image_pass w m =
      let ns = m.meta.ns in
      let name = m.meta.name in
      let first = write_deployment ns name (set_server m) in
      let second = write_service ns name (server_service m) in
      elim (w.write_deployment ns name (set_server m)) [
        | some e ↦ record { calls = first ∷ []; written = some (failed_status m e); error = some e }
        | none ↦ elim (w.write_service ns name (server_service m)) [
          | some e ↦ record {
            calls = first ∷ second ∷ [];
            written = some (failed_status m e);
            error = some e;
          }
          | none ↦ record {
            calls = first ∷ second ∷ [];
            written = some (server_status m (available_replicas_of w m));
            error = none;
          }
        ]
      ]

  -- `Reconcile` of an MCPServer that was read.
  unfoldable pub reconcile_mcp_server : ManagedObjects → McpServer → Outcome
  unfolding external_pass image_pass
  reconcile_mcp_server w m =
      if m.spec.external_endpoint == "" then image_pass w m else external_pass w m
