-- ===== src/Triggers/Address.antt =====
-- The Service that an adapter's address leads to.
use text.Mathlib.TextLemmas.{append_assoc}
use agent_plane.Base.{
  String, ◌<>◌, some, ◌==ℕ◌, ◌≡◌, refl, sym, ◌∙◌, ap, arith, Bool-cases, Option-cases, inl, inr,
  show_nat,
}
use agent_plane.Api.{Trigger, Agent, AgentRuntimeSpec}
use agent_plane.Cluster.{found, Reader, ok}
use agent_plane.Runtime.{agent_runtime_labels}
use agent_plane.Reconcile.Workloads.{OwnedObjects, Service, write_runtime_service}
use agent_plane.Triggers.{runtime_endpoint, agent_endpoint}

-- The address that an adapter is given is that of the Service which the Agent's own pass writes: the
-- same name, namespace and port, where the Agent has a runtime with a port.
pub agent_endpoint-service :
    (r : Reader) (w : OwnedObjects) (t : Trigger) (a : Agent) (endpoint : String)
    → r.get_agent t.meta.ns t.spec.agent_ref.name ≡ found a
    → agent_endpoint r t ≡ ok endpoint
    → (rt : AgentRuntimeSpec) × (name : String) × (s : Service) × (a.spec.runtime ≡ some rt)
      × (write_runtime_service w a rt ≡ w.write_service a.meta.ns name s)
      × (endpoint ≡ "http://" <> name <> "." <> a.meta.ns <> ".svc:" <> show_nat s.port)
unfolding agent_endpoint runtime_endpoint write_runtime_service
agent_endpoint-service r w t a endpoint known h = elim (Option-cases a.spec.runtime) [
  | inl absent ↦ ground (arith, h, known, absent)
  | inr (rt, present) ↦ elim (Bool-cases (rt.port ==ℕ 0)) [
    | inl closed ↦ ground (arith, h, known, present, closed)
    | inr open_port ↦
        let rest = a.meta.ns <> ".svc:" <> show_nat rt.port in
        let plain : "http://" <> a.meta.name <> "-runtime." <> rest ≡ endpoint =
          ground (arith, h, known, present, open_port) in
        (
          rt,
          a.meta.name <> "-runtime",
          record {
            labels = agent_runtime_labels a;
            selector = agent_runtime_labels a;
            port_name = "http";
            port = rt.port;
          },
          present,
          rw open_port refl,
          sym plain
              ∙ ap (λ x. "http://" <> a.meta.name <> x) (append_assoc "-runtime" "." rest)
              ∙ ap (λ x. "http://" <> x) (sym (append_assoc a.meta.name "-runtime" ("." <> rest))),
        )
  ]
]
