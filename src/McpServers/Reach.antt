-- ===== src/McpServers/Reach.antt =====
-- That the endpoint of an MCPServer leads to its pods.
use agent_plane.Base.{
  ℕ, String, ◌<>◌, true, none, some, List, [], ◌∷◌, ◌==◌, ◌&&◌, not, ltb, ◌≡◌, refl, sym, ◌∙◌, ap,
  arith, eq_iff, Bool-cases, Option-cases, inl, inr, show_nat, map,
}
use agent_plane.Api.{McpServer, McpServerStatus}
use agent_plane.Cluster.{StatusConditions}
use agent_plane.Runtime.Pod.{Deployment}
use agent_plane.Reconcile.Workloads.{Service}
use agent_plane.McpServers.{
  ManagedObjects, write_deployment, write_service, set_server, server_service,
  available_replicas_of, server_status, image_pass, reconcile_mcp_server,
}

-- The ports of a Deployment's containers.
abbrev pub container_ports : Deployment → List (List (String × ℕ))
container_ports d = map (λ c. c.ports) d.containers

-- A URL that names a Service, which selects the pods of a Deployment, one of whose containers
-- listens at its port.
pub record Reaches (url ns name : String) (s : Service) (d : Deployment) : Type 0 where
  pub leads : url ≡ "http://" <> name <> "." <> ns <> ".svc:" <> show_nat s.port
  pub selects : s.selector ≡ d.template_labels
  pub manages : d.selector ≡ d.template_labels
  pub listens : container_ports d ≡ (((s.port_name, s.port) ∷ []) ∷ [])

module _ (sc : StatusConditions) (w : ManagedObjects) (m : McpServer) where
  server_status_endpoint :
      (n : ℕ)
      → (server_status sc m n).endpoint
        ≡ "http://"
          <> m.meta.name
          <> "."
          <> m.meta.ns
          <> ".svc:"
          <> show_nat (server_service m).port
  unfolding server_status server_service
  server_status_endpoint n =
      elim (Bool-cases (ltb 0 m.spec.replicas && not (ltb n m.spec.replicas))) [
        | inl e ↦ rw (server_status, e) refl
        | inr e ↦ rw (server_status, e) refl
      ]

  -- Where a pass over an MCPServer with no external endpoint returns no error, it wrote one Deployment
  -- and then one Service; and the endpoint that it publishes reaches, through that Service, the pods of
  -- that Deployment, whatever the Deployment was before.
  pub reconcile_mcp_server-Reaches :
      (st : McpServerStatus)
      → m.spec.external_endpoint ≡ ""
      → (reconcile_mcp_server sc w m).written ≡ some st
      → (reconcile_mcp_server sc w m).error ≡ none
      → (ns name : String) × (set : Deployment → Deployment) × (s : Service)
        × ((reconcile_mcp_server sc w m).calls
            ≡ write_deployment ns name set ∷ write_service ns name s ∷ [])
        × ((d : Deployment) → Reaches st.endpoint ns name s (set d))
  unfolding reconcile_mcp_server image_pass set_server server_service
  reconcile_mcp_server-Reaches st image h fine =
      let ns = m.meta.ns in
      let name = m.meta.name in
      let here : (m.spec.external_endpoint == "") ≡ true = (eq_iff _ _).1 image in
      elim (Option-cases (w.write_deployment ns name (set_server m))) [
        | inr (x, e) ↦ ground (arith, h, fine, here, e)
        | inl e ↦ elim (Option-cases (w.write_service ns name (server_service m))) [
          | inr (x, f) ↦ ground (arith, h, fine, here, e, f)
          | inl f ↦
              let n = available_replicas_of w m in
              let same : server_status sc m n ≡ st = ground (arith, h, here, e, f) in
              (
                ns,
                name,
                set_server m,
                server_service m,
                rw (here, image_pass, e, f) refl,
                λ d. record {
                  leads = ap (λ x. x.endpoint) (sym same) ∙ server_status_endpoint n;
                  selects = refl;
                  manages = refl;
                  listens = refl;
                },
              )
        ]
      ]
