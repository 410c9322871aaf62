-- ===== src/McpServers/Laws.antt =====
-- What a pass over an MCPServer asks for, and when it reports it Ready.
use agent_plane.Base.{
  ℕ, String, true, false, not, ◌&&◌, Option, none, some, List, ◌==◌, ◌<◌, ◌≤◌, ltb, ◌≡◌, ◌≢◌, ◌⊎◌,
  ◌↔◌, refl, sym, ◌∙◌, ap, arith, eq_iff, All, All-append, Bool-cases, Option-cases, inl, inr,
}
use agent_plane.Api.{
  McpServer, McpServerStatus, condition_ready, reason_reconciled, reason_create_failed,
  reason_progressing,
}
use agent_plane.Cluster.{Got, found, not_found, failed, StatusConditions}
use agent_plane.Reconcile.Pass.Laws.{status_in}
use agent_plane.Controllers.Laws.{set_self_status}
use agent_plane.McpServers.{
  Owned, is_controlled_by, Deletion, ManagedObjects, Call, delete_deployment, delete_service,
  write_deployment, write_service, delete_own, in_order, delete_managed, set_server, server_service,
  available_replicas_of, server_status, failed_status, external_status, external_pass, image_pass,
  reconcile_mcp_server,
}

-- The API server has an object that the MCPServer controls.
abbrev pub IsControlled {ℓ} : {A : Type ℓ} → Got (Owned A) → McpServer → Type ℓ
IsControlled {A = A} got m = (o : Owned A) × (got ≡ found o) × (o.controller ≡ some m.meta.uid)

is_controlled_by-eq-true :
    (controller : Option String) (uid : String)
    → is_controlled_by controller uid ≡ true
    → controller ≡ some uid
unfolding is_controlled_by
is_controlled_by-eq-true none uid h = cc
is_controlled_by-eq-true (some c) uid h = ap some ((eq_iff c uid).0 h)

module _ (w : ManagedObjects) (m : McpServer) where
  -- A call is for the MCPServer's own namespace and name; what is deleted is controlled by it, and
  -- only while it names an external endpoint; and what is written is its own workload, and only while
  -- it does not.
  abbrev pub IsOwn : Call → Type 0
  IsOwn (delete_deployment ns name) =
      (ns ≡ m.meta.ns)
      × (name ≡ m.meta.name)
      × (m.spec.external_endpoint ≢ "")
      × IsControlled (w.get_deployment ns name) m
  IsOwn (delete_service ns name) =
      (ns ≡ m.meta.ns)
      × (name ≡ m.meta.name)
      × (m.spec.external_endpoint ≢ "")
      × IsControlled (w.get_service ns name) m
  IsOwn (write_deployment ns name set) =
      (ns ≡ m.meta.ns)
      × (name ≡ m.meta.name)
      × (m.spec.external_endpoint ≡ "")
      × (set ≡ set_server m)
  IsOwn (write_service ns name service) =
      (ns ≡ m.meta.ns)
      × (name ≡ m.meta.name)
      × (m.spec.external_endpoint ≡ "")
      × (service ≡ server_service m)

  delete_own-IsOwn {ℓ} :
      {A : Type ℓ} (got : Got (Owned A)) (call : Call) (answer : Deletion)
      → (IsControlled got m → IsOwn call)
      → All IsOwn (delete_own got m.meta.uid call answer).0
  unfolding delete_own
  delete_own-IsOwn (found o) call answer f =
      elim (Bool-cases (is_controlled_by o.controller m.meta.uid)) [
        | inl own ↦ rw own (f (o, refl, is_controlled_by-eq-true o.controller m.meta.uid own), tt)
        | inr other ↦ rw other tt
      ]
  delete_own-IsOwn not_found call answer f = tt
  delete_own-IsOwn (failed e) call answer f = tt

  in_order-IsOwn :
      (a b : List Call × Option String) → All IsOwn a.0 → All IsOwn b.0 → All IsOwn (in_order a b).0
  unfolding in_order
  in_order-IsOwn (calls, some e) next h k = h
  in_order-IsOwn (calls, none) (more, error) h k = All-append IsOwn calls more h k

  delete_managed-IsOwn : m.spec.external_endpoint ≢ "" → All IsOwn (delete_managed w m).0
  unfolding delete_managed
  delete_managed-IsOwn external =
      let ns = m.meta.ns in
      let name = m.meta.name in
      let first =
        delete_own-IsOwn (w.get_deployment ns name) (delete_deployment ns name)
          (w.delete_deployment ns name) (λ c. (refl, refl, external, c)) in
      let second =
        delete_own-IsOwn (w.get_service ns name) (delete_service ns name) (w.delete_service ns name)
          (λ c. (refl, refl, external, c)) in
      in_order-IsOwn _ _ first second

module _ (sc : StatusConditions) (w : ManagedObjects) (m : McpServer) where
  external_pass-calls : (external_pass sc w m).calls ≡ (delete_managed w m).0
  unfolding external_pass
  external_pass-calls = elim (Option-cases (delete_managed w m).1) [
    | inl e ↦ rw (external_pass, e) refl
    | inr (x, e) ↦ rw (external_pass, e) refl
  ]

  image_pass-IsOwn : m.spec.external_endpoint ≡ "" → All (IsOwn w m) (image_pass sc w m).calls
  unfolding image_pass
  image_pass-IsOwn image =
      let ns = m.meta.ns in
      let name = m.meta.name in
      elim (Option-cases (w.write_deployment ns name (set_server m))) [
        | inr (x, e) ↦ rw (image_pass, e) ((refl, refl, image, refl), tt)
        | inl e ↦ elim (Option-cases (w.write_service ns name (server_service m))) [
          | inr (x, f) ↦
              rw (image_pass, e, f) ((refl, refl, image, refl), ((refl, refl, image, refl), tt))
          | inl f ↦
              rw (image_pass, e, f) ((refl, refl, image, refl), ((refl, refl, image, refl), tt))
        ]
      ]

  -- Whatever the API server answers, a pass over an MCPServer touches only what is its own: it deletes
  -- only a Deployment or a Service of its name that it controls, and only while it names an external
  -- endpoint; and it writes only its own workload, and only while it names none.
  pub reconcile_mcp_server-IsOwn : All (IsOwn w m) (reconcile_mcp_server sc w m).calls
  unfolding reconcile_mcp_server
  reconcile_mcp_server-IsOwn = elim (Bool-cases (m.spec.external_endpoint == "")) [
    | inl e ↦ rw e (image_pass-IsOwn ((eq_iff _ _).0 e))
    | inr e ↦
        rw (e, external_pass-calls)
          (delete_managed-IsOwn w m (λ p. ground (arith, eq_iff m.spec.external_endpoint "", e, p)))
  ]

  external_status_ready : status_in condition_ready (external_status sc m).conditions ≡ some true
  unfolding external_status
  external_status_ready =
      set_self_status sc m.status.conditions condition_ready true reason_reconciled
        "external endpoint" m.meta.generation

  failed_status_ready :
      (e : String) → status_in condition_ready (failed_status sc m e).conditions ≡ some false
  unfolding failed_status
  failed_status_ready e =
      set_self_status sc m.status.conditions condition_ready false reason_create_failed e
        m.meta.generation

  server_status_ready :
      (n : ℕ)
      → (status_in condition_ready (server_status sc m n).conditions
          ≡ some (ltb 0 m.spec.replicas && not (ltb n m.spec.replicas)))
        × ((server_status sc m n).available_replicas ≡ n)
  unfolding server_status
  server_status_ready n = elim (Bool-cases (ltb 0 m.spec.replicas && not (ltb n m.spec.replicas))) [
    | inl e ↦
        rw (server_status, e)
          (
            set_self_status sc m.status.conditions condition_ready true reason_reconciled
                "deployment available" m.meta.generation,
            refl,
          )
    | inr e ↦
        rw (server_status, e)
          (
            set_self_status sc m.status.conditions condition_ready false reason_progressing
                "waiting for deployment to become available" m.meta.generation,
            refl,
          )
  ]

  -- A pass that reports a failure returns it.
  unready :
      (st : McpServerStatus) (e : String)
      → failed_status sc m e ≡ st
      → (reconcile_mcp_server sc w m).error ≡ some e
      → (status_in condition_ready st.conditions ≡ some true) ↔ (
          ((reconcile_mcp_server sc w m).error ≡ none)
          × ((m.spec.external_endpoint ≢ "")
              ⊎ ((0 < m.spec.replicas) × (m.spec.replicas ≤ st.available_replicas))))
  unready st e same error =
      let status : status_in condition_ready st.conditions ≡ some false =
        ap (λ s. status_in condition_ready s.conditions) (sym same) ∙ failed_status_ready e in
      ((λ x. ground (arith, x, status)), (λ x. ground (arith, x.0, error)))

  -- The status that a pass writes marks the MCPServer Ready exactly if the pass returns no error and
  -- either the endpoint is external or replicas are asked for and as many are available.
  pub reconcile_mcp_server-ready_iff :
      (st : McpServerStatus)
      → (reconcile_mcp_server sc w m).written ≡ some st
      → (status_in condition_ready st.conditions ≡ some true) ↔ (
          ((reconcile_mcp_server sc w m).error ≡ none)
          × ((m.spec.external_endpoint ≢ "")
              ⊎ ((0 < m.spec.replicas) × (m.spec.replicas ≤ st.available_replicas))))
  unfolding reconcile_mcp_server external_pass image_pass
  reconcile_mcp_server-ready_iff st h = elim (Bool-cases (m.spec.external_endpoint == "")) [
    | inl image ↦
        let ns = m.meta.ns in
        let name = m.meta.name in
        elim (Option-cases (w.write_deployment ns name (set_server m))) [
          | inr (x, refused) ↦
              let same : failed_status sc m x ≡ st = ground (arith, h, image, refused) in
              unready st x same (ground (arith, image, refused))
          | inl first ↦ elim (Option-cases (w.write_service ns name (server_service m))) [
            | inr (x, refused) ↦
                let same : failed_status sc m x ≡ st = ground (arith, h, image, first, refused) in
                unready st x same (ground (arith, image, first, refused))
            | inl second ↦
                let n = available_replicas_of w m in
                let same : server_status sc m n ≡ st = ground (arith, h, image, first, second) in
                let fine : (reconcile_mcp_server sc w m).error ≡ none =
                  ground (arith, image, first, second) in
                let status : status_in condition_ready st.conditions
                    ≡ some (ltb 0 m.spec.replicas && not (ltb n m.spec.replicas)) =
                  ap (λ s. status_in condition_ready s.conditions) (sym same)
                  ∙ (server_status_ready n).0 in
                let count : st.available_replicas ≡ n =
                  ap (λ s. s.available_replicas) (sym same) ∙ (server_status_ready n).1 in
                (
                  λ x. (
                    fine,
                    inr (ground (arith, x, status, count), ground (arith, x, status, count)),
                  ),
                  λ x. elim (x.1) [
                    | inl external ↦ absurd (external ((eq_iff _ _).0 image))
                    | inr (asked, there) ↦ ground (arith, status, count, asked, there)
                  ],
                )
          ]
        ]
    | inr e ↦
        let external : m.spec.external_endpoint ≢ "" =
          λ p. ground (arith, eq_iff m.spec.external_endpoint "", e, p) in
        elim (Option-cases (delete_managed w m).1) [
          | inr (x, stop) ↦ ground (arith, h, e, stop)
          | inl fine ↦
              let same : external_status sc m ≡ st = ground (arith, h, e, fine) in
              let ready : status_in condition_ready st.conditions ≡ some true =
                ap (λ s. status_in condition_ready s.conditions) (sym same)
                ∙ external_status_ready in
              ((λ x. (ground (arith, e, fine), inl external)), (λ x. ready))
        ]
  ]
