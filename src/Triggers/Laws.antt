-- ===== src/Triggers/Laws.antt =====
-- What a pass over a Trigger reports.
use agent_plane.Base.{
  String, true, false, Option, none, some, ◌<◌, ◌≡◌, ◌⊎◌, ◌↔◌, refl, ap, ◌∙◌, arith, Option-cases,
  inl, inr,
}
use agent_plane.Api.{
  Trigger, TriggerStatus, condition_ready, reason_invalid_spec, reason_reference_missing,
}
use agent_plane.Validation.Kinds.{validate_trigger}
use agent_plane.Cluster.{Reader, Result-cases, found, ok, err, StatusConditions}
use agent_plane.Reconcile.Pass.Laws.{status_in}
use agent_plane.Reconcile.Workloads.{OwnedObjects}
use agent_plane.Triggers.{
  trigger_phase_pending, trigger_phase_running, trigger_phase_degraded, agent_endpoint,
  secret_name_of, reconcile_adapter, live_replicas, with_adapter, credential_missing, trigger_pass,
  reconcile_trigger,
}
use agent_plane.Triggers.Status.{degraded_status, running_status}

-- What a Trigger needs: a valid spec, an Agent with an address, and the Credential that it names,
-- where it names one.
pub record IsServable (r : Reader) (t : Trigger) (endpoint secret_name : String) : Type 0 where
  pub valid : validate_trigger t.spec ≡ none
  pub reachable : agent_endpoint r t ≡ ok endpoint
  pub authorized : secret_name_of r t t.spec.credential_ref ≡ ok (some secret_name)

-- The adapter is written, and the status says where it delivers and how many replicas it has.
pub record IsServed (r : Reader) (w : OwnedObjects) (t : Trigger) (st : TriggerStatus)
    : Type 0 where
  pub endpoint : String
  pub secret_name : String
  pub servable : IsServable r t endpoint secret_name
  pub written : reconcile_adapter w t endpoint secret_name ≡ none
  pub address : st.agent_endpoint ≡ endpoint
  pub counted : st.available_replicas ≡ live_replicas w t

abbrev started : Trigger → TriggerStatus
started t = record (t.status) { observed_generation = t.meta.generation }

abbrev addressed : Trigger → String → TriggerStatus
addressed t endpoint = record (started t) { agent_endpoint = endpoint }

module _ (sc : StatusConditions) (r : Reader) (w : OwnedObjects) (t : Trigger) where
  -- The status that a pass over a Trigger hands to the update observes the generation. Either it marks
  -- the Trigger Degraded and not Ready, and then it is not so that the spec is valid, the Agent has an
  -- address and the Credential, where one is named, is there; or all this is so, the adapter is
  -- written, and the Trigger is Running and Ready if a replica of the adapter is available, and
  -- Pending and not Ready if none is.
  pub trigger_pass-verdict :
      (st : TriggerStatus)
      → trigger_pass sc r w t ≡ ok st
      → (st.observed_generation ≡ t.meta.generation)
        × (((st.phase ≡ trigger_phase_degraded)
              × (status_in condition_ready st.conditions ≡ some false)
              × ((endpoint secret_name : String) → ¬ (IsServable r t endpoint secret_name)))
            ⊎ (IsServed r w t st
                × (((st.phase ≡ trigger_phase_running)
                      × (status_in condition_ready st.conditions ≡ some true)
                      × (0 < st.available_replicas))
                    ⊎ ((st.phase ≡ trigger_phase_pending)
                        × (status_in condition_ready st.conditions ≡ some false)
                        × (st.available_replicas ≡ 0)))))
  unfolding trigger_pass with_adapter
  trigger_pass-verdict st h = elim (Option-cases (validate_trigger t.spec)) [
    | inr (e, invalid) ↦
        let (g, phase, ready) =
          degraded_status sc t (started t) reason_invalid_spec e st (ground (arith, h, invalid)) in
        (g, inl (phase, ready, λ x y s. ground (arith, s.valid, invalid)))
    | inl valid ↦ elim (Result-cases (agent_endpoint r t)) [
      | inr (e, unreachable) ↦
          let (g, phase, ready) =
            degraded_status sc t (started t) reason_reference_missing e st
              (ground (arith, h, valid, unreachable)) in
          (g, inl (phase, ready, λ x y s. ground (arith, s.reachable, unreachable)))
      | inl (endpoint, reachable) ↦ elim (Result-cases (secret_name_of r t t.spec.credential_ref)) [
        | inr (e, stops) ↦ ground (arith, h, valid, reachable, stops)
        | inl (name, known) ↦ elim (Option-cases name) [
          | inl gone ↦
              let (g, phase, ready) =
                degraded_status sc t (addressed t endpoint) reason_reference_missing
                  (credential_missing t.spec.credential_ref) st
                  (ground (arith, h, valid, reachable, known, gone)) in
              (g, inl (phase, ready, λ x y s. ground (arith, s.authorized, known, gone)))
          | inr (secret_name, there) ↦
              elim (Option-cases (reconcile_adapter w t endpoint secret_name)) [
                | inr (e, refused) ↦ ground (arith, h, valid, reachable, known, there, refused)
                | inl written ↦
                    let (g, address, counted, verdict) =
                      running_status sc t
                        (record (addressed t endpoint) { available_replicas = live_replicas w t })
                        st (ground (arith, h, valid, reachable, known, there, written)) in
                    let authorized : secret_name_of r t t.spec.credential_ref
                        ≡ ok (some secret_name) =
                      ground (arith, known, there) in
                    (
                      g,
                      inr (
                        record {
                          endpoint = endpoint;
                          secret_name = secret_name;
                          servable = record {
                            valid = valid;
                            reachable = reachable;
                            authorized = authorized;
                          };
                          written = written;
                          address = address;
                          counted = counted;
                        },
                        verdict,
                      ),
                    )
              ]
        ]
      ]
    ]
  ]

  -- When the pass ends before the update.
  trigger_pass-err_iff :
      (e : String)
      → (trigger_pass sc r w t ≡ err e) ↔ (
          (endpoint : String) × (validate_trigger t.spec ≡ none)
          × (agent_endpoint r t ≡ ok endpoint)
          × ((secret_name_of r t t.spec.credential_ref ≡ err e)
              ⊎ ((name : String) × (secret_name_of r t t.spec.credential_ref ≡ ok (some name))
                  × (reconcile_adapter w t endpoint name ≡ some e))))
  unfolding trigger_pass with_adapter
  trigger_pass-err_iff e = (
    λ h. elim (Option-cases (validate_trigger t.spec)) [
      | inr (x, invalid) ↦ ground (arith, h, invalid)
      | inl valid ↦ elim (Result-cases (agent_endpoint r t)) [
        | inr (x, unreachable) ↦ ground (arith, h, valid, unreachable)
        | inl (endpoint, reachable) ↦
            elim (Result-cases (secret_name_of r t t.spec.credential_ref)) [
              | inr (x, stops) ↦
                  (endpoint, valid, reachable, inl (ground (arith, h, valid, reachable, stops)))
              | inl (name, known) ↦ elim (Option-cases name) [
                | inl gone ↦ ground (arith, h, valid, reachable, known, gone)
                | inr (secret_name, there) ↦ (
                  endpoint,
                  valid,
                  reachable,
                  inr (
                    secret_name,
                    ground (arith, known, there),
                    elim (Option-cases (reconcile_adapter w t endpoint secret_name)) [
                      | inl written ↦ ground (arith, h, valid, reachable, known, there, written)
                      | inr (x, refused) ↦
                          ground (arith, h, valid, reachable, known, there, refused)
                    ],
                  ),
                )
              ]
            ]
      ]
    ],
    λ h. elim (h.3) [
      | inl stops ↦ ground (arith, h.1, h.2, stops)
      | inr (name, known, refused) ↦ ground (arith, h.1, h.2, known, refused)
    ],
  )

  -- `Reconcile` of a Trigger that was read returns an error exactly if the spec is valid, the Agent has
  -- an address, and the Credential cannot be read or the adapter cannot be written, with that error; or
  -- if the pass comes to a status whose update fails, with the error of the update. So an error in
  -- reading the Agent is returned in neither way: the status that it leads to is a Degraded one.
  pub reconcile_trigger-err_iff :
      (update : TriggerStatus → Option String) (e : String)
      → (reconcile_trigger sc r w update (found t) ≡ some e) ↔ (
          ((endpoint : String) × (validate_trigger t.spec ≡ none)
            × (agent_endpoint r t ≡ ok endpoint)
            × ((secret_name_of r t t.spec.credential_ref ≡ err e)
                ⊎ ((name : String) × (secret_name_of r t t.spec.credential_ref ≡ ok (some name))
                    × (reconcile_adapter w t endpoint name ≡ some e))))
          ⊎ ((st : TriggerStatus) × (trigger_pass sc r w t ≡ ok st) × (update st ≡ some e)))
  unfolding reconcile_trigger
  reconcile_trigger-err_iff update e = (
    λ h. elim (Result-cases (trigger_pass sc r w t)) [
      | inl (st, ends) ↦ inr (st, ends, ground (arith, h, ends))
      | inr (x, stops) ↦
          inl ((trigger_pass-err_iff e).0 (stops ∙ ap err (ground (arith, h, stops))))
    ],
    λ h. elim h [
      | inl before ↦ rw (reconcile_trigger, (trigger_pass-err_iff e).1 before) refl
      | inr (st, ends, fails) ↦ rw (reconcile_trigger, ends) fails
    ],
  )
