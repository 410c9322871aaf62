-- ===== src/Controllers/Laws.antt =====
-- When an object is Ready.
use agent_plane.Base.{
  ℕ, String, ◌<>◌, quote, Bool, true, false, none, some, List, [], ◌∷◌, is_empty, ◌≡◌, ◌⊎◌, ◌↔◌,
  refl, sym, ◌∙◌, ap, arith, Bool-cases, Option-cases, inl, inr,
}
use agent_plane.Api.{
  Condition, Tool, ToolStatus, Credential, CredentialStatus, Secret, condition_ready,
}
use agent_plane.Validation.Kinds.{validate_tool}
use agent_plane.Cluster.{Got-cases, found, Reader, ok, err, StatusConditions, set_condition}
use agent_plane.Resolve.Targets.{Target, get_object}
use agent_plane.Resolve.Pass.Laws.{missing_names, first_failure}
use agent_plane.Reconcile.Pass.Laws.{status_in}
use agent_plane.Controllers.{
  note_target, resolve_ref_targets, apply_ready_from_missing, tool_targets, reconcile_tool, has_key,
  set_secret_status, reconcile_credential,
}

-- What `resolveTargets` answers.
pub resolve_ref_targets-cases :
    (r : Reader) (ns : String) (ts : List Target)
    → ((resolve_ref_targets r ns ts ≡ ok (missing_names r ns ts)) × (first_failure r ns ts ≡ none))
      ⊎ ((e : String) × (resolve_ref_targets r ns ts ≡ err e))
unfolding resolve_ref_targets note_target
resolve_ref_targets-cases r ns [] = inl (refl, refl)
resolve_ref_targets-cases r ns (t ∷ ts) = elim (Got-cases (get_object r ns t.kind t.name)) [
  | inl (o, e) ↦ elim (resolve_ref_targets-cases r ns ts) [
    | inl (h, f) ↦ inl (rw (resolve_ref_targets, e, h) refl, rw (first_failure, e) f)
    | inr (x, h) ↦ inr (x, rw (resolve_ref_targets, e, h) refl)
  ]
  | inr (inl e) ↦ elim (resolve_ref_targets-cases r ns ts) [
    | inl (h, f) ↦ inl (rw (resolve_ref_targets, e, h) refl, rw (first_failure, e) f)
    | inr (x, h) ↦ inr (x, rw (resolve_ref_targets, e, h) refl)
  ]
  | inr (inr (x, e)) ↦ inr (x, rw (resolve_ref_targets, e) refl)
]

module _ (sc : StatusConditions) where
  pub set_self_status :
      (cs : List Condition) (type_of : String) (status : Bool) (reason message : String) (g : ℕ)
      → status_in type_of (set_condition sc cs type_of status reason message g) ≡ some status
  set_self_status cs type_of status reason message g =
      rw
        (
          status_in,
          sc.set_self cs (record {
            type_of = type_of;
            status = status;
            reason = reason;
            message = message;
            observed_generation = g;
          }),
        )
        refl

  -- Ready exactly if nothing is missing.
  pub apply_ready_lem :
      (cs : List Condition) (missing : List String) (g : ℕ) (message : String)
      → status_in condition_ready (apply_ready_from_missing sc cs missing g message)
        ≡ some (is_empty missing)
  unfolding apply_ready_from_missing
  apply_ready_lem cs missing g message = elim (Bool-cases (is_empty missing)) [
    | inl e ↦ rw (apply_ready_from_missing, e) (set_self_status _ condition_ready true _ _ g)
    | inr e ↦ rw (apply_ready_from_missing, e) (set_self_status _ condition_ready false _ _ g)
  ]

  pub some-is_empty : (xs : List String) → (some (is_empty xs) ≡ some true) ↔ (xs ≡ [])
  some-is_empty [] = ((λ h. refl), (λ h. refl))
  some-is_empty (x ∷ xs) = ((λ h. ground (arith, h)), (λ h. ground (arith, h)))

  -- A pass over a Tool that writes a status observes the generation, and marks the Tool Ready exactly
  -- if its spec is valid and the MCPServer and the Agent that it names, where it names them, exist.
  pub reconcile_tool-ready_iff :
      (r : Reader) (t : Tool) (st : ToolStatus)
      → reconcile_tool sc r t ≡ ok st
      → (st.observed_generation ≡ t.meta.generation)
        × ((status_in condition_ready st.conditions ≡ some true)
            ↔ ((validate_tool t.spec ≡ none) × (missing_names r t.meta.ns (tool_targets t) ≡ [])))
  unfolding reconcile_tool
  reconcile_tool-ready_iff r t st h = elim (Option-cases (validate_tool t.spec)) [
    | inr (e, invalid) ↦
        let same : record (t.status) {
          conditions =
              set_condition sc t.status.conditions condition_ready false "InvalidSpec" e
                t.meta.generation;
          observed_generation = t.meta.generation;
        }
            ≡ st =
          ground (arith, h, invalid) in
        let status : status_in condition_ready st.conditions ≡ some false =
          ap (λ s. status_in condition_ready s.conditions) (sym same)
          ∙ set_self_status t.status.conditions condition_ready false _ e t.meta.generation in
        (
          ap (λ s. s.observed_generation) (sym same),
          ((λ x. ground (arith, x, status)), (λ x. ground (arith, x.0, invalid))),
        )
    | inl valid ↦ elim (resolve_ref_targets-cases r t.meta.ns (tool_targets t)) [
      | inr (x, stops) ↦ ground (arith, h, valid, stops)
      | inl (missing, fine) ↦
          let names = missing_names r t.meta.ns (tool_targets t) in
          let same : record (t.status) {
            conditions =
                apply_ready_from_missing sc t.status.conditions names t.meta.generation
                  "tool ready";
            observed_generation = t.meta.generation;
          }
              ≡ st =
            ground (arith, h, valid, missing) in
          let status : status_in condition_ready st.conditions ≡ some (is_empty names) =
            ap (λ s. status_in condition_ready s.conditions) (sym same)
            ∙ apply_ready_lem t.status.conditions names t.meta.generation "tool ready" in
          (
            ap (λ s. s.observed_generation) (sym same),
            (
              (λ x. (valid, (some-is_empty names).0 (sym status ∙ x))),
              (λ x. status ∙ (some-is_empty names).1 x.1),
            ),
          )
    ]
  ]

  secret_status :
      (c : Credential) (b : Bool) (st : CredentialStatus) (message : String)
      → set_secret_status sc c b message ≡ st
      → (status_in condition_ready st.conditions ≡ st.secret_found) × (st.secret_found ≡ some b)
  unfolding set_secret_status
  secret_status c b st message same =
      let says : st.secret_found ≡ some b = ap (λ s. s.secret_found) (sym same) in
      (
        ap (λ s. status_in condition_ready s.conditions) (sym same)
            ∙ set_self_status c.status.conditions condition_ready b _ message c.meta.generation
            ∙ sym says,
        says,
      )

  -- A pass over a Credential that writes a status marks it Ready exactly if its Secret exists and has
  -- the key, and reports the same in secretFound.
  pub reconcile_credential-ready_iff :
      (r : Reader) (c : Credential) (st : CredentialStatus)
      → reconcile_credential sc r c ≡ ok st
      → (status_in condition_ready st.conditions ≡ st.secret_found)
        × ((st.secret_found ≡ some true) ↔ (
            (s : Secret) × (r.get_secret c.meta.ns c.spec.secret_ref.name ≡ found s)
            × (has_key c.spec.secret_ref.key s.entries ≡ true)))
  unfolding reconcile_credential set_secret_status
  reconcile_credential-ready_iff r c st h =
      elim (Got-cases (r.get_secret c.meta.ns c.spec.secret_ref.name)) [
        | inr (inr (x, e)) ↦ ground (arith, h, e)
        | inr (inl e) ↦
            let (ready, says) =
              secret_status c false st ("secret " <> quote c.spec.secret_ref.name <> " not found")
                (ground (arith, h, e)) in
            (ready, ((λ x. ground (arith, x, says)), (λ x. ground (arith, x.1, e))))
        | inl (s, e) ↦ elim (Bool-cases (has_key c.spec.secret_ref.key s.entries)) [
          | inl k ↦
              let (ready, says) =
                secret_status c true st "secret and key present" (ground (arith, h, e, k)) in
              (ready, ((λ x. (s, e, k)), (λ x. says)))
          | inr k ↦
              let (ready, says) =
                secret_status c false st
                  ("key "
                    <> quote c.spec.secret_ref.key
                    <> " not present in secret "
                    <> quote c.spec.secret_ref.name)
                  (ground (arith, h, e, k)) in
              (
                ready,
                (
                  (λ x. ground (arith, x, says)),
                  (λ x.
                      let one : x.0 ≡ s = ground (arith, x.1, e) in
                      ground
                        (arith, ap (λ y. has_key c.spec.secret_ref.key y.entries) one, x.2, k)),
                ),
              )
        ]
      ]
