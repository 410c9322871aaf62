-- ===== src/Reconcile/Pass/Held.antt =====
-- Conditions that are set again as they are, and the parts of a pass that find their own results.
use agent_plane.Base.{String, false, List, is_empty, ◌==◌, ◌≡◌, refl, ◌∙◌, ap, Bool-cases, inl, inr}
use agent_plane.Api.{Agent, AgentStatus, Condition}
use agent_plane.Cluster.{StatusConditions}
use agent_plane.Resolve.Pass.{Resolution}
use agent_plane.Reconcile.Pass.{
  Env, all_violations, invalid_status, unresolved_status, forbidden_status, ready_status, judge,
}

module _ (sc : StatusConditions) (cs : List Condition) where
  set_twice :
      (c d : Condition)
      → (d.type_of == c.type_of) ≡ false
      → (let ds = sc.set_status_condition (sc.set_status_condition cs c) d in
          sc.set_status_condition (sc.set_status_condition ds c) d ≡ ds)
  set_twice c d h =
      let cs' = sc.set_status_condition cs c in
      let ds = sc.set_status_condition cs' d in
      ap (λ xs. sc.set_status_condition xs d)
        (sc.set_same ds c (sc.set_other cs' d c.type_of h ∙ sc.set_self cs c))
      ∙ sc.set_same ds d (sc.set_self cs' d)

  set_three_twice :
      (b c d : Condition)
      → (c.type_of == b.type_of) ≡ false
      → (d.type_of == b.type_of) ≡ false
      → (d.type_of == c.type_of) ≡ false
      → (let ds =
            sc.set_status_condition (sc.set_status_condition (sc.set_status_condition cs b) c) d in
          sc.set_status_condition (sc.set_status_condition (sc.set_status_condition ds b) c) d ≡ ds)
  set_three_twice b c d h k l =
      let bs = sc.set_status_condition cs b in
      let cs' = sc.set_status_condition bs c in
      let ds = sc.set_status_condition cs' d in
      ap (λ xs. sc.set_status_condition (sc.set_status_condition xs c) d)
        (sc.set_same ds b
          (sc.set_other cs' d b.type_of k ∙ sc.set_other bs c b.type_of h ∙ sc.set_self cs b))
      ∙ ap (λ xs. sc.set_status_condition xs d)
          (sc.set_same ds c (sc.set_other cs' d c.type_of l ∙ sc.set_self bs c))
      ∙ sc.set_same ds d (sc.set_self cs' d)

-- What the verdict leaves as it is.
abbrev pub Keeps : AgentStatus → AgentStatus → Type 0
Keeps x y =
    (y.observed_generation ≡ x.observed_generation)
    × (y.resolved_refs ≡ x.resolved_refs)
    × (y.runtime_available_replicas ≡ x.runtime_available_replicas)
    × (y.workspace_claim ≡ x.workspace_claim)
    × (y.peer_endpoint ≡ x.peer_endpoint)

module _ (env : Env) (a : Agent) where
  pub invalid_status_twice :
      (e : String) (x : AgentStatus)
      → invalid_status env a e (invalid_status env a e x) ≡ invalid_status env a e x
  unfolding invalid_status
  invalid_status_twice e x =
      ap (λ cs. record x { conditions = cs; phase = "Degraded"; resolved_config_hash = "" })
        (env.conditions.set_same _ _ (env.conditions.set_self _ _))

  unresolved_status_twice :
      (res : Resolution) (x : AgentStatus)
      → unresolved_status env a res (unresolved_status env a res x) ≡ unresolved_status env a res x
  unfolding unresolved_status
  unresolved_status_twice res x =
      ap (λ cs. record x { conditions = cs; phase = "Degraded"; resolved_config_hash = "" })
        (set_twice env.conditions x.conditions _ _ refl)

  forbidden_status_twice :
      (res : Resolution) (x : AgentStatus)
      → forbidden_status env a res (forbidden_status env a res x) ≡ forbidden_status env a res x
  unfolding forbidden_status
  forbidden_status_twice res x =
      ap (λ cs. record x { conditions = cs; phase = "Degraded"; resolved_config_hash = "" })
        (set_three_twice env.conditions x.conditions _ _ _ refl refl refl)

  ready_status_twice :
      (res : Resolution) (x : AgentStatus)
      → ready_status env a res (ready_status env a res x) ≡ ready_status env a res x
  unfolding ready_status
  ready_status_twice res x =
      ap (λ cs. record (ready_status env a res x) { conditions = cs })
        (set_three_twice env.conditions x.conditions _ _ _ refl refl refl)

  pub judge_twice :
      (res : Resolution) (x : AgentStatus) → judge env a res (judge env a res x) ≡ judge env a res x
  unfolding judge
  judge_twice res x = elim (Bool-cases (is_empty res.missing)) [
    | inr m ↦ rw (judge, m) (unresolved_status_twice res x)
    | inl m ↦ elim (Bool-cases (is_empty (all_violations env a res))) [
      | inl v ↦ rw (judge, m, v) (ready_status_twice res x)
      | inr v ↦ rw (judge, m, v) (forbidden_status_twice res x)
    ]
  ]

  pub judge-Keeps : (res : Resolution) (x : AgentStatus) → Keeps x (judge env a res x)
  unfolding judge unresolved_status forbidden_status ready_status
  judge-Keeps res x = elim (Bool-cases (is_empty res.missing)) [
    | inr m ↦ rw (judge, m) (refl, refl, refl, refl, refl)
    | inl m ↦ elim (Bool-cases (is_empty (all_violations env a res))) [
      | inl v ↦ rw (judge, m, v) (refl, refl, refl, refl, refl)
      | inr v ↦ rw (judge, m, v) (refl, refl, refl, refl, refl)
    ]
  ]
