-- ===== src/Reconcile/Pass/Rest.antt =====
-- A pass over its own result: the Operator watches the Agents that it writes.
use mathlib.Core.Path.{subst}
use agent_plane.Base.{ℕ, Option, none, some, ◌++◌, ◌≡◌, refl, sym, ◌∙◌, ap, arith, inl, inr, length}
use agent_plane.Api.{Agent, AgentStatus, AgentRuntimeSpec, AgentExposeSpec}
use agent_plane.Policy.{merge_policies, violations, skill_tool_violations}
use agent_plane.Cluster.{ok}
use agent_plane.Runtime.{set_deployment, workspace_pod_spec}
use agent_plane.Resolve.Targets.{effective_spec}
use agent_plane.Resolve.Pass.{Resolution, resolve_refs}
use agent_plane.Reconcile.Workloads.{reconcile_runtime, resolve_model_secret}
use agent_plane.Reconcile.Peers.{reconcile_peer, peer_endpoint_for}
use agent_plane.Reconcile.Peers.Laws.{peer_violations-status}
use agent_plane.Reconcile.Pass.{
  Env, with_runtime, with_peer, all_violations, judge, invalid_status, ready_status,
  forbidden_status, unresolved_status, reconcile_agent,
}
use agent_plane.Reconcile.Pass.Branches.{started, Reaches, reconcile_agent-trace}
use agent_plane.Reconcile.Pass.Held.{Keeps, invalid_status_twice, judge_twice, judge-Keeps}

-- The Agent as a pass leaves it.
abbrev pub again : Agent → AgentStatus → Agent
again a st = record a { status = st }

-- The status of an Agent is no input of what a pass reads and writes.
module _ (env : Env) (a : Agent) (st : AgentStatus) where
  resolve_refs-again : resolve_refs env.reader (again a st) ≡ resolve_refs env.reader a
  unfolding resolve_refs effective_spec
  resolve_refs-again = refl

  with_runtime-again :
      (res : Resolution) (rt : Option AgentRuntimeSpec) (x : AgentStatus)
      → with_runtime env (again a st) res rt x ≡ with_runtime env a res rt x
  unfolding with_runtime reconcile_runtime resolve_model_secret effective_spec set_deployment
      workspace_pod_spec
  with_runtime-again res none x = refl
  with_runtime-again res (some rt) x = refl

  with_peer-again :
      (ex : Option AgentExposeSpec) (x : AgentStatus)
      → with_peer env (again a st) ex x ≡ with_peer env a ex x
  unfolding with_peer reconcile_peer peer_endpoint_for
  with_peer-again none x = refl
  with_peer-again (some ex) x = refl

  all_violations-again :
      (res : Resolution) → all_violations env (again a st) res ≡ all_violations env a res
  all_violations-again res =
      ap
        (λ vs.
          violations (merge_policies res.policies res.tool_policies) res.declared
          ++ (skill_tool_violations res.skill_scopes res.declared.tools ++ vs))
        (peer_violations-status env.reader a st res.peers)

  judge-again :
      (res : Resolution) (x : AgentStatus) → judge env (again a st) res x ≡ judge env a res x
  unfolding judge unresolved_status forbidden_status ready_status
  judge-again res x = rw (judge, forbidden_status, all_violations-again res) refl

module _ (env : Env) (a : Agent) (res : Resolution) where
  -- What the workloads write into a status they write again, where it is still there.
  with_runtime_twice :
      (rt : Option AgentRuntimeSpec) (x y z : AgentStatus)
      → with_runtime env a res rt x ≡ ok y
      → z.runtime_available_replicas ≡ y.runtime_available_replicas
      → z.workspace_claim ≡ y.workspace_claim
      → with_runtime env a res rt z ≡ ok z
  unfolding with_runtime reconcile_runtime
  with_runtime_twice none x y z e h k = refl
  with_runtime_twice (some rt) x y z e h k = ground (arith, e, h, k)

  with_peer_twice :
      (ex : Option AgentExposeSpec) (x y z : AgentStatus)
      → with_peer env a ex x ≡ ok y
      → z.peer_endpoint ≡ y.peer_endpoint
      → with_peer env a ex z ≡ ok z
  unfolding with_peer reconcile_peer
  with_peer_twice none x y z e h = ground (arith, e, h)
  with_peer_twice (some ex) x y z e h = ground (arith, e, h)

  -- The other fields they leave alone.
  with_runtime_keeps :
      (rt : Option AgentRuntimeSpec) (x y : AgentStatus)
      → with_runtime env a res rt x ≡ ok y
      → (y.observed_generation ≡ x.observed_generation) × (y.resolved_refs ≡ x.resolved_refs)
  unfolding with_runtime reconcile_runtime
  with_runtime_keeps none x y e = ground (arith, e)
  with_runtime_keeps (some rt) x y e = ground (arith, e)

  with_peer_keeps :
      (ex : Option AgentExposeSpec) (x y : AgentStatus)
      → with_peer env a ex x ≡ ok y
      → (y.observed_generation ≡ x.observed_generation)
        × (y.resolved_refs ≡ x.resolved_refs)
        × (y.runtime_available_replicas ≡ x.runtime_available_replicas)
        × (y.workspace_claim ≡ x.workspace_claim)
  unfolding with_peer reconcile_peer
  with_peer_keeps none x y e = ground (arith, e)
  with_peer_keeps (some ex) x y e = ground (arith, e)

restart :
    (g n : ℕ) (st : AgentStatus)
    → st.observed_generation ≡ g
    → st.resolved_refs ≡ n
    → record st { observed_generation = g; resolved_refs = n } ≡ st
restart g n st h k = rw (sym h, sym k) refl

-- A second pass that reaches the verdict of the first.
verdict_twice :
    (env : Env) (a : Agent) (st : AgentStatus)
    → Reaches env a st
    → reconcile_agent env (again a st) ≡ ok st
unfolding reconcile_agent
verdict_twice env a st t =
    let start : AgentStatus = record (started a) { resolved_refs = length t.res.refs } in
    let (g, n, replicas, claim, endpoint) : Keeps t.after_peer st =
      subst (Keeps t.after_peer) t.judged (judge-Keeps env a t.res t.after_peer) in
    let (pg, pn, preplicas, pclaim) =
      with_peer_keeps env a t.res a.spec.expose t.after_runtime t.after_peer t.published in
    let (rg, rn) = with_runtime_keeps env a t.res a.spec.runtime start t.after_runtime t.ran in
    let begins : record st {
      observed_generation = a.meta.generation;
      resolved_refs = length t.res.refs;
    }
        ≡ st =
      restart a.meta.generation (length t.res.refs) st (g ∙ pg ∙ rg) (n ∙ pn ∙ rn) in
    let runs : with_runtime env (again a st) t.res a.spec.runtime st ≡ ok st =
      with_runtime-again env a st t.res a.spec.runtime st
      ∙ with_runtime_twice env a t.res a.spec.runtime start t.after_runtime st t.ran
          (replicas ∙ preplicas) (claim ∙ pclaim) in
    let publishes : with_peer env (again a st) a.spec.expose st ≡ ok st =
      with_peer-again env a st a.spec.expose st
      ∙ with_peer_twice env a t.res a.spec.expose t.after_runtime t.after_peer st t.published
          endpoint in
    let judges : judge env (again a st) t.res st ≡ st =
      judge-again env a st t.res st
      ∙ subst (λ s. judge env a t.res s ≡ s) t.judged (judge_twice env a t.res t.after_peer) in
    rw
      (
        reconcile_agent,
        t.valid,
        resolve_refs-again env a st ∙ t.resolved,
        begins,
        runs,
        publishes,
        judges,
      )
      refl

-- Where nothing else changes, a pass over the Agent that a pass has written, whatever its verdict,
-- writes the same status again: the Operator, which its own writes wake, comes to rest.
pub reconcile_agent_twice :
    (env : Env) (a : Agent) (st : AgentStatus)
    → reconcile_agent env a ≡ ok st
    → reconcile_agent env (again a st) ≡ ok st
unfolding reconcile_agent invalid_status
reconcile_agent_twice env a st e = elim (reconcile_agent-trace env a st e) [
  | inr t ↦ verdict_twice env a st t
  | inl (x, invalid, same) ↦
      rw (reconcile_agent, invalid)
        (ap ok (
          subst
            (λ s. invalid_status env a x (record s { observed_generation = a.meta.generation }) ≡ s)
            same (invalid_status_twice env a x (started a))))
]
