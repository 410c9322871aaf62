-- ===== src/Reconcile/Pass/Branches.antt =====
-- The branches of a pass that writes a status: the spec is not valid, or the verdict is reached.
use agent_plane.Base.{
  String, Option, none, some, ◌≡◌, ◌⊎◌, ◌∙◌, arith, Option-cases, inl, inr, length,
}
use agent_plane.Api.{Agent, AgentStatus, AgentRuntimeSpec, AgentExposeSpec}
use agent_plane.Validation.Agents.{validate_agent}
use agent_plane.Cluster.{ok, Result-cases}
use agent_plane.Resolve.Pass.{Resolution, resolve_refs}
use agent_plane.Reconcile.Workloads.{reconcile_runtime}
use agent_plane.Reconcile.Peers.{reconcile_peer}
use agent_plane.Reconcile.Pass.{
  Env, with_runtime, with_peer, invalid_status, judge, reconcile_agent,
}

-- The status that a pass starts from.
abbrev pub started : Agent → AgentStatus
started a = record (a.status) { observed_generation = a.meta.generation }

module _ (env : Env) (a : Agent) where
  -- The workloads leave the observed generation as it is.
  runtime_keeps :
      (res : Resolution) (rt : Option AgentRuntimeSpec) (st st' : AgentStatus)
      → with_runtime env a res rt st ≡ ok st'
      → st'.observed_generation ≡ st.observed_generation
  unfolding with_runtime reconcile_runtime
  runtime_keeps res none st st' e = ground (arith, e)
  runtime_keeps res (some rt) st st' e = ground (arith, e)

  peer_keeps :
      (ex : Option AgentExposeSpec) (st st' : AgentStatus)
      → with_peer env a ex st ≡ ok st'
      → st'.observed_generation ≡ st.observed_generation
  unfolding with_peer reconcile_peer
  peer_keeps none st st' e = ground (arith, e)
  peer_keeps (some ex) st st' e = ground (arith, e)

  -- What a pass goes through to its verdict.
  pub record Reaches (st : AgentStatus) : Type 0 where
    pub res : Resolution
    pub after_runtime : AgentStatus
    pub after_peer : AgentStatus
    pub valid : validate_agent env.parse_quantity a.spec ≡ none
    pub resolved : resolve_refs env.reader a ≡ ok res
    pub ran :
        with_runtime env a res a.spec.runtime
          (record (started a) { resolved_refs = length res.refs })
        ≡ ok after_runtime
    pub published : with_peer env a a.spec.expose after_runtime ≡ ok after_peer
    pub judged : judge env a res after_peer ≡ st

  -- A pass that writes a status marks an Agent whose spec is not valid, or reaches its verdict.
  pub reconcile_agent-trace :
      (st : AgentStatus)
      → reconcile_agent env a ≡ ok st
      → ((x : String) × (validate_agent env.parse_quantity a.spec ≡ some x)
          × (invalid_status env a x (started a) ≡ st))
        ⊎ Reaches st
  unfolding reconcile_agent
  reconcile_agent-trace st e = elim (Option-cases (validate_agent env.parse_quantity a.spec)) [
    | inr (x, invalid) ↦ inl (x, invalid, ground (arith, invalid, e))
    | inl valid ↦ elim (Result-cases (resolve_refs env.reader a)) [
      | inr (x, stops) ↦ ground (arith, valid, stops, e)
      | inl (res, resolved) ↦
          let start : AgentStatus = record (started a) { resolved_refs = length res.refs } in
          elim (Result-cases (with_runtime env a res a.spec.runtime start)) [
            | inr (x, stops) ↦ ground (arith, valid, resolved, stops, e)
            | inl (st', ran) ↦ elim (Result-cases (with_peer env a a.spec.expose st')) [
              | inr (x, stops) ↦ ground (arith, valid, resolved, ran, stops, e)
              | inl (st'', published) ↦ inr (record {
                res = res;
                after_runtime = st';
                after_peer = st'';
                valid = valid;
                resolved = resolved;
                ran = ran;
                published = published;
                judged = ground (arith, valid, resolved, ran, published, e);
              })
            ]
          ]
    ]
  ]

  -- The same with what the proofs on the verdict read of it.
  pub reconcile_agent-cases :
      (st : AgentStatus)
      → reconcile_agent env a ≡ ok st
      → ((x : String) × (validate_agent env.parse_quantity a.spec ≡ some x)
          × (invalid_status env a x (started a) ≡ st))
        ⊎ ((res : Resolution) × (st' : AgentStatus) × (validate_agent env.parse_quantity a.spec
              ≡ none)
            × (resolve_refs env.reader a ≡ ok res)
            × (st'.observed_generation ≡ a.meta.generation)
            × (judge env a res st' ≡ st))
  reconcile_agent-cases st e = elim (reconcile_agent-trace st e) [
    | inl h ↦ inl h
    | inr t ↦
        let start : AgentStatus = record (started a) { resolved_refs = length t.res.refs } in
        inr (
          t.res,
          t.after_peer,
          t.valid,
          t.resolved,
          peer_keeps a.spec.expose t.after_runtime t.after_peer t.published
              ∙ runtime_keeps t.res a.spec.runtime start t.after_runtime t.ran,
          t.judged,
        )
  ]
