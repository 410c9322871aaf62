-- ===== src/Reconcile/Pass/Order.antt =====
-- The errors of a pass, by the order in which it works: references, workloads, verdict.
use agent_plane.Base.{
  String, ◌<>◌, Option, none, some, List, [], ◌∷◌, ◌++◌, ◌==◌, ◌&&◌, if◌then◌else◌, ◌≡◌, ◌⊎◌, ◌↔◌,
  refl, sym, ◌∙◌, arith, Option-cases, inl, inr, length,
}
use agent_plane.Api.{Agent, AgentStatus, AgentRuntimeSpec, AgentExposeSpec}
use agent_plane.Validation.Agents.{validate_agent}
use agent_plane.Cluster.{Result, ok, err, ◌>>=◌, Result-cases}
use agent_plane.Runtime.{set_deployment}
use agent_plane.Runtime.Assembly.{agent_runtime_labels}
use agent_plane.Resolve.Pass.{Resolution, resolve_refs}
use agent_plane.Reconcile.Workloads.{
  wants_git, workspace_ready, write_runtime_service, resolve_model_secret, default_registry_url,
  reconcile_runtime,
}
use agent_plane.Reconcile.Peers.{peer_port, reconcile_peer}
use agent_plane.Reconcile.Pass.{Env, with_runtime, with_peer, judge, reconcile_agent}

-- The first error among the answers to some writes.
unfoldable pub first_error : List (Option String) → Option String
first_error [] = none
first_error (none ∷ xs) = first_error xs
first_error (some e ∷ xs) = some e

error_of : {A : Type 0} → Result A → Option String
error_of (ok x) = none
error_of (err e) = some e

-- What the API server answers to the writes for a runtime: claim, Deployment, Service. None is tried
-- while the git credential is missing.
abbrev pub runtime_writes :
    Env → Agent → Resolution → Option AgentRuntimeSpec → List (Option String)
runtime_writes env a res none = []
runtime_writes env a res (some rt) =
    if wants_git a.spec.workspace && res.git_secret == ""
    then []
    else workspace_ready env.parse_quantity env.workloads a a.spec.workspace
      ∷ env.workloads.write_deployment a.meta.ns (a.meta.name <> "-runtime") (
          set_deployment (default_registry_url env.registry_url) a rt a.spec.workspace
            (if wants_git a.spec.workspace then res.git_secret else "")
            (elim a.spec.workspace [ none ↦ "" | some s ↦ resolve_model_secret env.reader a ])
            res.credentials)
      ∷ write_runtime_service env.workloads a rt
      ∷ []

-- The write for a peer: its Service.
abbrev pub peer_writes : Env → Agent → Option AgentExposeSpec → List (Option String)
peer_writes env a none = []
peer_writes env a (some e) =
    env.workloads.write_service a.meta.ns (a.meta.name <> "-peer") (record {
      labels = agent_runtime_labels a;
      selector = agent_runtime_labels a;
      port_name = "mcp";
      port = peer_port e;
    })
    ∷ []

-- Why a pass stops with an error: the spec is valid, and a reference is not read, or a write fails.
abbrev pub StopsWith : Env → Agent → String → Type 0
StopsWith env a e =
    (validate_agent env.parse_quantity a.spec ≡ none)
    × ((resolve_refs env.reader a ≡ err e)
        ⊎ ((res : Resolution) × (resolve_refs env.reader a ≡ ok res)
            × (first_error
                  (runtime_writes env a res a.spec.runtime ++ peer_writes env a a.spec.expose)
                ≡ some e)))

module _ (env : Env) (a : Agent) where
  error_of-with_runtime :
      (res : Resolution) (rt : Option AgentRuntimeSpec) (st : AgentStatus)
      → error_of (with_runtime env a res rt st) ≡ first_error (runtime_writes env a res rt)
  unfolding with_runtime reconcile_runtime error_of first_error
  error_of-with_runtime res none st = refl
  error_of-with_runtime res (some rt) st = ground arith

  error_of-with_peer :
      (ex : Option AgentExposeSpec) (st : AgentStatus)
      → error_of (with_peer env a ex st) ≡ first_error (peer_writes env a ex)
  unfolding with_peer reconcile_peer error_of first_error
  error_of-with_peer none st = refl
  error_of-with_peer (some ex) st = ground arith

first_error-append :
    (xs ys : List (Option String))
    → first_error (xs ++ ys) ≡ elim (first_error xs) [ none ↦ first_error ys | some e ↦ some e ]
unfolding first_error
first_error-append [] ys = refl
first_error-append (none ∷ xs) ys = first_error-append xs ys
first_error-append (some e ∷ xs) ys = refl

error_of-bind :
    {A B : Type 0} (x : Result A) (f : A → Result B) (m : Option String)
    → ((a : A) → x ≡ ok a → error_of (f a) ≡ m)
    → error_of (x >>= f) ≡ elim (error_of x) [ none ↦ m | some e ↦ some e ]
unfolding error_of
error_of-bind (ok a) f m h = h a refl
error_of-bind (err e) f m h = refl

error_of-map :
    {A B : Type 0} (x : Result A) (g : A → B) → error_of (x >>= λ a. ok (g a)) ≡ error_of x
unfolding error_of
error_of-map (ok a) g = refl
error_of-map (err e) g = refl

err_iff : {A : Type 0} (x : Result A) (e : String) → (x ≡ err e) ↔ (error_of x ≡ some e)
unfolding error_of
err_iff (ok x) e = ((λ h. ground (arith, h)), (λ h. ground (arith, h)))
err_iff (err x) e = ((λ h. ground (arith, h)), (λ h. ground (arith, h)))

module _ (env : Env) (a : Agent) where
  -- The workloads and the verdict after them: the first error of the writes.
  workloads_error :
      (res : Resolution) (st : AgentStatus)
      → error_of (
          with_runtime env a res a.spec.runtime st >>= λ st'.
          with_peer env a a.spec.expose st' >>= λ st''. ok (judge env a res st''))
        ≡ first_error (runtime_writes env a res a.spec.runtime ++ peer_writes env a a.spec.expose)
  workloads_error res st =
      error_of-bind (with_runtime env a res a.spec.runtime st) _
        (first_error (peer_writes env a a.spec.expose))
        (λ st' e.
          error_of-map (with_peer env a a.spec.expose st') (judge env a res)
          ∙ error_of-with_peer env a a.spec.expose st')
      ∙ (rw (error_of-with_runtime env a res a.spec.runtime st)
          (sym (first_error-append (runtime_writes env a res a.spec.runtime) _)))

  resolved_error :
      (res : Resolution)
      → validate_agent env.parse_quantity a.spec ≡ none
      → resolve_refs env.reader a ≡ ok res
      → error_of (reconcile_agent env a)
        ≡ first_error (runtime_writes env a res a.spec.runtime ++ peer_writes env a a.spec.expose)
  unfolding reconcile_agent
  resolved_error res valid resolved =
      let start : AgentStatus = record (a.status) {
        observed_generation = a.meta.generation;
        resolved_refs = length res.refs;
      } in
      rw (reconcile_agent, valid, resolved) (workloads_error res start)

  error-StopsWith : (e : String) → reconcile_agent env a ≡ err e → StopsWith env a e
  unfolding reconcile_agent
  error-StopsWith e h = elim (Option-cases (validate_agent env.parse_quantity a.spec)) [
    | inr (x, invalid) ↦ ground (arith, invalid, h)
    | inl valid ↦ elim (Result-cases (resolve_refs env.reader a)) [
      | inr (x, stops) ↦ (valid, inl (ground (arith, valid, stops, h)))
      | inl (res, resolved) ↦
          (valid, inr (res, resolved, sym (resolved_error res valid resolved) ∙ (err_iff _ e).0 h))
    ]
  ]

  StopsWith-error : (e : String) → StopsWith env a e → reconcile_agent env a ≡ err e
  unfolding reconcile_agent
  StopsWith-error e (valid, inl stops) = rw (reconcile_agent, valid, stops) refl
  StopsWith-error e (valid, inr (res, resolved, h)) =
      (err_iff _ e).1 (resolved_error res valid resolved ∙ h)

  -- Before it writes its status, a pass over an Agent that was read returns an error exactly if the
  -- spec is valid and either the references are not resolved, with that error, or they are, and it is
  -- the first error of the writes in their order: the workspace's claim, the Deployment and the
  -- Service of a runtime, none of them while a credential to clone with is missing, and the Service of
  -- a peer. What else is missing and what the policies forbid does not keep a write from being tried.
  pub reconcile_agent-err_iff : (e : String) → (reconcile_agent env a ≡ err e) ↔ StopsWith env a e
  reconcile_agent-err_iff e = (error-StopsWith e, StopsWith-error e)
