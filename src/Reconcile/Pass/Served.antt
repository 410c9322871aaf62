-- ===== src/Reconcile/Pass/Served.antt =====
-- What the Registry serves of an Agent that a pass of the Operator has refused.
use agent_plane.Base.{String, ◌<>◌, Option, none, some, ◌≡◌, refl, inl, inr}
use agent_plane.Api.{Agent, AgentSpec, AgentStatus, agent_phase_degraded}
use agent_plane.Cluster.{Reader, found, Result, ok}
use agent_plane.Resolve.Targets.{effective_spec}
use agent_plane.Resolve.Pass.{Resolution}
use agent_plane.Registry.Views.{AgentConfig}
use agent_plane.Registry.Config.{
  prompt_view, model_view, skill_views, tool_views, resolve_policy, build_config_from, build_config,
}
use agent_plane.Registry.Server.{Response, handle_config}
use agent_plane.Reconcile.Pass.{Env, reconcile_agent}
use agent_plane.Reconcile.Pass.Laws.{IsAdmitted, reconcile_agent-verdict}

-- A response with the configuration, whose tools and policy are those of the spec.
pub record IsServed (encode : AgentConfig → Option String) (r : Reader) (a : Agent)
    (response : Response) (cfg : AgentConfig) : Type 0 where
  pub status : response.status ≡ 200
  pub body : response.body ≡ (elim (encode cfg) [ none ↦ "" | some text ↦ text <> "\n" ])
  pub tools : cfg.tools ≡ tool_views r a.meta.ns (effective_spec r a)
  pub policy : cfg.policy ≡ resolve_policy r a.meta.ns (effective_spec r a)

abbrev config_of : Reader → Agent → AgentStatus → String → AgentConfig
config_of r a st text =
    let eff = effective_spec r a in
    record {
      ns = a.meta.ns;
      name = a.meta.name;
      config_hash = st.resolved_config_hash;
      phase = st.phase;
      spec = text;
      prompt = prompt_view r a.meta.ns eff.prompt_ref;
      model = model_view r a.meta.ns eff.model_ref;
      tools = tool_views r a.meta.ns eff;
      skills = skill_views r a.meta.ns eff.skill_refs;
      policy = resolve_policy r a.meta.ns eff;
    }

served :
    (marshal : AgentSpec → Result String) (encode : AgentConfig → Option String) (r : Reader)
    (a : Agent) (st : AgentStatus) (text : String)
    → r.get_agent a.meta.ns a.meta.name ≡ found (record a { status = st })
    → marshal (effective_spec r a) ≡ ok text
    → IsServed encode r a
        (handle_config marshal encode r a.meta.ns a.meta.name)
        (config_of r a st text)
unfolding handle_config build_config build_config_from effective_spec
served marshal encode r a st text there marshals =
    rw (handle_config, build_config, there, build_config_from, marshals)
      (record { status = refl; body = refl; tools = refl; policy = refl })

-- Where a pass writes a status although no resolution admits the Agent, and the Registry reads the
-- Agent with that status: it answers a request for the configuration with 200 and a configuration that
-- is marked Degraded, without a hash, with all the tools and the policy of the Agent's effective spec.
pub refused-IsServed :
    (env : Env) (marshal : AgentSpec → Result String) (encode : AgentConfig → Option String)
    (r : Reader) (a : Agent) (st : AgentStatus) (text : String)
    → reconcile_agent env a ≡ ok st
    → ((res : Resolution) → IsAdmitted env a res → ⊥)
    → r.get_agent a.meta.ns a.meta.name ≡ found (record a { status = st })
    → marshal (effective_spec r a) ≡ ok text
    → (cfg : AgentConfig) × (cfg.phase ≡ agent_phase_degraded)
      × (cfg.config_hash ≡ "")
      × IsServed encode r a (handle_config marshal encode r a.meta.ns a.meta.name) cfg
refused-IsServed env marshal encode r a st text ran refused there marshals =
    elim (reconcile_agent-verdict env a st ran) [
      | inl (res, admitted, ready) ↦ elim (refused res admitted) [ ]
      | inr (other, degraded) ↦ (
        config_of r a st text,
        degraded.phase,
        degraded.hash,
        served marshal encode r a st text there marshals,
      )
    ]
