-- ===== src/Validation/Agents/Laws.antt =====
-- Which Agents `AgentSpec.Validate` accepts.
use agent_plane.Base.{
  String, true, false, Option, none, some, List, [], ◌∷◌, ◌≡◌, refl, ◌↔◌, arith, ◌⊎◌, inl, inr,
  is_some, mem, All, IsDistinct,
}
use agent_plane.Api.{AgentSpec, AgentRuntimeSpec, AgentExposeSpec, EnvVar}
use agent_plane.Validation.Names.{ref_names, duplicate_error}
use agent_plane.Validation.Names.Laws.{distinct-eq-true_iff, duplicate_error_lem}
use agent_plane.Validation.Volumes.{validate_volumes}
use agent_plane.Validation.Volumes.Laws.{
  IsAllowed, volumes_of, clean_paths, validate_volumes-eq-none_iff,
}
use agent_plane.Validation.Agents.Workspace.{
  IsCoherent, Where, or_then-eq-none, workspace_sound, workspace_complete,
}
use agent_plane.Validation.Agents.{
  ParseQuantity, runtime_env_error, env_error, reserved_runtime_env, validate_runtime_env,
  validate_workspace, expose_error, validate_expose, duplicate_refs_error, validate_agent,
}

-- A property of each of the six lists of references.
pub record HasProperRefs (s : AgentSpec) (P : List String → Type 0) : Type 0 where
  pub tools : P (ref_names s.tool_refs)
  pub tool_sets : P (ref_names s.tool_set_refs)
  pub skills : P (ref_names s.skill_refs)
  pub policies : P (ref_names s.policy_refs)
  pub tool_policies : P (ref_names s.tool_policy_refs)
  pub credentials : P (ref_names s.credential_refs)

abbrev pub HasNames : List String → Type 0
HasNames ns = mem "" ns ≡ false

-- The variables do not touch the reserved ones.
abbrev pub AvoidsEnv : List String → List EnvVar → Type 0
AvoidsEnv reserved env = All (λ e. mem e.name reserved ≡ false) env

pub env_error-eq-none_iff :
    (field : String) (reserved : List String) (env : List EnvVar)
    → (env_error field reserved env ≡ none) ↔ AvoidsEnv reserved env
unfolding env_error
env_error-eq-none_iff field reserved [] = (λ h. tt, λ h. refl)
env_error-eq-none_iff field reserved (e ∷ es) = (
  λ h. (ground arith, (env_error-eq-none_iff field reserved es).0 (ground arith)),
  λ h. ground (arith, h.0, (env_error-eq-none_iff field reserved es).1 h.1),
)

runtime_env_iff :
    (s : AgentSpec)
    → (validate_runtime_env s ≡ none)
      ↔ Where (λ rt. AvoidsEnv reserved_runtime_env rt.env) s.runtime
unfolding validate_runtime_env
runtime_env_iff s =
    elim s.runtime
      as (λ r.
        (runtime_env_error r ≡ none) ↔ Where (λ rt. AvoidsEnv reserved_runtime_env rt.env) r) [
          | none ↦ (λ h. tt, λ h. refl)
          | some rt ↦ env_error-eq-none_iff "spec.runtime.env" reserved_runtime_env rt.env
        ]

expose_iff :
    (rt : Option AgentRuntimeSpec) (e : Option AgentExposeSpec)
    → (expose_error rt e ≡ none) ↔ ((e ≡ none) ⊎ (is_some rt ≡ true))
unfolding expose_error
expose_iff rt none = (λ h. inl refl, λ h. refl)
expose_iff none (some e) = (λ h. cc, λ h. ground arith)
expose_iff (some rt) (some e) = (λ h. inr refl, λ h. refl)

pub duplicate_iff :
    (what : String) (names : List String)
    → HasNames names
    → (duplicate_error what names ≡ none) ↔ IsDistinct names
duplicate_iff what names h = (
  λ e. (distinct-eq-true_iff names).0 (ground (arith, duplicate_error_lem what names h)),
  λ d. ground (arith, duplicate_error_lem what names h, (distinct-eq-true_iff names).1 d),
)

module _ (s : AgentSpec) (named : HasProperRefs s HasNames) where
  refs_sound : duplicate_refs_error s ≡ none → HasProperRefs s IsDistinct
  unfolding duplicate_refs_error
  refs_sound h =
      let (tools, h) = (or_then-eq-none _ _).0 h in
      let (tool_sets, h) = (or_then-eq-none _ _).0 h in
      let (skills, h) = (or_then-eq-none _ _).0 h in
      let (policies, h) = (or_then-eq-none _ _).0 h in
      let (tool_policies, credentials) = (or_then-eq-none _ _).0 h in
      record {
        tools = (duplicate_iff "toolRef" _ named.tools).0 tools;
        tool_sets = (duplicate_iff "toolSetRef" _ named.tool_sets).0 tool_sets;
        skills = (duplicate_iff "skillRef" _ named.skills).0 skills;
        policies = (duplicate_iff "policyRef" _ named.policies).0 policies;
        tool_policies = (duplicate_iff "toolPolicyRef" _ named.tool_policies).0 tool_policies;
        credentials = (duplicate_iff "credentialRef" _ named.credentials).0 credentials;
      }

  refs_complete : HasProperRefs s IsDistinct → duplicate_refs_error s ≡ none
  unfolding duplicate_refs_error
  refs_complete d = rw (
    (duplicate_iff "toolRef" _ named.tools).1 d.tools,
    (duplicate_iff "toolSetRef" _ named.tool_sets).1 d.tool_sets,
    (duplicate_iff "skillRef" _ named.skills).1 d.skills,
    (duplicate_iff "policyRef" _ named.policies).1 d.policies,
    (duplicate_iff "toolPolicyRef" _ named.tool_policies).1 d.tool_policies,
    (duplicate_iff "credentialRef" _ named.credentials).1 d.credentials,
  )

-- Everything that an Agent's spec must satisfy by itself.
pub record IsWellFormed (parse_quantity : ParseQuantity) (s : AgentSpec) : Type 0 where
  pub refs : HasProperRefs s IsDistinct
  pub workspace : Where (IsCoherent parse_quantity s.runtime) s.workspace
  pub volumes : All (IsAllowed s.workspace) (volumes_of s)
  pub volume_paths : IsDistinct (clean_paths (volumes_of s))
  pub env : Where (λ rt. AvoidsEnv reserved_runtime_env rt.env) s.runtime
  pub expose : (s.expose ≡ none) ⊎ (is_some s.runtime ≡ true)

-- Where no reference has an empty name, `AgentSpec.Validate` accepts exactly the specs that are well
-- formed: no list names a reference twice; a workspace has a runtime, no clone settings without a
-- repository, an absolute path and a size that parses; the volumes are allowed and at distinct
-- paths; no reserved variable is set; and an exposed Agent has a runtime.
pub validate_agent-eq-none_iff :
    (parse_quantity : ParseQuantity) (s : AgentSpec)
    → HasProperRefs s HasNames
    → (validate_agent parse_quantity s ≡ none) ↔ IsWellFormed parse_quantity s
unfolding validate_agent validate_workspace validate_expose
validate_agent-eq-none_iff parse_quantity s named = (
  λ h.
      let (refs, h) = (or_then-eq-none (duplicate_refs_error s) _).0 h in
      let (workspace, h) = (or_then-eq-none (validate_workspace parse_quantity s) _).0 h in
      let (volumes, h) = (or_then-eq-none (validate_volumes s) _).0 h in
      let (env, expose) = (or_then-eq-none (validate_runtime_env s) _).0 h in
      let (allowed, apart) = (validate_volumes-eq-none_iff s).0 volumes in
      record {
        refs = refs_sound s named refs;
        workspace = workspace_sound parse_quantity s.runtime s.workspace workspace;
        volumes = allowed;
        volume_paths = apart;
        env = (runtime_env_iff s).0 env;
        expose = (expose_iff s.runtime s.expose).0 expose;
      },
  λ w. rw (
    refs_complete s named w.refs,
    workspace_complete parse_quantity s.runtime s.workspace w.workspace,
    (validate_volumes-eq-none_iff s).1 (w.volumes, w.volume_paths),
    (runtime_env_iff s).1 w.env,
    (expose_iff s.runtime s.expose).1 w.expose,
  ),
)
