-- ===== src/Triggers/Variables.antt =====
-- The variables that an adapter is given.
use mathlib.Core.Path.{subst}
use agent_plane.Base.{
  String, true, Option, none, some, List, [], ◌∷◌, ◌++◌, ◌==◌, ◌≡◌, refl, sym, ap, ◌∙◌, arith,
  eq_iff, or_else, if◌then◌else◌, Bool-cases, inl, inr, mem, mem_of_eq,
}
use agent_plane.Api.{EnvVar, Trigger}
use agent_plane.Validation.Agents.{env_agent_endpoint, env_credential_path}
use agent_plane.Validation.Agents.Laws.{AvoidsEnv, env_error-eq-none_iff}
use agent_plane.Validation.Agents.Workspace.{or_then-eq-none}
use agent_plane.Validation.Kinds.{validate_trigger, reserved_trigger_env}
use agent_plane.Runtime.Workspace.{env_var}
use agent_plane.Triggers.{config_env, adapter_env, credential_mount_path}

-- The entry that a container takes for a name: of several, the last.
abbrev pub variable : String → List EnvVar → Option EnvVar
variable name [] = none
variable name (e ∷ es) = or_else (variable name es) (if e.name == name then some e else none)

or_else-none {ℓ} : {A : Type ℓ} (a : Option A) → or_else a none ≡ a
or_else-none none = refl
or_else-none (some a) = refl

variable-append :
    (name : String) (xs ys : List EnvVar)
    → variable name (xs ++ ys) ≡ or_else (variable name ys) (variable name xs)
variable-append name [] ys = ground arith
variable-append name (x ∷ xs) ys = ground (arith, variable-append name xs ys)

-- A reserved name has no entry in a list that avoids it.
variable-AvoidsEnv :
    (name : String) (reserved : List String) (env : List EnvVar)
    → AvoidsEnv reserved env
    → mem name reserved ≡ true
    → variable name env ≡ none
variable-AvoidsEnv name reserved [] h m = refl
variable-AvoidsEnv name reserved (e ∷ es) h m = elim (Bool-cases (e.name == name)) [
  | inl k ↦ ground (arith, h.0, m, mem_of_eq reserved ((eq_iff e.name name).0 k))
  | inr k ↦ ground (arith, variable-AvoidsEnv name reserved es h.1 m, k)
]

abbrev promised_config : Option String → Option EnvVar
promised_config none = none
promised_config (some raw) =
    if raw == "" then none else some (env_var "AGENTPLANE_TRIGGER_CONFIG" raw)

-- What docs/adapter-protocol.md promises for each name of the contract; any other keeps the
-- Trigger's own entry.
abbrev pub promised : Trigger → String → String → String → Option EnvVar
promised t endpoint secret_name name =
    if env_agent_endpoint == name
    then some (env_var env_agent_endpoint endpoint)
    else if "AGENTPLANE_AGENT_NAME" == name
    then some (env_var "AGENTPLANE_AGENT_NAME" t.spec.agent_ref.name)
    else if "AGENTPLANE_AGENT_NAMESPACE" == name
    then some (env_var "AGENTPLANE_AGENT_NAMESPACE" t.meta.ns)
    else if "AGENTPLANE_TRIGGER_NAME" == name
    then some (env_var "AGENTPLANE_TRIGGER_NAME" t.meta.name)
    else if "AGENTPLANE_TRIGGER_CONFIG" == name
    then promised_config t.spec.config
    else if env_credential_path == name
    then (if secret_name == ""
        then none
        else some (env_var env_credential_path credential_mount_path))
    else variable name t.spec.env

abbrev credential_env : String → List EnvVar
credential_env secret_name =
    if secret_name == "" then [] else env_var env_credential_path credential_mount_path ∷ []

config_variable :
    (name : String) (config : Option String)
    → variable name (config_env config)
      ≡ (if "AGENTPLANE_TRIGGER_CONFIG" == name then promised_config config else none)
unfolding config_env
config_variable name none = ground arith
config_variable name (some raw) = ground arith

credential_variable :
    (name secret_name : String)
    → variable name (credential_env secret_name) ≡ (
        if env_credential_path == name
        then (if secret_name == ""
            then none
            else some (env_var env_credential_path credential_mount_path))
        else none)
credential_variable name secret_name = ground arith

-- The variables that are injected only where there is something to say.
optional_variable :
    (name secret_name : String) (config : Option String)
    → variable name (config_env config ++ credential_env secret_name)
      ≡ or_else
          (if env_credential_path == name
            then (if secret_name == ""
                then none
                else some (env_var env_credential_path credential_mount_path))
            else none)
          (if "AGENTPLANE_TRIGGER_CONFIG" == name then promised_config config else none)
optional_variable name secret_name config =
    rw
      (
        variable-append name (config_env config) (credential_env secret_name),
        config_variable name config,
        credential_variable name secret_name,
      )
      refl

module _ (t : Trigger) (endpoint secret_name : String) where
  -- What `adapterEnv` appends.
  abbrev injected : List EnvVar
  injected =
      env_var env_agent_endpoint endpoint
      ∷ env_var "AGENTPLANE_AGENT_NAME" t.spec.agent_ref.name
      ∷ env_var "AGENTPLANE_AGENT_NAMESPACE" t.meta.ns
      ∷ env_var "AGENTPLANE_TRIGGER_NAME" t.meta.name
      ∷ (config_env t.spec.config ++ credential_env secret_name)

  HoldsAt : String → Type 0
  HoldsAt name =
      variable name (adapter_env t endpoint secret_name) ≡ promised t endpoint secret_name name

  adapter_env-split :
      (name : String)
      → variable name (adapter_env t endpoint secret_name)
        ≡ or_else (variable name injected) (variable name t.spec.env)
  unfolding adapter_env
  adapter_env-split name = variable-append name t.spec.env injected

  -- An entry that is always injected is found whatever the Trigger sets.
  always_found :
      (name : String) (e : EnvVar)
      → variable name injected ≡ some e
      → promised t endpoint secret_name name ≡ some e
      → HoldsAt name
  unfolding HoldsAt
  always_found name e h k = adapter_env-split name ∙ rw (h, k) refl

  -- One that is injected only sometimes is found where the Trigger does not set it.
  sometimes_found :
      (name : String) (v : Option EnvVar)
      → variable name t.spec.env ≡ none
      → variable name injected ≡ v
      → promised t endpoint secret_name name ≡ v
      → HoldsAt name
  unfolding HoldsAt
  sometimes_found name v own h k =
      adapter_env-split name
      ∙ ap (λ x. or_else x (variable name t.spec.env)) h
      ∙ ap (λ x. or_else v x) own
      ∙ or_else-none v
      ∙ sym k

  -- And a name of no injected entry is the Trigger's.
  own_found :
      (name : String)
      → variable name injected ≡ none
      → promised t endpoint secret_name name ≡ variable name t.spec.env
      → HoldsAt name
  unfolding HoldsAt
  own_found name h k = adapter_env-split name ∙ rw h (sym k)

  endpoint_holds : HoldsAt env_agent_endpoint
  endpoint_holds =
      always_found env_agent_endpoint _
        (rw (optional_variable env_agent_endpoint secret_name t.spec.config) refl) refl

  agent_name_holds : HoldsAt "AGENTPLANE_AGENT_NAME"
  agent_name_holds =
      always_found "AGENTPLANE_AGENT_NAME" _
        (rw (optional_variable "AGENTPLANE_AGENT_NAME" secret_name t.spec.config) refl) refl

  namespace_holds : HoldsAt "AGENTPLANE_AGENT_NAMESPACE"
  namespace_holds =
      always_found "AGENTPLANE_AGENT_NAMESPACE" _
        (rw (optional_variable "AGENTPLANE_AGENT_NAMESPACE" secret_name t.spec.config) refl) refl

  trigger_name_holds : HoldsAt "AGENTPLANE_TRIGGER_NAME"
  trigger_name_holds =
      always_found "AGENTPLANE_TRIGGER_NAME" _
        (rw (optional_variable "AGENTPLANE_TRIGGER_NAME" secret_name t.spec.config) refl) refl

  module _ (avoids : AvoidsEnv reserved_trigger_env t.spec.env) where
    config_holds : HoldsAt "AGENTPLANE_TRIGGER_CONFIG"
    config_holds =
        sometimes_found "AGENTPLANE_TRIGGER_CONFIG" (promised_config t.spec.config)
          (variable-AvoidsEnv _ reserved_trigger_env t.spec.env avoids refl)
          (rw (optional_variable "AGENTPLANE_TRIGGER_CONFIG" secret_name t.spec.config)
            (simp or_else-none))
          refl

    credential_holds : HoldsAt env_credential_path
    credential_holds =
        sometimes_found env_credential_path _
          (variable-AvoidsEnv _ reserved_trigger_env t.spec.env avoids refl)
          (rw (optional_variable env_credential_path secret_name t.spec.config) (simp or_else-none))
          refl

    adapter_env-holds : (name : String) → HoldsAt name
    unfolding HoldsAt
    adapter_env-holds name = elim (Bool-cases (env_agent_endpoint == name)) [
      | inl e ↦ subst HoldsAt ((eq_iff _ name).0 e) (endpoint_holds)
      | inr a ↦ elim (Bool-cases ("AGENTPLANE_AGENT_NAME" == name)) [
        | inl e ↦ subst HoldsAt ((eq_iff _ name).0 e) (agent_name_holds)
        | inr b ↦ elim (Bool-cases ("AGENTPLANE_AGENT_NAMESPACE" == name)) [
          | inl e ↦ subst HoldsAt ((eq_iff _ name).0 e) (namespace_holds)
          | inr c ↦ elim (Bool-cases ("AGENTPLANE_TRIGGER_NAME" == name)) [
            | inl e ↦ subst HoldsAt ((eq_iff _ name).0 e) (trigger_name_holds)
            | inr d ↦ elim (Bool-cases ("AGENTPLANE_TRIGGER_CONFIG" == name)) [
              | inl e ↦ subst HoldsAt ((eq_iff _ name).0 e) (config_holds)
              | inr f ↦ elim (Bool-cases (env_credential_path == name)) [
                | inl e ↦ subst HoldsAt ((eq_iff _ name).0 e) (credential_holds)
                | inr g ↦
                    own_found name
                      (rw (optional_variable name secret_name t.spec.config, a, b, c, d, f, g) refl)
                      (rw (a, b, c, d, f, g) refl)
              ]
            ]
          ]
        ]
      ]
    ]

-- The adapter of a valid Trigger takes for each name of the contract exactly what is promised: the
-- address of the Agent, the names of the Agent, its namespace and the Trigger, the configuration
-- where it is not empty, and the path of the credential where there is one, and no entry else. For
-- every other name it takes what the Trigger sets.
pub adapter_env-variable :
    (t : Trigger) (endpoint secret_name name : String)
    → validate_trigger t.spec ≡ none
    → variable name (adapter_env t endpoint secret_name) ≡ promised t endpoint secret_name name
unfolding validate_trigger HoldsAt
adapter_env-variable t endpoint secret_name name valid =
    elim (Bool-cases (t.spec.agent_ref.name == "")) [
      | inl e ↦ ground (arith, valid, e)
      | inr e ↦
          let (env, _) = (or_then-eq-none _ _).0 (rw e at valid) in
          adapter_env-holds t endpoint secret_name
            ((env_error-eq-none_iff "spec.env" reserved_trigger_env t.spec.env).0 env) name
    ]
