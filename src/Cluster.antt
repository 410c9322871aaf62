-- ===== src/Cluster.antt =====
-- The Kubernetes API server as the program reads it: a parameter. A pass of a controller or of the
-- Registry sees one state of it.
mod Conditions
unfoldable pub use Conditions.*
use agent_plane.Base.{String, ◌≡◌, refl, ◌⊎◌, inl, inr}
use agent_plane.Api.{
  Agent, AgentClass, Model, PromptTemplate, Tool, ToolSet, Skill, Policy, ToolPolicy, Credential,
  McpServer, ConfigMap, Secret,
}

-- What `client.Get` answers: the object, a NotFound error, or another error with its text.
pub data Got {ℓ} (A : Type ℓ) : Type ℓ where
  found : A → Got A
  not_found : Got A
  failed : String → Got A

pub Got-cases {ℓ} :
    {A : Type ℓ} (g : Got A)
    → ((a : A) × (g ≡ found a)) ⊎ ((g ≡ not_found) ⊎ ((e : String) × (g ≡ failed e)))
Got-cases (found a) = inl (a, refl)
Got-cases not_found = inr (inl refl)
Got-cases (failed e) = inr (inr (e, refl))

-- A value, or the error that the source returns.
pub data Result {ℓ} (A : Type ℓ) : Type ℓ where
  ok : A → Result A
  err : String → Result A

infixl 5 ◌>>=◌
abbrev pub ◌>>=◌ {ℓ κ} : {A : Type ℓ} {B : Type κ} → Result A → (A → Result B) → Result B
ok a >>= f = f a
err e >>= f = err e

-- `client.Reader`, one field for each kind, from a namespace and a name.
pub record Reader : Type 0 where
  pub get_agent : String → String → Got Agent
  pub get_class : String → String → Got AgentClass
  pub get_model : String → String → Got Model
  pub get_prompt : String → String → Got PromptTemplate
  pub get_tool : String → String → Got Tool
  pub get_tool_set : String → String → Got ToolSet
  pub get_skill : String → String → Got Skill
  pub get_policy : String → String → Got Policy
  pub get_tool_policy : String → String → Got ToolPolicy
  pub get_credential : String → String → Got Credential
  pub get_mcp_server : String → String → Got McpServer
  pub get_config_map : String → String → Got ConfigMap
  pub get_secret : String → String → Got Secret

pub Result-cases {ℓ} :
    {A : Type ℓ} (x : Result A) → ((a : A) × (x ≡ ok a)) ⊎ ((e : String) × (x ≡ err e))
Result-cases (ok a) = inl (a, refl)
Result-cases (err e) = inr (e, refl)
