-- ===== src/Registry/Server.antt =====
-- `handleAgent`, `handleConfig` and `onAgentChange` of cmd/registry/main.go.
pub mod Routes
use Prim.Native.Char.{code}
use agent_plane.Base.{
  ℕ, String, ◌<>◌, Bool, true, false, Option, none, some, List, [], ◌∷◌, ◌==◌, ◌==ℕ◌, if◌then◌else◌,
}
use agent_plane.Api.{Agent, AgentSpec}
use agent_plane.Cluster.{Reader, Result, ok, err}
use agent_plane.Registry.Hub.{Hub, broadcast}
use agent_plane.Registry.Views.{AgentConfig}
use agent_plane.Registry.Config.{build_config, build_config_from}

-- `strings.TrimPrefix(s, prefix)`: the rest after the prefix, where it is there.
strip : String → String → Option String
strip s String.[] = some s
strip String.[] (String.◌∷◌ d p) = none
strip (String.◌∷◌ c s) (String.◌∷◌ d p) =
    let rest = strip s p in if code c ==ℕ code d then rest else none

abbrev trim_prefix : String → String → String
trim_prefix s prefix = elim (strip s prefix) [ none ↦ s | some rest ↦ rest ]

-- `strings.Split(s, "/")`.
abbrev onto_first : String → List String → List String
onto_first c [] = c ∷ []
onto_first c (w ∷ ws) = (c <> w) ∷ ws

split : String → List String
split String.[] = "" ∷ []
split (String.◌∷◌ c s) =
    let rest = split s in
    if code c ==ℕ b'/' then "" ∷ rest else onto_first (String.◌∷◌ c String.[]) rest

-- What the request is dispatched to.
pub data Route : Type 0 where
  config : (ns name : String) → Route
  watch : (ns name : String) → Route
  bad_request : (message : String) → Route

dispatch : List String → Route
dispatch (ns ∷ name ∷ verb ∷ []) =
    if verb == "config"
    then config ns name
    else if verb == "watch"
    then watch ns name
    else bad_request ("unknown verb: " <> verb)
dispatch _ = bad_request "expected /v1/agents/{namespace}/{name}/{config|watch}"

unfoldable pub handle_agent : String → Route
unfolding strip split dispatch
handle_agent path = dispatch (split (trim_prefix path "/v1/agents/"))

pub record Response : Type 0 where
  pub status : ℕ
  pub body : String

-- A one-shot snapshot. `encode` stands for `json.Marshal` of the payload, whose error leaves the body
-- empty; the encoder ends what it writes with a newline.
unfoldable pub handle_config :
    (AgentSpec → Result String)
    → (AgentConfig → Option String)
    → Reader
    → String
    → String
    → Response
handle_config marshal encode r ns name = elim (build_config marshal r ns name) [
  | err e ↦ record { status = 404; body = "agent " <> ns <> "/" <> name <> ": " <> e <> "\n" }
  | ok (cfg, rv) ↦ record {
    status = 200;
    body = elim (encode cfg) [ none ↦ "" | some text ↦ text <> "\n" ];
  }
]

-- A change that the informer reports of an Agent; a configuration that cannot be built is logged.
unfoldable pub on_agent_change :
    (AgentSpec → Result String) → Reader → Hub AgentConfig → Agent → Hub AgentConfig
on_agent_change marshal r h a = elim (build_config_from marshal r a) [
  | err e ↦ h
  | ok cfg ↦ broadcast h (a.meta.ns <> "/" <> a.meta.name) a.meta.resource_version cfg
]
