-- ===== src/Webhooks.antt =====
-- The validating webhooks of internal/webhook/v1alpha1, agent_webhook.go and tool_webhook.go. They warn of
-- nothing, so that what they return is the error, where there is one.
pub mod Laws
mod Examples
use agent_plane.Base.{String, ◌<>◌, Option, none, some}
use agent_plane.Api.{Agent, Tool}
use agent_plane.Validation.Agents.{ParseQuantity, validate_agent}
use agent_plane.Validation.Kinds.{validate_tool}

-- `runtime.Object`. What is neither an Agent nor a Tool is its type, as `%T` prints it.
pub data RuntimeObject : Type 0 where
  of_agent : Agent → RuntimeObject
  of_tool : Tool → RuntimeObject
  of_other : (type_name : String) → RuntimeObject

abbrev type_name : RuntimeObject → String
type_name (of_agent a) = "*v1alpha1.Agent"
type_name (of_tool t) = "*v1alpha1.Tool"
type_name (of_other name) = name

unfoldable pub validate_agent_create : ParseQuantity → RuntimeObject → Option String
validate_agent_create parse_quantity (of_agent a) = validate_agent parse_quantity a.spec
validate_agent_create parse_quantity o = some ("expected a Agent object but got " <> type_name o)

unfoldable pub validate_agent_update : ParseQuantity → RuntimeObject → RuntimeObject → Option String
validate_agent_update parse_quantity old (of_agent a) = validate_agent parse_quantity a.spec
validate_agent_update parse_quantity old o =
    some ("expected a Agent object for the newObj but got " <> type_name o)

unfoldable pub validate_agent_delete : RuntimeObject → Option String
validate_agent_delete (of_agent a) = none
validate_agent_delete o = some ("expected a Agent object but got " <> type_name o)

unfoldable pub validate_tool_create : RuntimeObject → Option String
validate_tool_create (of_tool t) = validate_tool t.spec
validate_tool_create o = some ("expected a Tool object but got " <> type_name o)

unfoldable pub validate_tool_update : RuntimeObject → RuntimeObject → Option String
validate_tool_update old (of_tool t) = validate_tool t.spec
validate_tool_update old o = some ("expected a Tool object for the newObj but got " <> type_name o)

unfoldable pub validate_tool_delete : RuntimeObject → Option String
validate_tool_delete (of_tool t) = none
validate_tool_delete o = some ("expected a Tool object but got " <> type_name o)
