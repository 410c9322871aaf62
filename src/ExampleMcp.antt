-- ===== src/ExampleMcp.antt =====
-- The MCP server of cmd/example-mcp/main.go: `handleRPC`.
pub mod Content
pub mod Rpc
pub mod Tools
pub mod Laws
mod Examples
use agent_plane.Base.{
  ℕ, String, ◌<>◌, Bool, true, false, Option, none, some, List, [], ◌∷◌, ◌==◌, ◌==ℕ◌, not, ◌||◌,
  if◌then◌else◌, map,
}
use agent_plane.ExampleMcp.Content.{
  Json, flag, text, raw, array_of, object_of, order_tool_schema, weather_tool_schema,
  attractions_tool_schema, hotels_tool_schema, history_list, nature_list, food_list, default_mix,
  budget_list, comfort_list, luxury_list,
}
use agent_plane.ExampleMcp.Rpc.{
  pos, negsuc, ℤ, RpcRequest, RpcError, Outcome, result, error, RpcResponse, Answer, plain,
  accepted, rpc, CallParams, Fetched, no_request, unreachable, answered, Wire, write_result,
  write_err,
}
use agent_plane.ExampleMcp.Tools.{handle_tool_call}

abbrev tool_entry : String → String → String → Json
tool_entry name description schema =
    object_of
      (("name", text name) ∷ ("description", text description) ∷ ("inputSchema", raw schema) ∷ [])

abbrev pub initialize_result : Json
initialize_result = object_of (
    ("protocolVersion", text "2025-06-18")
    ∷ ("capabilities", object_of (("tools", object_of []) ∷ []))
    ∷ (
      "serverInfo",
      object_of (("name", text "agent-plane-example-mcp") ∷ ("version", text "0.1.0") ∷ []),
    )
    ∷ [])

unfoldable pub tools_list : Json
tools_list = object_of (
    (
      "tools",
      array_of (
          tool_entry "get_order_status"
            "Look up the delivery status of a customer order by its order id." order_tool_schema
          ∷ tool_entry "get_weather" "Get the current weather for a city." weather_tool_schema
          ∷ tool_entry "search_attractions"
              "Search tourist attractions in a city, optionally filtered by traveler preference (history, nature, food)."
              attractions_tool_schema
          ∷ tool_entry "search_hotels"
              "Search hotels in a city by accommodation type (budget, comfort, luxury)."
              hotels_tool_schema
          ∷ []),
    )
    ∷ [])

pub answer_method : Wire → RpcRequest → RpcResponse
answer_method w req =
    if req.rpc_method == "initialize"
    then write_result req.id initialize_result
    else if req.rpc_method == "tools/list"
    then write_result req.id tools_list
    else if req.rpc_method == "tools/call"
    then handle_tool_call w req
    else write_err req.id (negsuc 32600) ("method not found: " <> req.rpc_method)

-- The argument is the HTTP method and the body.
unfoldable pub handle_rpc : Wire → String → String → Answer
unfolding answer_method
handle_rpc w http_method body =
    if not (http_method == "POST") then plain 405 "POST only\n" else elim (w.decode body) [
      | none ↦ rpc (write_err "" (negsuc 32699) "parse error")
      | some req ↦ if req.id == "" then accepted else rpc (answer_method w req)
    ]
