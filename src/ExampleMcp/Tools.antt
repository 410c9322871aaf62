-- ===== src/ExampleMcp/Tools.antt =====
-- The tools of cmd/example-mcp/main.go: the handlers of `tools/call`.
use agent_plane.Base.{String, ◌<>◌, false, List, [], ◌∷◌, ◌==◌, ◌==ℕ◌, not, ◌||◌, if◌then◌else◌}
use agent_plane.ExampleMcp.Content.{
  Json, flag, text, array_of, object_of, history_list, nature_list, food_list, default_mix,
  budget_list, comfort_list, luxury_list,
}
use agent_plane.ExampleMcp.Rpc.{
  negsuc, RpcRequest, RpcResponse, no_request, unreachable, answered, Wire, write_result, write_err,
}

pub argument : String → List (String × String) → String
argument name [] = ""
argument name ((n, v) ∷ rest) = if n == name then v else argument name rest

-- An argument, or "unknown" where it is empty.
abbrev known : String → List (String × String) → String
known name args = let v = argument name args in if v == "" then "unknown" else v

abbrev pub content : String → Json
content s = object_of (
    ("content", array_of (object_of (("type", text "text") ∷ ("text", text s) ∷ []) ∷ []))
    ∷ ("isError", flag false)
    ∷ [])

abbrev pub weather_url : Wire → String → String
weather_url w city =
    "https://wttr.in/" <> w.path_escape city <> "?format=%l:+%C,+%t,+humidity+%h,+wind+%w&m"

abbrev unavailable : String → String
unavailable city = "weather for " <> city <> " unavailable"

unfoldable pub fetch_weather : Wire → String → String
fetch_weather w city = elim (w.fetch (weather_url w city)) [
  | no_request ↦ unavailable city
  | unreachable e ↦ unavailable city <> " (" <> e <> ")"
  | answered status body ↦ if not (status ==ℕ 200) || body == "" then unavailable city else body
]

unfoldable pub handle_get_weather : Wire → RpcRequest → List (String × String) → RpcResponse
handle_get_weather w req args = write_result req.id (content (fetch_weather w (known "city" args)))

-- `byPref` and the default mix.
pub attractions_for : String → List Json
attractions_for pref =
    if pref == "history"
    then history_list
    else if pref == "nature"
    then nature_list
    else if pref == "food"
    then food_list
    else default_mix

unfoldable pub handle_search_attractions : Wire → RpcRequest → List (String × String) → RpcResponse
handle_search_attractions w req args =
    let pref = argument "preference" args in
    write_result req.id (
      content (
        w.marshal (
          object_of (
            ("city", text (known "city" args))
            ∷ ("preference", text pref)
            ∷ ("attractions", array_of (attractions_for pref))
            ∷ []))))

-- `byType` and its default.
pub hotels_for : String → List Json
hotels_for kind =
    if kind == "budget" then budget_list else if kind == "luxury" then luxury_list else comfort_list

unfoldable pub handle_search_hotels : Wire → RpcRequest → List (String × String) → RpcResponse
handle_search_hotels w req args =
    let kind = argument "type" args in
    write_result req.id (
      content (
        w.marshal (
          object_of (
            ("city", text (known "city" args))
            ∷ ("type", text kind)
            ∷ ("hotels", array_of (hotels_for kind))
            ∷ []))))

unfoldable pub handle_get_order_status : Wire → RpcRequest → List (String × String) → RpcResponse
handle_get_order_status w req args = write_result req.id (
    content (
      w.marshal (
        object_of (
          ("orderId", text (known "orderId" args))
          ∷ ("status", text "shipped")
          ∷ ("carrier", text "UPS")
          ∷ ("eta", text "2026-07-20")
          ∷ []))))

unfoldable pub handle_tool_call : Wire → RpcRequest → RpcResponse
unfolding handle_get_order_status handle_get_weather handle_search_attractions handle_search_hotels
handle_tool_call w req =
    let params = w.unmarshal_params req.params in
    if params.name == "get_order_status"
    then handle_get_order_status w req params.arguments
    else if params.name == "get_weather"
    then handle_get_weather w req params.arguments
    else if params.name == "search_attractions"
    then handle_search_attractions w req params.arguments
    else if params.name == "search_hotels"
    then handle_search_hotels w req params.arguments
    else write_err req.id (negsuc 32601) ("unknown tool: " <> params.name)
