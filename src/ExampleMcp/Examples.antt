-- ===== src/ExampleMcp/Examples.antt =====
-- Requests to the example server.
use agent_plane.Base.{String, true, false, none, some, [], ◌==◌, ◌≡◌, refl, if◌then◌else◌}
use agent_plane.ExampleMcp.Rpc.{RpcRequest, RpcResponse, Wire, unreachable, plain, accepted, rpc}
use agent_plane.ExampleMcp.Tools.{fetch_weather}
use agent_plane.ExampleMcp.{tools_list, handle_rpc}
use agent_plane.ExampleMcp.Laws.{is_result, serves, handle_rpc-is_result}

abbrev request : String → String → RpcRequest
request id name = record { id = id; rpc_method = "tools/call"; params = name }

-- Three bodies that decode; the parameters are the name of the tool, with no arguments.
abbrev wire : Wire
wire = record {
  decode = λ body.
      if body == "hotels"
      then some (request "7" "search_hotels")
      else if body == "flights"
      then some (request "8" "search_flights")
      else if body == "note"
      then some (request "" "search_hotels")
      else none;
  unmarshal_params = λ params. record { name = params; arguments = [] };
  marshal = λ v. "{}";
  path_escape = λ s. s;
  fetch = λ url. unreachable "timeout";
}

only_posts : handle_rpc wire "GET" "hotels" ≡ plain 405 "POST only\n"
unfolding handle_rpc
only_posts = refl

notified : handle_rpc wire "POST" "note" ≡ accepted
unfolding handle_rpc
notified = refl

serves_hotels : serves wire (request "7" "search_hotels") ≡ true
unfolding tools_list
serves_hotels = refl

serves_no_flights : serves wire (request "8" "search_flights") ≡ false
unfolding tools_list
serves_no_flights = refl

offline : fetch_weather wire "Beijing" ≡ "weather for Beijing unavailable (timeout)"
unfolding fetch_weather
offline = refl

handle_rpc-is_result_example :
    (response : RpcResponse) × (handle_rpc wire "POST" "hotels" ≡ rpc response)
    × (response.id ≡ "7")
    × (is_result response.outcome ≡ serves wire (request "7" "search_hotels"))
handle_rpc-is_result_example =
    handle_rpc-is_result wire "hotels" (request "7" "search_hotels") refl refl
