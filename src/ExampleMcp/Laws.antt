-- ===== src/ExampleMcp/Laws.antt =====
-- Which requests the example server answers with a result.
use agent_plane.Base.{
  String, Bool, true, false, ◌&&◌, ◌||◌, some, List, [], ◌∷◌, ◌==◌, ◌≡◌, refl, arith, mem, ◌++◌,
  if◌then◌else◌, eq_iff,
}
use agent_plane.ExampleMcp.Content.{
  Json, text, array, object, Items, no_items, item, Fields, no_fields, field,
}
use agent_plane.ExampleMcp.Rpc.{RpcRequest, RpcResponse, Outcome, result, error, rpc, Wire}
use agent_plane.ExampleMcp.Tools.{
  handle_tool_call, handle_get_order_status, handle_get_weather, handle_search_attractions,
  handle_search_hotels,
}
use agent_plane.ExampleMcp.{tools_list, answer_method, handle_rpc}

abbrev pub is_result : Outcome → Bool
is_result (result r) = true
is_result (error e) = false

-- The value of a key, as the entries of an object.
abbrev text_at : String → Fields → List String
text_at key no_fields = []
text_at key (field k (text s) rest) = if k == key then s ∷ [] else text_at key rest
text_at key (field k v rest) = text_at key rest

abbrev names_in : Items → List String
names_in no_items = []
names_in (item (object fs) rest) = text_at "name" fs ++ names_in rest
names_in (item v rest) = names_in rest

abbrev tools_in : Fields → List String
tools_in no_fields = []
tools_in (field k (array xs) rest) = if k == "tools" then names_in xs else tools_in rest
tools_in (field k v rest) = tools_in rest

-- The names that a result of `tools/list` tells of.
abbrev pub advertised : Json → List String
advertised (object fs) = tools_in fs
advertised v = []

abbrev pub serves : Wire → RpcRequest → Bool
serves w req =
    mem req.rpc_method ("initialize" ∷ "tools/list" ∷ [])
    || (req.rpc_method == "tools/call"
        && mem (w.unmarshal_params req.params).name (advertised tools_list))

advertised-tools_list :
    advertised tools_list
    ≡ "get_order_status" ∷ "get_weather" ∷ "search_attractions" ∷ "search_hotels" ∷ []
unfolding tools_list
advertised-tools_list = refl

-- The equality test answers alike both ways.
eq_swap : (a b : String) → (a == b) ≡ (b == a)
eq_swap a b = ground (arith, eq_iff a b, eq_iff b a)

-- A response to the request of the id, that holds a result exactly if the test says so.
record Answers (id : String) (fine : Bool) (response : RpcResponse) : Type 0 where
  id_echoed : response.id ≡ id
  outcome_told : is_result response.outcome ≡ fine

told : {id : String} {o : Outcome} → Answers id (is_result o) (record { id = id; outcome = o })
told = record { id_echoed = refl; outcome_told = refl }

Answers_where :
    (id : String) (b fine : Bool) (x y : RpcResponse)
    → Answers id fine x
    → Answers id false y
    → Answers id (b && fine) (if b then x else y)
Answers_where id true fine x y h k = h
Answers_where id false fine x y h k = k

Answers_then :
    (id : String) (b fine : Bool) (x y : RpcResponse)
    → Answers id true x
    → Answers id fine y
    → Answers id (b || fine) (if b then x else y)
Answers_then id true fine x y h k = h
Answers_then id false fine x y h k = k

handle_tool_call-Answers :
    (w : Wire) (req : RpcRequest)
    → Answers req.id
        (mem (w.unmarshal_params req.params).name (advertised tools_list))
        (handle_tool_call w req)
unfolding handle_tool_call handle_get_order_status handle_get_weather handle_search_attractions
    handle_search_hotels
handle_tool_call-Answers w req =
    let name = (w.unmarshal_params req.params).name in
    rw
      (
        advertised-tools_list,
        eq_swap "get_order_status" name,
        eq_swap "get_weather" name,
        eq_swap "search_attractions" name,
        eq_swap "search_hotels" name,
      )
      (Answers_then req.id (name == "get_order_status") _ _ _ told (
        Answers_then req.id (name == "get_weather") _ _ _ told (
          Answers_then req.id (name == "search_attractions") _ _ _ told
            (Answers_then req.id (name == "search_hotels") _ _ _ told told))))

-- Where a POST decodes to a request that has an id, whatever its method: it is answered with that id,
-- and with a result exactly if it initializes, lists the tools, or calls one of the tools that are
-- listed; otherwise with an error.
pub handle_rpc-is_result :
    (w : Wire) (body : String) (req : RpcRequest)
    → w.decode body ≡ some req
    → (req.id == "") ≡ false
    → (response : RpcResponse) × (handle_rpc w "POST" body ≡ rpc response)
      × (response.id ≡ req.id)
      × (is_result response.outcome ≡ serves w req)
unfolding answer_method handle_rpc
handle_rpc-is_result w body req decoded present =
    let name = (w.unmarshal_params req.params).name in
    let answers : Answers req.id
        (req.rpc_method == "initialize"
          || (req.rpc_method == "tools/list"
              || (req.rpc_method == "tools/call" && mem name (advertised tools_list))))
        (answer_method w req) =
      Answers_then req.id (req.rpc_method == "initialize") _ _ _ told (
        Answers_then req.id (req.rpc_method == "tools/list") _ _ _ told (
          Answers_where req.id (req.rpc_method == "tools/call") _ _ _
            (handle_tool_call-Answers w req) told)) in
    (
      answer_method w req,
      rw (handle_rpc, decoded, present) refl,
      answers.id_echoed,
      rw (eq_swap "initialize" req.rpc_method, eq_swap "tools/list" req.rpc_method)
          (ground (arith, answers.outcome_told)),
    )
