-- ===== src/ExampleMcp/Rpc.antt =====
-- The requests and answers of cmd/example-mcp/main.go, and what its handlers call.
use agent_plane.Base.{ℕ, String, Option, List}
use agent_plane.ExampleMcp.Content.{Json}

pub data ℤ : Type 0 where
  pos : ℕ → ℤ
  negsuc : ℕ → ℤ

-- `rpcRequest`; `id` and `params` are raw, and empty where they are absent.
pub record RpcRequest : Type 0 where
  pub id : String
  pub rpc_method : String
  pub params : String

pub record RpcError : Type 0 where
  pub code : ℤ
  pub message : String

pub data Outcome : Type 0 where
  result : Json → Outcome
  error : RpcError → Outcome

-- `rpcResponse`, whose version is always "2.0".
pub record RpcResponse : Type 0 where
  pub id : String
  pub outcome : Outcome

pub data Answer : Type 0 where
  plain : (status : ℕ) (body : String) → Answer
  accepted : Answer
  rpc : RpcResponse → Answer

-- What `tools/call` is given: an argument that is not text is as one that is absent.
pub record CallParams : Type 0 where
  pub name : String
  pub arguments : List (String × String)

-- The answer of wttr.in, the error of the request, or that no request could be made of the address.
pub data Fetched : Type 0 where
  no_request : Fetched
  unreachable : (error : String) → Fetched
  answered : (status : ℕ) (body : String) → Fetched

-- `encoding/json`, `net/url` and the outgoing request.
pub record Wire : Type 0 where
  pub decode : String → Option RpcRequest
  pub unmarshal_params : String → CallParams
  pub marshal : Json → String
  pub path_escape : String → String
  pub fetch : String → Fetched

abbrev pub write_result : String → Json → RpcResponse
write_result id r = record { id = id; outcome = result r }

abbrev pub write_err : String → ℤ → String → RpcResponse
write_err id code message = record {
  id = id;
  outcome = error (record { code = code; message = message });
}
