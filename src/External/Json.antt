-- ===== src/External/Json.antt =====
-- `serde_json` and `jsonrpc_lite` (src/jsonrpc.rs, src/lib.rs).
use nexus_relay.Prelude.{ℕ, String, Option, List, ℤ}

-- `jsonrpc_lite::Params`; `nothing` is its `None`. A map's entries stand in its iteration order.
pub data RpcParams (Value : Type 0) : Type 0 where
  array : List Value → RpcParams Value
  map : List (String × Value) → RpcParams Value
  nothing : RpcParams Value

pub record Json : Type 1 where
  -- `serde_json::Value`, with the constructors and accessors that the source uses. `object` is
  -- the value that `to_value` makes of a struct with these fields.
  pub Value : Type 0
  pub string : String → Value
  pub null : Value
  pub object : List (String × Value) → Value
  pub index : Value → String → Value
  pub as_array : Value → Option (List Value)
  -- `from_value::<String>`; `none` is an error.
  pub string_from_value : Value → Option String
  -- `jsonrpc_lite::Id`: `num` is `Id::Num`, which holds an i64, and `as_num` matches it.
  pub RpcId : Type 0
  pub num : ℤ → RpcId
  pub as_num : RpcId → Option ℤ
  pub id_to_value : RpcId → Value
  -- `jsonrpc_lite::Error`: `rpc_error` is the struct with its code, message and data.
  pub RpcError : Type 0
  pub rpc_error : ℤ → String → Option Value → RpcError
  pub invalid_request_code : ℤ
  pub method_not_found : RpcError
  pub invalid_params : RpcError
  pub parse_error : RpcError
  -- `jsonrpc_lite::JsonRpc`. `to_string` is `serde_json::to_string(..).unwrap()`.
  pub JsonRpc : Type 0
  pub parse : String → Option JsonRpc
  pub to_string : JsonRpc → String
  pub get_id : JsonRpc → Option RpcId
  pub get_method : JsonRpc → Option String
  pub get_params : JsonRpc → Option (RpcParams Value)
  pub success : ℤ → Value → JsonRpc
  pub error : ℤ → RpcError → JsonRpc
  pub request_with_params : ℤ → String → Value → JsonRpc

-- `reqwest::Client`, as a function from URLs to what the server answers: the body of a GET request,
-- or the JSON in it; `none` is any error.
pub record Http (j : Json) : Type 0 where
  pub get_bytes : String → Option (List ℕ)
  pub get_json : String → Option j.Value
