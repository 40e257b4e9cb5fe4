-- ===== src/Error.antt =====
-- The errors of src/error.rs.
use nexus_relay.External.Packages.{Packages}
use nexus_relay.Jsonrpc.{Error as JsonrpcError}

module _ (pk : Packages) where
  -- `json_rpc`, `json_rpc_lite`, `elements` and `liquidex` are also the `From` conversions.
  pub data Error : Type 0 where
    json_rpc_lite : pk.RpcError → Error
    json_rpc : JsonrpcError pk → Error
    elements : pk.EncodeError → Error
    liquidex : pk.LwkError → Error
