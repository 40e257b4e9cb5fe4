-- ===== src/Jsonrpc.antt =====
-- The messages of src/jsonrpc.rs: methods, parameters, requests, responses and errors.
pub mod Parse
pub mod PairTopic
use text.Mathlib.Text.{◌==◌}
use nexus_relay.Prelude.{
  ℕ, ◌-◌, String, Bool, true, false, Option, none, some, List, [], ◌∷◌, ℤ, pos, negsuc,
  if◌then◌else◌, ◌&◌, Result, ok, err, Outcome, returns, fails, panics,
}
use Prim.Native.String
use nexus_relay.Prelude.Fallible.{◌>>=◌}
use nexus_relay.External.Packages.{Packages}
use nexus_relay.Payload.{
  Any, Tx, Pair, Wallet, Pset, any_to_value, tx_to_value, pair_to_value, wallet_to_value,
  pset_to_value,
}
use nexus_relay.Topic.{Topic, validated, unvalidated}

pub data Method : Type 0 where
  publish subscribe unsubscribe : Method

-- `Display`, and `FromStr` up to its error, which is always `InvalidMethod`.
unfoldable pub method_to_string : Method → String
method_to_string publish = "publish"
method_to_string subscribe = "subscribe"
method_to_string unsubscribe = "unsubscribe"

unfoldable pub method_from_str : String → Option Method
method_from_str s =
    if s == "publish"
    then some publish
    else if s == "subscribe"
    then some subscribe
    else if s == "unsubscribe"
    then some unsubscribe
    else none

module _ (pk : Packages) where
  open pk use {
    Value, string, null, object, RpcId, id_to_value, RpcError, rpc_error, invalid_request_code,
    JsonRpc, success, error, request_with_params, to_string, Unvalidated, Validated,
    unvalidated_to_value, validated_to_value, input_asset, output_asset,
  }

  pub data Params : Type 0 where
    any : Any → Params
    address : String → Params
    tx : Tx → Params
    pair : Pair → Params
    wallet : Wallet → Params
    empty : Params
    proposal : Unvalidated → Params
    pset : Pset → Params
    ping : Params

  -- The derived `Serialize`: a map from the variant's name in lower case to its payload, and the
  -- bare name for a variant without one.
  unfoldable pub params_to_value : Params → Value
  params_to_value (any a) = object (("any", any_to_value pk.json a) ∷ [])
  params_to_value (address a) = object (("address", string a) ∷ [])
  params_to_value (tx t) = object (("tx", tx_to_value pk.json t) ∷ [])
  params_to_value (pair p) = object (("pair", pair_to_value pk.json p) ∷ [])
  params_to_value (wallet w) = object (("wallet", wallet_to_value pk.json w) ∷ [])
  params_to_value empty = string "empty"
  params_to_value (proposal p) = object (("proposal", unvalidated_to_value p) ∷ [])
  params_to_value (pset p) = object (("pset", pset_to_value pk.json p) ∷ [])
  params_to_value ping = object (("ping", null) ∷ [])

  pub data Error : Type 0 where
    invalid_id : Option RpcId → Error
    invalid_method invalid_params invalid_params_for_this_method : Error
    array_params_are_invalid params_must_contain_a_single_root_element : Error

  id_or_null : Option RpcId → Value
  id_or_null none = null
  id_or_null (some id) = id_to_value id

  -- `From<&Error> for jsonrpc_lite::Error`
  pub error_to_rpc_error : Error → RpcError
  unfolding id_or_null
  error_to_rpc_error (invalid_id id) =
      rpc_error invalid_request_code "Invalid id, must be present, not a string and positive"
        (some (id_or_null id))
  error_to_rpc_error invalid_method = pk.method_not_found
  error_to_rpc_error invalid_params = pk.invalid_params
  error_to_rpc_error invalid_params_for_this_method = pk.invalid_params
  error_to_rpc_error array_params_are_invalid = pk.invalid_params
  error_to_rpc_error params_must_contain_a_single_root_element = pk.invalid_params

  -- `From<Error> for JsonRpc`: the answer to a request that failed.
  unfoldable pub error_to_json_rpc : Error → JsonRpc
  error_to_json_rpc e = error (pos 0) (error_to_rpc_error e)

  pub record NexusRequest : Type 0 where
    pub id : ℕ
    pub method : Method
    pub params : Params

  pub new_address_subscribe : ℕ → String → NexusRequest
  new_address_subscribe id a = record { id = id; method = subscribe; params = address a }

  unfoldable pub new_ping : ℕ → NexusRequest
  new_ping id = record { id = id; method = publish; params = ping }

  pub new_txid_subscribe : ℕ → String → NexusRequest
  new_txid_subscribe id txid = record {
    id = id;
    method = subscribe;
    params = tx (record { txid = txid });
  }

  pub new_publish_proposal : ℕ → Unvalidated → NexusRequest
  new_publish_proposal id p = record { id = id; method = publish; params = proposal p }

  -- `Display for NexusRequest`, before and after the message is written out.
  unfoldable pub request_to_json_rpc : NexusRequest → JsonRpc
  request_to_json_rpc r =
      request_with_params (pos r.id) (method_to_string r.method) (params_to_value r.params)

  unfoldable pub request_to_string : NexusRequest → String
  request_to_string r = to_string (request_to_json_rpc r)

  pub record NexusResponse : Type 0 where
    pub id : Option ℤ
    pub val : Result Error Value

  unfoldable pub new_response : ℕ → Value → NexusResponse
  new_response id val = record { id = some (pos id); val = ok val }

  unfoldable pub new_subscribed : ℕ → NexusResponse
  new_subscribed id = record { id = some (pos id); val = ok (string "subscribed") }

  unfoldable pub new_published : ℕ → NexusResponse
  new_published id = record { id = some (pos id); val = ok (string "published") }

  unfoldable pub new_pong : ℕ → NexusResponse
  new_pong id = record { id = some (pos id); val = ok (string "pong") }

  pub error_response : ℕ → Error → NexusResponse
  error_response id e = record { id = some (pos id); val = err e }

  unfoldable pub notification : Value → NexusResponse
  notification val = record { id = some (negsuc 0); val = ok val }

  -- The result of `to_value` is unwrapped; it is taken not to fail.
  unfoldable pub new_proposal : Validated → NexusResponse
  unfolding notification
  new_proposal p = notification (validated_to_value p)

  -- `From<&NexusResponse> for JsonRpc`, with its `unreachable!`.
  response_parts {ℓ} : {E : Type ℓ} → Option ℤ → Result Error Value → Outcome E JsonRpc
  response_parts (some id) (ok val) = returns (success id val)
  response_parts (some id) (err e) = returns (error id (error_to_rpc_error e))
  response_parts none (ok val) = returns (success (negsuc 0) val)
  response_parts none (err e) = panics

  unfoldable pub response_to_json_rpc {ℓ} : {E : Type ℓ} → NexusResponse → Outcome E JsonRpc
  unfolding response_parts
  response_to_json_rpc r = response_parts r.id r.val

  -- `Display for NexusResponse`
  unfoldable pub response_to_string {ℓ} : {E : Type ℓ} → NexusResponse → Outcome E String
  unfolding response_to_json_rpc
  response_to_string r = do message ← response_to_json_rpc r; returns (to_string message)

  unfoldable pub pair_topic : Pair → Topic
  pair_topic p = validated (p.input & ":" & p.output)

  unfoldable pub topic_from_params : Params → Outcome Error Topic
  topic_from_params (any a) = returns (unvalidated a.topic)
  topic_from_params (address a) = returns (validated a)
  topic_from_params (tx t) = returns (validated t.txid)
  topic_from_params (pair p) = returns (pair_topic p)
  topic_from_params (pset p) = returns (validated p.wallet_id)
  topic_from_params _ = fails invalid_params

  unfoldable pub topic_from_proposal : Validated → Outcome Error Topic
  topic_from_proposal p = returns (validated (input_asset p & ":" & output_asset p))
