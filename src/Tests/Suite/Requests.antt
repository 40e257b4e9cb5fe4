-- ===== src/Tests/Suite/Requests.antt =====
-- The tests of src/jsonrpc.rs.
use nexus_relay.Prelude.{String, none, some, [], ◌∷◌, pos, negsuc, returns, ◌≡◌, refl, All}
use nexus_relay.Jsonrpc.{
  Method, publish, subscribe, unsubscribe, Params, any, address, tx, pair, wallet, proposal, pset,
  ping, NexusRequest, new_response, notification, request_to_string, request_to_json_rpc,
  params_to_value, response_to_json_rpc, method_to_string, method_from_str,
}
use nexus_relay.Jsonrpc.Parse.{
  try_from, parse_id, parse_method, parse_params, parse_entries, parse_entry, validate_for_method,
}
use nexus_relay.Tests.Sample.{sample}
use nexus_relay.Tests.Sample.Chain.{proposal_value}
use nexus_relay.Tests.Sample.Messages.{Value, str, object, field, end, JsonRpc, request, success}

-- What a message is read as: its method, and its parameters.
abbrev Reads : JsonRpc → Method → Params sample → Type 0
Reads jsonrpc method params =
    (r : NexusRequest sample) × (try_from sample jsonrpc ≡ returns r)
    × (r.method ≡ method)
    × (r.params ≡ params)

-- What it is written as, besides.
abbrev ReadsAs : JsonRpc → Method → Params sample → String → Type 0
ReadsAs jsonrpc method params written =
    (r : NexusRequest sample) × (try_from sample jsonrpc ≡ returns r)
    × (r.method ≡ method)
    × (r.params ≡ params)
    × (request_to_string sample r ≡ written)

abbrev one : String → Value → Value
one key value = object (field key value end)

abbrev two : String → String → String → String → Value
two k a l b = object (field k (str a) (field l (str b) end))

abbrev TestNexusRequestPing : Type 0
TestNexusRequestPing =
    ReadsAs (request (pos 10) "publish" (one "ping" (object end))) publish (ping)
      "{\"jsonrpc\":\"2.0\",\"method\":\"publish\",\"params\":{\"ping\":null},\"id\":10}"

nexus_request_ping : TestNexusRequestPing
unfolding try_from parse_id parse_method method_from_str parse_params parse_entries parse_entry
    validate_for_method request_to_string request_to_json_rpc params_to_value method_to_string
nexus_request_ping = (record { id = 10; method = publish; params = ping }, refl, refl, refl, refl)

abbrev TestNexusResponsePing : Type 0
TestNexusResponsePing =
    response_to_json_rpc sample {E = Unit {0}} (new_response sample 10 (str "pong"))
    ≡ returns (success (pos 10) (str "pong"))

nexus_response_ping : TestNexusResponsePing
unfolding response_to_json_rpc new_response
nexus_response_ping = refl

abbrev TestNexusRequestSubscribeAny : Type 0
TestNexusRequestSubscribeAny =
    ReadsAs (request (pos 10) "subscribe" (one "any" (one "topic" (str "test")))) subscribe
      (any (record { topic = "test"; content = none }))
      "{\"jsonrpc\":\"2.0\",\"method\":\"subscribe\",\"params\":{\"any\":{\"topic\":\"test\"}},\"id\":10}"

nexus_request_subscribe_any : TestNexusRequestSubscribeAny
unfolding try_from parse_id parse_method method_from_str parse_params parse_entries parse_entry
    validate_for_method request_to_string request_to_json_rpc params_to_value method_to_string
nexus_request_subscribe_any = (
  record { id = 10; method = subscribe; params = any (record { topic = "test"; content = none }) },
  refl,
  refl,
  refl,
  refl,
)

abbrev TestNexusResponseSubscribe : Type 0
TestNexusResponseSubscribe =
    let notice = one "address" (str "test") in
    (response_to_json_rpc sample {E = Unit {0}} (new_response sample 10 (str "subscribed"))
      ≡ returns (success (pos 10) (str "subscribed")))
    × (response_to_json_rpc sample {E = Unit {0}} (notification sample notice)
        ≡ returns (success (negsuc 0) notice))

nexus_response_subscribe : TestNexusResponseSubscribe
unfolding response_to_json_rpc new_response notification
nexus_response_subscribe = (refl, refl)

abbrev TestNexusRequestSubscribeProposal : Type 0
TestNexusRequestSubscribeProposal =
    Reads (request (pos 10) "subscribe" (one "pair" (two "input" "test" "output" "best"))) subscribe
      (pair (record { input = "test"; output = "best" }))

nexus_request_subscribe_proposal : TestNexusRequestSubscribeProposal
unfolding try_from parse_id parse_method method_from_str parse_params parse_entries parse_entry
    validate_for_method
nexus_request_subscribe_proposal = (
  record {
    id = 10;
    method = subscribe;
    params = pair (record { input = "test"; output = "best" });
  },
  refl,
  refl,
  refl,
)

abbrev TestNexusRequestSubscribeAddress : Type 0
TestNexusRequestSubscribeAddress =
    Reads (request (pos 10) "subscribe" (one "address" (str "test"))) subscribe (address "test")

nexus_request_subscribe_address : TestNexusRequestSubscribeAddress
unfolding try_from parse_id parse_method method_from_str parse_params parse_entries parse_entry
    validate_for_method
nexus_request_subscribe_address =
    (record { id = 10; method = subscribe; params = address "test" }, refl, refl, refl)

abbrev TestNexusRequestSubscribeTx : Type 0
TestNexusRequestSubscribeTx =
    Reads (request (pos 10) "subscribe" (one "tx" (one "txid" (str "test")))) subscribe
      (tx (record { txid = "test" }))

nexus_request_subscribe_tx : TestNexusRequestSubscribeTx
unfolding try_from parse_id parse_method method_from_str parse_params parse_entries parse_entry
    validate_for_method
nexus_request_subscribe_tx = (
  record { id = 10; method = subscribe; params = tx (record { txid = "test" }) },
  refl,
  refl,
  refl,
)

abbrev TestNexusRequestSubscribeWallet : Type 0
TestNexusRequestSubscribeWallet =
    Reads (request (pos 10) "subscribe" (one "wallet" (one "id" (str "walletid")))) subscribe
      (wallet (record { id = "walletid" }))

nexus_request_subscribe_wallet : TestNexusRequestSubscribeWallet
unfolding try_from parse_id parse_method method_from_str parse_params parse_entries parse_entry
    validate_for_method
nexus_request_subscribe_wallet = (
  record { id = 10; method = subscribe; params = wallet (record { id = "walletid" }) },
  refl,
  refl,
  refl,
)

abbrev TestNexusRequestPublishAny : Type 0
TestNexusRequestPublishAny =
    Reads (request (pos 10) "publish" (one "any" (two "topic" "test" "content" "content"))) publish
      (any (record { topic = "test"; content = some "content" }))

nexus_request_publish_any : TestNexusRequestPublishAny
unfolding try_from parse_id parse_method method_from_str parse_params parse_entries parse_entry
    validate_for_method
nexus_request_publish_any = (
  record {
    id = 10;
    method = publish;
    params = any (record { topic = "test"; content = some "content" });
  },
  refl,
  refl,
  refl,
)

-- For any proposal, and so for that of the test's file.
abbrev TestNexusRequestPublishProposal : Type 0
TestNexusRequestPublishProposal =
    (p : String × String)
    → Reads (request (pos 10) "publish" (one "proposal" (proposal_value p))) publish (proposal p)

nexus_request_publish_proposal : TestNexusRequestPublishProposal
unfolding try_from parse_id parse_method method_from_str parse_params parse_entries parse_entry
    validate_for_method
nexus_request_publish_proposal p =
    (record { id = 10; method = publish; params = proposal p }, refl, refl, refl)

abbrev TestNexusRequestPublishPset : Type 0
TestNexusRequestPublishPset =
    Reads (request (pos 10) "publish" (one "pset" (two "wallet_id" "walletid" "pset" "base64")))
      publish (pset (record { wallet_id = "walletid"; pset = "base64" }))

nexus_request_publish_pset : TestNexusRequestPublishPset
unfolding try_from parse_id parse_method method_from_str parse_params parse_entries parse_entry
    validate_for_method
nexus_request_publish_pset = (
  record {
    id = 10;
    method = publish;
    params = pset (record { wallet_id = "walletid"; pset = "base64" });
  },
  refl,
  refl,
  refl,
)

abbrev TestMessageTypeRoundtrip : Type 0
TestMessageTypeRoundtrip =
    All (λ (m : Method). method_from_str (method_to_string m) ≡ some m)
      (publish ∷ subscribe ∷ unsubscribe ∷ [])

message_type_roundtrip : TestMessageTypeRoundtrip
unfolding method_from_str method_to_string
message_type_roundtrip = (refl, (refl, (refl, tt)))
