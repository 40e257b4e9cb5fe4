-- ===== src/Tests/Jsonrpc.antt =====
-- The reading of small messages by src/jsonrpc.rs.
use nexus_relay.Prelude.{◌<◌, String, some, ℤ, pos, returns, panics, ◌≡◌, ◌↔◌, refl, arith}
use nexus_relay.Jsonrpc.{
  publish, subscribe, address, ping, NexusRequest, request_to_json_rpc, method_from_str,
  topic_from_proposal, pair_topic,
}
use nexus_relay.Topic.Pairs.{NoColon}
use nexus_relay.Jsonrpc.PairTopic.{topic_from_proposal_iff}
use nexus_relay.Jsonrpc.Parse.{parse_id, parse_method, validate_for_method, try_from, u32_max}
use nexus_relay.Jsonrpc.Parse.Accepted.{
  Allowed, publish_ping, Accepts, parse_id_iff, validate_for_method_iff, try_from_iff,
}
use nexus_relay.Jsonrpc.Parse.Malformed.{HasMalformed, try_from-panics_iff}
use nexus_relay.Jsonrpc.Parse.RoundTrip.{try_from-request_to_json_rpc}
use nexus_relay.Tests.Sample.{sample, sample-IsFaithful}
use nexus_relay.Tests.Sample.Messages.{JsonRpc, request, null, object, field, end, ping_request}

abbrev ping_7 : NexusRequest sample
ping_7 = record { id = 7; method = publish; params = ping }

try_from_iff_example :
    (try_from sample ping_request ≡ returns ping_7) ↔ Accepts sample ping_request ping_7
try_from_iff_example = try_from_iff sample ping_request ping_7

abbrev written : String
written = "publish"

validate_for_method_iff_example :
    (validate_for_method sample (address "addr1") subscribe ≡ returns tt)
    ↔ Allowed sample subscribe (address "addr1")
validate_for_method_iff_example = validate_for_method_iff sample (address "addr1") subscribe

-- `u32::MAX` itself is refused.
abbrev top_request : JsonRpc
top_request = request (pos 4294967295) "publish" null

parse_id_iff_example : (parse_id sample top_request ≡ returns 4294967295) ↔ (
    (i : ℤ) × (some (pos 4294967295) ≡ some i)
    × (some i ≡ some (pos 4294967295))
    × (0 < 4294967295)
    × (4294967295 < u32_max))
parse_id_iff_example = parse_id_iff sample top_request 4294967295

-- `{"address": {}}` is not an address.
abbrev bad_request : JsonRpc
bad_request = request (pos 7) "subscribe" (object (field "address" (object end) end))

bad_id : parse_id sample bad_request ≡ returns 7
unfolding parse_id
bad_id = refl

bad_method : parse_method sample bad_request ≡ returns subscribe
unfolding parse_method method_from_str
bad_method = refl

try_from-panics_iff_example :
    (try_from sample bad_request ≡ panics) ↔ HasMalformed sample bad_request
try_from-panics_iff_example = try_from-panics_iff sample bad_request bad_id bad_method

try_from-request_to_json_rpc_example :
    try_from sample (request_to_json_rpc sample ping_7) ≡ returns ping_7
try_from-request_to_json_rpc_example =
    try_from-request_to_json_rpc sample sample-IsFaithful ping_7 (omega arith) (omega arith)
      publish_ping

no_colon : NoColon "lbtc"
no_colon = ground arith

topic_from_proposal_iff_example :
    (topic_from_proposal sample ("lbtc", "usdt")
      ≡ returns (pair_topic sample (record { input = "lbtc"; output = "usdt" })))
    ↔ ((sample.input_asset ("lbtc", "usdt") ≡ "lbtc")
        × (sample.output_asset ("lbtc", "usdt") ≡ "usdt"))
topic_from_proposal_iff_example =
    topic_from_proposal_iff sample ("lbtc", "usdt") (record { input = "lbtc"; output = "usdt" })
      no_colon no_colon
