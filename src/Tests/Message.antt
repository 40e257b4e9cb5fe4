-- ===== src/Tests/Message.antt =====
-- Small messages to `process_message` of src/lib.rs.
use nexus_relay.Prelude.{[], ◌∷◌}
use nexus_relay.Jsonrpc.{any, publish}
use nexus_relay.Prelude.{none, some, pos, returns, fails, panics, ◌≡◌, ◌≢◌, refl}
use nexus_relay.Error.{json_rpc}
use nexus_relay.Jsonrpc.{
  subscribe, method_from_str, wallet, NexusRequest, new_pong, invalid_params, invalid_method,
}
use nexus_relay.Jsonrpc.Parse.{
  parse_id, parse_method, parse_params, parse_entry, parse_entries, validate_for_method, try_from,
}
use nexus_relay.Message.{process_request, process_message}
use nexus_relay.Message.Cases.{Ends, process_message-Ends}
use nexus_relay.Message.Delivery.{Received, process_message-Received}
use nexus_relay.Registry.{subscribers}
use nexus_relay.Std.HashMap.{get_or}
use nexus_relay.Message.Cases.{content_text}
use nexus_relay.Message.Subscription.{subscribe-publish}
use nexus_relay.Message.Safety.{
  Answers, Cause, process_message_atomic, process_message-Answers, process_message-Cause,
}
use nexus_relay.Message.Unsupported.{
  for_wallet, process_message-NoBranch, process_message-unsubscribe,
}
use nexus_relay.Proposal.{process_publish_proposal}
use nexus_relay.Proposal.Cases.{Ends as ProposalEnds, process_publish_proposal-Ends}
use nexus_relay.Shared.Broadcast.{received}
use nexus_relay.Tests.Sample.{sample}
use nexus_relay.Tests.Sample.Messages.{
  JsonRpc, request, null, str, object, field, end, ping_request, hello_request,
}
use nexus_relay.Tests.Sample.State.{shared, node}

process_message-Ends_example :
    Ends sample
      (some node)
      2
      shared
      hello_request
      (process_message sample hello_request (some node) 2 shared)
process_message-Ends_example = process_message-Ends sample (some node) 2 shared hello_request

process_publish_proposal-Ends_example :
    ProposalEnds sample
      ("lbtc", "usdt")
      none
      9
      shared
      (process_publish_proposal sample ("lbtc", "usdt") none 9 shared)
process_publish_proposal-Ends_example =
    process_publish_proposal-Ends sample ("lbtc", "usdt") none 9 shared

process_message-Received_example :
    Received sample
      (some node)
      2
      shared
      hello_request
      1
      (received sample (process_message sample hello_request (some node) 2 shared).0 1)
process_message-Received_example =
    process_message-Received sample (some node) 2 shared hello_request 1 refl

abbrev gone_request : JsonRpc
gone_request = request (pos 7) "unsubscribe" null

abbrev strange_request : JsonRpc
strange_request = request (pos 7) "jump" null

strange_fails :
    (process_message sample strange_request none 2 shared).1 ≡ fails (json_rpc invalid_method)
unfolding process_message try_from parse_id parse_method method_from_str
strange_fails = refl

process_message_atomic_example : (process_message sample strange_request none 2 shared).0 ≡ shared
process_message_atomic_example =
    process_message_atomic sample none 2 shared strange_request strange_fails

ping_returns : (process_message sample ping_request none 2 shared).1 ≡ returns (new_pong sample 7)
unfolding process_message try_from parse_id parse_method method_from_str parse_params parse_entries
    parse_entry validate_for_method process_request
ping_returns = refl

process_message-Answers_example :
    (r : NexusRequest sample) × (try_from sample ping_request ≡ returns r)
    × Answers sample none 2 shared r (new_pong sample 7)
process_message-Answers_example =
    process_message-Answers sample none 2 shared ping_request ping_returns

abbrev bad_request : JsonRpc
bad_request = request (pos 7) "subscribe" (object (field "address" (object end) end))

bad_panics : (process_message sample bad_request none 2 shared).1 ≡ panics
unfolding process_message try_from parse_id parse_method method_from_str parse_params parse_entries
    parse_entry
bad_panics = refl

process_message-Cause_example : Cause sample none 2 shared bad_request
process_message-Cause_example =
    process_message-Cause sample none 2 shared bad_request refl bad_panics

abbrev wallet_request : JsonRpc
wallet_request =
    request (pos 7) "subscribe" (object (field "wallet" (object (field "id" (str "w") end)) end))

abbrev wallet_read : NexusRequest sample
wallet_read = record { id = 7; method = subscribe; params = wallet (record { id = "w" }) }

wallet_reads : try_from sample wallet_request ≡ returns wallet_read
unfolding try_from parse_id parse_method method_from_str parse_params parse_entries parse_entry
    validate_for_method
wallet_reads = refl

process_message-NoBranch_example :
    process_message sample wallet_request none 2 shared ≡ (shared, fails (json_rpc invalid_params))
process_message-NoBranch_example =
    process_message-NoBranch sample none 2 shared wallet_request {r = wallet_read} wallet_reads
      (for_wallet (record { id = "w" }))

process_message-unsubscribe_example :
    (process_message sample gone_request none 2 shared).1 ≢ returns (new_pong sample 7)
process_message-unsubscribe_example =
    process_message-unsubscribe sample none 2 shared gone_request refl (new_pong sample 7)

abbrev join_request : JsonRpc
join_request =
    request (pos 6) "subscribe" (object (field "any" (object (field "topic" (str "t") end)) end))

abbrev join_read : NexusRequest sample
join_read = record {
  id = 6;
  method = subscribe;
  params = any (record { topic = "t"; content = none });
}

abbrev hello_read : NexusRequest sample
hello_read = record {
  id = 8;
  method = publish;
  params = any (record { topic = "t"; content = some "hello" });
}

join_reads : try_from sample join_request ≡ returns join_read
unfolding try_from parse_id parse_method method_from_str parse_params parse_entries parse_entry
    validate_for_method
join_reads = refl

hello_reads : try_from sample hello_request ≡ returns hello_read
unfolding try_from parse_id parse_method method_from_str parse_params parse_entries parse_entry
    validate_for_method
hello_reads = refl

subscribe-publish_example :
    received sample
      (process_message sample hello_request
        (some node)
        1
        (process_message sample join_request (some node) 2 shared).0).0
      2
    ≡ "{\"jsonrpc\":\"2.0\",\"result\":\"hello\",\"id\":-1}" ∷ []
unfolding content_text subscribers get_or
subscribe-publish_example =
    subscribe-publish sample (some node) join_request hello_request 2 1 shared {r = join_read}
      {r' = hello_read} {a = record { topic = "t"; content = none }}
      {b = record { topic = "t"; content = some "hello" }} {c = "hello"} refl refl join_reads refl
      refl hello_reads refl refl refl refl
