-- ===== src/Tests/Suite/Relay.antt =====
-- The tests of src/lib.rs and src/proposal.rs. `JsonRpc::parse` and the runtime, which some of them test
-- too, are not of this source.
use nexus_relay.Prelude.{
  ℕ, String, true, false, none, [], ◌∷◌, pos, returns, fails, ◌≡◌, refl, Outcome,
}
use nexus_relay.Connection.{connect, drop_receiver}
use nexus_relay.Error.{Error, json_rpc}
use nexus_relay.Jsonrpc.{
  NexusResponse, new_ping, request_to_json_rpc, request_to_string, response_to_string,
  topic_from_proposal, invalid_params_for_this_method, params_to_value, method_to_string,
  method_from_str, new_pong, new_published, new_subscribed, new_proposal, notification,
  response_to_json_rpc, topic_from_params, pair_topic,
}
use nexus_relay.Jsonrpc.Parse.{
  try_from, parse_id, parse_method, parse_params, parse_entries, parse_entry, validate_for_method,
}
use nexus_relay.Message.{
  process_message, process_request, process_publish, publish_any, subscribe_to_topic,
}
use nexus_relay.Proposal
use nexus_relay.Proposal.{process_publish_proposal}
use nexus_relay.Registry
use nexus_relay.Registry.{retain, subscribers}
use nexus_relay.Std.HashMap.{get_or, or_insert}
use nexus_relay.Shared.{Shared}
use nexus_relay.Shared.Broadcast.{received}
use nexus_relay.Topic.{validated}
use nexus_relay.Tests.Sample.{sample}
use nexus_relay.Tests.Sample.Chain.{proposal_value}
use nexus_relay.Tests.Sample.Messages.{
  Value, str, object, field, end, JsonRpc, request, bare_request,
}

-- A registry without topics, before any channel is made.
abbrev pub fresh : Shared sample
fresh = record {
  registry = record { poisoned = false; inner = record { topics = [] } };
  channels = record { opened = λ s. true; accepted = λ s. []; count = 0 };
}

abbrev one : String → Value → Value
one key value = object (field key value end)

abbrev two : String → String → String → String → Value
two k a l b = object (field k (str a) (field l (str b) end))

-- A call returns a response that is written so.
abbrev Writes : Outcome (Error sample) (NexusResponse sample) → String → Type 0
Writes o written =
    (r : NexusResponse sample) × (o ≡ returns r)
    × (response_to_string sample {E = Unit {0}} r ≡ returns written)

abbrev process :
    JsonRpc → ℕ → Shared sample → Shared sample × Outcome (Error sample) (NexusResponse sample)
process message client_tx s = process_message sample message none client_tx s

abbrev client_tx : ℕ
client_tx = (connect sample fresh).1

abbrev connected : Shared sample
connected = (connect sample fresh).0

abbrev TestProcessMessagePing : Type 0
TestProcessMessagePing =
    let message = new_ping sample 12341234 in
    (request_to_string sample message
      ≡ "{\"jsonrpc\":\"2.0\",\"method\":\"publish\",\"params\":{\"ping\":null},\"id\":12341234}")
    × Writes (process (request_to_json_rpc sample message) client_tx connected).1
        "{\"jsonrpc\":\"2.0\",\"result\":\"pong\",\"id\":12341234}"

abbrev TestProcessMessageSubscribe : Type 0
TestProcessMessageSubscribe =
    Writes
      (process (request (pos 1) "subscribe" (one "any" (one "topic" (str "topic1")))) client_tx
        connected).1
      "{\"jsonrpc\":\"2.0\",\"result\":\"subscribed\",\"id\":1}"

abbrev TestProcessMessageSubscribeEmptyTopic : Type 0
TestProcessMessageSubscribeEmptyTopic =
    (process (bare_request (pos 1) "subscribe") client_tx connected).1
    ≡ fails (json_rpc invalid_params_for_this_method)

-- A proposal in place of that of the test's file.
abbrev some_proposal : String × String
some_proposal = ("lbtc", "usdt")

abbrev topic_str : String
topic_str = "lbtc:usdt"

abbrev content : String
content = "Hello World"

-- Channels 0 to 3; the receivers of the last two are dropped at once.
abbrev four : Shared sample
four =
    let s2 = (connect sample (connect sample fresh).0).0 in
    let s3 = drop_receiver sample 2 (connect sample s2).0 in
    drop_receiver sample 3 (connect sample s3).0

abbrev by_pair : JsonRpc
by_pair = request (pos 1) "subscribe" (one "pair" (two "input" "lbtc" "output" "usdt"))

abbrev by_any : JsonRpc
by_any = request (pos 2) "subscribe" (one "any" (one "topic" (str topic_str)))

abbrev publication : JsonRpc
publication = request (pos 3) "publish" (one "proposal" (proposal_value some_proposal))

abbrev any_publication : JsonRpc
any_publication = request (pos 4) "publish" (one "any" (two "topic" topic_str "content" content))

abbrev after_pair : Shared sample
after_pair = (process by_pair 0 four).0

abbrev after_any : Shared sample
after_any = (process by_any 1 after_pair).0

abbrev after_proposal : Shared sample
after_proposal = (process publication 2 after_any).0

abbrev after_content : Shared sample
after_content = (process any_publication 3 after_proposal).0

abbrev proposal_notification : String
proposal_notification =
    "{\"jsonrpc\":\"2.0\",\"result\":{\"input\":\"lbtc\",\"output\":\"usdt\"},\"id\":-1}"

abbrev content_notification : String
content_notification = "{\"jsonrpc\":\"2.0\",\"result\":\"Hello World\",\"id\":-1}"

abbrev TestSubscribePublish : Type 0
TestSubscribePublish =
    (topic_from_proposal sample some_proposal ≡ returns (validated topic_str))
    × Writes (process by_pair 0 four).1 "{\"jsonrpc\":\"2.0\",\"result\":\"subscribed\",\"id\":1}"
    × Writes (process by_any 1 after_pair).1
        "{\"jsonrpc\":\"2.0\",\"result\":\"subscribed\",\"id\":2}"
    × Writes (process publication 2 after_any).1
        "{\"jsonrpc\":\"2.0\",\"result\":\"published\",\"id\":3}"
    × (received sample after_proposal 0 ≡ proposal_notification ∷ [])
    × (received sample after_proposal 1 ≡ [])
    × Writes (process any_publication 3 after_proposal).1
        "{\"jsonrpc\":\"2.0\",\"result\":\"published\",\"id\":4}"
    × (received sample after_content 0 ≡ proposal_notification ∷ [])
    × (received sample after_content 1 ≡ content_notification ∷ [])

abbrev TestPublishProposal : Type 0
TestPublishProposal =
    Writes (process_publish_proposal sample some_proposal none 12341234 fresh).1
      "{\"jsonrpc\":\"2.0\",\"result\":\"published\",\"id\":12341234}"

publish_proposal : TestPublishProposal
unfolding process_publish_proposal Proposal.validated topic_from_proposal new_proposal notification
    new_published response_to_string response_to_json_rpc Registry.publish retain Registry.subscribe
    subscribers get_or or_insert
publish_proposal = (_, refl, refl)

process_message_ping : TestProcessMessagePing
unfolding process_message process_request process_publish try_from parse_id parse_method
    method_from_str parse_params parse_entries parse_entry validate_for_method new_ping
    request_to_json_rpc request_to_string params_to_value method_to_string new_pong
    response_to_string response_to_json_rpc
process_message_ping = (refl, (_, refl, refl))

process_message_subscribe : TestProcessMessageSubscribe
unfolding process_message process_request subscribe_to_topic topic_from_params new_subscribed
    try_from parse_id parse_method method_from_str parse_params parse_entries parse_entry
    validate_for_method response_to_string response_to_json_rpc Registry.publish retain
    Registry.subscribe subscribers get_or or_insert
process_message_subscribe = (_, refl, refl)

process_message_subscribe_empty_topic : TestProcessMessageSubscribeEmptyTopic
unfolding process_message try_from parse_id parse_method method_from_str parse_params parse_entries
    parse_entry validate_for_method
process_message_subscribe_empty_topic = refl

subscribe_publish : TestSubscribePublish
unfolding process_message process_request process_publish publish_any subscribe_to_topic
    topic_from_params pair_topic new_subscribed try_from parse_id parse_method method_from_str
    parse_params parse_entries parse_entry validate_for_method process_publish_proposal
    Proposal.validated topic_from_proposal new_proposal notification new_published
    response_to_string response_to_json_rpc Registry.publish retain Registry.subscribe subscribers
    get_or or_insert
subscribe_publish = (
  refl,
  (_, refl, refl),
  (_, refl, refl),
  (_, refl, refl),
  refl,
  refl,
  (_, refl, refl),
  refl,
  refl,
)
