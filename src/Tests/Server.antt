-- ===== src/Tests/Server.antt =====
-- The server of src/lib.rs, run on a few events.
use nexus_relay.Prelude.{
  String, true, false, none, some, List, [], ◌∷◌, ◌++◌, ◌≡◌, ◌↔◌, refl, decimal, Occurs, arith,
  string_eq, IsNodup,
}
use nexus_relay.External.Elements.{Bytes}
use nexus_relay.BoundedSet
use nexus_relay.Connection.{text}
use nexus_relay.Connection.Kept.{handle_frame-is_alive}
use nexus_relay.Connection.Subscription.{Asks}
use nexus_relay.Entry.{World, parsed, status, main}
use nexus_relay.Entry.Exits.{EndsWell, main-success_iff}
use nexus_relay.Jsonrpc.{topic_from_params, method_from_str}
use nexus_relay.Jsonrpc.Parse.{
  try_from, parse_id, parse_method, parse_params, parse_entries, parse_entry, validate_for_method,
}
use nexus_relay.Server.{default_config, started, client, Reachable, start}
use nexus_relay.Server.Delivery.{told, subscribe-transaction_received}
use nexus_relay.Server.Serve.{
  Server, Event, accepted, accept_error, frame_comes, zmq_comes, serve, initial, async_main,
}
use nexus_relay.Server.Serve.Ends.{without_zmq, serve-short_message}
use nexus_relay.Server.Serve.Refinement.{async_main-Reachable, async_main-reading}
use nexus_relay.Registry
use nexus_relay.Server.Authentic.{Authentic}
use nexus_relay.Server.History as ServerHistory
use nexus_relay.Server.History.{History}
use nexus_relay.Server.Channels.{connect-subscriptions}
use nexus_relay.Server.Subscriptions.{stays}
use nexus_relay.External.Mpsc.{sender_eq}
use nexus_relay.Shared.Broadcast.{received, is_alive, subscriptions}
use nexus_relay.Topic.{validated}
use nexus_relay.Zmq.{rawtx, mempool, Listener, get_output_addresses, process_zmq_message}
use nexus_relay.Zmq.Delivery.{address}
use nexus_relay.Zmq.Events.{address_event}
use nexus_relay.Tests.Sample.{sample}
use nexus_relay.Tests.Sample.Chain.{sample_tx}
use nexus_relay.Tests.Sample.State.{channels, node}

port : decimal 8080 ≡ "8080"
port = refl

greatest_port : decimal 65535 ≡ "65535"
greatest_port = refl

abbrev body : Bytes
body = 0 ∷ []

-- A connection whose client sends a text, a transaction, a message with one part, another transaction.
abbrev events : List (Event sample)
events =
    accepted true
    ∷ frame_comes node.client (text "no json") 4
    ∷ zmq_comes (some (rawtx ∷ body ∷ []))
    ∷ zmq_comes (some (rawtx ∷ []))
    ∷ zmq_comes (some (rawtx ∷ body ∷ []))
    ∷ []

abbrev beginning : Server sample
beginning = initial sample default_config true channels

async_main-Reachable_example :
    Reachable sample default_config (serve sample default_config events beginning).0.relay
unfolding async_main
async_main-Reachable_example =
    async_main-Reachable sample default_config (λ address. true) true events channels
      {main = (serve sample default_config events beginning).1} refl

serve-short_message_example :
    serve sample default_config (zmq_comes (some (rawtx ∷ [])) ∷ events) beginning
    ≡ serve sample default_config
        (without_zmq sample default_config events)
        (record beginning { listening = false })
serve-short_message_example =
    serve-short_message sample default_config (rawtx ∷ []) events beginning (omega arith)

abbrev world : World sample
world = record {
  env = λ name. none;
  command_line = parsed default_config;
  builds = true;
  bind = λ address. true;
  connects = true;
  events = accepted false ∷ accept_error ∷ events;
  channels = channels;
}

main-success_iff_example : (status sample (main sample world).1 ≡ some 0) ↔ EndsWell sample world
main-success_iff_example = main-success_iff sample world

-- A client asks for an address, and then a transaction pays to it.
abbrev idle : Listener sample
idle = started sample default_config channels

asked :
    Asks sample
      (client sample default_config node.client)
      2
      idle.shared
      "follow"
      (validated "addr1")
unfolding try_from topic_from_params parse_id parse_method method_from_str parse_params
    parse_entries parse_entry validate_for_method
asked = record {
  message = _;
  request = _;
  parsed = refl;
  read = refl;
  subscribes = refl;
  named = refl;
}

abbrev waiting : Listener sample
waiting = told sample default_config 2 node.client "follow" idle

unseen : BoundedSet.contains waiting.txs_seen "tx1" ≡ false
unfolding BoundedSet.contains BoundedSet.new started
unseen = refl

open_still : is_alive sample waiting.shared 2 ≡ true
unfolding started
open_still =
    handle_frame-is_alive sample 2 2 idle.shared (text "follow")
      (client sample default_config node.client)

abbrev paid : Listener sample
paid = (process_zmq_message sample (rawtx ∷ body ∷ []) default_config.network waiting).0

abbrev notification : String
notification = (address_event sample "tx1" sample_tx mempool "addr1").1

subscribe-transaction_received_example :
    (new : List String) × (received sample paid.shared 2 ≡ received sample idle.shared 2 ++ new)
    × Occurs notification new
unfolding get_output_addresses address_event started
subscribe-transaction_received_example =
    subscribe-transaction_received sample default_config 2 node.client "follow" body [] idle waiting
      {tx = sample_tx} (start channels) refl asked stays refl unseen open_still
      (address "addr1" refl)

abbrev accepted_by : Listener sample → Listener sample
accepted_by = ServerHistory.accepted sample default_config

-- A connection is accepted, and its client sends a text.
abbrev served : Listener sample
served = told sample default_config 4 node.client "no json" (accepted_by idle)

connect-subscriptions_example :
    subscriptions sample (accepted_by idle).shared 4 (validated "addr1") ≡ 0
unfolding started
connect-subscriptions_example =
    connect-subscriptions sample default_config idle (validated "addr1") (start channels)

abbrev two_connections : List (Event sample)
two_connections = accepted true ∷ accepted true ∷ frame_comes node.client (text "no json") 4 ∷ []

async_main-reading_example :
    IsNodup ⦃e = sender_eq sample.mpsc⦄
      (serve sample default_config two_connections beginning).0.reading
unfolding async_main
async_main-reading_example =
    async_main-reading sample default_config (λ address. true) true two_connections channels
      {main = (serve sample default_config two_connections beginning).1} refl
