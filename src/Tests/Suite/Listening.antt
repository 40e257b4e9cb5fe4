-- ===== src/Tests/Suite/Listening.antt =====
-- The test of src/zmq.rs.
use nexus_relay.Prelude.{String, [], ◌∷◌, returns, ◌≡◌, refl, Outcome, negsuc, string_eq}
use nexus_relay.External.Elements.{Bytes}
use nexus_relay.BoundedSet
use nexus_relay.Connection.{connect}
use nexus_relay.Error.{Error}
use nexus_relay.Network.{elements_regtest}
use nexus_relay.Registry
use nexus_relay.Registry.{retain, subscribers}
use nexus_relay.Std.HashMap.{get_or, or_insert}
use nexus_relay.Jsonrpc.{notification, response_to_string, response_to_json_rpc}
use nexus_relay.Shared.Broadcast.{received}
use nexus_relay.Topic.{validated}
use nexus_relay.Zmq.{
  AddressSeen, mempool, Listener, rawtx, address_seen_to_value, process_zmq_message,
  process_transaction, publish_transaction, publish_addresses, publish_tx_seen,
  publish_address_seen, tx_seen_to_value, get_output_addresses, output_addresses,
}
use nexus_relay.Tests.Sample.{sample}
use nexus_relay.Tests.Sample.Messages.{success, json_text}
use nexus_relay.Tests.Suite.Relay.{fresh}

-- The sample decodes any body to a transaction that pays this address first.
abbrev body : Bytes
body = 0 ∷ []

abbrev test_address : String
test_address = "addr1"

-- A registry with one subscription, and an empty cache.
abbrev listening : Listener sample
listening =
    let (s, tx_sender) = connect sample fresh in
    record {
      shared = record s {
        registry = record s.registry {
          inner =
              Registry.subscribe sample.mpsc (validated test_address) tx_sender s.registry.inner;
        };
      };
      txs_seen = BoundedSet.new 100;
    }

abbrev processed : Listener sample × Outcome (Error sample) (Unit {0})
processed = process_zmq_message sample (rawtx ∷ body ∷ []) elements_regtest listening

-- The message succeeds, and the client receives one message, which shows the address, seen in the mempool.
abbrev TestProcessZmqMessage : Type 0
TestProcessZmqMessage =
    (processed.1 ≡ returns tt)
    × ((tx_seen : AddressSeen) × (received sample processed.0.shared 0
          ≡ json_text (success (negsuc 0) (address_seen_to_value sample tx_seen)) ∷ [])
        × (tx_seen.address ≡ test_address)
        × (tx_seen.where_ ≡ mempool))

processes_zmq_message : TestProcessZmqMessage
unfolding process_zmq_message process_transaction publish_transaction publish_addresses
    publish_tx_seen publish_address_seen address_seen_to_value tx_seen_to_value get_output_addresses
    output_addresses BoundedSet.new BoundedSet.contains Registry.subscribe Registry.publish retain
    subscribers get_or or_insert notification response_to_string response_to_json_rpc
processes_zmq_message = (
  refl,
  (
    record { address = test_address; txid = "tx1"; tx_hex = "00"; where_ = mempool },
    refl,
    refl,
    refl,
  ),
)
