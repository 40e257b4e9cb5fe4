-- ===== src/Tests/Proposal.antt =====
-- Small proposals and a small node, for src/proposal.rs and src/node.rs.
use nexus_relay.Prelude.{String}
use nexus_relay.Prelude.{none, some, [], ◌∷◌, ok, returns, ◌≡◌, ◌↔◌, refl}
use nexus_relay.Node.{Node, tx}
use nexus_relay.Prelude.{pos}
use nexus_relay.Jsonrpc.{
  method_from_str, publish, subscribe, pair, proposal, NexusRequest, pair_topic,
}
use nexus_relay.Jsonrpc.Parse.{
  parse_id, parse_method, parse_params, parse_entry, parse_entries, validate_for_method, try_from,
}
use nexus_relay.Message.{process_message}
use nexus_relay.Message.Subscription.{subscribe-publish_proposal}
use nexus_relay.Payload.{Pair}
use nexus_relay.Proposal.Cases.{proposal_text}
use nexus_relay.Registry.{subscribers}
use nexus_relay.Shared.Broadcast.{received}
use nexus_relay.Std.HashMap.{get_or}
use nexus_relay.Proposal.{validated}
use nexus_relay.Proposal.Validation.{validated_iff}
use nexus_relay.Tests.Sample.{sample}
use nexus_relay.Tests.Sample.Chain.{Transaction}
use nexus_relay.Tests.Sample.Messages.{JsonRpc, Value, null, request, str, object, field, end}
use nexus_relay.Tests.Sample.State.{shared}

-- A node with the transaction, and one that also says that its output is spent.
abbrev with_tx : Node sample
with_tx = record {
  client = record { get_bytes = λ url. some (0 ∷ []); get_json = λ url. none };
  base_url = "http://localhost:8332";
}

abbrev with_spent : Node sample
with_spent = record {
  client = record { get_bytes = λ url. some (0 ∷ []); get_json = λ url. some null };
  base_url = "http://localhost:8332";
}

validated_iff_example :
    (validated sample (some with_tx) ("lbtc", "usdt") ≡ returns ("lbtc", "usdt")) ↔ (
      (txid : sample.Txid) × (t : Transaction) × (sample.needed_tx ("lbtc", "usdt") ≡ ok txid)
      × (tx sample with_tx txid ≡ some t)
      × (sample.validate ("lbtc", "usdt") t ≡ ok ("lbtc", "usdt")))
validated_iff_example = validated_iff sample with_tx ("lbtc", "usdt") ("lbtc", "usdt")

same_tx : (txid : sample.Txid) → tx sample with_tx txid ≡ tx sample with_spent txid
unfolding tx
same_tx txid = refl

abbrev pair_fields : Value
pair_fields = object (field "input" (str "lbtc") (field "output" (str "usdt") end))

abbrev follow_request : JsonRpc
follow_request = request (pos 4) "subscribe" (object (field "pair" pair_fields end))

abbrev make_request : JsonRpc
make_request = request (pos 5) "publish" (object (field "proposal" pair_fields end))

abbrev wanted : Pair
wanted = record { input = "lbtc"; output = "usdt" }

abbrev follow_read : NexusRequest sample
follow_read = record { id = 4; method = subscribe; params = pair wanted }

abbrev make_read : NexusRequest sample
make_read = record { id = 5; method = publish; params = proposal ("lbtc", "usdt") }

follow_reads : try_from sample follow_request ≡ returns follow_read
unfolding try_from parse_id parse_method method_from_str parse_params parse_entries parse_entry
    validate_for_method
follow_reads = refl

make_reads : try_from sample make_request ≡ returns make_read
unfolding try_from parse_id parse_method method_from_str parse_params parse_entries parse_entry
    validate_for_method
make_reads = refl

valid : validated sample none ("lbtc", "usdt") ≡ returns ("lbtc", "usdt")
unfolding validated
valid = refl

abbrev proposal_text_of_pair : String
proposal_text_of_pair =
    "{\"jsonrpc\":\"2.0\",\"result\":{\"input\":\"lbtc\",\"output\":\"usdt\"},\"id\":-1}"

subscribe-publish_proposal_example :
    received sample
      (process_message sample make_request none 1
        (process_message sample follow_request none 2 shared).0).0
      2
    ≡ proposal_text_of_pair ∷ []
unfolding proposal_text subscribers get_or pair_topic
subscribe-publish_proposal_example =
    subscribe-publish_proposal sample none follow_request make_request 2 1 shared {r = follow_read}
      {r' = make_read} {q = wanted} {p = ("lbtc", "usdt")} {v = ("lbtc", "usdt")} refl refl
      follow_reads refl refl make_reads refl refl valid refl refl
