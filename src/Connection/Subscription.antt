-- ===== src/Connection/Subscription.antt =====
-- A text that subscribes its client to a topic, over `handle_connection` of src/lib.rs.
use nexus_relay.Prelude.{suc, String, false, some, returns, ◌≡◌, ◌∙◌, ap, pos, arith}
use nexus_relay.External.Packages.{Packages}
use nexus_relay.Connection.{text, send_to_client, response_of, handle_text, handle_frame}
use nexus_relay.Jsonrpc.{
  NexusRequest, subscribe, topic_from_params, new_subscribed, response_to_json_rpc,
}
use nexus_relay.Jsonrpc.Parse.{try_from}
use nexus_relay.Message.Subscription.{process_message-subscribe}
use nexus_relay.Node.{Node}
use nexus_relay.Shared.{Shared}
use nexus_relay.Shared.Broadcast.{enrol, subscriptions, enrol-subscriptions}
use nexus_relay.Topic.{Topic}

module _ (pk : Packages) (client : Node pk) (client_tx : pk.Sender) (s : Shared pk) where
  -- A text that asks for a subscription: it is read as a request to subscribe to the topic.
  pub record Asks (t : String) (topic : Topic) : Type 0 where
    pub message : pk.JsonRpc
    pub request : NexusRequest pk
    pub parsed : pk.parse t ≡ some message
    pub read : try_from pk message ≡ returns request
    pub subscribes : request.method ≡ subscribe
    pub named : topic_from_params pk request.params ≡ returns topic

  -- It gives the client one subscription to the topic more.
  pub handle_frame-subscribe :
      (t : String) (topic : Topic)
      → s.registry.poisoned ≡ false
      → Asks t topic
      → subscriptions pk (handle_frame pk (text t) client client_tx s).0 client_tx topic
        ≡ suc (subscriptions pk s client_tx topic)
  unfolding handle_frame handle_text send_to_client response_of response_to_json_rpc new_subscribed
  handle_frame-subscribe t topic sound asks =
      let enrolled = enrol pk topic client_tx s in
      let response = pk.to_string (pk.success (pos asks.request.id) (pk.string "subscribed")) in
      let step : handle_frame pk (text t) client client_tx s
          ≡ send_to_client pk response client_tx enrolled =
        ground (
          arith,
          asks.parsed,
          process_message-subscribe pk (some client) asks.message client_tx s sound asks.read
              asks.subscribes asks.named,
        ) in
      ap (λ x. subscriptions pk x.0 client_tx topic) step ∙ enrol-subscriptions pk topic client_tx s
