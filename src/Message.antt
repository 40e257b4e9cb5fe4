-- ===== src/Message.antt =====
-- `process_message` and `subscribe_to_topic` of src/lib.rs.
pub mod Cases
pub mod Effects
pub mod Safety
pub mod Kept
pub mod Delivery
pub mod Soundness
pub mod Subscription
pub mod Unsupported
use nexus_relay.Prelude.{
  ℕ, String, Option, none, some, Outcome, returns, fails, panics, convert, ok_or,
}
use nexus_relay.External.Packages.{Packages}
use nexus_relay.Payload.{Any}
use nexus_relay.Topic.{Topic, unvalidated}
use nexus_relay.Jsonrpc.{
  Method, publish, subscribe, unsubscribe, Params, any, ping, proposal, invalid_params,
  NexusRequest, NexusResponse, new_pong, new_subscribed, new_published, notification,
  response_to_string, topic_from_params,
}
use nexus_relay.Prelude.Fallible
use nexus_relay.Jsonrpc.Parse.{try_from}
use nexus_relay.Error.{Error, json_rpc}
use nexus_relay.Node.{Node}
use nexus_relay.Proposal.{process_publish_proposal}
use nexus_relay.Registry
use nexus_relay.Registry.{TopicRegistry}
use nexus_relay.Shared.{Shared, Action, ◌>>=◌, pure, with_lock}

module _ (pk : Packages) where
  open pk use {JsonRpc, Sender, string}

  unfoldable pub subscribe_to_topic : ℕ → Topic → Sender → Action pk (Error pk) (NexusResponse pk)
  subscribe_to_topic id topic client_tx = do
    done ← with_lock (λ registry channels.
        returns (Registry.subscribe pk.mpsc topic client_tx registry, channels, tt {0}))
    pure (returns (new_subscribed pk id))

  -- The branch for `Params::Any`. The notification is written out with the registry locked.
  unfoldable pub publish_any : ℕ → Any → Action pk (Error pk) (NexusResponse pk)
  publish_any id a = do
    content ← pure (ok_or a.content (json_rpc invalid_params))
    sent_count ← with_lock (λ registry channels.
        Fallible.◌>>=◌ (response_to_string pk (notification pk (string content))) λ message.
          returns (Registry.publish pk.mpsc (unvalidated a.topic) message registry channels))
    pure (returns (new_published pk id))

  unfoldable pub process_publish :
      ℕ → Params pk → Option (Node pk) → Action pk (Error pk) (NexusResponse pk)
  process_publish id ping client = pure (returns (new_pong pk id))
  process_publish id (proposal p) client = process_publish_proposal pk p client id
  process_publish id (any a) client = publish_any id a
  process_publish id _ client = pure (fails (json_rpc invalid_params))

  unfoldable pub process_request :
      ℕ → Method → Params pk → Option (Node pk) → Sender → Action pk (Error pk) (NexusResponse pk)
  unfolding subscribe_to_topic publish_any process_publish
  process_request id subscribe params client client_tx = do
    topic ← pure (convert json_rpc (topic_from_params pk params))
    subscribe_to_topic id topic client_tx
  process_request id publish params client client_tx = process_publish id params client
  process_request id unsubscribe params client client_tx = pure (fails (json_rpc invalid_params))

  unfoldable pub process_message :
      JsonRpc → Option (Node pk) → Sender → Action pk (Error pk) (NexusResponse pk)
  process_message message client client_tx = do
    request ← pure (convert json_rpc (try_from pk message))
    process_request request.id request.method request.params client client_tx
