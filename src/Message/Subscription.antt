-- ===== src/Message/Subscription.antt =====
-- A subscription and a later publication, over `process_message` of src/lib.rs.
use nexus_relay.Prelude.{
  suc, String, true, false, Option, some, ◌++◌, returns, ◌≡◌, refl, ◌∙◌, arith, replicate,
}
use nexus_relay.External.Packages.{Packages}
use nexus_relay.Payload.{Any, Pair}
use nexus_relay.Topic.{Topic, topic_eq, unvalidated}
use nexus_relay.Jsonrpc.{
  publish, subscribe, any, pair, proposal, pair_topic, NexusRequest, new_subscribed, new_published,
  topic_from_params, notification, response_to_string,
}
use nexus_relay.Jsonrpc.Parse.{try_from}
use nexus_relay.Message.{process_message, process_request}
use nexus_relay.Message.Cases.{content_text}
use nexus_relay.Node.{Node}
use nexus_relay.Proposal.{validated}
use nexus_relay.Proposal.Cases.{proposal_topic, proposal_text, process_publish_proposal-published}
use nexus_relay.Shared.{Shared}
use nexus_relay.Shared.Broadcast.{
  broadcast, enrol, received, is_alive, subscriptions, broadcast-received, enrol-subscriptions,
}

module _ (pk : Packages) (client : Option (Node pk)) where
  -- A request to subscribe enrols the sender at the topic of its parameters.
  pub process_message-subscribe :
      (m : pk.JsonRpc) (sender : pk.Sender) (s : Shared pk) {r : NexusRequest pk} {topic : Topic}
      → s.registry.poisoned ≡ false
      → try_from pk m ≡ returns r
      → r.method ≡ subscribe
      → topic_from_params pk r.params ≡ returns topic
      → process_message pk m client sender s
        ≡ (enrol pk topic sender s, returns (new_subscribed pk r.id))
  unfolding process_message process_request enrol
  process_message-subscribe m sender s sound read method named =
      rw (read, method, named) (ground arith)

  -- A request to publish a content broadcasts it.
  process_message-publish_any :
      (m : pk.JsonRpc) (sender : pk.Sender) (s : Shared pk) {r : NexusRequest pk} {a : Any}
      {c : String}
      → s.registry.poisoned ≡ false
      → try_from pk m ≡ returns r
      → r.method ≡ publish
      → r.params ≡ any a
      → a.content ≡ some c
      → process_message pk m client sender s ≡ (
        broadcast pk (unvalidated a.topic) (content_text pk c) s,
        returns (new_published pk r.id),
      )
  unfolding process_message process_request broadcast content_text response_to_string notification
  process_message-publish_any m sender s sound read method params content =
      rw (read, method, params) (ground arith)

  -- What is broadcast on a topic reaches a client that was enrolled at it.
  enrol-received :
      (topic : Topic) (text : String) (t : pk.Sender) (s : Shared pk)
      → is_alive pk s t ≡ true
      → received pk (broadcast pk topic text (enrol pk topic t s)) t
        ≡ received pk s t ++ replicate (suc (subscriptions pk s t topic)) text
  unfolding enrol
  enrol-received topic text t s alive =
      broadcast-received pk topic text (enrol pk topic t s) t
      ∙ rw (enrol-subscriptions pk topic t s) (ground arith)

  -- If the mutex is not poisoned and its channel is open, a client that subscribes to an
  -- unvalidated topic receives, when anyone then publishes a content on that topic, one copy of it
  -- more than it had subscriptions to the topic before.
  pub subscribe-publish :
      (m m' : pk.JsonRpc) (t sender : pk.Sender) (s : Shared pk) {r r' : NexusRequest pk}
      {a b : Any} {c : String}
      → s.registry.poisoned ≡ false
      → is_alive pk s t ≡ true
      → try_from pk m ≡ returns r
      → r.method ≡ subscribe
      → r.params ≡ any a
      → try_from pk m' ≡ returns r'
      → r'.method ≡ publish
      → r'.params ≡ any b
      → b.content ≡ some c
      → b.topic ≡ a.topic
      → let s' = (process_message pk m client t s).0 in
        received pk (process_message pk m' client sender s').0 t
        ≡ received pk s t
          ++ replicate (suc (subscriptions pk s t (unvalidated a.topic))) (content_text pk c)
  unfolding topic_from_params enrol
  subscribe-publish m m' t sender s {r} {r'} {a} {b} {c} sound alive read method params read'
        method' params' content same =
      let topic = unvalidated a.topic in
      let enrolled = enrol pk topic t s in
      let first : process_message pk m client t s ≡ (enrolled, returns (new_subscribed pk r.id)) =
        process_message-subscribe m t s sound read method (rw params refl) in
      let second : process_message pk m' client sender enrolled
          ≡ (broadcast pk topic (content_text pk c) enrolled, returns (new_published pk r'.id)) =
        process_message-publish_any m' sender enrolled sound read' method' params' content
        ∙ rw same refl in
      rw (first, second) (enrol-received topic (content_text pk c) t s alive)

  -- A request to publish a proposal that validates broadcasts it.
  process_message-publish_proposal :
      (m : pk.JsonRpc) (sender : pk.Sender) (s : Shared pk) {r : NexusRequest pk}
      {p : pk.Unvalidated} {v : pk.Validated}
      → s.registry.poisoned ≡ false
      → try_from pk m ≡ returns r
      → r.method ≡ publish
      → r.params ≡ proposal p
      → validated pk client p ≡ returns v
      → process_message pk m client sender s ≡ (
        broadcast pk (proposal_topic pk v) (proposal_text pk v) s,
        returns (new_published pk r.id),
      )
  unfolding process_message process_request
  process_message-publish_proposal m sender s {r} {p} sound read method params valid =
      rw (read, method, params) (process_publish_proposal-published pk p client r.id s valid sound)

  -- If the mutex is not poisoned and its channel is open, a client that subscribes to a pair of
  -- assets receives a proposal for that pair that anyone then publishes and that validates: one
  -- copy more than it had subscriptions to the pair before.
  pub subscribe-publish_proposal :
      (m m' : pk.JsonRpc) (t sender : pk.Sender) (s : Shared pk) {r r' : NexusRequest pk} {q : Pair}
      {p : pk.Unvalidated} {v : pk.Validated}
      → s.registry.poisoned ≡ false
      → is_alive pk s t ≡ true
      → try_from pk m ≡ returns r
      → r.method ≡ subscribe
      → r.params ≡ pair q
      → try_from pk m' ≡ returns r'
      → r'.method ≡ publish
      → r'.params ≡ proposal p
      → validated pk client p ≡ returns v
      → pk.input_asset v ≡ q.input
      → pk.output_asset v ≡ q.output
      → let s' = (process_message pk m client t s).0 in
        received pk (process_message pk m' client sender s').0 t
        ≡ received pk s t
          ++ replicate (suc (subscriptions pk s t (pair_topic pk q))) (proposal_text pk v)
  unfolding topic_from_params enrol proposal_topic
  subscribe-publish_proposal m m' t sender s {r} {r'} {q} {p} {v} sound alive read method params
        read' method' params' valid input output =
      let topic = pair_topic pk q in
      let enrolled = enrol pk topic t s in
      let first : process_message pk m client t s ≡ (enrolled, returns (new_subscribed pk r.id)) =
        process_message-subscribe m t s sound read method (rw params refl) in
      let second : process_message pk m' client sender enrolled
          ≡ (broadcast pk topic (proposal_text pk v) enrolled, returns (new_published pk r'.id)) =
        process_message-publish_proposal m' sender enrolled sound read' method' params' valid
        ∙ rw (input, output) refl in
      rw (first, second) (enrol-received topic (proposal_text pk v) t s alive)
