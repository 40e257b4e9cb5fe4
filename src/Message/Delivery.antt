-- ===== src/Message/Delivery.antt =====
-- What a client receives because of another client's message to `process_message` of src/lib.rs.
use nexus_relay.Prelude.{
  String, true, Option, some, List, [], ◌++◌, returns, ◌≡◌, refl, sym, ◌∙◌, replicate, append-nil,
}
use nexus_relay.External.Packages.{Packages}
use nexus_relay.Payload.{Any}
use nexus_relay.Topic.{Topic, unvalidated}
use nexus_relay.Jsonrpc.{Method, Params, any, proposal, NexusRequest}
use nexus_relay.Jsonrpc.Parse.{try_from}
use nexus_relay.Node.{Node}
use nexus_relay.Proposal.{validated}
use nexus_relay.Proposal.Cases.{proposal_topic, proposal_text}
use nexus_relay.Registry.Delivery.{times}
use nexus_relay.Shared.{Shared}
use nexus_relay.Shared.Broadcast.{
  broadcast, enrol, subscribed, received, is_alive, broadcast-received,
}
use nexus_relay.Message.{process_message}
use nexus_relay.Message.Cases.{
  Reply, content_text, Serves, pinged, enrolled, relayed, proposed, unserved, rejected, unavailable,
  unlockable, Ends, unread, crashed, served, process_message-Ends,
}

module _ (pk : Packages) (client : Option (Node pk)) (client_tx : pk.Sender) (s : Shared pk) where
  -- The copies of a text that a topic brings to a channel.
  abbrev pub copies : Topic → String → pk.Sender → List String
  copies topic text t = replicate (times pk.mpsc (subscribed pk s topic) t) text

  -- What a message may bring to a channel: nothing; the content of a request to publish `any`, by
  -- the unvalidated topic that it names; a proposal that validates, by the validated topic of its
  -- own pair of assets.
  pub data Brings (m : pk.JsonRpc) (t : pk.Sender) : List String → Type 0 where
    nothing : Brings m t []
    any_content :
        (r : NexusRequest pk) (a : Any) (c : String)
        → try_from pk m ≡ returns r
        → r.params ≡ any a
        → a.content ≡ some c
        → Brings m t (copies (unvalidated a.topic) (content_text pk c) t)
    checked_proposal :
        (r : NexusRequest pk) (p : pk.Unvalidated) (v : pk.Validated)
        → try_from pk m ≡ returns r
        → r.params ≡ proposal p
        → validated pk client p ≡ returns v
        → Brings m t (copies (proposal_topic pk v) (proposal_text pk v) t)

  -- What the channel `t` has accepted is what it had, with what the message brings behind it.
  abbrev pub Received : pk.JsonRpc → pk.Sender → List String → Type 0
  Received m t all = (new : List String) × (all ≡ received pk s t ++ new) × Brings m t new

  unchanged :
      {m : pk.JsonRpc} (t : pk.Sender) {all : List String}
      → all ≡ received pk s t
      → Received m t all
  unchanged t e = ([], e ∙ sym (append-nil _), nothing)

  broadcast_alive :
      (topic : Topic) (text : String) (t : pk.Sender)
      → is_alive pk s t ≡ true
      → received pk (broadcast pk topic text s) t ≡ received pk s t ++ copies topic text t
  broadcast_alive topic text t alive = broadcast-received pk topic text s t ∙ rw alive

  Serves-Received :
      {m : pk.JsonRpc} (t : pk.Sender) (r : NexusRequest pk) {k : Method} {p : Params pk}
      {x : Reply pk}
      → try_from pk m ≡ returns r
      → r.params ≡ p
      → is_alive pk s t ≡ true
      → Serves pk client client_tx s r.id k p x
      → Received m t (received pk x.0 t)
  unfolding enrol
  Serves-Received t r f g alive pinged = unchanged t refl
  Serves-Received t r f g alive (enrolled p topic e d) = unchanged t refl
  Serves-Received t r f g alive (relayed a c e d) = (
    _,
    broadcast_alive (unvalidated a.topic) (content_text pk c) t alive,
    any_content r a c f g e,
  )
  Serves-Received t r f g alive (proposed p v e d) = (
    _,
    broadcast_alive (proposal_topic pk v) (proposal_text pk v) t alive,
    checked_proposal r p v f g e,
  )
  Serves-Received t r f g alive (unserved u) = unchanged t refl
  Serves-Received t r f g alive (rejected p e d) = unchanged t refl
  Serves-Received t r f g alive (unavailable p e) = unchanged t refl
  Serves-Received t r f g alive (unlockable d) = unchanged t refl

  Ends-Received :
      {m : pk.JsonRpc} (t : pk.Sender) {x : Reply pk}
      → is_alive pk s t ≡ true
      → Ends pk client client_tx s m x
      → Received m t (received pk x.0 t)
  Ends-Received t alive (unread e f) = unchanged t refl
  Ends-Received t alive (crashed f) = unchanged t refl
  Ends-Received t alive (served r f v) = Serves-Received t r f refl alive v

  -- Whatever a message does, a channel whose receiver lives keeps what it has received, and gets
  -- behind it nothing, or the content of a request to publish any by its unvalidated topic, or a
  -- proposal that validates by the topic of its own pair, once for each subscription.
  pub process_message-Received :
      (m : pk.JsonRpc) (t : pk.Sender)
      → is_alive pk s t ≡ true
      → Received m t (received pk (process_message pk m client client_tx s).0 t)
  process_message-Received m t alive =
      Ends-Received t alive (process_message-Ends pk client client_tx s m)
