-- ===== src/Message/Effects.antt =====
-- What `process_message` of src/lib.rs may do to the shared state.
use nexus_relay.Prelude.{ℕ, String, Option}
use nexus_relay.External.Packages.{Packages}
use nexus_relay.Jsonrpc.{Method, Params}
use nexus_relay.Message.{process_message}
use nexus_relay.Message.Cases.{
  Reply, content_text, Serves, enrolled, relayed, proposed, Ends, unread, crashed, served,
  process_message-Ends,
}
use nexus_relay.Node.{Node}
use nexus_relay.Proposal.Cases.{proposal_topic, proposal_text}
use nexus_relay.Shared.{Shared}
use nexus_relay.Shared.Broadcast.{broadcast, enrol}
use nexus_relay.Topic.{Topic, unvalidated}

module _ (pk : Packages) where
  -- Nothing, a subscription of the sender, or one publication.
  pub data Effect (client_tx : pk.Sender) (s : Shared pk) : Shared pk → Type 0 where
    untouched : Effect client_tx s s
    enrols : (topic : Topic) → Effect client_tx s (enrol pk topic client_tx s)
    broadcasts : (topic : Topic) (text : String) → Effect client_tx s (broadcast pk topic text s)

  module _ (client : Option (Node pk)) (client_tx : pk.Sender) (s : Shared pk) where
    Serves-Effect :
        {id : ℕ} {k : Method} {p : Params pk} {x : Reply pk}
        → Serves pk client client_tx s id k p x
        → Effect client_tx s x.0
    Serves-Effect (enrolled p topic e d) = enrols topic
    Serves-Effect (relayed a c e d) = broadcasts (unvalidated a.topic) (content_text pk c)
    Serves-Effect (proposed p v e d) = broadcasts (proposal_topic pk v) (proposal_text pk v)
    Serves-Effect _ = untouched

    Ends-Effect :
        {m : pk.JsonRpc} {x : Reply pk} → Ends pk client client_tx s m x → Effect client_tx s x.0
    Ends-Effect (unread e f) = untouched
    Ends-Effect (crashed f) = untouched
    Ends-Effect (served r f v) = Serves-Effect v

    pub process_message-Effect :
        (m : pk.JsonRpc) → Effect client_tx s (process_message pk m client client_tx s).0
    process_message-Effect m = Ends-Effect (process_message-Ends pk client client_tx s m)
