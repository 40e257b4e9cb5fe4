-- ===== src/Server/Authentic.antt =====
-- What reaches a client that follows validated topics only, over the turns of the server of src/lib.rs.
use nexus_relay.Prelude.{
  true, false, some, bytes_beq, String, List, [], ◌∷◌, ◌++◌, ok, returns, ◌≡◌, replicate, string_eq,
}
use nexus_relay.External.Elements.{Bytes}
use nexus_relay.External.Json.{Http}
use nexus_relay.External.Packages.{Packages}
use nexus_relay.BoundedSet
use nexus_relay.Connection.Answers.{Response, Others, none_else, own_message}
use nexus_relay.Message.Delivery.{Brings, nothing, any_content, checked_proposal}
use nexus_relay.Connection.{text}
use nexus_relay.Jsonrpc.{NexusRequest, proposal}
use nexus_relay.Jsonrpc.Parse.{try_from}
use nexus_relay.Node
use nexus_relay.Proposal.Validation.{validated_iff}
use nexus_relay.Proposal.Cases.{proposal_topic, proposal_text}
use nexus_relay.Server.{Config, client, Step, connection, listener, Reachable}
use nexus_relay.Server.History.{History}
use nexus_relay.Server.Sources
use nexus_relay.Server.Sources.{
  Brought, accepts, drops, no_text, socket_error, no_message, published, panicked, passed,
  Step-Gets,
}
use nexus_relay.Shared.Broadcast.{received, is_alive, subscriptions}
use nexus_relay.Topic.{unvalidated}
use nexus_relay.Zmq.{Listener, mempool, rawtx, rawblock}
use nexus_relay.Zmq.Delivery.{transaction_due, block_due}
use nexus_relay.Zmq.Listening.{txid_text}

module _ (pk : Packages) (config : Config) (t : pk.Sender) (l : Listener pk) where
  -- What a text of a client brings: nothing, or a proposal that stands in the text, whose
  -- transaction the node gives at that turn and which validates against it, once for each
  -- subscription to the pair that it trades.
  pub data Checked (http : Http pk.json) (m : String) : List String → Type 0 where
    none_sent : Checked http m []
    checked :
        (j : pk.JsonRpc) (r : NexusRequest pk) (p : pk.Unvalidated) (v : pk.Validated)
        (txid : pk.Txid) (tx : pk.Transaction)
        → pk.parse m ≡ some j
        → try_from pk j ≡ returns r
        → r.params ≡ proposal p
        → pk.needed_tx p ≡ ok txid
        → Node.tx pk (client pk config http) txid ≡ some tx
        → pk.validate p tx ≡ ok v
        → Checked http m
            (replicate (subscriptions pk l.shared t (proposal_topic pk v)) (proposal_text pk v))

  -- What a turn brings. A turn that is none of the others brings nothing.
  pub data Authentic : (l' : Listener pk) → Step pk config l l' → List String → Type 0 where
    silent : {l' : Listener pk} (step : Step pk config l l') → Authentic l' step []
    from_client :
        {new : List String} (http : Http pk.json) (client_tx : pk.Sender) (m : String)
        (made : pk.is_made l.shared.channels client_tx ≡ true)
        → Checked http m new
        → Authentic _ (connection http (text m) client_tx made) new
    answer :
        {new : List String} (http : Http pk.json) (m : String) (response : pk.JsonRpc)
        (made : pk.is_made l.shared.channels t ≡ true)
        → Checked http m new
        → Response pk (client pk config http) t m l.shared response
        → Authentic _ (connection http (text m) t made) (new ++ pk.to_string response ∷ [])
    of_transaction :
        (topic body : Bytes) (parts : List Bytes) (tx : pk.Transaction)
        → bytes_beq topic rawtx ≡ true
        → pk.decode_transaction body ≡ ok tx
        → BoundedSet.contains l.txs_seen (txid_text pk tx) ≡ false
        → Authentic _
            (listener (topic ∷ body ∷ parts))
            (transaction_due pk config.network tx mempool (subscriptions pk l.shared t))
    of_block :
        (topic body : Bytes) (parts : List Bytes) (b : pk.Block)
        → bytes_beq topic rawblock ≡ true
        → pk.decode_block body ≡ ok b
        → Authentic _
            (listener (topic ∷ body ∷ parts))
            (block_due pk config.network (pk.txdata b) (subscriptions pk l.shared t))

  module _ (strict : (topic : String) → subscriptions pk l.shared t (unvalidated topic) ≡ 0) where
    Brings-Checked :
        {client_tx : pk.Sender} {j : pk.JsonRpc} {new : List String} (http : Http pk.json)
        (m : String)
        → pk.parse m ≡ some j
        → Brings pk (some (client pk config http)) client_tx l.shared j t new
        → Checked http m new
    Brings-Checked http m parsed nothing = none_sent
    Brings-Checked http m parsed (any_content r a c e f g) = rw (strict a.topic) none_sent
    Brings-Checked http m parsed (checked_proposal r p v e f g) =
        let (txid, tx, needs, gives, right) = (validated_iff pk (client pk config http) p v).0 g in
        checked _ r p v txid tx parsed e f needs gives right

    Others-Checked :
        {m : String} {new : List String} (http : Http pk.json)
        → Others pk (client pk config http) t m l.shared new
        → Checked http m new
    Others-Checked http (none_else e) = none_sent
    Others-Checked {m} http (own_message j e brings) = Brings-Checked http m e brings

    Brought-Authentic :
        {l' : Listener pk} {step : Step pk config l l'} {new : List String}
        → Brought pk config t l l' step new
        → Authentic l' step new
    Brought-Authentic (published http client_tx m j made apart e brings) =
        from_client http client_tx m made (Brings-Checked http m e brings)
    Brought-Authentic (Sources.answered http m response made others right) =
        answer http m response made (Others-Checked http others) right
    Brought-Authentic (panicked http m j made crashed e brings) =
        from_client http t m made (Brings-Checked http m e brings)
    Brought-Authentic (Sources.of_transaction topic body parts tx is_tx e new) =
        of_transaction topic body parts tx is_tx e new
    Brought-Authentic (Sources.of_block topic body parts b is_block e) =
        of_block topic body parts b is_block e
    Brought-Authentic accepts = silent _
    Brought-Authentic (drops s) = silent _
    Brought-Authentic (no_text http client_tx made) = silent _
    Brought-Authentic (socket_error http client_tx made) = silent _
    Brought-Authentic (no_message http client_tx m made apart e) = silent _
    Brought-Authentic (passed msg e) = silent _

    -- One turn, with no subscription to an unvalidated topic before it.
    pub Step-Authentic :
        {l' : Listener pk}
        → Reachable pk config l
        → is_alive pk l.shared t ≡ true
        → (step : Step pk config l l')
        → (new : List String) × (received pk l'.shared t ≡ received pk l.shared t ++ new)
          × Authentic l' step new
    Step-Authentic r alive step =
        let (new, e, brought) = Step-Gets pk config t l alive r step in
        (new, e, Brought-Authentic brought)

module _ (pk : Packages) (config : Config) where
  -- No subscription to an unvalidated topic.
  abbrev pub Strict : pk.Sender → Listener pk → Type 0
  Strict t l = (topic : String) → subscriptions pk l.shared t (unvalidated topic) ≡ 0
