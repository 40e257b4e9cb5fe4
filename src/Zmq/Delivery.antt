-- ===== src/Zmq/Delivery.antt =====
-- What a client receives when `process_zmq_message` of src/zmq.rs takes a transaction or a block.
use nexus_relay.Prelude.{
  ℕ, String, true, false, List, [], ◌∷◌, ◌++◌, ok, ◌≡◌, refl, sym, ◌∙◌, replicate, append_assoc,
  ◌≤◌, ◌==◌, Occurs, Occurs-replicate, Occurs-append, contains, Bool-cases, inl, inr, arith,
  string_eq,
}
use nexus_relay.External.Elements.{Bytes}
use nexus_relay.External.Packages.{Packages}
use nexus_relay.BoundedSet
use nexus_relay.Network.{Network}
use nexus_relay.Shared.{Shared}
use nexus_relay.Shared.Broadcast.{received, is_alive, subscriptions}
use nexus_relay.Topic.{Topic, validated}
use nexus_relay.Zmq.{
  Where, mempool, block, rawtx, rawblock, Listener, get_output_addresses, process_zmq_message,
}
use nexus_relay.Zmq.Events.{
  Event, transaction_events, block_events, delivered, broadcast_all, broadcast_all-received,
  address_events, address_event, tx_event,
}
use nexus_relay.Zmq.Listening.{process_zmq_message-rawtx, process_zmq_message-rawblock, txid_text}

module _ (pk : Packages) (network : Network) where
  -- The notifications that a transaction makes due to a channel that stands `n topic` times at each
  -- topic: the transaction for its id, and each address that an output pays, once for every such
  -- output.
  module _ (tx : pk.Transaction) (where_ : Where) (n : Topic → ℕ) where
    pub addresses_due : List String → List String
    addresses_due [] = []
    addresses_due (a ∷ rest) =
        replicate (n (validated a)) (address_event pk (txid_text pk tx) tx where_ a).1
        ++ addresses_due rest

    pub transaction_due : List String
    unfolding addresses_due
    transaction_due =
        replicate (n (validated (txid_text pk tx))) (tx_event pk (txid_text pk tx) tx where_).1
        ++ addresses_due (get_output_addresses pk tx network)

    delivered-address_events :
        (addresses : List String)
        → delivered pk (address_events pk (txid_text pk tx) tx where_ addresses) n
          ≡ addresses_due addresses
    unfolding delivered address_events addresses_due address_event
    delivered-address_events [] = refl
    delivered-address_events (a ∷ rest) = rw (delivered-address_events rest)

    delivered-transaction_events :
        delivered pk (transaction_events pk tx network where_) n ≡ transaction_due
    unfolding delivered transaction_events transaction_due tx_event
    delivered-transaction_events =
        rw (delivered-address_events (get_output_addresses pk tx network))

  -- The topics that a transaction is published to, each with its text.
  pub data Notifies (tx : pk.Transaction) (where_ : Where) : Topic → String → Type 0 where
    transaction :
        Notifies tx where_ (validated (txid_text pk tx)) (tx_event pk (txid_text pk tx) tx where_).1
    address :
        (a : String)
        → contains (get_output_addresses pk tx network) a ≡ true
        → Notifies tx where_ (validated a) (address_event pk (txid_text pk tx) tx where_ a).1

  module _ (tx : pk.Transaction) (where_ : Where) (n : Topic → ℕ) where
    addresses_due-Occurs :
        (addresses : List String) (a : String)
        → contains addresses a ≡ true
        → 1 ≤ n (validated a)
        → Occurs
            (address_event pk (txid_text pk tx) tx where_ a).1
            (addresses_due tx where_ n addresses)
    unfolding addresses_due
    addresses_due-Occurs [] a h some_ = absurd (cc)
    addresses_due-Occurs (x ∷ rest) a h subscribed = elim (Bool-cases (x == a)) [
      | inl same ↦
          rw ((string_eq.beq_true x a).0 same) (Occurs-replicate (n (validated a)) _ _ subscribed)
      | inr other ↦
          Occurs-append (replicate (n (validated x)) _)
            (addresses_due-Occurs rest a (ground arith) subscribed)
    ]

    -- What a channel that stands at a topic of a transaction is due has the topic's text in it.
    pub transaction_due-Occurs :
        {topic : Topic} {text : String}
        → Notifies tx where_ topic text
        → 1 ≤ n topic
        → Occurs text (transaction_due tx where_ n)
    unfolding transaction_due
    transaction_due-Occurs transaction subscribed =
        Occurs-replicate (n (validated (txid_text pk tx))) _ _ subscribed
    transaction_due-Occurs (address a h) subscribed =
        Occurs-append (replicate (n (validated (txid_text pk tx))) _)
          (addresses_due-Occurs (get_output_addresses pk tx network) a h subscribed)

  -- What the events of a transaction bring to a channel that is open.
  pub broadcast-transaction_due :
      (tx : pk.Transaction) (where_ : Where) (s : Shared pk) (t : pk.Sender)
      → is_alive pk s t ≡ true
      → received pk (broadcast_all pk (transaction_events pk tx network where_) s) t
        ≡ received pk s t ++ transaction_due tx where_ (subscriptions pk s t)
  broadcast-transaction_due tx where_ s t alive =
      broadcast_all-received pk (transaction_events pk tx network where_) s t alive
      ∙ rw (delivered-transaction_events tx where_ (subscriptions pk s t)) refl

  module _ (body : Bytes) (parts : List Bytes) (l : Listener pk) (t : pk.Sender) where
    -- With the mutex not poisoned, a transaction that is not remembered brings a channel that is
    -- open its notification once for each subscription to its id, and then, for each output that
    -- pays an address, the address's notification once for each subscription to that address.
    pub process_zmq_message-received :
        {tx : pk.Transaction}
        → pk.decode_transaction body ≡ ok tx
        → l.shared.registry.poisoned ≡ false
        → is_alive pk l.shared t ≡ true
        → BoundedSet.contains l.txs_seen (txid_text pk tx) ≡ false
        → received pk (process_zmq_message pk (rawtx ∷ body ∷ parts) network l).0.shared t
          ≡ received pk l.shared t ++ transaction_due tx mempool (subscriptions pk l.shared t)
    process_zmq_message-received {tx} e sound alive new =
        rw (process_zmq_message-rawtx pk body parts network l e sound, new)
          (broadcast-transaction_due tx mempool l.shared t alive)

  -- The notifications of a block's transactions, in their order.
  pub block_due : List pk.Transaction → (Topic → ℕ) → List String
  block_due [] n = []
  block_due (tx ∷ rest) n = transaction_due tx block n ++ block_due rest n

  delivered-append :
      (xs ys : List (Event pk)) (n : Topic → ℕ)
      → delivered pk (xs ++ ys) n ≡ delivered pk xs n ++ delivered pk ys n
  unfolding delivered
  delivered-append [] ys n = refl
  delivered-append ((topic, text) ∷ xs) ys n =
      rw (delivered-append xs ys n)
        (sym (append_assoc (replicate (n topic) text) (delivered pk xs n) (delivered pk ys n)))

  delivered-block_events :
      (txs : List pk.Transaction) (n : Topic → ℕ)
      → delivered pk (block_events pk txs network) n ≡ block_due txs n
  unfolding block_events block_due delivered
  delivered-block_events [] n = refl
  delivered-block_events (tx ∷ rest) n =
      delivered-append (transaction_events pk tx network block) (block_events pk rest network) n
      ∙ rw (delivered-transaction_events tx block n, delivered-block_events rest n) refl

  -- What the events of a block bring to a channel that is open.
  pub broadcast-block_due :
      (txs : List pk.Transaction) (s : Shared pk) (t : pk.Sender)
      → is_alive pk s t ≡ true
      → received pk (broadcast_all pk (block_events pk txs network) s) t
        ≡ received pk s t ++ block_due txs (subscriptions pk s t)
  broadcast-block_due txs s t alive =
      broadcast_all-received pk (block_events pk txs network) s t alive
      ∙ rw (delivered-block_events txs (subscriptions pk s t)) refl

  -- With the mutex not poisoned, a block brings a channel that is open the notifications of all its
  -- transactions, in their order, whatever is remembered.
  pub process_zmq_message-block_received :
      (body : Bytes) (parts : List Bytes) (l : Listener pk) (t : pk.Sender) {b : pk.Block}
      → pk.decode_block body ≡ ok b
      → l.shared.registry.poisoned ≡ false
      → is_alive pk l.shared t ≡ true
      → received pk (process_zmq_message pk (rawblock ∷ body ∷ parts) network l).0.shared t
        ≡ received pk l.shared t ++ block_due (pk.txdata b) (subscriptions pk l.shared t)
  process_zmq_message-block_received body parts l t {b} e sound alive =
      rw (process_zmq_message-rawblock pk body parts network l e sound)
        (broadcast-block_due (pk.txdata b) l.shared t alive)
