-- ===== src/Zmq/Cases.antt =====
-- The ways in which `process_zmq_message` of src/zmq.rs ends.
use nexus_relay.Prelude.{
  ◌<◌, true, false, List, [], ◌∷◌, ◌≡◌, arith, returns, fails, panics, Outcome, ok, err, length,
  bytes_beq, string_eq, Bool-cases, Result-cases, inl, inr,
}
use nexus_relay.External.Elements.{Bytes}
use nexus_relay.External.Packages.{Packages}
use nexus_relay.BoundedSet
use nexus_relay.Error.{Error, elements}
use nexus_relay.Network.{Network}
use nexus_relay.Zmq.{mempool, rawtx, rawblock, Listener, process_transaction, process_zmq_message}
use nexus_relay.Zmq.Events.{
  transaction_events, block_events, broadcast_all, publish_transaction_lem, publish_block_lem,
}
use nexus_relay.Zmq.Listening.{txid_text}

module _ (pk : Packages) (network : Network) (l : Listener pk) where
  -- What is left of a message: the listener, and how the call ended.
  abbrev pub Left : Type 0
  Left = Listener pk × Outcome (Error pk) (Unit {0})

  pub data Ends : List Bytes → Left → Type 0 where
    short : {msg : List Bytes} → length msg < 2 → Ends msg (l, panics)
    bad_transaction :
        {topic body : Bytes} {parts : List Bytes} (e : pk.EncodeError)
        → bytes_beq topic rawtx ≡ true
        → pk.decode_transaction body ≡ err e
        → Ends (topic ∷ body ∷ parts) (l, fails (elements e))
    remembered :
        {topic body : Bytes} {parts : List Bytes} (tx : pk.Transaction)
        → bytes_beq topic rawtx ≡ true
        → pk.decode_transaction body ≡ ok tx
        → BoundedSet.contains l.txs_seen (txid_text pk tx) ≡ true
        → Ends (topic ∷ body ∷ parts) (l, returns tt)
    new_transaction :
        {topic body : Bytes} {parts : List Bytes} (tx : pk.Transaction)
        → bytes_beq topic rawtx ≡ true
        → pk.decode_transaction body ≡ ok tx
        → BoundedSet.contains l.txs_seen (txid_text pk tx) ≡ false
        → Ends (topic ∷ body ∷ parts) (
          record {
            shared = broadcast_all pk (transaction_events pk tx network mempool) l.shared;
            txs_seen = (BoundedSet.insert (txid_text pk tx) l.txs_seen).0;
          },
          returns tt,
        )
    bad_block :
        {topic body : Bytes} {parts : List Bytes} (e : pk.EncodeError)
        → bytes_beq topic rawblock ≡ true
        → pk.decode_block body ≡ err e
        → Ends (topic ∷ body ∷ parts) (l, fails (elements e))
    new_block :
        {topic body : Bytes} {parts : List Bytes} (b : pk.Block)
        → bytes_beq topic rawblock ≡ true
        → pk.decode_block body ≡ ok b
        → Ends (topic ∷ body ∷ parts) (
          record l { shared = broadcast_all pk (block_events pk (pk.txdata b) network) l.shared },
          returns tt,
        )
    other_topic :
        {topic body : Bytes} {parts : List Bytes}
        → bytes_beq topic rawtx ≡ false
        → bytes_beq topic rawblock ≡ false
        → Ends (topic ∷ body ∷ parts) (l, returns tt)

  module _ (sound : l.shared.registry.poisoned ≡ false) where
    process_transaction-Ends :
        {topic body : Bytes} {parts : List Bytes} (tx : pk.Transaction)
        → bytes_beq topic rawtx ≡ true
        → pk.decode_transaction body ≡ ok tx
        → Ends (topic ∷ body ∷ parts) (process_transaction pk tx network l)
    unfolding process_transaction
    process_transaction-Ends tx is_tx e =
        elim (Bool-cases (BoundedSet.contains l.txs_seen (txid_text pk tx))) [
          | inl old ↦ rw old (remembered tx is_tx e old)
          | inr new ↦
              rw (new, publish_transaction_lem pk tx network mempool l.shared sound)
                (new_transaction tx is_tx e new)
        ]

    -- With the mutex not poisoned, every call of process_zmq_message ends in one of the listed
    -- ways, with the result and the state of that way: a message with fewer than two parts panics;
    -- a transaction or block that does not decode is an error, and changes nothing; a transaction
    -- that is remembered changes nothing, and any other is remembered and published as seen in the
    -- mempool; a block is published with all its transactions; another topic is passed over.
    pub process_zmq_message-Ends :
        (msg : List Bytes) → Ends msg (process_zmq_message pk msg network l)
    unfolding process_zmq_message
    process_zmq_message-Ends [] = short (omega arith)
    process_zmq_message-Ends (topic ∷ []) = short (omega arith)
    process_zmq_message-Ends (topic ∷ body ∷ parts) = elim (Bool-cases (bytes_beq topic rawtx)) [
      | inl is_tx ↦ elim (Result-cases (pk.decode_transaction body)) [
        | inl (tx, e) ↦ rw (is_tx, e) (process_transaction-Ends tx is_tx e)
        | inr (x, e) ↦ rw (is_tx, e) (bad_transaction x is_tx e)
      ]
      | inr not_tx ↦ elim (Bool-cases (bytes_beq topic rawblock)) [
        | inl is_block ↦ elim (Result-cases (pk.decode_block body)) [
          | inl (b, e) ↦
              rw (not_tx, is_block, e, publish_block_lem pk (pk.txdata b) network l.shared sound)
                (new_block b is_block e)
          | inr (x, e) ↦ rw (not_tx, is_block, e) (bad_block x is_block e)
        ]
        | inr neither ↦ rw (not_tx, neither) (other_topic not_tx neither)
      ]
    ]
