-- ===== src/Zmq/Listening.antt =====
-- One ZMQ message, in `process_zmq_message` of src/zmq.rs, and what the listener keeps from
-- message to message.
use nexus_relay.Prelude.{
  ℕ, String, false, Option, none, some, List, [], ◌∷◌, ◌≡◌, ◌∙◌, returns, ok, bytes_beq, string_eq,
  arith, if◌then◌else◌, Bool-cases, Result-cases, Outcome-cases, inl, inr,
}
use nexus_relay.External.Elements.{Bytes}
use nexus_relay.External.Packages.{Packages}
use nexus_relay.Network.{Network}
use nexus_relay.BoundedSet.{BoundedSet}
use nexus_relay.BoundedSet
use nexus_relay.BoundedSet.Invariant.{IsBounded, new-IsBounded, insert-IsBounded, insert-contains}
use nexus_relay.Shared.{Shared}
use nexus_relay.Zmq.{
  mempool, rawtx, rawblock, Listener, process_transaction, process_zmq_message, zmq_loop,
  start_zmq_listener,
}
use nexus_relay.Zmq.Events.{
  transaction_events, block_events, broadcast_all, broadcast_all-poisoned, publish_transaction_lem,
  publish_block_lem,
}

module _ (pk : Packages) where
  abbrev pub txid_text : pk.Transaction → String
  txid_text tx = pk.txid_to_string (pk.txid tx)

  module _ (body : Bytes) (parts : List Bytes) (network : Network) (l : Listener pk) where
    -- With the mutex not poisoned, a raw transaction that decodes changes nothing if it is
    -- remembered; any other is remembered and published as seen in the mempool, to its id and to
    -- each address that its outputs pay.
    pub process_zmq_message-rawtx :
        {tx : pk.Transaction}
        → pk.decode_transaction body ≡ ok tx
        → l.shared.registry.poisoned ≡ false
        → process_zmq_message pk (rawtx ∷ body ∷ parts) network l ≡ (
            if BoundedSet.contains l.txs_seen (txid_text tx) then (l, returns tt) else (
              record {
                shared = broadcast_all pk (transaction_events pk tx network mempool) l.shared;
                txs_seen = (BoundedSet.insert (txid_text tx) l.txs_seen).0;
              },
              returns tt,
            ))
    unfolding process_zmq_message
    process_zmq_message-rawtx {tx} e sound =
        ground (arith, publish_transaction_lem pk tx network mempool l.shared sound)

    -- With the mutex not poisoned, a raw block that decodes has every transaction published as seen
    -- in a block, remembered or not, and leaves the transactions seen as they are.
    pub process_zmq_message-rawblock :
        {b : pk.Block}
        → pk.decode_block body ≡ ok b
        → l.shared.registry.poisoned ≡ false
        → process_zmq_message pk (rawblock ∷ body ∷ parts) network l ≡ (
          record l { shared = broadcast_all pk (block_events pk (pk.txdata b) network) l.shared },
          returns tt,
        )
    unfolding process_zmq_message
    process_zmq_message-rawblock {b} e sound =
        ground (arith, publish_block_lem pk (pk.txdata b) network l.shared sound)

  -- With the mutex not poisoned, a raw transaction that decodes changes nothing when it comes again
  -- at once.
  pub process_zmq_message_twice :
      (body : Bytes) (parts : List Bytes) (network : Network) (l : Listener pk)
      {tx : pk.Transaction}
      → pk.decode_transaction body ≡ ok tx
      → l.shared.registry.poisoned ≡ false
      → let l' = (process_zmq_message pk (rawtx ∷ body ∷ parts) network l).0 in
        process_zmq_message pk (rawtx ∷ body ∷ parts) network l' ≡ (l', returns tt)
  process_zmq_message_twice body parts network l {tx} e sound =
      elim (Bool-cases (BoundedSet.contains l.txs_seen (txid_text tx))) [
        | inl old ↦
            let first : process_zmq_message pk (rawtx ∷ body ∷ parts) network l ≡ (l, returns tt) =
              process_zmq_message-rawtx body parts network l e sound ∙ rw old in
            rw first first
        | inr new ↦
            let l' : Listener pk = record {
              shared = broadcast_all pk (transaction_events pk tx network mempool) l.shared;
              txs_seen = (BoundedSet.insert (txid_text tx) l.txs_seen).0;
            } in
            let first : process_zmq_message pk (rawtx ∷ body ∷ parts) network l ≡ (l', returns tt) =
              process_zmq_message-rawtx body parts network l e sound ∙ rw new in
            rw first (
              process_zmq_message-rawtx body parts network l' e (
                broadcast_all-poisoned pk (transaction_events pk tx network mempool) l.shared
                ∙ sound)
              ∙ rw ((insert-contains (txid_text tx) l.txs_seen).1))
      ]

  -- What every insertion keeps of the transactions seen.
  module _ (P : BoundedSet String → Type 0)
      (insert-P : (txid : String) (s : BoundedSet String)
        → P s
        → P (BoundedSet.insert txid s).0) where
    process_transaction-keeps :
        (tx : pk.Transaction) (network : Network) (l : Listener pk)
        → P l.txs_seen
        → P (process_transaction pk tx network l).0.txs_seen
    unfolding process_transaction
    process_transaction-keeps tx network l v =
        elim (Bool-cases (BoundedSet.contains l.txs_seen (txid_text tx))) [
          | inl old ↦ rw old v
          | inr new ↦ rw new (insert-P (txid_text tx) l.txs_seen v)
        ]

    pub process_zmq_message-keeps :
        (msg : List Bytes) (network : Network) (l : Listener pk)
        → P l.txs_seen
        → P (process_zmq_message pk msg network l).0.txs_seen
    unfolding process_zmq_message
    process_zmq_message-keeps [] network l v = v
    process_zmq_message-keeps (topic ∷ []) network l v = v
    process_zmq_message-keeps (topic ∷ body ∷ parts) network l v =
        elim (Bool-cases (bytes_beq topic rawtx)) [
          | inl is_tx ↦ elim (Result-cases (pk.decode_transaction body)) [
            | inl (tx, e) ↦ rw (is_tx, e) (process_transaction-keeps tx network l v)
            | inr (x, e) ↦ rw (is_tx, e) v
          ]
          | inr not_tx ↦ elim (Bool-cases (bytes_beq topic rawblock)) [
            | inl is_block ↦ elim (Result-cases (pk.decode_block body)) [
              | inl (b, e) ↦ rw (not_tx, is_block, e) v
              | inr (x, e) ↦ rw (not_tx, is_block, e) v
            ]
            | inr neither ↦ rw (not_tx, neither) v
          ]
        ]

    zmq_loop-keeps :
        (messages : List (Option (List Bytes))) (network : Network) (l : Listener pk)
        → P l.txs_seen
        → P (zmq_loop pk messages network l).0.txs_seen
    unfolding zmq_loop
    zmq_loop-keeps [] network l v = v
    zmq_loop-keeps (none ∷ rest) network l v = zmq_loop-keeps rest network l v
    zmq_loop-keeps (some msg ∷ rest) network l v =
        let (l', o) = process_zmq_message pk msg network l in
        let v' : P l'.txs_seen = process_zmq_message-keeps msg network l v in
        elim (Outcome-cases o) [
          | inl (u, e) ↦ rw (e, zmq_loop) (zmq_loop-keeps rest network l' v')
          | inr (inl (x, e)) ↦ rw (e, zmq_loop) (zmq_loop-keeps rest network l' v')
          | inr (inr e) ↦ rw (e, zmq_loop) v'
        ]

  -- However long the listener runs, the transactions that it remembers form a bounded set: set and
  -- queue agree, nothing stands twice, and there are at most as many as the cache may hold, or
  -- one if it may hold none.
  pub start_zmq_listener-IsBounded :
      (size : ℕ) (messages : List (Option (List Bytes))) (network : Network) (s : Shared pk)
      → IsBounded (start_zmq_listener pk size messages network s).0.txs_seen
  unfolding start_zmq_listener
  start_zmq_listener-IsBounded size messages network s =
      zmq_loop-keeps IsBounded insert-IsBounded messages network _ (new-IsBounded size)
