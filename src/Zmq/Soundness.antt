-- ===== src/Zmq/Soundness.antt =====
-- `process_zmq_message` of src/zmq.rs, and the soundness of the shared state.
use nexus_relay.Prelude.{refl, ◌≡◌, false, List, [], ◌∷◌, string_eq}
use nexus_relay.External.Elements.{Bytes}
use nexus_relay.External.Packages.{Packages}
use nexus_relay.Network.{Network}
use nexus_relay.Shared.{Shared}
use nexus_relay.Shared.Broadcast.{broadcast}
use nexus_relay.Shared.Soundness.{IsSound, broadcast-IsSound}
use nexus_relay.Zmq.{mempool, Listener, process_zmq_message}
use nexus_relay.Zmq.Cases.{Left, Ends, new_transaction, new_block, process_zmq_message-Ends}
use nexus_relay.Zmq.Events.{Event, transaction_events, block_events, broadcast_all}

module _ (pk : Packages) where
  broadcast_all-IsSound :
      (events : List (Event pk)) (s : Shared pk)
      → IsSound pk s
      → IsSound pk (broadcast_all pk events s)
  unfolding broadcast_all
  broadcast_all-IsSound [] s v = v
  broadcast_all-IsSound ((topic, text) ∷ rest) s v =
      broadcast_all-IsSound rest (broadcast pk topic text s) (broadcast-IsSound pk topic text s v)

  -- What is shared after a call is what events have made of it.
  abbrev pub Broadcasts : Shared pk → Shared pk → Type 0
  Broadcasts s s' = (events : List (Event pk)) × (s' ≡ broadcast_all pk events s)

  Ends-Broadcasts :
      (network : Network) (l : Listener pk) {msg : List Bytes} {x : Left pk network l}
      → Ends pk network l msg x
      → Broadcasts l.shared x.0.shared
  unfolding broadcast_all
  Ends-Broadcasts network l (new_transaction tx is_tx e new) =
      (transaction_events pk tx network mempool, refl)
  Ends-Broadcasts network l (new_block b is_block e) = (block_events pk (pk.txdata b) network, refl)
  Ends-Broadcasts network l _ = ([], refl)

  pub process_zmq_message-Broadcasts :
      (msg : List Bytes) (network : Network) (l : Listener pk)
      → l.shared.registry.poisoned ≡ false
      → Broadcasts l.shared (process_zmq_message pk msg network l).0.shared
  process_zmq_message-Broadcasts msg network l sound =
      Ends-Broadcasts network l (process_zmq_message-Ends pk network l sound msg)

  pub process_zmq_message-IsSound :
      (msg : List Bytes) (network : Network) (l : Listener pk)
      → IsSound pk l.shared
      → IsSound pk (process_zmq_message pk msg network l).0.shared
  process_zmq_message-IsSound msg network l v =
      let (events, same) = process_zmq_message-Broadcasts msg network l v.unpoisoned in
      rw same (broadcast_all-IsSound events l.shared v)
