-- ===== src/Zmq/Panics.antt =====
-- The ZMQ messages that make `process_zmq_message` of src/zmq.rs panic.
use nexus_relay.Prelude.{
  ℕ, suc, ◌<◌, Outcome, false, none, some, Option, List, [], ◌∷◌, panics, ◌≡◌, ◌↔◌, length, arith,
  ◌≢◌, Outcome-cases, ◌⊎◌, inl, inr, refl,
}
use nexus_relay.External.Elements.{Bytes}
use nexus_relay.External.Packages.{Packages}
use nexus_relay.Error.{Error}
use nexus_relay.Network.{Network}
use nexus_relay.Zmq.{Listener, process_zmq_message, zmq_loop, start_zmq_listener}
use nexus_relay.Shared.{Shared}
use nexus_relay.Shared.Soundness.{IsSound}
use nexus_relay.Zmq.Cases.{
  Left, Ends, short, bad_transaction, remembered, new_transaction, bad_block, new_block,
  other_topic, process_zmq_message-Ends,
}
use nexus_relay.Zmq.Soundness.{process_zmq_message-IsSound}

module _ (pk : Packages) where
  -- A message with fewer parts panics before it changes anything.
  pub process_zmq_message_short :
      (msg : List Bytes) (network : Network) (l : Listener pk)
      → length msg < 2
      → process_zmq_message pk msg network l ≡ (l, panics)
  unfolding process_zmq_message
  process_zmq_message_short [] network l h = refl
  process_zmq_message_short (topic ∷ []) network l h = refl
  process_zmq_message_short (topic ∷ body ∷ parts) network l h = absurd (omega arith)

  -- Any other message has two parts, and does not panic.
  calm : {n : ℕ} {o : Outcome (Error pk) (Unit {0})} → o ≢ panics → (o ≡ panics) ↔ (suc (suc n) < 2)
  calm ne = (λ h. absurd (ne h), λ h. absurd (omega arith))

  Ends-panics_iff :
      (network : Network) (l : Listener pk) {msg : List Bytes} {x : Left pk network l}
      → Ends pk network l msg x
      → (x.1 ≡ panics) ↔ (length msg < 2)
  Ends-panics_iff network l (short h) = (λ e. h, λ e. refl)
  Ends-panics_iff network l (bad_transaction x is_tx e) = calm (λ h. cc)
  Ends-panics_iff network l (remembered tx is_tx e old) = calm (λ h. cc)
  Ends-panics_iff network l (new_transaction tx is_tx e new) = calm (λ h. cc)
  Ends-panics_iff network l (bad_block x is_block e) = calm (λ h. cc)
  Ends-panics_iff network l (new_block b is_block e) = calm (λ h. cc)
  Ends-panics_iff network l (other_topic not_tx neither) = calm (λ h. cc)

  -- With a mutex that is not poisoned, a message makes the listener panic exactly if it has fewer
  -- than two parts.
  pub process_zmq_message-panics_iff :
      (msg : List Bytes) (network : Network) (l : Listener pk)
      → l.shared.registry.poisoned ≡ false
      → ((process_zmq_message pk msg network l).1 ≡ panics) ↔ (length msg < 2)
  process_zmq_message-panics_iff msg network l sound =
      Ends-panics_iff network l (process_zmq_message-Ends pk network l sound msg)

  -- The loop ends by a panic exactly if the socket yields a message with fewer than two parts.
  pub data HasShort : List (Option (List Bytes)) → Type 0 where
    here :
        (msg : List Bytes) (rest : List (Option (List Bytes)))
        → length msg < 2
        → HasShort (some msg ∷ rest)
    later :
        (m : Option (List Bytes)) {rest : List (Option (List Bytes))}
        → HasShort rest
        → HasShort (m ∷ rest)

  HasShort-tail :
      {msg : List Bytes} {rest : List (Option (List Bytes))}
      → HasShort (some msg ∷ rest)
      → (length msg < 2) ⊎ HasShort rest
  HasShort-tail (here msg rest h) = inl h
  HasShort-tail (later m h) = inr h

  HasShort-failure : {rest : List (Option (List Bytes))} → HasShort (none ∷ rest) → HasShort rest
  HasShort-failure (later m h) = h

  zmq_loop-panics_iff :
      (messages : List (Option (List Bytes))) (network : Network) (l : Listener pk)
      → IsSound pk l.shared
      → ((zmq_loop pk messages network l).1 ≡ panics) ↔ HasShort messages
  unfolding zmq_loop
  zmq_loop-panics_iff [] network l v = (λ h. absurd (cc), λ h. elim h [ ])
  zmq_loop-panics_iff (none ∷ rest) network l v =
      let (to, from) = zmq_loop-panics_iff rest network l v in
      (λ h. later none (to h), λ h. from (HasShort-failure h))
  zmq_loop-panics_iff (some msg ∷ rest) network l v =
      let (l', o) = process_zmq_message pk msg network l in
      let v' : IsSound pk l'.shared = process_zmq_message-IsSound pk msg network l v in
      let (to, from) = zmq_loop-panics_iff rest network l' v' in
      let short = process_zmq_message-panics_iff msg network l v.unpoisoned in
      let onward : (o ≢ panics)
          → ((zmq_loop pk rest network l').1 ≡ panics) ↔ HasShort (some msg ∷ rest) =
        λ calm. (
          λ h. later (some msg) (to h),
          λ h. elim (HasShort-tail h) [ inl few ↦ absurd (calm (short.1 few)) | inr r ↦ from r ],
        ) in
      elim (Outcome-cases o) [
        | inl (u, e) ↦ rw (e, zmq_loop) (onward (λ h. cc))
        | inr (inl (x, e)) ↦ rw (e, zmq_loop) (onward (λ h. cc))
        | inr (inr e) ↦ rw (e, zmq_loop) (λ h. here msg rest (short.0 e), λ h. refl)
      ]

  -- If the mutex is not poisoned and each topic has one entry, the listener ends by a panic exactly
  -- if the socket yields a message with fewer than two parts.
  pub start_zmq_listener-panics_iff :
      (size : ℕ) (messages : List (Option (List Bytes))) (network : Network) (s : Shared pk)
      → IsSound pk s
      → ((start_zmq_listener pk size messages network s).1 ≡ panics) ↔ HasShort messages
  unfolding start_zmq_listener
  start_zmq_listener-panics_iff size messages network s v = zmq_loop-panics_iff messages network _ v
