-- ===== src/Zmq/Events.antt =====
-- What the listener of src/zmq.rs publishes, as a list of topics and texts, and who receives it.
use nexus_relay.Prelude.{
  ℕ, ◌≤◌, String, true, false, List, [], ◌∷◌, ◌++◌, ◌≡◌, refl, sym, ◌∙◌, returns, string_eq, negsuc,
  arith, append_assoc, replicate, append-nil, fun_ext,
}
use nexus_relay.External.Packages.{Packages}
use nexus_relay.Topic.{Topic, validated}
use nexus_relay.Jsonrpc.{notification, response_to_string}
use nexus_relay.Network.{Network}
use nexus_relay.Shared.{Shared, >>=-returns}
use nexus_relay.Shared.Broadcast.{
  broadcast, received, is_alive, broadcast-received, broadcast-is_alive, broadcast-poisoned,
  subscriptions, broadcast-subscriptions, Kept, broadcast-keeps, broadcast-subscriptions-le,
}
use nexus_relay.Zmq.{
  Where, block, address_seen_to_value, tx_seen_to_value, get_output_addresses, publish_address_seen,
  publish_tx_seen, publish_addresses, publish_transaction, publish_block,
}

module _ (pk : Packages) where
  abbrev pub Event : Type 0
  Event = Topic × String

  unfoldable pub notice : pk.Value → String
  notice v = pk.to_string (pk.success (negsuc 0) v)

  unfoldable pub address_event : String → pk.Transaction → Where → String → Event
  address_event txid tx where_ address = (
    validated address,
    notice (
        address_seen_to_value pk (record {
          address = address;
          txid = txid;
          tx_hex = pk.serialize_hex tx;
          where_ = where_;
        })),
  )

  unfoldable pub tx_event : String → pk.Transaction → Where → Event
  tx_event txid tx where_ = (
    validated txid,
    notice (
        tx_seen_to_value pk
          (record { txid = txid; tx_hex = pk.serialize_hex tx; where_ = where_ })),
  )

  unfoldable pub address_events : String → pk.Transaction → Where → List String → List Event
  address_events txid tx where_ [] = []
  address_events txid tx where_ (a ∷ rest) =
      address_event txid tx where_ a ∷ address_events txid tx where_ rest

  -- The transaction to those who follow its id, and then to those who follow an address that an
  -- output pays, in the order of the outputs.
  unfoldable pub transaction_events : pk.Transaction → Network → Where → List Event
  transaction_events tx network where_ =
      let txid = pk.txid_to_string (pk.txid tx) in
      tx_event txid tx where_ ∷ address_events txid tx where_ (get_output_addresses pk tx network)

  unfoldable pub block_events : List pk.Transaction → Network → List Event
  block_events [] network = []
  block_events (tx ∷ rest) network =
      transaction_events tx network block ++ block_events rest network

  unfoldable pub broadcast_all : List Event → Shared pk → Shared pk
  broadcast_all [] s = s
  broadcast_all ((topic, text) ∷ rest) s = broadcast_all rest (broadcast pk topic text s)

  pub broadcast_all-append :
      (xs ys : List Event) (s : Shared pk)
      → broadcast_all (xs ++ ys) s ≡ broadcast_all ys (broadcast_all xs s)
  unfolding broadcast_all
  broadcast_all-append [] ys s = refl
  broadcast_all-append ((topic, text) ∷ xs) ys s =
      broadcast_all-append xs ys (broadcast pk topic text s)

  pub broadcast_all-keeps {ℓ} :
      {A : Type ℓ} (f : pk.Channels → A)
      → Kept pk f
      → (xs : List Event) (s : Shared pk) → f (broadcast_all xs s).channels ≡ f s.channels
  unfolding broadcast_all
  broadcast_all-keeps f kept [] s = refl
  broadcast_all-keeps f kept ((topic, text) ∷ xs) s =
      broadcast_all-keeps f kept xs (broadcast pk topic text s)
      ∙ broadcast-keeps pk f kept topic text s

  pub broadcast_all-subscriptions-le :
      (xs : List Event) (s : Shared pk) (t : pk.Sender) (other : Topic)
      → subscriptions pk (broadcast_all xs s) t other ≤ subscriptions pk s t other
  unfolding broadcast_all
  broadcast_all-subscriptions-le [] s t other = omega arith
  broadcast_all-subscriptions-le ((topic, text) ∷ xs) s t other = omega (
    arith,
    broadcast_all-subscriptions-le xs (broadcast pk topic text s) t other,
    broadcast-subscriptions-le pk topic text s t other,
  )

  pub broadcast_all-poisoned :
      (xs : List Event) (s : Shared pk)
      → (broadcast_all xs s).registry.poisoned ≡ s.registry.poisoned
  unfolding broadcast_all
  broadcast_all-poisoned [] s = refl
  broadcast_all-poisoned ((topic, text) ∷ xs) s =
      broadcast_all-poisoned xs (broadcast pk topic text s) ∙ broadcast-poisoned pk topic text s

  publish_address_seen_lem :
      (a txid : String) (tx : pk.Transaction) (where_ : Where) (s : Shared pk)
      → s.registry.poisoned ≡ false
      → publish_address_seen pk a txid tx where_ s
        ≡ (broadcast pk (validated a) (address_event txid tx where_ a).1 s, returns tt)
  unfolding publish_address_seen broadcast address_event notice response_to_string notification
  publish_address_seen_lem a txid tx where_ s sound = ground arith

  publish_tx_seen_lem :
      (txid : String) (tx : pk.Transaction) (where_ : Where) (s : Shared pk)
      → s.registry.poisoned ≡ false
      → publish_tx_seen pk txid tx where_ s ≡ (
        broadcast pk
            (validated txid)
            (notice (
              tx_seen_to_value pk
                (record { txid = txid; tx_hex = pk.serialize_hex tx; where_ = where_ })))
            s,
        returns tt,
      )
  unfolding publish_tx_seen broadcast notice response_to_string notification
  publish_tx_seen_lem txid tx where_ s sound = ground arith

  publish_addresses_lem :
      (addresses : List String) (txid : String) (tx : pk.Transaction) (where_ : Where)
      (s : Shared pk)
      → s.registry.poisoned ≡ false
      → publish_addresses pk addresses txid tx where_ s
        ≡ (broadcast_all (address_events txid tx where_ addresses) s, returns tt)
  unfolding publish_addresses broadcast_all address_events address_event
  publish_addresses_lem [] txid tx where_ s sound = refl
  publish_addresses_lem (a ∷ rest) txid tx where_ s sound =
      >>=-returns (publish_address_seen pk a txid tx where_)
        (λ done. publish_addresses pk rest txid tx where_)
        (publish_address_seen_lem a txid tx where_ s sound)
      ∙ publish_addresses_lem rest txid tx where_ _ (broadcast-poisoned pk _ _ s ∙ sound)

  pub publish_transaction_lem :
      (tx : pk.Transaction) (network : Network) (where_ : Where) (s : Shared pk)
      → s.registry.poisoned ≡ false
      → publish_transaction pk tx network where_ s
        ≡ (broadcast_all (transaction_events tx network where_) s, returns tt)
  unfolding publish_transaction transaction_events tx_event broadcast_all
  publish_transaction_lem tx network where_ s sound =
      >>=-returns (publish_tx_seen pk _ tx where_)
        (λ done. publish_addresses pk (get_output_addresses pk tx network) _ tx where_)
        (publish_tx_seen_lem _ tx where_ s sound)
      ∙ publish_addresses_lem _ _ tx where_ _ (broadcast-poisoned pk _ _ s ∙ sound)

  pub publish_block_lem :
      (txs : List pk.Transaction) (network : Network) (s : Shared pk)
      → s.registry.poisoned ≡ false
      → publish_block pk txs network s ≡ (broadcast_all (block_events txs network) s, returns tt)
  unfolding publish_block block_events broadcast_all
  publish_block_lem [] network s sound = refl
  publish_block_lem (tx ∷ rest) network s sound =
      >>=-returns (publish_transaction pk tx network block) (λ done. publish_block pk rest network)
        (publish_transaction_lem tx network block s sound)
      ∙ publish_block_lem rest network (broadcast_all (transaction_events tx network block) s)
          (broadcast_all-poisoned (transaction_events tx network block) s ∙ sound)
      ∙ rw (broadcast_all-append (transaction_events tx network block))

  -- What events bring to a channel that stands `n topic` times at each topic.
  unfoldable pub delivered : List Event → (Topic → ℕ) → List String
  delivered [] n = []
  delivered ((topic, text) ∷ rest) n = replicate (n topic) text ++ delivered rest n

  -- A living channel receives, in the order of the events, one copy of each for each of its
  -- subscriptions.
  pub broadcast_all-received :
      (events : List Event) (s : Shared pk) (t : pk.Sender)
      → is_alive pk s t ≡ true
      → received pk (broadcast_all events s) t
        ≡ received pk s t ++ delivered events (subscriptions pk s t)
  unfolding broadcast_all delivered
  broadcast_all-received [] s t alive = sym (append-nil _)
  broadcast_all-received ((topic, text) ∷ rest) s t alive =
      let s' = broadcast pk topic text s in
      let same : subscriptions pk s' t ≡ subscriptions pk s t =
        fun_ext (broadcast-subscriptions pk topic text s t alive) in
      let first : received pk s' t
          ≡ received pk s t ++ replicate (subscriptions pk s t topic) text =
        broadcast-received pk topic text s t ∙ rw alive in
      broadcast_all-received rest s' t (broadcast-is_alive pk topic text s t ∙ alive)
      ∙ rw (same, first)
          (append_assoc (received pk s t) (replicate (subscriptions pk s t topic) text)
            (delivered rest (subscriptions pk s t)))
