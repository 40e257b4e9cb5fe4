-- ===== src/Server/Channels.antt =====
-- The channels of the connections of src/lib.rs: a new one is followed by nothing that is left of another.
use nexus_relay.Prelude.{true, false, ◌≡◌, refl, sym, ◌∙◌, ap, arith, Bool}
use nexus_relay.External.Packages.{Packages}
use nexus_relay.Connection.{connect}
use nexus_relay.Connection.Kept.{handle_frame-keeps, handle_frame-subscriptions_of_others}
use nexus_relay.Registry
use nexus_relay.Registry.{subscribers}
use nexus_relay.Server.{
  Config, client, Step, connection, listener, accept, drop, Reachable, start, next, started,
}
use nexus_relay.Server.Invariant.{Reachable-IsSafe}
use nexus_relay.Shared.Broadcast.{subscriptions}
use nexus_relay.Std.HashMap.{get_or}
use nexus_relay.Topic.{Topic}
use nexus_relay.Zmq.{Listener}
use nexus_relay.Zmq.Events.{broadcast_all-keeps, broadcast_all-subscriptions-le}
use nexus_relay.Zmq.Soundness.{process_zmq_message-Broadcasts}

module _ (pk : Packages) (config : Config) (t : pk.Sender) where
  -- The channel has been made.
  abbrev pub made_in : Listener pk → Bool
  made_in l = pk.is_made l.shared.channels t

  -- A turn unmakes no channel.
  pub Step-made :
      {l l' : Listener pk}
      → Step pk config l l'
      → l.shared.registry.poisoned ≡ false
      → made_in l ≡ true
      → made_in l' ≡ true
  Step-made {l} (connection http frame client_tx made) sound h =
      handle_frame-keeps pk client_tx t l.shared frame (client pk config http) (λ w. pk.is_made w t)
        (λ s m w. pk.mpsc.is_made-send s t m w)
      ∙ h
  Step-made {l} (listener msg) sound h =
      let (events, same) = process_zmq_message-Broadcasts pk msg config.network l sound in
      ap (λ s. pk.is_made s.channels t) same
      ∙ broadcast_all-keeps pk (λ w. pk.is_made w t) (λ s m w. pk.mpsc.is_made-send s t m w) events
          l.shared
      ∙ h
  Step-made {l} accept sound h =
      ground (arith, pk.mpsc.is_made-unbounded_channel t l.shared.channels, h)
  Step-made {l} (drop s) sound h = pk.mpsc.is_made-close s t l.shared.channels ∙ h

  -- What has not been made has no subscription.
  abbrev Unfollowed : Listener pk → Type 0
  Unfollowed l = made_in l ≡ false → (topic : Topic) → subscriptions pk l.shared t topic ≡ 0

  Step-Unfollowed :
      {l l' : Listener pk}
      → Step pk config l l'
      → l.shared.registry.poisoned ≡ false
      → Unfollowed l
      → Unfollowed l'
  Step-Unfollowed {l} (connection http frame client_tx made) sound v h topic =
      let kept =
        handle_frame-keeps pk client_tx t l.shared frame (client pk config http)
          (λ w. pk.is_made w t) (λ s m w. pk.mpsc.is_made-send s t m w) in
      let unmade : made_in l ≡ false = sym kept ∙ h in
      let different : pk.same client_tx t ≡ false =
        ground (arith, pk.mpsc.same_iff client_tx t, made, unmade) in
      omega (
        arith,
        v unmade topic,
        handle_frame-subscriptions_of_others pk client_tx t l.shared frame (client pk config http)
            topic different,
      )
  Step-Unfollowed {l} (listener msg) sound v h topic =
      let (events, same) = process_zmq_message-Broadcasts pk msg config.network l sound in
      let kept =
        ap (λ s. pk.is_made s.channels t) same
        ∙ broadcast_all-keeps pk (λ w. pk.is_made w t) (λ s m w. pk.mpsc.is_made-send s t m w)
            events l.shared in
      rw same (
        omega (
          arith,
          v (sym kept ∙ h) topic,
          broadcast_all-subscriptions-le pk events l.shared t topic,
        ))
  Step-Unfollowed {l} accept sound v h topic =
      v (ground (arith, pk.mpsc.is_made-unbounded_channel t l.shared.channels, h)) topic
  Step-Unfollowed {l} (drop s) sound v h topic =
      v (sym (pk.mpsc.is_made-close s t l.shared.channels) ∙ h) topic

  started-Unfollowed : (w : pk.Channels) → Unfollowed (started pk config w)
  unfolding started subscribers get_or Registry.new
  started-Unfollowed w h topic = refl

  Reachable-Unfollowed : (l : Listener pk) → Reachable pk config l → Unfollowed l
  Reachable-Unfollowed _ (start w) = started-Unfollowed w
  Reachable-Unfollowed _ (next {l} r step) =
      Step-Unfollowed step (Reachable-IsSafe pk config l r).0.sound.unpoisoned
        (Reachable-Unfollowed l r)

module _ (pk : Packages) (config : Config) where
  -- In a state that the running server reaches, the channel of a new connection has no subscription
  -- to any topic.
  pub connect-subscriptions :
      (l : Listener pk) (topic : Topic)
      → Reachable pk config l
      → subscriptions pk (connect pk l.shared).0 (connect pk l.shared).1 topic ≡ 0
  connect-subscriptions l topic r =
      Reachable-Unfollowed pk config (connect pk l.shared).1 l r
        (pk.mpsc.is_made-new l.shared.channels) topic
