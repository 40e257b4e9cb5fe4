-- ===== src/Server/Subscriptions.antt =====
-- The subscriptions of a client over the turns of the server of src/lib.rs.
use nexus_relay.Prelude.{◌≤◌, true, false, List, [], ◌∷◌, ◌≡◌, refl, ◌∙◌, arith}
use nexus_relay.External.Packages.{Packages}
use nexus_relay.Connection.Kept.{handle_frame-subscriptions}
use nexus_relay.Server.{Config, client, Step, connection, listener, accept, drop, Reachable, next}
use nexus_relay.Server.Invariant.{Reachable-IsSafe}
use nexus_relay.Shared.{Shared}
use nexus_relay.Shared.Broadcast.{
  broadcast, is_alive, subscriptions, broadcast-is_alive, broadcast-subscriptions,
}
use nexus_relay.Topic.{Topic}
use nexus_relay.Zmq.{Listener}
use nexus_relay.Zmq.Events.{Event, broadcast_all}
use nexus_relay.Zmq.Soundness.{process_zmq_message-Broadcasts}

module _ (pk : Packages) (config : Config) (t : pk.Sender) where
  broadcast_all-subscriptions :
      (events : List (Event pk)) (s : Shared pk) (topic : Topic)
      → is_alive pk s t ≡ true
      → subscriptions pk (broadcast_all pk events s) t topic ≡ subscriptions pk s t topic
  unfolding broadcast_all
  broadcast_all-subscriptions [] s topic alive = refl
  broadcast_all-subscriptions ((other, text) ∷ rest) s topic alive =
      broadcast_all-subscriptions rest (broadcast pk other text s) topic
        (broadcast-is_alive pk other text s t ∙ alive)
      ∙ broadcast-subscriptions pk other text s t alive topic

  pub Step-subscriptions :
      {l l' : Listener pk} (topic : Topic)
      → Step pk config l l'
      → l.shared.registry.poisoned ≡ false
      → is_alive pk l.shared t ≡ true
      → subscriptions pk l.shared t topic ≤ subscriptions pk l'.shared t topic
  Step-subscriptions {l} topic (connection http frame client_tx made) sound alive =
      handle_frame-subscriptions pk client_tx t l.shared frame (client pk config http) topic alive
  Step-subscriptions {l} topic (listener msg) sound alive =
      let (events, same) = process_zmq_message-Broadcasts pk msg config.network l sound in
      rw same (omega (arith, broadcast_all-subscriptions events l.shared topic alive))
  Step-subscriptions topic accept sound alive = omega arith
  Step-subscriptions topic (drop s) sound alive = omega arith

  -- Turns during which the channel is open.
  pub data Run (l : Listener pk) : Listener pk → Type 0 where
    stays : Run l l
    goes :
        {l' l'' : Listener pk}
        → Run l l'
        → is_alive pk l'.shared t ≡ true
        → Step pk config l' l''
        → Run l l''

  pub Run-Reachable :
      {l l' : Listener pk} → Reachable pk config l → Run l l' → Reachable pk config l'
  Run-Reachable r stays = r
  Run-Reachable r (goes run alive step) = next (Run-Reachable r run) step

  -- From a state that the running server reaches, no turns of connections and listener, in any
  -- order, take a subscription from a client while its channel is open.
  pub Run-subscriptions :
      {l l' : Listener pk} (topic : Topic)
      → Reachable pk config l
      → Run l l'
      → subscriptions pk l.shared t topic ≤ subscriptions pk l'.shared t topic
  Run-subscriptions topic r stays = omega arith
  Run-subscriptions topic r (goes {l'} run alive step) =
      let before = Run-subscriptions topic r run in
      let sound = (Reachable-IsSafe pk config l' (Run-Reachable r run)).0.sound.unpoisoned in
      omega (arith, before, Step-subscriptions topic step sound alive)
