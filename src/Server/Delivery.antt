-- ===== src/Server/Delivery.antt =====
-- What a client receives over the turns of the server of src/lib.rs.
use nexus_relay.Prelude.{
  ◌≤◌, true, false, String, List, [], ◌∷◌, ◌++◌, ok, ◌≡◌, ◌∙◌, arith, list_laws, Begins-eq,
  string_eq, Occurs, Occurs-append, Begins-refl, Begins-trans,
}
use nexus_relay.External.Elements.{Bytes}
use nexus_relay.External.Packages.{Packages}
use nexus_relay.BoundedSet
use nexus_relay.External.Json.{Http}
use nexus_relay.Connection.{text, handle_frame}
use nexus_relay.Connection.Subscription.{Asks, handle_frame-subscribe}
use nexus_relay.Connection.Kept.{handle_frame-Grows}
use nexus_relay.Server.{Config, client, Step, connection, listener, accept, drop, Reachable, next}
use nexus_relay.Server.Invariant.{Reachable-IsSafe}
use nexus_relay.Server.Subscriptions.{Run, stays, goes, Run-Reachable, Run-subscriptions}
use nexus_relay.Shared.{Shared}
use nexus_relay.Shared.Broadcast.{received, is_alive, subscriptions, Grows, broadcast-Grows}
use nexus_relay.Topic.{Topic}
use nexus_relay.Zmq.{Listener, mempool, rawtx, process_zmq_message}
use nexus_relay.Zmq.Events.{Event, broadcast_all}
use nexus_relay.Zmq.Delivery.{
  Notifies, transaction_due, transaction_due-Occurs, process_zmq_message-received,
}
use nexus_relay.Zmq.Listening.{txid_text}
use nexus_relay.Zmq.Soundness.{process_zmq_message-Broadcasts}

module _ (pk : Packages) (t : pk.Sender) where
  broadcast_all-Grows :
      (events : List (Event pk)) (s : Shared pk) → Grows pk t s (broadcast_all pk events s)
  unfolding broadcast_all
  broadcast_all-Grows [] s = Begins-refl _
  broadcast_all-Grows ((topic, m) ∷ rest) s =
      Begins-trans _ (broadcast-Grows pk topic m s t) (broadcast_all-Grows rest _)

module _ (pk : Packages) (config : Config) (t : pk.Sender) where
  -- No turn takes back what a channel has accepted.
  pub Step-Grows :
      {l l' : Listener pk}
      → Step pk config l l'
      → l.shared.registry.poisoned ≡ false
      → Grows pk t l.shared l'.shared
  Step-Grows {l} (connection http frame client_tx made) sound =
      handle_frame-Grows pk client_tx t l.shared frame (client pk config http)
  Step-Grows {l} (listener msg) sound =
      let (events, same) = process_zmq_message-Broadcasts pk msg config.network l sound in
      rw same (broadcast_all-Grows pk t events l.shared)
  Step-Grows {l} accept sound = Begins-eq (pk.mpsc.log-unbounded_channel t l.shared.channels)
  Step-Grows {l} (drop s) sound = Begins-eq (pk.mpsc.log-close s t l.shared.channels)

  Run-Grows :
      {l l' : Listener pk}
      → Reachable pk config l
      → Run pk config t l l'
      → Grows pk t l.shared l'.shared
  Run-Grows {l} r stays = Begins-refl _
  Run-Grows r (goes {l'} run alive step) =
      let sound =
        (Reachable-IsSafe pk config l' (Run-Reachable pk config t r run)).0.sound.unpoisoned in
      Begins-trans _ (Run-Grows r run) (Step-Grows step sound)

  -- A client that is subscribed to a topic of a transaction is notified of it, whatever turns come
  -- before.
  pub Run-transaction_received :
      (body : Bytes) (parts : List Bytes) (l l' : Listener pk) {tx : pk.Transaction} {topic : Topic}
      {text : String}
      → Reachable pk config l
      → Run pk config t l l'
      → 1 ≤ subscriptions pk l.shared t topic
      → pk.decode_transaction body ≡ ok tx
      → BoundedSet.contains l'.txs_seen (txid_text pk tx) ≡ false
      → is_alive pk l'.shared t ≡ true
      → Notifies pk config.network tx mempool topic text
      → let l'' = (process_zmq_message pk (rawtx ∷ body ∷ parts) config.network l').0 in
        (new : List String) × (received pk l''.shared t ≡ received pk l.shared t ++ new)
        × Occurs text new
  Run-transaction_received body parts l l' {tx} {topic} r run subscribed decodes unseen alive
        notifies =
      let sound =
        (Reachable-IsSafe pk config l' (Run-Reachable pk config t r run)).0.sound.unpoisoned in
      let kept = Run-subscriptions pk config t topic r run in
      let (new, e) = Run-Grows r run in
      let due = transaction_due pk config.network tx mempool (subscriptions pk l'.shared t) in
      (
        new ++ due,
        process_zmq_message-received pk config.network body parts l' t decodes sound alive unseen
            ∙ simp (e, list_laws),
        Occurs-append new (
            transaction_due-Occurs pk config.network tx mempool (subscriptions pk l'.shared t)
              notifies (omega (arith, kept, subscribed))),
      )

  -- What the server comes to by the turn in which a client's text comes.
  abbrev pub told : Http pk.json → String → Listener pk → Listener pk
  told http m l = record l {
    shared = (handle_frame pk (text m) (client pk config http) t l.shared).0;
  }

  -- In a state that the running server reaches, a client whose channel has been made sends a text
  -- that asks for a topic. Whatever turns connections and listener then take, in any order, while
  -- the client's channel stays open, a transaction that comes in, is not remembered, and is to be
  -- published to that topic, as its id or as an address that it pays, brings the client its
  -- notification, and the client keeps what it had received.
  pub subscribe-transaction_received :
      (http : Http pk.json) (m : String) (body : Bytes) (parts : List Bytes) (l l' : Listener pk)
      {tx : pk.Transaction} {topic : Topic} {notification : String}
      → Reachable pk config l
      → pk.is_made l.shared.channels t ≡ true
      → Asks pk (client pk config http) t l.shared m topic
      → Run pk config t (told http m l) l'
      → pk.decode_transaction body ≡ ok tx
      → BoundedSet.contains l'.txs_seen (txid_text pk tx) ≡ false
      → is_alive pk l'.shared t ≡ true
      → Notifies pk config.network tx mempool topic notification
      → let l'' = (process_zmq_message pk (rawtx ∷ body ∷ parts) config.network l').0 in
        (new : List String) × (received pk l''.shared t ≡ received pk l.shared t ++ new)
        × Occurs notification new
  subscribe-transaction_received http m body parts l l' {topic = topic} r made asks run decodes
        unseen alive notifies =
      let step : Step pk config l (told http m l) = connection http (text m) t made in
      let sound = (Reachable-IsSafe pk config l r).0.sound.unpoisoned in
      let one = handle_frame-subscribe pk (client pk config http) t l.shared m topic sound asks in
      let (answer, e) = Step-Grows step sound in
      let (new, f, due) =
        Run-transaction_received body parts (told http m l) l' (next r step) run
          (omega (arith, one)) decodes unseen alive notifies in
      (answer ++ new, f ∙ simp (e, list_laws), Occurs-append answer due)
