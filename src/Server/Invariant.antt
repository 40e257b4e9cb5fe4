-- ===== src/Server/Invariant.antt =====
-- The states that the server of src/lib.rs can reach.
use nexus_relay.Prelude.{some, panics, ◌≤◌, ◌≡◌, refl, ◌∙◌, length, arith, string_eq}
use nexus_relay.External.Json.{Http}
use nexus_relay.External.Packages.{Packages}
use nexus_relay.BoundedSet
use nexus_relay.Shared.Soundness.{IsSound, new-IsSound}
use nexus_relay.Connection.Soundness.{handle_frame-IsSound}
use nexus_relay.Server.{
  Config, tx_cache_size, started, client, Step, connection, listener, accept, drop, Reachable,
  start, next,
}
use nexus_relay.Message.{process_message}
use nexus_relay.Message.Safety.{Cause, process_message-Cause}
use nexus_relay.Zmq.{Listener}
use nexus_relay.Zmq.Soundness.{process_zmq_message-IsSound}
use nexus_relay.Zmq.Listening.{process_zmq_message-keeps}
use nexus_relay.BoundedSet.Invariant.{IsBounded, new-IsBounded, insert-IsBounded, insert-capacity}

module _ (pk : Packages) (config : Config) where
  -- The mutex is not poisoned, each topic has one entry, set and queue of the transactions seen
  -- agree, and the cache has the size that it was given.
  pub record IsSafe (l : Listener pk) : Type 0 where
    pub sound : IsSound pk l.shared
    pub bounded : IsBounded l.txs_seen
    pub size : l.txs_seen.capacity ≡ tx_cache_size

  started-IsSafe : (w : pk.Channels) → IsSafe (started pk config w)
  unfolding started BoundedSet.new
  started-IsSafe w = record {
    sound = new-IsSound pk w;
    bounded = new-IsBounded tx_cache_size;
    size = refl;
  }

  Step-IsSafe : {l l' : Listener pk} → Step pk config l l' → IsSafe l → IsSafe l'
  Step-IsSafe {l} (connection http frame client_tx made) v = record {
    sound = handle_frame-IsSound pk client_tx l.shared v.sound frame (client pk config http);
    bounded = v.bounded;
    size = v.size;
  }
  Step-IsSafe {l} (listener msg) v = record {
    sound = process_zmq_message-IsSound pk msg config.network l v.sound;
    bounded =
        process_zmq_message-keeps pk IsBounded insert-IsBounded msg config.network l v.bounded;
    size =
        process_zmq_message-keeps pk (λ s. s.capacity ≡ tx_cache_size)
          (λ txid s e. insert-capacity txid s ∙ e) msg config.network l v.size;
  }
  Step-IsSafe {l} accept v = record {
    sound = record { unpoisoned = v.sound.unpoisoned; once = v.sound.once };
    bounded = v.bounded;
    size = v.size;
  }
  Step-IsSafe {l} (drop t) v = record {
    sound = record { unpoisoned = v.sound.unpoisoned; once = v.sound.once };
    bounded = v.bounded;
    size = v.size;
  }

  reached : (l : Listener pk) → Reachable pk config l → IsSafe l
  reached _ (start w) = started-IsSafe w
  reached _ (next {l} r step) = Step-IsSafe step (reached l r)

  -- In whatever order connections and listener take their turns, also those that panic, the mutex
  -- of the registry is never poisoned, each topic has one entry, and at most 1000 transactions are
  -- remembered, each once.
  pub Reachable-IsSafe :
      (l : Listener pk)
      → Reachable pk config l
      → IsSafe l × (length l.txs_seen.queue ≤ tx_cache_size)
  Reachable-IsSafe l r = let v = reached l r in (v, omega (arith, v.bounded.bounded, v.size))

  -- In a state that the running server reaches, a message that panics has a parameter whose payload
  -- its type does not read, or a proposal whose validation panics.
  pub Reachable-Cause :
      (l : Listener pk) (m : pk.JsonRpc) (http : Http pk.json) (client_tx : pk.Sender)
      → Reachable pk config l
      → (process_message pk m (some (client pk config http)) client_tx l.shared).1 ≡ panics
      → Cause pk (some (client pk config http)) client_tx l.shared m
  Reachable-Cause l m http client_tx r h =
      process_message-Cause pk (some (client pk config http)) client_tx l.shared m
        (reached l r).sound.unpoisoned h
