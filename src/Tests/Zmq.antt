-- ===== src/Tests/Zmq.antt =====
-- A small listener of src/zmq.rs, and the server of src/lib.rs around it.
use nexus_relay.Prelude.{false}
use nexus_relay.Shared.Broadcast.{subscriptions}
use nexus_relay.Prelude.{◌≤◌, none, some, List, [], ◌∷◌, ◌≡◌, refl, length, string_eq}
use nexus_relay.External.Elements.{Bytes}
use nexus_relay.Network.{liquid}
use nexus_relay.BoundedSet
use nexus_relay.Server.{started, default_config, tx_cache_size, Reachable, start, next, listener}
use nexus_relay.Server.Invariant.{IsSafe, Reachable-IsSafe}
use nexus_relay.Shared.Broadcast.{received}
use nexus_relay.Zmq.{rawtx, mempool, Listener, process_zmq_message, start_zmq_listener}
use nexus_relay.Zmq.Cases.{Ends, process_zmq_message-Ends}
use nexus_relay.Tests.Sample.{sample}
use nexus_relay.Prelude.{Option, panics, ◌↔◌}
use nexus_relay.Shared.{Shared}
use nexus_relay.Shared.Soundness.{IsSound}
use nexus_relay.Zmq.Delivery.{transaction_due, process_zmq_message-received}
use nexus_relay.Zmq.Panics.{HasShort, start_zmq_listener-panics_iff}
use nexus_relay.Tests.Sample.Chain.{sample_tx}
use nexus_relay.Tests.Sample.State.{channels, shared, node}
use nexus_relay.Tests.Sample.State

abbrev body : Bytes
body = 0 ∷ []

abbrev here : Listener sample
here = State.listener

abbrev state : Shared sample
state = here.shared

fresh : BoundedSet.contains here.txs_seen "tx1" ≡ false
unfolding BoundedSet.contains
fresh = refl

process_zmq_message-received_example :
    received sample (process_zmq_message sample (rawtx ∷ body ∷ []) liquid here).0.shared 2
    ≡ transaction_due sample liquid sample_tx mempool (subscriptions sample state 2)
process_zmq_message-received_example =
    process_zmq_message-received sample liquid body [] here 2 {tx = sample_tx} refl refl refl fresh

abbrev messages : List (Option (List Bytes))
messages = some (rawtx ∷ body ∷ []) ∷ none ∷ some [] ∷ []

state-IsSound : IsSound sample state
state-IsSound = record { unpoisoned = refl; once = (refl, (refl, tt)) }

start_zmq_listener-panics_iff_example :
    ((start_zmq_listener sample 1000 messages liquid state).1 ≡ panics) ↔ HasShort sample messages
start_zmq_listener-panics_iff_example =
    start_zmq_listener-panics_iff sample 1000 messages liquid state state-IsSound

-- The server has started, and a transaction comes in.
abbrev later : Listener sample
later =
    (process_zmq_message sample (rawtx ∷ body ∷ []) liquid
      (started sample default_config channels)).0

later-Reachable : Reachable sample default_config later
later-Reachable = next (start channels) (listener (rawtx ∷ body ∷ []))

Reachable-IsSafe_example :
    IsSafe sample default_config later × (length later.txs_seen.queue ≤ tx_cache_size)
Reachable-IsSafe_example = Reachable-IsSafe sample default_config later later-Reachable

process_zmq_message-Ends_example :
    Ends sample liquid here
      (rawtx ∷ body ∷ [])
      (process_zmq_message sample (rawtx ∷ body ∷ []) liquid here)
process_zmq_message-Ends_example =
    process_zmq_message-Ends sample liquid here refl (rawtx ∷ body ∷ [])
