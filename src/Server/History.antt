-- ===== src/Server/History.antt =====
-- Everything that a client has received since its connection was accepted, over the turns of the server
-- of src/lib.rs.
use nexus_relay.Prelude.{String, true, List, [], ◌++◌, ◌≡◌}
use nexus_relay.External.Packages.{Packages}
use nexus_relay.Connection.{connect}
use nexus_relay.Server.{Config, Step}
use nexus_relay.Server.Subscriptions.{Run, stays, goes}
use nexus_relay.Shared.Broadcast.{received, is_alive}
use nexus_relay.Zmq.{Listener}

module _ (pk : Packages) (config : Config) where
  -- The server when a connection has just been accepted, and the channel of that connection.
  abbrev pub accepted : Listener pk → Listener pk
  accepted l = record l { shared = (connect pk l.shared).0 }

  abbrev pub channel_of : Listener pk → pk.Sender
  channel_of l = (connect pk l.shared).1

  module _ (t : pk.Sender) where
    -- What a run has brought the channel, turn by turn: each time the channel has what it had, and
    -- behind it exactly what `P` says of that very turn.
    pub data History (P : (l l' : Listener pk) → Step pk config l l' → List String → Type 0)
        (l : Listener pk) : (l' : Listener pk) → Run pk config t l l' → List String → Type 0 where
      begun : History P l l stays []
      extended :
          {l' l'' : Listener pk} {all new : List String} {run : Run pk config t l l'}
          {alive : is_alive pk l'.shared t ≡ true}
          → History P l l' run all
          → (step : Step pk config l' l'')
          → received pk l''.shared t ≡ received pk l'.shared t ++ new
          → P l' l'' step new
          → History P l l'' (goes run alive step) (all ++ new)
