-- ===== src/Server.antt =====
-- `Config` and `async_main` of src/lib.rs: the tasks of the server, and how they take turns.
pub mod Authentic
pub mod Channels
pub mod Connections
pub mod Delivery
pub mod History
pub mod Invariant
pub mod Serve
pub mod Sources
pub mod Subscriptions
use nexus_relay.Prelude.{ℕ, String, string_eq, true, false, ◌≡◌, Option, List}
use nexus_relay.External.Elements.{Bytes}
use nexus_relay.External.Json.{Http}
use nexus_relay.External.Packages.{Packages}
use nexus_relay.BoundedSet
use nexus_relay.Connection.{Frame, handle_frame, connect, drop_receiver}
use nexus_relay.Network.{Network, liquid}
use nexus_relay.Node
use nexus_relay.Node.{Node}
use nexus_relay.Registry
use nexus_relay.Shared.{Shared}
use nexus_relay.Zmq.{Listener, process_zmq_message}

-- The port is a `u16`; it is only written into an address.
pub record Config : Type 0 where
  pub port : ℕ
  pub base_url : String
  pub zmq_endpoint : String
  pub network : Network

-- The default values of the command line.
abbrev pub default_config : Config
default_config = record {
  port = 8080;
  base_url = "http://localhost:8332";
  zmq_endpoint = "tcp://127.0.0.1:29000";
  network = liquid;
}

-- `start_zmq_listener(.., 1000)`
abbrev pub tx_cache_size : ℕ
tx_cache_size = 1000

module _ (pk : Packages) (config : Config) where
  -- An empty registry, and a listener that has seen nothing.
  unfoldable pub started : pk.Channels → Listener pk
  started w = record {
    shared = record {
      registry = record { poisoned = false; inner = Registry.new pk.mpsc };
      channels = w;
    };
    txs_seen = BoundedSet.new tx_cache_size;
  }

  -- The client of the node that all connections share, when the node answers by `http`.
  pub client : Http pk.json → Node pk
  client http = Node.new pk http config.base_url

  -- One turn of a task. The runtime has one thread, and a task changes what is shared in one piece,
  -- between two `await`s.
  pub data Step (l : Listener pk) : Listener pk → Type 0 where
    -- A connection, whose channel has been made, reads a frame and answers it, or crashes. The node's
    -- answers may differ from frame to frame.
    connection :
        (http : Http pk.json) (frame : Frame) (client_tx : pk.Sender)
        → pk.is_made l.shared.channels client_tx ≡ true
        → Step l (record l { shared = (handle_frame pk frame (client http) client_tx l.shared).0 })
    -- The listener takes a message off its socket.
    listener : (msg : List Bytes) → Step l (process_zmq_message pk msg config.network l).0
    -- A connection is accepted, and makes its channel.
    accept : Step l (record l { shared = (connect pk l.shared).0 })
    -- A forward task is over, and drops the receiver of its channel.
    drop :
        (client_tx : pk.Sender) → Step l (record l { shared = drop_receiver pk client_tx l.shared })

  -- What the server comes to from its start.
  pub data Reachable : Listener pk → Type 0 where
    start : (w : pk.Channels) → Reachable (started w)
    next : {l l' : Listener pk} → Reachable l → Step l l' → Reachable l'
