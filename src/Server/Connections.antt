-- ===== src/Server/Connections.antt =====
-- The turns of the whole server of src/lib.rs, as the tasks of one connection see them.
use nexus_relay.Prelude.{◌≡◌, ap, sym, ◌∙◌, ◌++◌}
use nexus_relay.External.Packages.{Packages}
use nexus_relay.Connection.Tasks.{Tasks, Comes, later, meanwhile}
use nexus_relay.Server.{Config, Step, Reachable}
use nexus_relay.Server.Delivery.{Step-Grows}
use nexus_relay.Server.Invariant.{Reachable-IsSafe}
use nexus_relay.Zmq.{Listener}

module _ (pk : Packages) (config : Config) (client_tx : pk.Sender) where
  -- What connections and listener do in a turn is what the tasks of a connection allow others to do.
  pub Step-Comes :
      {l l' : Listener pk} (c : Tasks pk)
      → Reachable pk config l
      → Step pk config l l'
      → c.shared ≡ l.shared
      → Comes pk client_tx c
      → Comes pk client_tx (record c { shared = l'.shared })
  Step-Comes {l} {l'} c r step same run =
      let (new, e) =
        Step-Grows pk config client_tx step (Reachable-IsSafe pk config l r).0.sound.unpoisoned in
      later run
        (meanwhile l'.shared (new, e ∙ ap (λ s. pk.log s.channels client_tx ++ new) (sym same)))
