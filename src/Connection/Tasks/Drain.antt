-- ===== src/Connection/Tasks/Drain.antt =====
-- The forward task of `handle_connection` of src/lib.rs, when it is left to run.
use nexus_relay.Prelude.{String, List, [], ◌∷◌, ◌++◌, ◌≡◌, sym, ◌∙◌, ap, list_laws, append-nil}
use nexus_relay.External.Mpsc.{message}
use nexus_relay.External.Packages.{Packages}
use nexus_relay.Connection.Tasks.{Tasks, running, buffer, all_senders, sends, Comes, later}
use nexus_relay.Connection.Tasks.Order.{Comes-IsOrdered, buffer_lem}
use nexus_relay.Shared.Broadcast.{received}

module _ (pk : Packages) (client_tx : pk.Sender) where
  -- Turns of the forward task alone, in each of which the socket takes a message.
  pub data Sends : Tasks pk → Tasks pk → Type 0 where
    rests : {c : Tasks pk} → Sends c c
    takes :
        {c c' : Tasks pk} (m : String) (rest : List String)
        → c.forward ≡ running
        → pk.recv (buffer pk client_tx c) (all_senders pk client_tx c) ≡ message m rest
        → Sends (record c { sent = c.sent ++ m ∷ [] }) c'
        → Sends c c'

  Sends-Comes : {c c' : Tasks pk} → Sends c c' → Comes pk client_tx c → Comes pk client_tx c'
  Sends-Comes rests run = run
  Sends-Comes (takes m rest e f more) run = Sends-Comes more (later run (sends m rest e f))

  -- Where the forward task gets to: the socket has taken all that the channel has accepted.
  pub record Drained (c : Tasks pk) : Type 0 where
    pub last : Tasks pk
    pub turns : Sends c last
    pub all_sent : last.sent ≡ received pk c.shared client_tx

  drain :
      (rest : List String) (c : Tasks pk)
      → c.forward ≡ running
      → received pk c.shared client_tx ≡ c.sent ++ rest
      → Drained c
  drain [] c runs e = record { last = c; turns = rests; all_sent = sym (e ∙ append-nil c.sent) }
  drain (m ∷ rest) c runs e =
      let next : Tasks pk = record c { sent = c.sent ++ m ∷ [] } in
      let d = drain rest next runs (e ∙ simp list_laws) in
      let first =
        ap (λ b. pk.recv b (all_senders pk client_tx c)) (buffer_lem pk client_tx c e)
        ∙ pk.mpsc.recv-message m rest (all_senders pk client_tx c) in
      record { last = d.last; turns = takes m rest runs first d.turns; all_sent = d.all_sent }

  -- From whatever state the tasks of a connection come to while the forward task runs, turns of the
  -- forward task alone, in which the socket takes every message, lead to a state in which the
  -- socket has taken all that the channel has accepted.
  pub Comes-Drained :
      (c : Tasks pk)
      → Comes pk client_tx c
      → c.forward ≡ running
      → (d : Drained c) × Comes pk client_tx d.last
  Comes-Drained c run runs =
      let (rest, e) = (Comes-IsOrdered pk client_tx c run).in_order in
      let d = drain rest c runs e in (d, Sends-Comes d.turns run)
