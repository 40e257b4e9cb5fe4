-- ===== src/Server/Serve/Refinement.antt =====
-- The running server of src/lib.rs takes the steps of its tasks.
use nexus_relay.Prelude.{
  true, false, none, some, List, [], ◌∷◌, ◌≡◌, inl, inr, contains, IsNodup, Bool-cases, arith,
  String, Bool, subst, if◌then◌else◌,
}
use nexus_relay.External.Mpsc.{sender_eq}
use nexus_relay.External.Packages.{Packages}
use nexus_relay.Connection.{handle_frame}
use nexus_relay.Zmq.{process_zmq_message}
use nexus_relay.Server.{Config, client, connection, listener, accept, drop, Reachable, start, next}
use nexus_relay.Server.Invariant.{Reachable-IsSafe}
use nexus_relay.Server.Serve.{
  Server, Event, accepted, accept_error, frame_comes, stream_ends, zmq_comes, forward_ends, turn,
  lives, serve, Main, async_main, initial, listen_address,
}
use nexus_relay.Server.Serve.Reading.{
  IsSeparate, without-IsSeparate, reading_after-IsSeparate, Step-IsSeparate, accept-IsSeparate,
}

module _ (pk : Packages) (config : Config) where
  -- The state is one that the tasks reach, and its connections have a channel each.
  pub record IsServed (v : Server pk) : Type 0 where
    pub reached : Reachable pk config v.relay
    pub separate : IsSeparate pk v.relay v.reading

  turn-IsServed : (e : Event pk) (v : Server pk) → IsServed v → IsServed (turn pk config e v)
  unfolding turn
  turn-IsServed (accepted true) v i = record {
    reached = next i.reached accept;
    separate = accept-IsSeparate pk v.relay v.reading i.separate;
  }
  turn-IsServed (accepted false) v i = i
  turn-IsServed accept_error v i = i
  turn-IsServed (frame_comes http frame client_tx) v i =
      elim (Bool-cases (contains ⦃e = sender_eq pk.mpsc⦄ v.reading client_tx)) [
        | inl reads ↦
            let step = connection http frame client_tx (i.separate.made client_tx reads) in
            let sound = (Reachable-IsSafe pk config v.relay i.reached).0.sound.unpoisoned in
            let next_of =
              (handle_frame pk frame (client pk config http) client_tx v.relay.shared).1 in
            rw reads (record {
              reached = next i.reached step;
              separate =
                  reading_after-IsSeparate pk next_of client_tx _ v.reading
                    (Step-IsSeparate pk config v.reading step sound i.separate);
            })
        | inr over ↦ rw over i
      ]
  turn-IsServed (stream_ends client_tx) v i = record {
    reached = i.reached;
    separate = without-IsSeparate pk client_tx v.relay v.reading i.separate;
  }
  turn-IsServed (zmq_comes none) v i = i
  turn-IsServed (zmq_comes (some msg)) v i =
      let sound = (Reachable-IsSafe pk config v.relay i.reached).0.sound.unpoisoned in
      let (l', o) = process_zmq_message pk msg config.network v.relay in
      let goes : Server pk = record v { relay = l'; listening = lives pk o } in
      elim v.listening as (λ b. IsServed (if b then goes else v)) [
        | true ↦ record {
          reached = next i.reached (listener msg);
          separate = Step-IsSeparate pk config v.reading (listener msg) sound i.separate;
        }
        | false ↦ i
      ]
  turn-IsServed (forward_ends client_tx) v i = record {
    reached = next i.reached (drop client_tx);
    separate =
        Step-IsSeparate pk config v.reading (drop client_tx)
          (Reachable-IsSafe pk config v.relay i.reached).0.sound.unpoisoned i.separate;
  }

  serve-IsServed :
      (events : List (Event pk)) (v : Server pk)
      → IsServed v
      → IsServed (serve pk config events v).0
  unfolding serve
  serve-IsServed [] v i = i
  serve-IsServed (accept_error ∷ rest) v i = i
  serve-IsServed (e ∷ rest) v i = serve-IsServed rest _ (turn-IsServed e v i)

  initial-IsServed : (connects : Bool) (w : pk.Channels) → IsServed (initial pk config connects w)
  initial-IsServed connects w = record {
    reached = start w;
    separate = record { made = λ t h. absurd (ground (arith, h)); once = tt };
  }

  async_main-IsServed :
      (bind : String → Bool) (connects : Bool) (events : List (Event pk)) (w : pk.Channels)
      {v : Server pk} {main : Main}
      → async_main pk config bind connects events w ≡ some (v, main)
      → IsServed v
  unfolding async_main
  async_main-IsServed bind connects events w {v} e =
      elim (Bool-cases (bind (listen_address pk config))) [
        | inl bound ↦
            let same : (serve pk config events (initial pk config connects w)).0 ≡ v =
              ground (arith, e, bound) in
            subst IsServed same
              (serve-IsServed events (initial pk config connects w) (initial-IsServed connects w))
        | inr taken ↦ absurd (ground (arith, e, taken))
      ]

  -- Whatever comes to the server, and in whatever order, what it shares and remembers is then a
  -- state that the step relation of its tasks reaches from the start.
  pub async_main-Reachable :
      (bind : String → Bool) (connects : Bool) (events : List (Event pk)) (w : pk.Channels)
      {v : Server pk} {main : Main}
      → async_main pk config bind connects events w ≡ some (v, main)
      → Reachable pk config v.relay
  async_main-Reachable bind connects events w e =
      (async_main-IsServed bind connects events w e).reached

  -- Whatever comes to the server, and in whatever order, no two connections whose loops run share a
  -- channel.
  pub async_main-reading :
      (bind : String → Bool) (connects : Bool) (events : List (Event pk)) (w : pk.Channels)
      {v : Server pk} {main : Main}
      → async_main pk config bind connects events w ≡ some (v, main)
      → IsNodup ⦃e = sender_eq pk.mpsc⦄ v.reading
  async_main-reading bind connects events w e =
      (async_main-IsServed bind connects events w e).separate.once
