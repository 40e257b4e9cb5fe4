-- ===== src/Server/Serve.antt =====
-- `async_main` of src/lib.rs as it runs: from the binding of its socket over what comes to its tasks,
-- in the order in which it comes.
pub mod Ends
pub mod Reading
pub mod Refinement
use nexus_relay.Prelude.{
  ℕ, String, Bool, true, false, not, Option, none, some, List, [], ◌∷◌, contains, ◌==◌, ◌&◌,
  decimal, if◌then◌else◌, returns, fails, panics, Outcome,
}
use nexus_relay.External.Elements.{Bytes}
use nexus_relay.External.Json.{Http}
use nexus_relay.External.Mpsc.{sender_eq}
use nexus_relay.External.Packages.{Packages}
use nexus_relay.Connection.{
  Frame, Next, continues, breaks, crashes, handle_frame, connect, drop_receiver,
}
use nexus_relay.Error.{Error}
use nexus_relay.Server.{Config, client, started}
use nexus_relay.Shared.{Shared}
use nexus_relay.Zmq.{Listener, process_zmq_message}

-- `async_main` waits for the next connection, or has returned `Ok(())`, with which the runtime and
-- all its tasks end.
pub data Main : Type 0 where
  accepting returned : Main

module _ (pk : Packages) where
  -- `listening`: the task of the ZMQ listener is in its loop. `reading`: the channels of the
  -- connections whose loop runs.
  pub record Server : Type 0 where
    pub relay : Listener pk
    pub listening : Bool
    pub reading : List pk.Sender

  -- What comes to the server. An accepted connection carries whether the handshake of `accept_async`
  -- succeeds.
  pub data Event : Type 0 where
    accepted : Bool → Event
    accept_error : Event
    frame_comes : Http pk.json → Frame → pk.Sender → Event
    stream_ends : pk.Sender → Event
    zmq_comes : Option (List Bytes) → Event
    forward_ends : pk.Sender → Event

  abbrev pub without : pk.Sender → List pk.Sender → List pk.Sender
  without t [] = []
  without t (s ∷ rest) = let kept = without t rest in if pk.same s t then kept else s ∷ kept

  -- The loop of a connection goes on, or is over.
  abbrev pub reading_after : Next → pk.Sender → List pk.Sender → List pk.Sender
  reading_after continues t reading = reading
  reading_after _ t reading = without t reading

  -- A panic ends the listener's task; an error does not.
  abbrev pub lives {ℓ} : {A : Type ℓ} → Outcome (Error pk) A → Bool
  lives panics = false
  lives _ = true

  module _ (config : Config) where
    -- What a task does with what comes to it. What comes to a task that is over is lost.
    pub turn : Event → Server → Server
    turn (accepted handshake) v =
        if handshake
        then (let (s, client_tx) = connect pk v.relay.shared in
            record v { relay = record v.relay { shared = s }; reading = client_tx ∷ v.reading })
        else v
    turn accept_error v = v
    turn (frame_comes http frame client_tx) v =
        if contains ⦃e = sender_eq pk.mpsc⦄ v.reading client_tx
        then (let (s, next) =
              handle_frame pk frame (client pk config http) client_tx v.relay.shared in
            record v {
              relay = record v.relay { shared = s };
              reading = reading_after next client_tx v.reading;
            })
        else v
    turn (stream_ends client_tx) v = record v { reading = without client_tx v.reading }
    turn (zmq_comes none) v = v
    turn (zmq_comes (some msg)) v =
        if v.listening
        then (let (l, o) = process_zmq_message pk msg config.network v.relay in
            record v { relay = l; listening = lives o })
        else v
    turn (forward_ends client_tx) v = record v {
      relay = record v.relay { shared = drop_receiver pk client_tx v.relay.shared };
    }

    -- `while let Ok((stream, addr)) = listener.accept().await`, with the other tasks beside it.
    pub serve : List Event → Server → Server × Main
    unfolding turn
    serve [] v = (v, accepting)
    serve (accept_error ∷ rest) v = (v, returned)
    serve (e ∷ rest) v = serve rest (turn e v)

    -- `format!("0.0.0.0:{}", config.port)`
    abbrev pub listen_address : String
    listen_address = "0.0.0.0:" & decimal config.port

    -- The tasks before anything comes to them. `connects` says whether the listener connects to its
    -- endpoint.
    abbrev pub initial : Bool → pk.Channels → Server
    initial connects w = record { relay = started pk config w; listening = connects; reading = [] }

    -- `bind` says which addresses can be bound. `none` is the error of the binding.
    unfoldable pub async_main :
        (String → Bool) → Bool → List Event → pk.Channels → Option (Server × Main)
    unfolding serve
    async_main bind connects events w =
        if bind listen_address then some (serve events (initial connects w)) else none
