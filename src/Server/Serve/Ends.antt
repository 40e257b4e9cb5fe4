-- ===== src/Server/Serve/Ends.antt =====
-- How the server of src/lib.rs ends, and how its listener does.
use nexus_relay.Prelude.{
  ◌<◌, true, false, none, some, List, [], ◌∷◌, ◌++◌, ◌≡◌, refl, ◌∙◌, ap, ◌↔◌, length, contains,
  Bool-cases, inl, inr, Occurs, Occurs-append, Option,
}
use nexus_relay.External.Elements.{Bytes}
use nexus_relay.External.Mpsc.{sender_eq}
use nexus_relay.External.Packages.{Packages}
use nexus_relay.Server.{Config}
use nexus_relay.Zmq.Panics.{process_zmq_message_short}
use nexus_relay.Server.Serve.{
  Server, Event, accepted, accept_error, frame_comes, stream_ends, zmq_comes, forward_ends, turn,
  serve, returned,
}

module _ (pk : Packages) (config : Config) where
  -- What comes behind an error of `accept` changes nothing.
  serve_accept_error :
      (events rest : List (Event pk)) (v : Server pk)
      → serve pk config (events ++ accept_error ∷ rest) v ≡ ((serve pk config events v).0, returned)
  unfolding serve
  serve_accept_error [] rest v = refl
  serve_accept_error (accept_error ∷ events) rest v = refl
  serve_accept_error (e ∷ events) rest v = serve_accept_error events rest (turn pk config e v)

  serve-returned :
      (events : List (Event pk)) (v : Server pk)
      → (serve pk config events v).1 ≡ returned
      → Occurs accept_error events
  unfolding serve
  serve-returned [] v h = absurd (cc)
  serve-returned (accept_error ∷ events) v h = ([], (events, refl))
  serve-returned (e ∷ events) v h =
      Occurs-append (e ∷ []) (serve-returned events (turn pk config e v) h)

  -- `async_main` returns exactly if an accept fails, and what comes behind that changes nothing.
  pub serve_ends :
      (events rest : List (Event pk)) (v : Server pk)
      → (serve pk config (events ++ accept_error ∷ rest) v
          ≡ ((serve pk config events v).0, returned))
        × (((serve pk config events v).1 ≡ returned) ↔ Occurs accept_error events)
  serve_ends events rest v = (
    serve_accept_error events rest v,
    (
      serve-returned events v,
      λ (before, (after, e)).
          ap (λ x. (serve pk config x v).1) e ∙ ap (λ x. x.1) (serve_accept_error before after v),
    ),
  )

  -- What comes, less what comes to the listener.
  abbrev pub without_zmq : List (Event pk) → List (Event pk)
  without_zmq [] = []
  without_zmq (zmq_comes msg ∷ rest) = without_zmq rest
  without_zmq (e ∷ rest) = e ∷ without_zmq rest

  turn-zmq_deaf :
      (msg : Option (List Bytes)) (v : Server pk)
      → v.listening ≡ false
      → turn pk config (zmq_comes msg) v ≡ v
  unfolding turn
  turn-zmq_deaf none v deaf = refl
  turn-zmq_deaf (some msg) v deaf = rw deaf refl

  turn_deaf :
      (e : Event pk) (v : Server pk) → v.listening ≡ false → (turn pk config e v).listening ≡ false
  unfolding turn
  turn_deaf (accepted true) v deaf = deaf
  turn_deaf (accepted false) v deaf = deaf
  turn_deaf accept_error v deaf = deaf
  turn_deaf (frame_comes http frame client_tx) v deaf =
      elim (Bool-cases (contains ⦃e = sender_eq pk.mpsc⦄ v.reading client_tx)) [
        | inl reads ↦ rw reads deaf
        | inr over ↦ rw over deaf
      ]
  turn_deaf (stream_ends client_tx) v deaf = deaf
  turn_deaf (zmq_comes none) v deaf = deaf
  turn_deaf (zmq_comes (some msg)) v deaf =
      ap (λ x. x.listening) (turn-zmq_deaf (some msg) v deaf) ∙ deaf
  turn_deaf (forward_ends client_tx) v deaf = deaf

  serve-deaf :
      (events : List (Event pk)) (v : Server pk)
      → v.listening ≡ false
      → serve pk config events v ≡ serve pk config (without_zmq events) v
  unfolding serve
  serve-deaf [] v deaf = refl
  serve-deaf (accept_error ∷ events) v deaf = refl
  serve-deaf (zmq_comes msg ∷ events) v deaf =
      rw (turn-zmq_deaf msg v deaf) (serve-deaf events v deaf)
  serve-deaf (e ∷ events) v deaf = serve-deaf events (turn pk config e v) (turn_deaf e v deaf)

  -- Once a ZMQ message with fewer than two parts has come, the server goes on as if no ZMQ message
  -- came any more.
  pub serve-short_message :
      (msg : List Bytes) (events : List (Event pk)) (v : Server pk)
      → length msg < 2
      → serve pk config (zmq_comes (some msg) ∷ events) v
        ≡ serve pk config (without_zmq events) (record v { listening = false })
  unfolding serve turn
  serve-short_message msg events v h = elim (Bool-cases v.listening) [
    | inl listens ↦
        rw (listens, process_zmq_message_short pk msg config.network v.relay h)
          (serve-deaf events (record v { listening = false }) refl)
    | inr over ↦ rw over (serve-deaf events (record v { listening = false }) refl)
  ]
