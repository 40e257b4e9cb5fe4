-- ===== src/Server/Sources.antt =====
-- Where everything that a client receives comes from, over the turns of the server of src/lib.rs.
use nexus_relay.Prelude.{
  true, false, none, some, bytes_beq, String, List, [], ◌∷◌, ◌++◌, ok, ◌≡◌, inl, inr, refl, sym,
  ◌∙◌, ap, subst, append-nil, append_assoc, Bool-cases, string_eq,
}
use nexus_relay.External.Elements.{Bytes}
use nexus_relay.External.Json.{Http}
use nexus_relay.External.Packages.{Packages}
use nexus_relay.BoundedSet
use nexus_relay.Connection.{
  Frame, text, other, failure, crashes, Next-cases, handle_text, handle_frame,
}
use nexus_relay.Connection.Answers.{Response, Others, handle_text-Answered}
use nexus_relay.Connection.Privacy
use nexus_relay.Connection.Privacy.{message, handle_text-TextBrings, handle_text-crashes}
use nexus_relay.Message.Delivery.{Brings, process_message-Received}
use nexus_relay.Server.{Config, client, Step, connection, listener, accept, drop, Reachable}
use nexus_relay.Server.Invariant.{Reachable-IsSafe}
use nexus_relay.Shared.Broadcast.{received, is_alive, subscriptions}
use nexus_relay.Zmq.{Listener, mempool, rawtx, rawblock, process_zmq_message}
use nexus_relay.Zmq.Cases.{
  Left, Ends, short, bad_transaction, remembered, new_transaction, bad_block, new_block,
  other_topic, process_zmq_message-Ends,
}
use nexus_relay.Zmq.Delivery.{
  transaction_due, block_due, broadcast-transaction_due, broadcast-block_due,
}
use nexus_relay.Zmq.Listening.{txid_text}

module _ (pk : Packages) (config : Config) (t : pk.Sender) where
  -- What a turn brings to the channel `t`, for each turn.
  pub data Brought (l : Listener pk)
      : (l' : Listener pk) → Step pk config l l' → List String → Type 0 where
    -- Connections that come and go bring nothing.
    accepts : Brought l _ accept []
    drops : (s : pk.Sender) → Brought l _ (drop s) []
    no_text :
        (http : Http pk.json) (client_tx : pk.Sender)
        (made : pk.is_made l.shared.channels client_tx ≡ true)
        → Brought l _ (connection http other client_tx made) []
    socket_error :
        (http : Http pk.json) (client_tx : pk.Sender)
        (made : pk.is_made l.shared.channels client_tx ≡ true)
        → Brought l _ (connection http failure client_tx made) []
    -- A text of another client is no message, or publishes to the channel's subscriptions.
    no_message :
        (http : Http pk.json) (client_tx : pk.Sender) (m : String)
        (made : pk.is_made l.shared.channels client_tx ≡ true)
        → pk.same client_tx t ≡ false
        → pk.parse m ≡ none
        → Brought l _ (connection http (text m) client_tx made) []
    published :
        {new : List String} (http : Http pk.json) (client_tx : pk.Sender) (m : String)
        (j : pk.JsonRpc) (made : pk.is_made l.shared.channels client_tx ≡ true)
        → pk.same client_tx t ≡ false
        → pk.parse m ≡ some j
        → Brings pk (some (client pk config http)) client_tx l.shared j t new
        → Brought l _ (connection http (text m) client_tx made) new
    -- A text of its own client is answered, behind what it publishes to the client itself; if its
    -- handling panics there is no answer.
    answered :
        {new : List String} (http : Http pk.json) (m : String) (response : pk.JsonRpc)
        (made : pk.is_made l.shared.channels t ≡ true)
        → Others pk (client pk config http) t m l.shared new
        → Response pk (client pk config http) t m l.shared response
        → Brought l _ (connection http (text m) t made) (new ++ pk.to_string response ∷ [])
    panicked :
        {new : List String} (http : Http pk.json) (m : String) (j : pk.JsonRpc)
        (made : pk.is_made l.shared.channels t ≡ true)
        → (handle_text pk m (client pk config http) t l.shared).1 ≡ crashes
        → pk.parse m ≡ some j
        → Brings pk (some (client pk config http)) t l.shared j t new
        → Brought l _ (connection http (text m) t made) new
    -- Notifications of a transaction that was not remembered, and of a block.
    of_transaction :
        (topic body : Bytes) (parts : List Bytes) (tx : pk.Transaction)
        → bytes_beq topic rawtx ≡ true
        → pk.decode_transaction body ≡ ok tx
        → BoundedSet.contains l.txs_seen (txid_text pk tx) ≡ false
        → Brought l _
            (listener (topic ∷ body ∷ parts))
            (transaction_due pk config.network tx mempool (subscriptions pk l.shared t))
    of_block :
        (topic body : Bytes) (parts : List Bytes) (b : pk.Block)
        → bytes_beq topic rawblock ≡ true
        → pk.decode_block body ≡ ok b
        → Brought l _
            (listener (topic ∷ body ∷ parts))
            (block_due pk config.network (pk.txdata b) (subscriptions pk l.shared t))
    -- Another message of the listener changes nothing.
    passed :
        (msg : List Bytes)
        → (process_zmq_message pk msg config.network l).0 ≡ l
        → Brought l _ (listener msg) []

  -- The channel has what it had, and behind it what the turn brings.
  abbrev pub Gets : (l l' : Listener pk) → Step pk config l l' → Type 0
  Gets l l' step =
      (new : List String) × (received pk l'.shared t ≡ received pk l.shared t ++ new)
      × Brought l l' step new

  module _ (l : Listener pk) where
    Gets-nothing :
        {l' : Listener pk} {step : Step pk config l l'}
        → received pk l'.shared t ≡ received pk l.shared t
        → Brought l l' step []
        → Gets l l' step
    Gets-nothing e brought = ([], e ∙ sym (append-nil _), brought)

    module _ (alive : is_alive pk l.shared t ≡ true) where
      own_text-Gets :
          (http : Http pk.json) (m : String) (made : pk.is_made l.shared.channels t ≡ true)
          → Gets l _ (connection http (text m) t made)
      unfolding handle_frame
      own_text-Gets http m made =
          let node = client pk config http in
          elim (Next-cases (handle_text pk m node t l.shared).1) [
            | inl crashed ↦
                let (j, e, same) = handle_text-crashes pk node t l.shared m crashed in
                let (new, f, brings) =
                  process_message-Received pk (some node) t l.shared j t alive in
                (new, ap (λ s. received pk s t) same ∙ f, panicked http m j made crashed e brings)
            | inr calm ↦
                let a = handle_text-Answered pk node t m l.shared alive calm in
                (
                  a.before ++ pk.to_string a.response ∷ [],
                  a.last
                      ∙ append_assoc (received pk l.shared t) a.before
                          (pk.to_string a.response ∷ []),
                  answered http m a.response made a.others a.right,
                )
          ]

      text-Gets :
          (http : Http pk.json) (client_tx : pk.Sender) (m : String)
          (made : pk.is_made l.shared.channels client_tx ≡ true)
          → Gets l _ (connection http (text m) client_tx made)
      unfolding handle_frame
      text-Gets http client_tx m made = elim (Bool-cases (pk.same client_tx t)) [
        | inl own ↦
            subst
              (λ x.
                (made' : pk.is_made l.shared.channels x ≡ true)
                → Gets l _ (connection http (text m) x made'))
              (sym ((pk.mpsc.same_iff client_tx t).0 own)) (own_text-Gets http m) made
        | inr other_client ↦
            elim (handle_text-TextBrings pk (client pk config http) client_tx t l.shared m
              other_client alive) [
                | Privacy.no_message e f ↦
                    Gets-nothing f (no_message http client_tx m made other_client e)
                | message j e (new, f, brings) ↦
                    (new, f, published http client_tx m j made other_client e brings)
              ]
      ]

      frame-Gets :
          (http : Http pk.json) (client_tx : pk.Sender) (frame : Frame)
          (made : pk.is_made l.shared.channels client_tx ≡ true)
          → Gets l _ (connection http frame client_tx made)
      unfolding handle_frame
      frame-Gets http client_tx (text m) made = text-Gets http client_tx m made
      frame-Gets http client_tx other made = Gets-nothing refl (no_text http client_tx made)
      frame-Gets http client_tx failure made = Gets-nothing refl (socket_error http client_tx made)

      -- What the listener leaves, with what it brings.
      abbrev LeftGets : List Bytes → Listener pk → Type 0
      LeftGets msg l' =
          (new : List String) × (received pk l'.shared t ≡ received pk l.shared t ++ new)
          × Brought l _ (listener msg) new

      LeftGets-nothing :
          {msg : List Bytes} → (process_zmq_message pk msg config.network l).0 ≡ l → LeftGets msg l
      LeftGets-nothing same = ([], sym (append-nil _), passed _ same)

      Ends-Gets :
          {msg : List Bytes} {x : Left pk config.network l}
          → (process_zmq_message pk msg config.network l).0 ≡ x.0
          → Ends pk config.network l msg x
          → LeftGets msg x.0
      Ends-Gets same
            (new_transaction {topic = topic} {body = body} {parts = parts} tx is_tx e new) =
          (
            _,
            broadcast-transaction_due pk config.network tx mempool l.shared t alive,
            of_transaction topic body parts tx is_tx e new,
          )
      Ends-Gets same (new_block {topic = topic} {body = body} {parts = parts} b is_block e) = (
        _,
        broadcast-block_due pk config.network (pk.txdata b) l.shared t alive,
        of_block topic body parts b is_block e,
      )
      Ends-Gets same (short e) = LeftGets-nothing same
      Ends-Gets same (bad_transaction e f g) = LeftGets-nothing same
      Ends-Gets same (remembered tx f g h) = LeftGets-nothing same
      Ends-Gets same (bad_block e f g) = LeftGets-nothing same
      Ends-Gets same (other_topic f g) = LeftGets-nothing same

      -- In a state that the running server reaches, whatever turn a task takes, a channel that is
      -- open keeps what it has received and gets behind it what that turn brings.
      pub Step-Gets :
          {l' : Listener pk} → Reachable pk config l → (step : Step pk config l l') → Gets l l' step
      Step-Gets r (connection http frame client_tx made) = frame-Gets http client_tx frame made
      Step-Gets r (listener msg) = Ends-Gets refl (
          process_zmq_message-Ends pk config.network l
            (Reachable-IsSafe pk config l r).0.sound.unpoisoned msg)
      Step-Gets r accept = Gets-nothing (pk.mpsc.log-unbounded_channel t l.shared.channels) accepts
      Step-Gets r (drop s) = Gets-nothing (pk.mpsc.log-close s t l.shared.channels) (drops s)
