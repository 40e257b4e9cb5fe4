-- ===== src/Connection/Privacy.antt =====
-- What a text of one client brings to the others, in `handle_connection` of src/lib.rs.
use nexus_relay.Prelude.{
  String, true, false, none, some, ◌≡◌, inl, inr, ◌∙◌, ◌≢◌, refl, Option-cases, Outcome-cases,
  arith,
}
use nexus_relay.External.Packages.{Packages}
use nexus_relay.Connection.{crashes, parse_error_response, send_to_client, response_of, handle_text}
use nexus_relay.Message.{process_message}
use nexus_relay.Message.Delivery.{Received, process_message-Received}
use nexus_relay.Node.{Node}
use nexus_relay.Shared.{Shared}
use nexus_relay.Shared.Broadcast.{received, is_alive}

module _ (pk : Packages) (client : Node pk) (client_tx : pk.Sender) (t : pk.Sender) where
  send_to_client-others :
      (response : String) (s : Shared pk)
      → pk.same client_tx t ≡ false
      → received pk (send_to_client pk response client_tx s).0 t ≡ received pk s t
  unfolding send_to_client
  send_to_client-others response s other =
      ground (arith, pk.mpsc.log-send client_tx t response s.channels)

  module _ (s : Shared pk) where
    -- What the text of a message brings to a channel: the text is no message, and the channel gets
    -- nothing, or the channel gets what the message brings it.
    pub data TextBrings (m : String) (s' : Shared pk) : Type 0 where
      no_message : pk.parse m ≡ none → received pk s' t ≡ received pk s t → TextBrings m s'
      message :
          (j : pk.JsonRpc)
          → pk.parse m ≡ some j
          → Received pk (some client) client_tx s j t (received pk s' t)
          → TextBrings m s'

    -- A text of one client brings another client whose channel is open no answer: it brings nothing
    -- if it is no message, and otherwise what its message publishes to the other client's
    -- subscriptions.
    pub handle_text-TextBrings :
        (m : String)
        → pk.same client_tx t ≡ false
        → is_alive pk s t ≡ true
        → TextBrings m (handle_text pk m client client_tx s).0
    unfolding handle_text
    handle_text-TextBrings m other alive = elim (Option-cases (pk.parse m)) [
      | inl e ↦ no_message e (rw (e, handle_text) (send_to_client-others _ s other))
      | inr (j, e) ↦
          let (s', o) = process_message pk j (some client) client_tx s in
          let (new, same, brings) =
            process_message-Received pk (some client) client_tx s j t alive in
          message j e (elim (Outcome-cases (response_of pk o)) [
            | inl (r, f) ↦
                (new, rw (e, handle_text, f) (send_to_client-others _ s' other ∙ same), brings)
            | inr (inl (x, f)) ↦ (new, rw (e, handle_text, f) same, brings)
            | inr (inr f) ↦ (new, rw (e, handle_text, f) same, brings)
          ])
    ]

module _ (pk : Packages) (client : Node pk) (client_tx : pk.Sender) (s : Shared pk) where
  send_to_client-ne-crashes :
      (response : String) (s' : Shared pk) → (send_to_client pk response client_tx s').1 ≢ crashes
  unfolding send_to_client
  send_to_client-ne-crashes response s' h = ground arith

  -- A text whose handling panics leaves what its message does, without an answer.
  pub handle_text-crashes :
      (m : String)
      → (handle_text pk m client client_tx s).1 ≡ crashes
      → (j : pk.JsonRpc) × (pk.parse m ≡ some j)
        × ((handle_text pk m client client_tx s).0
            ≡ (process_message pk j (some client) client_tx s).0)
  unfolding handle_text
  handle_text-crashes m h = elim (Option-cases (pk.parse m)) [
    | inl e ↦ absurd (
        send_to_client-ne-crashes (pk.to_string (parse_error_response pk)) s (ground (arith, h, e)))
    | inr (j, e) ↦
        let (s', o) = process_message pk j (some client) client_tx s in
        elim (Outcome-cases (response_of pk o)) [
          | inl (r, f) ↦
              absurd (send_to_client-ne-crashes (pk.to_string r) s' (ground (arith, h, e, f)))
          | inr (inl (x, f)) ↦ (j, e, rw (e, handle_text, f) refl)
          | inr (inr f) ↦ (j, e, rw (e, handle_text, f) refl)
        ]
  ]
