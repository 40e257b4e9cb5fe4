-- ===== src/Connection/Kept.antt =====
-- The channel of one client over a frame of any client, in `handle_connection` of src/lib.rs.
use nexus_relay.Prelude.{
  ◌≤◌, String, true, false, [], ◌∷◌, ◌≡◌, refl, ◌∙◌, Begins-eq, Begins-trans, ◌&&◌, Bool-cases, inl,
  inr,
}
use nexus_relay.External.Packages.{Packages}
use nexus_relay.Connection.{Frame, send_to_client, handle_frame}
use nexus_relay.Connection.Effects.{FrameEffect, silent, answers, handle_frame-FrameEffect}
use nexus_relay.Message.Kept.{
  Effect-keeps, Effect-subscriptions_of_others, Effect-Grows, Effect-subscriptions,
}
use nexus_relay.Node.{Node}
use nexus_relay.Shared.{Shared}
use nexus_relay.Shared.Broadcast.{Kept, is_alive, subscriptions, Grows}
use nexus_relay.Topic.{Topic}

module _ (pk : Packages) (client_tx : pk.Sender) (t : pk.Sender) where
  module _ (response : String) (s : Shared pk) where
    send_to_client-Grows : Grows pk t s (send_to_client pk response client_tx s).0
    unfolding send_to_client
    send_to_client-Grows =
        elim (Bool-cases (pk.is_open s.channels client_tx && pk.same client_tx t)) [
          | inl e ↦ (response ∷ [], pk.mpsc.log-send client_tx t response s.channels ∙ rw e refl)
          | inr e ↦ Begins-eq (pk.mpsc.log-send client_tx t response s.channels ∙ rw e refl)
        ]

  module _ (s : Shared pk) where
    FrameEffect-keeps {ℓ} :
        {A : Type ℓ} {s' : Shared pk} (f : pk.Channels → A)
        → Kept pk f
        → FrameEffect pk client_tx s s'
        → f s'.channels ≡ f s.channels
    unfolding send_to_client
    FrameEffect-keeps f kept (silent e) = Effect-keeps pk client_tx s t f kept e
    FrameEffect-keeps f kept (answers {s'} response e) =
        kept client_tx response s'.channels ∙ Effect-keeps pk client_tx s t f kept e

    FrameEffect-subscriptions_of_others :
        {s' : Shared pk} (other : Topic)
        → pk.same client_tx t ≡ false
        → FrameEffect pk client_tx s s'
        → subscriptions pk s' t other ≤ subscriptions pk s t other
    unfolding send_to_client
    FrameEffect-subscriptions_of_others other different (silent e) =
        Effect-subscriptions_of_others pk client_tx s t other different e
    FrameEffect-subscriptions_of_others other different (answers response e) =
        Effect-subscriptions_of_others pk client_tx s t other different e

    FrameEffect-Grows : {s' : Shared pk} → FrameEffect pk client_tx s s' → Grows pk t s s'
    FrameEffect-Grows (silent e) = Effect-Grows pk client_tx s t e
    FrameEffect-Grows (answers {s'} response e) =
        Begins-trans _ (Effect-Grows pk client_tx s t e) (send_to_client-Grows response s')

    FrameEffect-subscriptions :
        {s' : Shared pk} (topic : Topic)
        → is_alive pk s t ≡ true
        → FrameEffect pk client_tx s s'
        → subscriptions pk s t topic ≤ subscriptions pk s' t topic
    unfolding send_to_client
    FrameEffect-subscriptions topic alive (silent e) =
        Effect-subscriptions pk client_tx s t topic alive e
    FrameEffect-subscriptions topic alive (answers response e) =
        Effect-subscriptions pk client_tx s t topic alive e

    module _ (frame : Frame) (client : Node pk) where
      pub handle_frame-keeps {ℓ} :
          {A : Type ℓ} (f : pk.Channels → A)
          → Kept pk f
          → f (handle_frame pk frame client client_tx s).0.channels ≡ f s.channels
      handle_frame-keeps f kept =
          FrameEffect-keeps f kept (handle_frame-FrameEffect pk client client_tx s frame)

      pub handle_frame-is_alive :
          is_alive pk (handle_frame pk frame client client_tx s).0 t ≡ is_alive pk s t
      handle_frame-is_alive =
          handle_frame-keeps (λ w. pk.is_open w t) (λ sender m w. pk.mpsc.is_open-send sender t m w)

      pub handle_frame-subscriptions_of_others :
          (other : Topic)
          → pk.same client_tx t ≡ false
          → subscriptions pk (handle_frame pk frame client client_tx s).0 t other
            ≤ subscriptions pk s t other
      handle_frame-subscriptions_of_others other different =
          FrameEffect-subscriptions_of_others other different
            (handle_frame-FrameEffect pk client client_tx s frame)

      pub handle_frame-Grows : Grows pk t s (handle_frame pk frame client client_tx s).0
      handle_frame-Grows = FrameEffect-Grows (handle_frame-FrameEffect pk client client_tx s frame)

      pub handle_frame-subscriptions :
          (topic : Topic)
          → is_alive pk s t ≡ true
          → subscriptions pk s t topic
            ≤ subscriptions pk (handle_frame pk frame client client_tx s).0 t topic
      handle_frame-subscriptions topic alive =
          FrameEffect-subscriptions topic alive
            (handle_frame-FrameEffect pk client client_tx s frame)
