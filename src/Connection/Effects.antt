-- ===== src/Connection/Effects.antt =====
-- What a frame of a client, in `handle_connection` of src/lib.rs, may do to the shared state.
use nexus_relay.Prelude.{String, some, Option-cases, Outcome-cases, inl, inr}
use nexus_relay.External.Packages.{Packages}
use nexus_relay.Connection.{
  Next, crashes, Frame, text, other, failure, send_to_client, response_of, handle_text,
  handle_frame,
}
use nexus_relay.Message.{process_message}
use nexus_relay.Message.Effects.{Effect, untouched, process_message-Effect}
use nexus_relay.Node.{Node}
use nexus_relay.Shared.{Shared}

module _ (pk : Packages) where
  -- What a message may do, with or without an answer to the client behind it.
  pub data FrameEffect (client_tx : pk.Sender) (s : Shared pk) : Shared pk → Type 0 where
    silent : {s' : Shared pk} → Effect pk client_tx s s' → FrameEffect client_tx s s'
    answers :
        {s' : Shared pk} (response : String)
        → Effect pk client_tx s s'
        → FrameEffect client_tx s (send_to_client pk response client_tx s').0

  -- How the handling of a text ends: in a panic, or with an answer behind what its message does.
  pub data TextEnds (client_tx : pk.Sender) (s : Shared pk) : Shared pk × Next → Type 0 where
    panicked : {s' : Shared pk} → Effect pk client_tx s s' → TextEnds client_tx s (s', crashes)
    responded :
        {s' : Shared pk} (response : String)
        → Effect pk client_tx s s'
        → TextEnds client_tx s (send_to_client pk response client_tx s')

  module _ (client : Node pk) (client_tx : pk.Sender) (s : Shared pk) where
    pub handle_text-TextEnds :
        (t : String) → TextEnds client_tx s (handle_text pk t client client_tx s)
    unfolding handle_text
    handle_text-TextEnds t = elim (Option-cases (pk.parse t)) [
      | inl e ↦ rw (e, handle_text) (responded _ untouched)
      | inr (m, e) ↦
          let (s', o) = process_message pk m (some client) client_tx s in
          let effect : Effect pk client_tx s s' =
            process_message-Effect pk (some client) client_tx s m in
          elim (Outcome-cases (response_of pk o)) [
            | inl (r, f) ↦ rw (e, handle_text, f) (responded _ effect)
            | inr (inl (x, f)) ↦ rw (e, handle_text, f) (panicked effect)
            | inr (inr f) ↦ rw (e, handle_text, f) (panicked effect)
          ]
    ]

    TextEnds-FrameEffect :
        {x : Shared pk × Next} → TextEnds client_tx s x → FrameEffect client_tx s x.0
    TextEnds-FrameEffect (panicked e) = silent e
    TextEnds-FrameEffect (responded response e) = answers response e

    pub handle_frame-FrameEffect :
        (frame : Frame) → FrameEffect client_tx s (handle_frame pk frame client client_tx s).0
    unfolding handle_frame
    handle_frame-FrameEffect (text t) = TextEnds-FrameEffect (handle_text-TextEnds t)
    handle_frame-FrameEffect other = silent untouched
    handle_frame-FrameEffect failure = silent untouched
