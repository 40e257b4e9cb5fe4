-- ===== src/Connection/Soundness.antt =====
-- Frames of a client, in `handle_connection` of src/lib.rs, and the soundness of the shared state.
use nexus_relay.External.Packages.{Packages}
use nexus_relay.Connection.{Frame, send_to_client, handle_frame}
use nexus_relay.Connection.Effects.{FrameEffect, silent, answers, handle_frame-FrameEffect}
use nexus_relay.Message.Soundness.{Effect-IsSound}
use nexus_relay.Node.{Node}
use nexus_relay.Shared.{Shared}
use nexus_relay.Shared.Soundness.{IsSound}

module _ (pk : Packages) (client_tx : pk.Sender) (s : Shared pk) (sound : IsSound pk s) where
  FrameEffect-IsSound : {s' : Shared pk} → FrameEffect pk client_tx s s' → IsSound pk s'
  unfolding send_to_client
  FrameEffect-IsSound (silent e) = Effect-IsSound pk client_tx s sound e
  FrameEffect-IsSound (answers response e) =
      let v = Effect-IsSound pk client_tx s sound e in
      record { unpoisoned = v.unpoisoned; once = v.once }

  pub handle_frame-IsSound :
      (frame : Frame) (client : Node pk) → IsSound pk (handle_frame pk frame client client_tx s).0
  handle_frame-IsSound frame client =
      FrameEffect-IsSound (handle_frame-FrameEffect pk client client_tx s frame)
