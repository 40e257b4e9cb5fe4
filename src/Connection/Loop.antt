-- ===== src/Connection/Loop.antt =====
-- Whether the loop of `handle_connection` of src/lib.rs goes on after a text.
use nexus_relay.Prelude.{String, true, ◌≡◌, ◌≢◌, ◌↔◌, refl, arith}
use nexus_relay.External.Packages.{Packages}
use nexus_relay.Connection.{Next, continues, crashes, send_to_client, handle_text}
use nexus_relay.Connection.Effects.{TextEnds, panicked, responded, handle_text-TextEnds}
use nexus_relay.Message.Kept.{Effect-is_alive}
use nexus_relay.Node.{Node}
use nexus_relay.Shared.{Shared}
use nexus_relay.Shared.Broadcast.{is_alive}

module _ (pk : Packages) (client_tx : pk.Sender) where
  send_to_client-continues_iff :
      (response : String) (s : Shared pk)
      → ((send_to_client pk response client_tx s).1 ≡ continues) ↔ (is_alive pk s client_tx ≡ true)
  unfolding send_to_client
  send_to_client-continues_iff response s =
      ground (arith, pk.mpsc.send-result client_tx response s.channels)

  TextEnds-continues_iff :
      (s : Shared pk) {x : Shared pk × Next}
      → TextEnds pk client_tx s x
      → x.1 ≢ crashes
      → (x.1 ≡ continues) ↔ (is_alive pk s client_tx ≡ true)
  TextEnds-continues_iff s (panicked e) calm = absurd (calm refl)
  TextEnds-continues_iff s (responded {s'} response e) calm =
      let same : is_alive pk s' client_tx ≡ is_alive pk s client_tx =
        Effect-is_alive pk client_tx s client_tx e in
      rw⁻¹ same (send_to_client-continues_iff response s')

  -- After a text whose handling does not panic, the loop of the connection goes on exactly if the
  -- client's channel was open.
  pub handle_text-continues_iff :
      (t : String) (client : Node pk) (s : Shared pk)
      → (handle_text pk t client client_tx s).1 ≢ crashes
      → ((handle_text pk t client client_tx s).1 ≡ continues) ↔ (is_alive pk s client_tx ≡ true)
  handle_text-continues_iff t client s =
      TextEnds-continues_iff s (handle_text-TextEnds pk client client_tx s t)
