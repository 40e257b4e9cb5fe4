-- ===== src/Message/Soundness.antt =====
-- `process_message` of src/lib.rs, and the soundness of the shared state.
use nexus_relay.External.Packages.{Packages}
use nexus_relay.Message.Effects.{Effect, untouched, enrols, broadcasts}
use nexus_relay.Shared.{Shared}
use nexus_relay.Shared.Soundness.{IsSound, broadcast-IsSound, enrol-IsSound}

module _ (pk : Packages) (client_tx : pk.Sender) (s : Shared pk) (sound : IsSound pk s) where
  pub Effect-IsSound : {s' : Shared pk} → Effect pk client_tx s s' → IsSound pk s'
  Effect-IsSound untouched = sound
  Effect-IsSound (enrols topic) = enrol-IsSound pk topic client_tx s sound
  Effect-IsSound (broadcasts topic text) = broadcast-IsSound pk topic text s sound
