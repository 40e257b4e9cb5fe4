-- ===== src/Message/Kept.antt =====
-- The channel of one client over a message of any client to `process_message` of src/lib.rs.
use nexus_relay.Prelude.{◌≤◌, true, false, ◌≡◌, refl, arith, Begins-refl}
use nexus_relay.External.Packages.{Packages}
use nexus_relay.Message.Effects.{Effect, untouched, enrols, broadcasts}
use nexus_relay.Registry.History.{times-snoc}
use nexus_relay.Shared.{Shared}
use nexus_relay.Topic.{Topic, topic_eq}
use nexus_relay.Shared.Broadcast.{
  enrol, is_alive, subscribed, subscriptions, enrol-subscribed, broadcast-subscriptions, Kept,
  broadcast-keeps, broadcast-subscriptions-le, enrol-subscriptions_of_others, Grows,
  broadcast-Grows,
}

module _ (pk : Packages) (client_tx : pk.Sender) (s : Shared pk) (t : pk.Sender) where
  pub Effect-keeps {ℓ} :
      {A : Type ℓ} {s' : Shared pk} (f : pk.Channels → A)
      → Kept pk f
      → Effect pk client_tx s s'
      → f s'.channels ≡ f s.channels
  unfolding enrol
  Effect-keeps f kept untouched = refl
  Effect-keeps f kept (enrols topic) = refl
  Effect-keeps f kept (broadcasts topic text) = broadcast-keeps pk f kept topic text s

  -- The subscriptions of another channel are not more than before.
  pub Effect-subscriptions_of_others :
      {s' : Shared pk} (other : Topic)
      → pk.same client_tx t ≡ false
      → Effect pk client_tx s s'
      → subscriptions pk s' t other ≤ subscriptions pk s t other
  Effect-subscriptions_of_others other different untouched = omega arith
  Effect-subscriptions_of_others other different (enrols topic) =
      omega (arith, enrol-subscriptions_of_others pk topic client_tx s t other different)
  Effect-subscriptions_of_others other different (broadcasts topic text) =
      broadcast-subscriptions-le pk topic text s t other

  pub Effect-is_alive :
      {s' : Shared pk} → Effect pk client_tx s s' → is_alive pk s' t ≡ is_alive pk s t
  Effect-is_alive =
      Effect-keeps (λ w. pk.is_open w t) (λ sender m w. pk.mpsc.is_open-send sender t m w)

  pub Effect-Grows : {s' : Shared pk} → Effect pk client_tx s s' → Grows pk t s s'
  unfolding enrol
  Effect-Grows untouched = Begins-refl _
  Effect-Grows (enrols topic) = Begins-refl _
  Effect-Grows (broadcasts topic text) = broadcast-Grows pk topic text s t

  enrol-subscriptions_le :
      (other topic : Topic)
      → subscriptions pk s t topic ≤ subscriptions pk (enrol pk other client_tx s) t topic
  enrol-subscriptions_le other topic = ground (
    arith,
    enrol-subscribed pk other client_tx s topic,
    topic_eq.beq_true other topic,
    times-snoc pk.mpsc t (subscribed pk s other) client_tx,
  )

  -- A client whose channel is open stands at each topic as often as before, or more often.
  pub Effect-subscriptions :
      {s' : Shared pk} (topic : Topic)
      → is_alive pk s t ≡ true
      → Effect pk client_tx s s'
      → subscriptions pk s t topic ≤ subscriptions pk s' t topic
  Effect-subscriptions topic alive untouched = omega arith
  Effect-subscriptions topic alive (enrols other) = enrol-subscriptions_le other topic
  Effect-subscriptions topic alive (broadcasts other text) =
      omega (arith, broadcast-subscriptions pk other text s t alive topic)
