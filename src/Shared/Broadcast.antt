-- ===== src/Shared/Broadcast.antt =====
-- A publication and a subscription on the shared state of src/lib.rs, once the mutex is locked.
use nexus_relay.Prelude.{
  ℕ, suc, arith, String, Bool, true, false, ◌≤◌, List, [], ◌∷◌, ◌++◌, ◌≡◌, refl, Begins-eq,
  if◌then◌else◌, ◌==◌, replicate, ap, ◌∙◌, Begins, Bool-cases, inl, inr,
}
use nexus_relay.External.Packages.{Packages}
use nexus_relay.Std.Mutex.{unlock}
use nexus_relay.Topic.{Topic, topic_eq}
use nexus_relay.Registry.{publish, subscribe, subscribers}
use nexus_relay.Registry.Delivery.{
  live, times, times-live-le, times-live, subscribers-subscribe, subscribers-publish,
  is_open-publish, publish-keeps, log-publish,
}
use nexus_relay.Registry.History.{times-snoc}
use nexus_relay.Shared.{Shared}

module _ (pk : Packages) where
  -- The subscribers of a topic, and what the channel of a client has accepted.
  abbrev pub subscribed : Shared pk → Topic → List pk.Sender
  subscribed s t = subscribers pk.mpsc t s.registry.inner

  abbrev pub received : Shared pk → pk.Sender → List String
  received s t = pk.log s.channels t

  abbrev pub is_alive : Shared pk → pk.Sender → Bool
  is_alive s t = pk.is_open s.channels t

  unfoldable pub broadcast : Topic → String → Shared pk → Shared pk
  broadcast topic message s =
      let (r, w, n) = publish pk.mpsc topic message s.registry.inner s.channels in
      record s { registry = unlock s.registry r; channels = w }

  unfoldable pub enrol : Topic → pk.Sender → Shared pk → Shared pk
  enrol topic sender s = record s {
    registry = unlock s.registry (subscribe pk.mpsc topic sender s.registry.inner);
  }

  -- What no send changes of the channels.
  abbrev pub Kept {ℓ} : {A : Type ℓ} → (pk.Channels → A) → Type ℓ
  Kept f = (t : pk.Sender) (m : String) (w : pk.Channels) → f (pk.send t m w).1 ≡ f w

  pub broadcast-keeps {ℓ} :
      {A : Type ℓ} (f : pk.Channels → A)
      → Kept f
      → (topic : Topic) (m : String) (s : Shared pk)
      → f (broadcast topic m s).channels ≡ f s.channels
  unfolding broadcast
  broadcast-keeps f kept topic m s =
      publish-keeps pk.mpsc f kept topic m s.registry.inner s.channels

  module _ (topic : Topic) (m : String) (s : Shared pk) where
    pub broadcast-subscribed :
        (t : Topic)
        → subscribed (broadcast topic m s) t
          ≡ (if topic == t then live pk.mpsc s.channels (subscribed s topic) else subscribed s t)
    unfolding broadcast
    broadcast-subscribed t = subscribers-publish pk.mpsc topic m s.registry.inner s.channels t

    pub broadcast-received :
        (t : pk.Sender)
        → received (broadcast topic m s) t ≡ (
            if is_alive s t
            then received s t ++ replicate (times pk.mpsc (subscribed s topic) t) m
            else received s t)
    unfolding broadcast
    broadcast-received t = log-publish pk.mpsc topic m s.registry.inner s.channels t

    pub broadcast-is_alive : (t : pk.Sender) → is_alive (broadcast topic m s) t ≡ is_alive s t
    unfolding broadcast
    broadcast-is_alive t = is_open-publish pk.mpsc topic m s.registry.inner s.channels t

    pub broadcast-poisoned : (broadcast topic m s).registry.poisoned ≡ s.registry.poisoned
    unfolding broadcast
    broadcast-poisoned = refl

  -- What the channel `t` has received stays, with what is new behind it.
  abbrev pub Grows : pk.Sender → Shared pk → Shared pk → Type 0
  Grows t s s' = Begins (received s t) (received s' t)

  pub broadcast-Grows :
      (topic : Topic) (m : String) (s : Shared pk) (t : pk.Sender) → Grows t s (broadcast topic m s)
  broadcast-Grows topic m s t = elim (Bool-cases (is_alive s t)) [
    | inl alive ↦ (
      replicate (times pk.mpsc (subscribed s topic) t) m,
      broadcast-received topic m s t ∙ rw alive refl,
    )
    | inr gone ↦ Begins-eq (broadcast-received topic m s t ∙ rw gone refl)
  ]

  -- How often a channel stands at each topic.
  abbrev pub subscriptions : Shared pk → pk.Sender → Topic → ℕ
  subscriptions s t topic = times pk.mpsc (subscribed s topic) t

  -- A publication takes no subscription from a channel whose receiver lives.
  pub broadcast-subscriptions :
      (topic : Topic) (m : String) (s : Shared pk) (t : pk.Sender)
      → is_alive s t ≡ true
      → (other : Topic) → subscriptions (broadcast topic m s) t other ≡ subscriptions s t other
  broadcast-subscriptions topic m s t alive other =
      ap (λ ss. times pk.mpsc ss t) (broadcast-subscribed topic m s other)
      ∙ elim (Bool-cases (topic == other)) [
        | inl same ↦ rw same (
            times-live pk.mpsc s.channels (subscribed s topic) t alive
            ∙ ap (subscriptions s t) ((topic_eq.beq_true topic other).0 same))
        | inr different ↦ rw different
      ]

  -- It gives none to any channel.
  pub broadcast-subscriptions-le :
      (topic : Topic) (m : String) (s : Shared pk) (t : pk.Sender) (other : Topic)
      → subscriptions (broadcast topic m s) t other ≤ subscriptions s t other
  broadcast-subscriptions-le topic m s t other = elim (Bool-cases (topic == other)) [
    | inl same ↦
        let e : topic ≡ other = (topic_eq.beq_true topic other).0 same in
        rw (broadcast-subscribed topic m s other, same, e)
          (times-live-le pk.mpsc s.channels (subscribed s other) t)
    | inr different ↦ rw (broadcast-subscribed topic m s other, different) (omega arith)
  ]

  pub enrol-subscribed :
      (topic : Topic) (sender : pk.Sender) (s : Shared pk) (t : Topic)
      → subscribed (enrol topic sender s) t
        ≡ (if topic == t then subscribed s topic ++ sender ∷ [] else subscribed s t)
  unfolding enrol
  enrol-subscribed topic sender s t = subscribers-subscribe pk.mpsc topic t sender s.registry.inner

  pub enrol-subscriptions :
      (topic : Topic) (t : pk.Sender) (s : Shared pk)
      → subscriptions (enrol topic t s) t topic ≡ suc (subscriptions s t topic)
  enrol-subscriptions topic t s = ground (
    arith,
    enrol-subscribed topic t s topic,
    topic_eq.beq_true topic topic,
    times-snoc pk.mpsc t (subscribed s topic) t,
    pk.mpsc.same_iff t t,
  )

  -- An enrolment changes nothing for other channels.
  pub enrol-subscriptions_of_others :
      (topic : Topic) (sender : pk.Sender) (s : Shared pk) (t : pk.Sender) (other : Topic)
      → pk.same sender t ≡ false
      → subscriptions (enrol topic sender s) t other ≡ subscriptions s t other
  enrol-subscriptions_of_others topic sender s t other different = ground (
    arith,
    enrol-subscribed topic sender s other,
    topic_eq.beq_true topic other,
    times-snoc pk.mpsc t (subscribed s topic) sender,
  )
