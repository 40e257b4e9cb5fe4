-- ===== src/Registry/Delivery.antt =====
-- Who receives what `publish` of src/lib.rs sends, and what becomes of the subscriptions.
use nexus_relay.Prelude.{
  ℕ, String, true, List, [], ◌∷◌, ◌++◌, ◌≡◌, refl, ◌∙◌, if◌then◌else◌, ◌==◌, count, length,
  replicate, arith, append_assoc, append-nil, Bool-cases, inl, inr, ◌≤◌,
}
use nexus_relay.External.Mpsc.{Mpsc, sender_eq}
use nexus_relay.Topic.{Topic, topic_eq}
use nexus_relay.Std.HashMap.{get_or-or_insert}
use nexus_relay.Registry.{TopicRegistry, subscribe, retain, subscribers, publish}

-- Those of a list whose receiver still lives.
module _ (ch : Mpsc) where
  open ch use {Sender, Channels, send, is_open, log, same}

  unfoldable pub live : Channels → List Sender → List Sender
  live w [] = []
  live w (s ∷ ss) = if is_open w s then s ∷ live w ss else live w ss

  -- How often the channel stands in a list.
  abbrev pub times : List Sender → Sender → ℕ
  times ss s = count ⦃e = sender_eq ch⦄ ss s

  live-send :
      (s : Sender) (m : String) (w : Channels) (ss : List Sender)
      → live (send s m w).1 ss ≡ live w ss
  unfolding live
  live-send s m w [] = refl
  live-send s m w (t ∷ ss) = rw (ch.is_open-send s t m w, live-send s m w ss)

  retain-kept : (m : String) (ss : List Sender) (w : Channels) → (retain ch m ss w).0 ≡ live w ss
  unfolding retain live
  retain-kept m [] w = refl
  retain-kept m (s ∷ ss) w =
      ground (arith, ch.send-result s m w, retain-kept m ss (send s m w).1, live-send s m w ss)

  retain-count :
      (m : String) (ss : List Sender) (w : Channels) → (retain ch m ss w).2 ≡ length (live w ss)
  unfolding retain live
  retain-count m [] w = refl
  retain-count m (s ∷ ss) w =
      ground (arith, ch.send-result s m w, retain-count m ss (send s m w).1, live-send s m w ss)

  -- What no send changes, a pass over the subscribers does not change.
  module _ {ℓ} {A : Type ℓ} (f : Channels → A)
      (f-send : (s : Sender) (m : String) (w : Channels) → f (send s m w).1 ≡ f w) where
    retain-keeps : (m : String) (ss : List Sender) (w : Channels) → f (retain ch m ss w).1 ≡ f w
    unfolding retain
    retain-keeps m [] w = refl
    retain-keeps m (s ∷ ss) w = elim (Bool-cases (send s m w).0) [
      | inl sent ↦ rw sent (retain-keeps m ss (send s m w).1 ∙ f-send s m w)
      | inr failed ↦ rw failed (retain-keeps m ss (send s m w).1 ∙ f-send s m w)
    ]

    pub publish-keeps :
        (topic : Topic) (m : String) (r : TopicRegistry ch) (w : Channels)
        → f (publish ch topic m r w).1 ≡ f w
    unfolding publish
    publish-keeps topic m r w = retain-keeps m (subscribers ch topic r) w

  log-retain :
      (m : String) (ss : List Sender) (w : Channels) (t : Sender)
      → log (retain ch m ss w).1 t
        ≡ (if is_open w t then log w t ++ replicate (times ss t) m else log w t)
  unfolding retain
  log-retain m [] w t = ground (arith, append-nil (log w t))
  log-retain m (s ∷ ss) w t = ground (
    arith,
    ch.is_open-send s t m w,
    ch.log-send s t m w,
    ch.same_iff s t,
    log-retain m ss (send s m w).1 t,
    append_assoc (log w t) (m ∷ []) (replicate (times ss t) m),
  )

  pub times-live-le :
      (w : Channels) (ss : List Sender) (t : Sender) → times (live w ss) t ≤ times ss t
  unfolding live
  times-live-le w [] t = omega arith
  times-live-le w (s ∷ ss) t = ground (arith, times-live-le w ss t)

  -- Dropping the dead takes no subscription from the living.
  pub times-live :
      (w : Channels) (ss : List Sender) (t : Sender)
      → is_open w t ≡ true
      → times (live w ss) t ≡ times ss t
  unfolding live
  times-live w [] t alive = refl
  times-live w (s ∷ ss) t alive = ground (arith, ch.same_iff s t, times-live w ss t alive)

  -- The new subscriber stands last at its topic, and no other topic changes.
  pub subscribers-subscribe :
      (topic t : Topic) (s : Sender) (r : TopicRegistry ch)
      → subscribers ch t (subscribe ch topic s r)
        ≡ (if topic == t then subscribers ch topic r ++ s ∷ [] else subscribers ch t r)
  unfolding subscribers subscribe
  subscribers-subscribe topic t s r = get_or-or_insert t topic [] (λ ss. ss ++ s ∷ []) r.topics

  module _ (topic : Topic) (m : String) (r : TopicRegistry ch) (w : Channels) where
    -- Publishing drops from its topic exactly the subscribers whose receiver is gone, keeps the
    -- order of the others, and changes the subscribers of no other topic.
    pub subscribers-publish :
        (t : Topic)
        → subscribers ch t (publish ch topic m r w).0
          ≡ (if topic == t then live w (subscribers ch topic r) else subscribers ch t r)
    unfolding subscribers publish
    subscribers-publish t = rw (
      get_or-or_insert t topic [] (λ _. (retain ch m (subscribers ch topic r) w).0) r.topics,
      retain-kept m (subscribers ch topic r) w,
    )

    -- The number returned is that of the subscribers whose receiver lives.
    pub publish-sent_count : (publish ch topic m r w).2 ≡ length (live w (subscribers ch topic r))
    unfolding publish
    publish-sent_count = retain-count m (subscribers ch topic r) w

    pub is_open-publish : (t : Sender) → is_open (publish ch topic m r w).1 t ≡ is_open w t
    is_open-publish t =
        publish-keeps (λ w. is_open w t) (λ s m w. ch.is_open-send s t m w) topic m r w

    -- A channel with a living receiver gets the message once for each time that it stands at the
    -- topic; a channel whose receiver is gone gets nothing.
    pub log-publish :
        (t : Sender)
        → log (publish ch topic m r w).1 t ≡ (
            if is_open w t
            then log w t ++ replicate (times (subscribers ch topic r) t) m
            else log w t)
    unfolding publish
    log-publish t = log-retain m (subscribers ch topic r) w t
