-- ===== src/Registry/History.antt =====
-- A history of calls of `TopicRegistry` of src/lib.rs, and what is due to one channel after it:
-- the contract of the registry, without its map and its lists.
use nexus_relay.Prelude.{
  ℕ, suc, String, true, List, [], ◌∷◌, ◌++◌, ◌≡◌, ◌&&◌, ◌==◌, refl, sym, ◌∙◌, fun_ext,
  if◌then◌else◌, replicate, false, not, List, Bool, Bool-cases, inl, inr, arith, append_assoc,
  append-nil,
}
use nexus_relay.External.Mpsc.{Mpsc}
use nexus_relay.Topic.{Topic, topic_eq}
use nexus_relay.Registry.{TopicRegistry, subscribe, publish, subscribers}
use nexus_relay.Registry.Delivery.{
  times, times-live, subscribers-subscribe, subscribers-publish, is_open-publish, log-publish,
}

module _ (ch : Mpsc) where
  open ch use {Sender, Channels, is_open, log, same}

  -- The calls of the registry, and the end of a client's receiver.
  pub data Call : Type 0 where
    subscribes : Topic → Sender → Call
    publishes : Topic → String → Call
    closes : Sender → Call

  pub run : List Call → TopicRegistry ch → Channels → TopicRegistry ch × Channels
  run [] r w = (r, w)
  run (subscribes topic s ∷ rest) r w = run rest (subscribe ch topic s r) w
  run (publishes topic m ∷ rest) r w =
      let (r', w', sent_count) = publish ch topic m r w in run rest r' w'
  run (closes s ∷ rest) r w = run rest r (ch.close s w)

  module _ (t : Sender) where
    -- What the channel `t` is due, if it stands `n topic` times at each topic, and its receiver
    -- lives if `alive` is true.
    unfoldable pub due : List Call → (Topic → ℕ) → Bool → List String
    due [] n alive = []
    due (subscribes topic s ∷ rest) n alive =
        due rest (λ other. if same s t && topic == other then suc (n other) else n other) alive
    due (publishes topic m ∷ rest) n alive =
        let later = due rest n alive in if alive then replicate (n topic) m ++ later else later
    due (closes s ∷ rest) n alive = due rest n (alive && not (same s t))

    due-closed : (calls : List Call) (n : Topic → ℕ) → due calls n false ≡ []
    unfolding due
    due-closed [] n = refl
    due-closed (subscribes topic s ∷ rest) n = due-closed rest _
    due-closed (publishes topic m ∷ rest) n = due-closed rest n
    due-closed (closes s ∷ rest) n = due-closed rest n

    -- How often `t` stands at each topic of a registry.
    abbrev pub places : TopicRegistry ch → Topic → ℕ
    places r topic = times ch (subscribers ch topic r) t

    pub times-snoc :
        (ss : List Sender) (s : Sender)
        → times ch (ss ++ s ∷ []) t ≡ (if same s t then suc (times ch ss t) else times ch ss t)
    times-snoc [] s = refl
    times-snoc (x ∷ ss) s = ground (arith, times-snoc ss s)

    pub places-subscribe :
        (topic : Topic) (s : Sender) (r : TopicRegistry ch)
        → places (subscribe ch topic s r)
          ≡ (λ other. if same s t && topic == other then suc (places r other) else places r other)
    places-subscribe topic s r = fun_ext λ other. ground (
      arith,
      subscribers-subscribe ch topic other s r,
      topic_eq.beq_true topic other,
      times-snoc (subscribers ch topic r) s,
    )

    places-publish :
        (topic : Topic) (m : String) (r : TopicRegistry ch) (w : Channels)
        → is_open w t ≡ true
        → places (publish ch topic m r w).0 ≡ places r
    places-publish topic m r w alive = fun_ext λ other. ground (
      arith,
      subscribers-publish ch topic m r w other,
      topic_eq.beq_true topic other,
      times-live ch w (subscribers ch topic r) t alive,
    )

    -- A publication in a history.
    due-publish :
        (topic : Topic) (m : String) (rest : List Call) (r : TopicRegistry ch) (w : Channels)
        → let (r', w', sent_count) = publish ch topic m r w in
          log w' t ++ due rest (places r') (is_open w' t)
          ≡ log w t ++ due (publishes topic m ∷ rest) (places r) (is_open w t)
    unfolding due
    due-publish topic m rest r w =
        rw (log-publish ch topic m r w t, is_open-publish ch topic m r w t)
          (elim (Bool-cases (is_open w t)) [
            | inl alive ↦
                rw (alive, places-publish topic m r w alive)
                  (append_assoc (log w t) (replicate (places r topic) m) (due rest (places r) true))
            | inr gone ↦ rw (gone, due-closed rest _, due-closed rest (places r)) refl
          ])

    -- Whatever the history of subscriptions, publications and closings of receivers, a channel has
    -- received exactly what the history makes due to it, in order: each publication once for each
    -- earlier subscription of the channel to its topic, as long as its receiver lives.
    pub run-log :
        (calls : List Call) (r : TopicRegistry ch) (w : Channels)
        → log (run calls r w).1 t ≡ log w t ++ due calls (places r) (is_open w t)
    unfolding run due
    run-log [] r w = sym (append-nil _)
    run-log (subscribes topic s ∷ rest) r w =
        run-log rest (subscribe ch topic s r) w ∙ rw (places-subscribe topic s r) refl
    run-log (publishes topic m ∷ rest) r w = run-log rest _ _ ∙ due-publish topic m rest r w
    run-log (closes s ∷ rest) r w =
        run-log rest r (ch.close s w) ∙ rw (ch.log-close s t w, ch.is_open-close s t w) refl
