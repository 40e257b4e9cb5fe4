-- ===== src/Registry/View.antt =====
-- `TopicRegistry` of src/lib.rs as a client sees it: how often each channel stands at each topic. The
-- order of the map's entries and that of a topic's subscribers are forgotten.
use mathlib.Core.Quot
use mathlib.Core.Quot.{Quot, Quot-set}
use nexus_relay.Prelude.{
  ℕ, suc, String, true, List, [], ◌∷◌, ◌≡◌, ◌&&◌, ◌==◌, refl, sym, ◌∙◌, ap, fun_ext, if◌then◌else◌,
  arith, ◌↔◌, ◌+◌, length, replicate, append-nil, length-append, length-replicate,
}
use nexus_relay.External.Mpsc.{Mpsc}
use nexus_relay.Topic.{Topic, topic_eq}
use nexus_relay.Registry.{TopicRegistry, subscribe, publish, subscribers}
use nexus_relay.Registry.Delivery.{live, times, subscribers-publish}
use nexus_relay.Registry.History.{Call, publishes, run, places, places-subscribe, due, run-log}

module _ (ch : Mpsc) where
  open ch use {Sender, Channels, is_open, same, log}

  abbrev pub SameSubscriptions : TopicRegistry ch → TopicRegistry ch → Type 0
  SameSubscriptions r r' = (topic : Topic) (t : Sender) → places ch t r topic ≡ places ch t r' topic

  abbrev pub View : Type 0
  View = Quot SameSubscriptions

  abbrev pub view : TopicRegistry ch → View
  view = Quot.mk

  unfoldable pub subscriptions_of : View → Topic → Sender → ℕ
  subscriptions_of v topic t = Quot.lift (hlevel) (λ r. places ch t r topic) (λ r r' h. h topic t) v

  -- Views that count alike are equal.
  pub View-ext :
      (v v' : View)
      → ((topic : Topic) (t : Sender) → subscriptions_of v topic t ≡ subscriptions_of v' topic t)
      → v ≡ v'
  unfolding subscriptions_of
  View-ext = Quot.ind (λ _. hlevel Quot-set) λ r. Quot.ind (λ _. hlevel Quot-set) λ r'. Quot.sound

  times-live_all :
      (w : Channels) (ss : List Sender) (t : Sender)
      → times ch (live ch w ss) t ≡ (if is_open w t then times ch ss t else 0)
  unfolding live
  times-live_all w [] t = ground arith
  times-live_all w (s ∷ ss) t = ground (arith, ch.same_iff s t, times-live_all w ss t)

  places-subscribe_at :
      (topic other : Topic) (s t : Sender) (r : TopicRegistry ch)
      → places ch t (subscribe ch topic s r) other
        ≡ (if same s t && topic == other then suc (places ch t r other) else places ch t r other)
  places-subscribe_at topic other s t r = ap (λ f. f other) (places-subscribe ch t topic s r)

  places-publish_at :
      (topic other : Topic) (m : String) (t : Sender) (r : TopicRegistry ch) (w : Channels)
      → places ch t (publish ch topic m r w).0 other ≡ (
          if topic == other
          then (if is_open w t then places ch t r other else 0)
          else places ch t r other)
  places-publish_at topic other m t r w = ground (
    arith,
    subscribers-publish ch topic m r w other,
    topic_eq.beq_true topic other,
    times-live_all w (subscribers ch topic r) t,
  )

  -- The operations respect the view.
  pub subscribe_view : Topic → Sender → View → View
  subscribe_view topic s =
      Quot.lift Quot-set (λ r. view (subscribe ch topic s r))
        λ r r' h. Quot.sound λ other t. ground (
          arith,
          places-subscribe_at topic other s t r,
          places-subscribe_at topic other s t r',
          h other t,
        )

  pub publish_view : Topic → String → Channels → View → View
  publish_view topic m w =
      Quot.lift Quot-set (λ r. view (publish ch topic m r w).0)
        λ r r' h. Quot.sound λ other t. ground (
          arith,
          places-publish_at topic other m t r w,
          places-publish_at topic other m t r' w,
          h other t,
        )

  pub subscriptions_of-subscribe_view :
      (topic other : Topic) (s t : Sender) (v : View)
      → subscriptions_of (subscribe_view topic s v) other t ≡ (
          if same s t && topic == other
          then suc (subscriptions_of v other t)
          else subscriptions_of v other t)
  unfolding subscriptions_of subscribe_view
  subscriptions_of-subscribe_view topic other s t =
      Quot.ind (λ _. hlevel) (places-subscribe_at topic other s t)

  pub subscriptions_of-publish_view :
      (topic other : Topic) (m : String) (t : Sender) (w : Channels) (v : View)
      → subscriptions_of (publish_view topic m w v) other t ≡ (
          if topic == other
          then (if is_open w t then subscriptions_of v other t else 0)
          else subscriptions_of v other t)
  unfolding subscriptions_of publish_view
  subscriptions_of-publish_view topic other m t w =
      Quot.ind (λ _. hlevel) (λ r. places-publish_at topic other m t r w)

  -- The order of two subscriptions is forgotten.
  pub subscribe_view_comm :
      (a b : Topic) (s u : Sender) (v : View)
      → subscribe_view a s (subscribe_view b u v) ≡ subscribe_view b u (subscribe_view a s v)
  subscribe_view_comm a b s u v = View-ext _ _ λ topic t. ground (
    arith,
    subscriptions_of-subscribe_view a topic s t (subscribe_view b u v),
    subscriptions_of-subscribe_view b topic u t v,
    subscriptions_of-subscribe_view b topic u t (subscribe_view a s v),
    subscriptions_of-subscribe_view a topic s t v,
  )

  -- So is that of two publications.
  pub publish_view_comm :
      (a b : Topic) (m m' : String) (w : Channels) (v : View)
      → publish_view a m w (publish_view b m' w v) ≡ publish_view b m' w (publish_view a m w v)
  publish_view_comm a b m m' w v = View-ext _ _ λ topic t. ground (
    arith,
    subscriptions_of-publish_view a topic m t w (publish_view b m' w v),
    subscriptions_of-publish_view b topic m' t w v,
    subscriptions_of-publish_view b topic m' t w (publish_view a m w v),
    subscriptions_of-publish_view a topic m t w v,
  )

  run-log_view :
      (calls : List (Call ch)) (r r' : TopicRegistry ch) (w : Channels) (t : Sender)
      → view r ≡ view r'
      → log (run ch calls r w).1 t ≡ log (run ch calls r' w).1 t
  unfolding subscriptions_of
  run-log_view calls r r' w t e =
      let same_places : places ch t r ≡ places ch t r' =
        fun_ext λ topic. ap (λ v. subscriptions_of v topic t) e in
      run-log ch t calls r w ∙ rw same_places refl ∙ sym (run-log ch t calls r' w)

  -- A publication counts the subscriptions of a channel whose receiver lives.
  log_counts :
      (topic : Topic) (r : TopicRegistry ch) (w : Channels) (t : Sender)
      → is_open w t ≡ true
      → length (log (run ch (publishes topic "" ∷ []) r w).1 t)
        ≡ length (log w t) + places ch t r topic
  unfolding due
  log_counts topic r w t alive =
      let copies : List String = replicate (places ch t r topic) "" in
      ap length (run-log ch t (publishes topic "" ∷ []) r w)
      ∙ rw
          (
            alive,
            append-nil copies,
            length-append (log w t) copies,
            length-replicate {A = String} (places ch t r topic) "",
          )
          refl

  -- If each channel's receiver lives in some state of the channels, two registries have equal
  -- views, that is, the same number of subscriptions of each channel to each topic, exactly if no
  -- history of subscriptions, publications and closings brings any channel something else.
  pub run-log_iff :
      (r r' : TopicRegistry ch)
      → ((t : Sender) → (w : Channels) × (is_open w t ≡ true))
      → (view r ≡ view r') ↔ (
          (calls : List (Call ch)) (w : Channels) (t : Sender)
          → log (run ch calls r w).1 t ≡ log (run ch calls r' w).1 t)
  run-log_iff r r' opens = (
    λ e calls w t. run-log_view calls r r' w t e,
    λ same_logs. Quot.sound λ topic t.
        let (w, alive) = opens t in
        omega (
          arith,
          log_counts topic r w t alive,
          log_counts topic r' w t alive,
          ap length (same_logs (publishes topic "" ∷ []) w t),
        ),
  )
