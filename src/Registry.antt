-- ===== src/Registry.antt =====
-- `TopicRegistry` of src/lib.rs: who has subscribed to which topic.
pub mod Delivery
pub mod History
pub mod Entries
pub mod View
use nexus_relay.Prelude.{ℕ, suc, String, List, [], ◌∷◌, ◌++◌, if◌then◌else◌}
use nexus_relay.External.Mpsc.{Mpsc}
use nexus_relay.Topic.{Topic, topic_eq}
use nexus_relay.Std.HashMap.{HashMap, get_or, or_insert}

module _ (ch : Mpsc) where
  open ch use {Sender, Channels, send}

  pub record TopicRegistry : Type 0 where
    pub topics : HashMap Topic (List Sender)

  unfoldable pub new : TopicRegistry
  new = record { topics = [] }

  unfoldable pub subscribe : Topic → Sender → TopicRegistry → TopicRegistry
  subscribe topic sender r = record r {
    topics = or_insert topic [] (λ subscribers. subscribers ++ sender ∷ []) r.topics;
  }

  -- The pass of `retain`, front to back: the subscribers that are kept, the channels after the
  -- sends, and `sent_count`.
  unfoldable pub retain : String → List Sender → Channels → List Sender × Channels × ℕ
  retain message [] w = ([], w, 0)
  retain message (sender ∷ rest) w =
      let (sent, w') = send sender message w in
      let (kept, w'', sent_count) = retain message rest w' in
      if sent then (sender ∷ kept, w'', suc sent_count) else (kept, w'', sent_count)

  -- The subscribers of a topic; none if the topic has no entry.
  unfoldable pub subscribers : Topic → TopicRegistry → List Sender
  subscribers topic r = get_or topic [] r.topics

  unfoldable pub publish : Topic → String → TopicRegistry → Channels → TopicRegistry × Channels × ℕ
  publish topic message r w =
      let (kept, w', sent_count) = retain message (subscribers topic r) w in
      (record r { topics = or_insert topic [] (λ _. kept) r.topics }, w', sent_count)
