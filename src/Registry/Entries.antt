-- ===== src/Registry/Entries.antt =====
-- The entries of the map of `TopicRegistry` of src/lib.rs.
use nexus_relay.Prelude.{String, List, [], ◌≡◌, ◌||◌, ◌==◌, contains, IsNodup}
use nexus_relay.External.Mpsc.{Mpsc}
use nexus_relay.Topic.{Topic, topic_eq}
use nexus_relay.Std.HashMap.{keys, contains-keys-or_insert, or_insert-IsNodup}
use nexus_relay.Registry.{TopicRegistry, new, subscribe, publish}

module _ (ch : Mpsc) where
  -- The topics with an entry.
  abbrev pub entries : TopicRegistry ch → List Topic
  entries r = keys r.topics

  -- Publishing gives its topic an entry, whether or not anyone has subscribed, and removes no
  -- entry.
  pub contains-entries-publish :
      (topic t : Topic) (m : String) (r : TopicRegistry ch) (w : ch.Channels)
      → contains (entries (publish ch topic m r w).0) t ≡ (contains (entries r) t || topic == t)
  unfolding publish
  contains-entries-publish topic t m r w = contains-keys-or_insert t topic [] _ r.topics

  pub new-IsNodup : IsNodup (entries (new ch))
  unfolding new
  new-IsNodup = tt

  pub subscribe-IsNodup :
      (topic : Topic) (s : ch.Sender) (r : TopicRegistry ch)
      → IsNodup (entries r)
      → IsNodup (entries (subscribe ch topic s r))
  unfolding subscribe
  subscribe-IsNodup topic s r d = or_insert-IsNodup topic [] _ r.topics d

  pub publish-IsNodup :
      (topic : Topic) (m : String) (r : TopicRegistry ch) (w : ch.Channels)
      → IsNodup (entries r)
      → IsNodup (entries (publish ch topic m r w).0)
  unfolding publish
  publish-IsNodup topic m r w d = or_insert-IsNodup topic [] _ r.topics d
