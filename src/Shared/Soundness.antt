-- ===== src/Shared/Soundness.antt =====
-- The sound states of what the tasks of src/lib.rs share: the mutex is not poisoned, and each
-- topic has one entry.
use nexus_relay.Prelude.{String, false, ◌≡◌, refl, IsNodup}
use nexus_relay.External.Packages.{Packages}
use nexus_relay.Topic.{Topic, topic_eq}
use nexus_relay.Registry.Entries.{entries, new-IsNodup, subscribe-IsNodup, publish-IsNodup}
use nexus_relay.Registry
use nexus_relay.Shared.{Shared}
use nexus_relay.Shared.Broadcast.{broadcast, enrol}

module _ (pk : Packages) where
  pub record IsSound (s : Shared pk) : Type 0 where
    pub unpoisoned : s.registry.poisoned ≡ false
    pub once : IsNodup (entries pk.mpsc s.registry.inner)

  pub new-IsSound :
      (w : pk.Channels)
      → IsSound (record {
        registry = record { poisoned = false; inner = Registry.new pk.mpsc };
        channels = w;
      })
  new-IsSound w = record { unpoisoned = refl; once = new-IsNodup pk.mpsc }

  pub broadcast-IsSound :
      (topic : Topic) (text : String) (s : Shared pk)
      → IsSound s
      → IsSound (broadcast pk topic text s)
  unfolding broadcast
  broadcast-IsSound topic text s v = record {
    unpoisoned = v.unpoisoned;
    once = publish-IsNodup pk.mpsc topic text s.registry.inner s.channels v.once;
  }

  pub enrol-IsSound :
      (topic : Topic) (sender : pk.Sender) (s : Shared pk)
      → IsSound s
      → IsSound (enrol pk topic sender s)
  unfolding enrol
  enrol-IsSound topic sender s v = record {
    unpoisoned = v.unpoisoned;
    once = subscribe-IsNodup pk.mpsc topic sender s.registry.inner v.once;
  }
