-- ===== src/Tests/Sample/State.antt =====
-- A small state of the relay, for runs of the model: channels 1 and 2 are open and 3 is closed; 1
-- and 3 have subscribed to the unvalidated topic "t", and 2 to the address "addr1".
use nexus_relay.Prelude.{String, false, not, none, [], ◌∷◌, nat_beq}
use nexus_relay.BoundedSet.{BoundedSet}
use nexus_relay.Node.{Node}
use nexus_relay.Registry.{TopicRegistry}
use nexus_relay.Shared.{Shared}
use nexus_relay.Topic.{validated, unvalidated}
use nexus_relay.Zmq.{Listener}
use nexus_relay.Tests.Sample.{sample}
use nexus_relay.Tests.Sample.Channels.{Channels, sample_mpsc}

abbrev pub channels : Channels
channels = record { opened = λ s. not (nat_beq s 3); accepted = λ s. []; count = 4 }

abbrev pub registry : TopicRegistry sample_mpsc
registry = record { topics = (unvalidated "t", 1 ∷ 3 ∷ []) ∷ (validated "addr1", 2 ∷ []) ∷ [] }

abbrev pub shared : Shared sample
shared = record { registry = record { poisoned = false; inner = registry }; channels = channels }

-- A node that answers nothing.
abbrev pub node : Node sample
node = record {
  client = record { get_bytes = λ url. none; get_json = λ url. none };
  base_url = "http://localhost:8332";
}

-- Two transactions seen of at most two.
abbrev pub txs_seen : BoundedSet String
txs_seen = record { set = "b" ∷ "a" ∷ []; queue = "a" ∷ "b" ∷ []; capacity = 2 }

abbrev pub listener : Listener sample
listener = record { shared = shared; txs_seen = txs_seen }
