-- ===== src/Tests/Registry.antt =====
-- A small registry of src/lib.rs.
use nexus_relay.Prelude.{true, List, [], ◌∷◌, ◌≡◌, contains}
use nexus_relay.Topic.{topic_eq, validated, unvalidated}
use nexus_relay.Prelude.{ℕ, suc, ◌↔◌, arith}
use nexus_relay.Registry.View.{view, run-log_iff}
use nexus_relay.Registry.{TopicRegistry, publish, subscribers}
use nexus_relay.Registry.Entries.{entries, contains-entries-publish}
use nexus_relay.Std.HashMap.{get_or}
use nexus_relay.Registry.History.{Call, subscribes, publishes, closes, run, due, run-log}
use nexus_relay.Tests.Sample.Channels.{Channels, is_open, sample_mpsc, log}
use nexus_relay.Tests.Sample.State.{channels, registry}

abbrev calls : List (Call sample_mpsc)
calls =
    publishes (unvalidated "t") "one"
    ∷ subscribes (unvalidated "t") 1
    ∷ publishes (unvalidated "t") "two"
    ∷ publishes (validated "t") "three"
    ∷ closes 1
    ∷ publishes (unvalidated "t") "four"
    ∷ []

run-log_example : log (run sample_mpsc calls registry channels).1 1 ≡ "one" ∷ "two" ∷ "two" ∷ []
unfolding due subscribers get_or
run-log_example = run-log sample_mpsc 1 calls registry channels

contains-entries-publish_example :
    contains
      (entries sample_mpsc (publish sample_mpsc (validated "tx1") "one" registry channels).0)
      (validated "tx1")
    ≡ true
contains-entries-publish_example =
    contains-entries-publish sample_mpsc (validated "tx1") (validated "tx1") "one" registry channels

-- The same subscriptions, with the topics in another order.
abbrev turned : TopicRegistry sample_mpsc
turned = record { topics = (validated "addr1", 2 ∷ []) ∷ (unvalidated "t", 1 ∷ 3 ∷ []) ∷ [] }

open_somewhere : (t : ℕ) → (w : Channels) × (is_open w t ≡ true)
open_somewhere t = (record { opened = λ s. true; accepted = λ s. []; count = suc t }, ground arith)

run-log_iff_example : (view sample_mpsc registry ≡ view sample_mpsc turned) ↔ (
    (calls : List (Call sample_mpsc)) (w : Channels) (t : ℕ)
    → log (run sample_mpsc calls registry w).1 t ≡ log (run sample_mpsc calls turned w).1 t)
run-log_iff_example = run-log_iff sample_mpsc registry turned open_somewhere
