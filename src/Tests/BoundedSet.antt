-- ===== src/Tests/BoundedSet.antt =====
-- A full set of transactions of src/zmq.rs.
use nexus_relay.Prelude.{String, false, [], ◌∷◌, ◌++◌, ◌≡◌, string_eq, IsNodup, arith, contains}
use nexus_relay.BoundedSet
use nexus_relay.BoundedSet.Invariant.{IsBounded}
use nexus_relay.BoundedSet.Window.{insert_all, insert_all-contains}
use nexus_relay.Tests.Sample.State.{txs_seen}

same_members : (x : String) → contains txs_seen.set x ≡ contains txs_seen.queue x
same_members x = ground arith

pub txs_seen-IsBounded : IsBounded txs_seen
txs_seen-IsBounded = record { same = same_members; once = ground arith; bounded = omega arith }

once : IsNodup (txs_seen.queue ++ "c" ∷ "d" ∷ "e" ∷ [])
once = ground arith

insert_all-contains_example :
    BoundedSet.contains (insert_all ("c" ∷ "d" ∷ "e" ∷ []) txs_seen) "c" ≡ false
insert_all-contains_example =
    insert_all-contains "c" ("d" ∷ "e" ∷ []) txs_seen txs_seen-IsBounded once
