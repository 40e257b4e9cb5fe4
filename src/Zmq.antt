-- ===== src/Zmq.antt =====
-- The ZMQ listener of src/zmq.rs: transactions and blocks of the node, and who hears of them.
pub mod Events
pub mod Listening
pub mod Panics
pub mod Cases
pub mod Delivery
pub mod Soundness
use nexus_relay.Prelude.{
  ℕ, String, Bool, true, false, Option, none, some, List, [], ◌∷◌, if◌then◌else◌, Outcome, returns,
  fails, panics, ok, err, bytes_beq, string_eq,
}
use nexus_relay.Prelude.Fallible
use nexus_relay.External.Elements.{Bytes}
use nexus_relay.External.Packages.{Packages}
use nexus_relay.Topic.{validated}
use nexus_relay.Jsonrpc.{notification, response_to_string}
use nexus_relay.Error.{Error, elements}
use nexus_relay.Network.{Network, address_params}
use nexus_relay.Registry.{publish}
use nexus_relay.BoundedSet.{BoundedSet}
use nexus_relay.BoundedSet
use nexus_relay.Shared.{Shared, Action, ◌>>=◌, pure, if_lock}

pub data Where : Type 0 where
  mempool block : Where

pub record AddressSeen : Type 0 where
  pub address : String
  pub txid : String
  pub tx_hex : String
  pub where_ : Where

pub record TxSeen : Type 0 where
  pub txid : String
  pub tx_hex : String
  pub where_ : Where

-- The names of the variants in lower case.
abbrev pub where_to_string : Where → String
where_to_string mempool = "mempool"
where_to_string block = "block"

-- `b"rawtx"` and `b"rawblock"`
abbrev pub rawtx : Bytes
rawtx = b'r' ∷ b'a' ∷ b'w' ∷ b't' ∷ b'x' ∷ []

abbrev pub rawblock : Bytes
rawblock = b'r' ∷ b'a' ∷ b'w' ∷ b'b' ∷ b'l' ∷ b'o' ∷ b'c' ∷ b'k' ∷ []

module _ (pk : Packages) where
  open pk use {
    Value, object, string, Transaction, Script, output, from_script, address_to_string,
    serialize_hex, txid_to_string, decode_transaction, decode_block, txdata,
  }

  unfoldable pub address_seen_to_value : AddressSeen → Value
  address_seen_to_value a = object (
      ("address", string a.address)
      ∷ ("txid", string a.txid)
      ∷ ("tx_hex", string a.tx_hex)
      ∷ ("where", string (where_to_string a.where_))
      ∷ [])

  unfoldable pub tx_seen_to_value : TxSeen → Value
  tx_seen_to_value t = object (
      ("txid", string t.txid)
      ∷ ("tx_hex", string t.tx_hex)
      ∷ ("where", string (where_to_string t.where_))
      ∷ [])

  unfoldable pub output_addresses : List Script → Network → List String
  output_addresses [] network = []
  output_addresses (out ∷ rest) network =
      let addresses = output_addresses rest network in
      elim (from_script out (address_params pk network)) [
        | some addr ↦ address_to_string addr ∷ addresses
        | none ↦ addresses
      ]

  unfoldable pub get_output_addresses : Transaction → Network → List String
  unfolding output_addresses
  get_output_addresses tx network = output_addresses (output tx) network

  unfoldable pub publish_address_seen :
      String → String → Transaction → Where → Action pk (Error pk) (Unit {0})
  unfolding address_seen_to_value
  publish_address_seen address txid tx where_ =
      let seen : AddressSeen = record {
        address = address;
        txid = txid;
        tx_hex = serialize_hex tx;
        where_ = where_;
      } in
      if_lock λ registry channels.
        Fallible.◌>>=◌ (response_to_string pk (notification pk (address_seen_to_value seen)))
          λ message. returns (publish pk.mpsc (validated address) message registry channels)

  unfoldable pub publish_tx_seen : String → Transaction → Where → Action pk (Error pk) (Unit {0})
  unfolding tx_seen_to_value
  publish_tx_seen txid tx where_ =
      let seen : TxSeen = record { txid = txid; tx_hex = serialize_hex tx; where_ = where_ } in
      if_lock λ registry channels.
        Fallible.◌>>=◌ (response_to_string pk (notification pk (tx_seen_to_value seen)))
          λ message. returns (publish pk.mpsc (validated txid) message registry channels)

  -- `for address_str in addresses`
  unfoldable pub publish_addresses :
      List String → String → Transaction → Where → Action pk (Error pk) (Unit {0})
  publish_addresses [] txid tx where_ = pure (returns tt)
  publish_addresses (address ∷ rest) txid tx where_ = do
    done ← publish_address_seen address txid tx where_
    publish_addresses rest txid tx where_

  -- What is published of one transaction.
  unfoldable pub publish_transaction :
      Transaction → Network → Where → Action pk (Error pk) (Unit {0})
  unfolding publish_addresses
  publish_transaction tx network where_ =
      let txid = txid_to_string (pk.txid tx) in
      publish_tx_seen txid tx where_ >>= λ done.
      publish_addresses (get_output_addresses tx network) txid tx where_

  -- `for tx in block.txdata.iter()`
  pub publish_block : List Transaction → Network → Action pk (Error pk) (Unit {0})
  unfolding publish_transaction
  publish_block [] network = pure (returns tt)
  publish_block (tx ∷ rest) network = do
    done ← publish_transaction tx network block
    publish_block rest network

  -- What the listener reads and changes: what is shared, and the transactions seen.
  pub record Listener : Type 0 where
    pub shared : Shared pk
    pub txs_seen : BoundedSet String

  abbrev with_shared :
      Listener
      → Shared pk × Outcome (Error pk) (Unit {0})
      → Listener × Outcome (Error pk) (Unit {0})
  with_shared l (s, o) = (record l { shared = s }, o)

  unfoldable pub process_transaction :
      Transaction → Network → Listener → Listener × Outcome (Error pk) (Unit {0})
  process_transaction tx network l =
      let txid = txid_to_string (pk.txid tx) in
      if BoundedSet.contains l.txs_seen txid
      then (l, returns tt)
      else with_shared (record l { txs_seen = (BoundedSet.insert txid l.txs_seen).0 })
          (publish_transaction tx network mempool l.shared)

  -- The parts of the message behind the two that are read are ignored, and a message with fewer
  -- panics.
  unfoldable pub process_zmq_message :
      List Bytes → Network → Listener → Listener × Outcome (Error pk) (Unit {0})
  unfolding publish_block process_transaction
  process_zmq_message (topic ∷ body ∷ parts) network l =
      if bytes_beq topic rawtx
      then elim (decode_transaction body) [
        | ok tx ↦ process_transaction tx network l
        | err e ↦ (l, fails (elements e))
      ]
      else if bytes_beq topic rawblock
      then elim (decode_block body) [
        | ok b ↦ with_shared l (publish_block (txdata b) network l.shared)
        | err e ↦ (l, fails (elements e))
      ]
      else (l, returns tt)
  process_zmq_message _ network l = (l, panics)

  -- The loop of `start_zmq_listener` over what the socket yields; `none` is an error of the
  -- socket. Errors are logged, and a panic ends the task.
  pub zmq_loop :
      List (Option (List Bytes)) → Network → Listener → Listener × Outcome (Error pk) (Unit {0})
  zmq_loop [] network l = (l, returns tt)
  zmq_loop (none ∷ rest) network l = zmq_loop rest network l
  zmq_loop (some msg ∷ rest) network l =
      let (l', o) = process_zmq_message msg network l in
      elim o [
        | returns done ↦ zmq_loop rest network l'
        | fails e ↦ zmq_loop rest network l'
        | panics ↦ (l', panics)
      ]

  pub start_zmq_listener :
      ℕ
      → List (Option (List Bytes))
      → Network
      → Shared pk
      → Listener × Outcome (Error pk) (Unit {0})
  unfolding zmq_loop
  start_zmq_listener tx_cache_size messages network s =
      zmq_loop messages network (record { shared = s; txs_seen = BoundedSet.new tx_cache_size })
