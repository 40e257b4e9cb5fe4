-- ===== src/External/Elements.antt =====
-- The `elements` package (src/zmq.rs, src/node.rs, src/lib.rs).
use nexus_relay.Prelude.{ℕ, String, Option, List, Result}

abbrev pub Bytes : Type 0
Bytes = List ℕ

pub record Elements : Type 1 where
  pub EncodeError : Type 0
  pub Transaction : Type 0
  pub Block : Type 0
  pub Script : Type 0
  pub Address : Type 0
  pub AddressParams : Type 0
  pub Txid : Type 0
  -- An outpoint, with its transaction and its index as they are displayed.
  pub OutPoint : Type 0
  pub outpoint_txid : OutPoint → String
  pub outpoint_vout : OutPoint → String
  pub liquid_params : AddressParams
  pub liquid_testnet_params : AddressParams
  pub elements_params : AddressParams
  -- `consensus_decode` of each type.
  pub decode_transaction : Bytes → Result EncodeError Transaction
  pub decode_block : Bytes → Result EncodeError Block
  pub txdata : Block → List Transaction
  pub txid : Transaction → Txid
  pub txid_to_string : Txid → String
  -- The `script_pubkey` of each output.
  pub output : Transaction → List Script
  -- `Address::from_script(script, None, params)`
  pub from_script : Script → AddressParams → Option Address
  pub address_to_string : Address → String
  pub serialize_hex : Transaction → String
