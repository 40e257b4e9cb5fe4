-- ===== src/Tests/Sample/Chain.antt =====
-- Small transactions and proposals, for runs of the model.
use text.Mathlib.Text.{◌==◌ as str_eq}
use nexus_relay.Prelude.{
  ℕ, String, Option, none, some, List, [], ◌∷◌, Result, ok, err, if◌then◌else◌,
}
use nexus_relay.External.Elements.{Elements, Bytes}
use nexus_relay.External.Lwk.{Lwk}
use nexus_relay.Tests.Sample.Messages.{Value, str, object, field, end, sample_json}

-- A transaction is its id and the addresses that it pays; a block is a list of transactions.
abbrev pub Transaction : Type 0
Transaction = String × List String

abbrev pub sample_tx : Transaction
sample_tx = ("tx1", "addr1" ∷ "addr2" ∷ [])

abbrev pub decoded : Bytes → Result (Unit {0}) Transaction
decoded [] = err tt
decoded (b ∷ r) = ok sample_tx

abbrev pub decoded_block : Bytes → Result (Unit {0}) (List Transaction)
decoded_block [] = err tt
decoded_block (b ∷ r) = ok (sample_tx ∷ [])

abbrev pub sample_elements : Elements
sample_elements = record {
  EncodeError = Unit {0};
  Transaction = Transaction;
  Block = List Transaction;
  Script = String;
  Address = String;
  AddressParams = ℕ;
  Txid = String;
  OutPoint = String × String;
  outpoint_txid = λ o. o.0;
  outpoint_vout = λ o. o.1;
  liquid_params = 0;
  liquid_testnet_params = 1;
  elements_params = 2;
  decode_transaction = decoded;
  decode_block = decoded_block;
  txdata = λ b. b;
  txid = λ t. t.0;
  txid_to_string = λ t. t;
  output = λ t. t.1;
  from_script = λ s p. some s;
  address_to_string = λ a. a;
  serialize_hex = λ t. "00";
}

-- A proposal is its pair of assets; one that sells "bad" does not validate.
abbrev pub checked : String × String → Result (Unit {0}) (String × String)
checked (a, b) = if str_eq a "bad" then err tt else ok (a, b)

abbrev pub proposal_of : Value → Option (String × String)
proposal_of (object (field k (str a) (field l (str b) end))) = some (a, b)
proposal_of _ = none

abbrev pub proposal_value : String × String → Value
proposal_value p = object (field "input" (str p.0) (field "output" (str p.1) end))

abbrev pub sample_lwk : Lwk sample_json sample_elements
sample_lwk = record {
  LwkError = Unit {0};
  Unvalidated = String × String;
  Validated = String × String;
  needed_tx = λ p. ok "tx1";
  validate = λ p t. checked p;
  insecure_validate = checked;
  input_asset = λ p. p.0;
  output_asset = λ p. p.1;
  unvalidated_to_value = proposal_value;
  validated_to_value = proposal_value;
  unvalidated_from_value = proposal_of;
}
