-- ===== src/Node.antt =====
-- The REST client of src/node.rs. What its errors hold is forgotten.
pub mod Answers
use nexus_relay.Prelude.{
  String, Bool, true, false, Option, none, some, List, [], ◌∷◌, Result, ok, err, ◌&◌,
}
use nexus_relay.External.Json.{Http}
use nexus_relay.External.Packages.{Packages}

infixl 5 ◌>>=◌
abbrev ◌>>=◌ {ℓ κ} : {A : Type ℓ} {B : Type κ} → Option A → (A → Option B) → Option B
none >>= f = none
some a >>= f = f a

abbrev ok_value {ℓ κ} : {E : Type κ} {A : Type ℓ} → Result E A → Option A
ok_value (ok a) = some a
ok_value (err e) = none

abbrev is_empty {ℓ} : {A : Type ℓ} → List A → Bool
is_empty [] = true
is_empty (x ∷ xs) = false

module _ (pk : Packages) where
  open pk use {Txid, Transaction, OutPoint, Value, txid_to_string, decode_transaction}

  pub record Node : Type 0 where
    pub client : Http pk.json
    pub base_url : String

  pub new : Http pk.json → String → Node
  new client base_url = record { client = client; base_url = base_url }

  pub tx_url : String → Txid → String
  tx_url base txid = base & "/rest/tx/" & txid_to_string txid & ".bin"

  unfoldable pub tx : Node → Txid → Option Transaction
  unfolding tx_url
  tx node txid = do
    bytes ← node.client.get_bytes (tx_url node.base_url txid)
    ok_value (decode_transaction bytes)

  pub utxos_url : String → OutPoint → String
  utxos_url base outpoint =
      base
      & "/rest/getutxos/checkmempool/"
      & pk.outpoint_txid outpoint
      & "-"
      & pk.outpoint_vout outpoint
      & ".json"

  pub get_utxos : Node → OutPoint → Option Value
  unfolding utxos_url
  get_utxos node outpoint = node.client.get_json (utxos_url node.base_url outpoint)

  -- An outpoint is spent if the answer's array of unspent outputs is empty.
  pub is_spent : Node → OutPoint → Option Bool
  unfolding get_utxos
  is_spent node outpoint = do
    json ← get_utxos node outpoint
    utxos ← pk.as_array (pk.index json "utxos")
    some (is_empty utxos)
