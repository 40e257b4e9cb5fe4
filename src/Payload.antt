-- ===== src/Payload.antt =====
-- The payloads of requests, of src/jsonrpc.rs, and what their `#[derive(Serialize)]` makes of them.
use nexus_relay.Prelude.{String, Option, none, some, List, [], ◌∷◌}
use nexus_relay.External.Json.{Json}

pub record Any : Type 0 where
  pub topic : String
  pub content : Option String

pub record Tx : Type 0 where
  pub txid : String

pub record Pair : Type 0 where
  pub input : String
  pub output : String

pub record Wallet : Type 0 where
  pub id : String

pub record Pset : Type 0 where
  pub wallet_id : String
  pub pset : String

module _ (j : Json) where
  open j use {Value, string, object}

  -- `skip_serializing_if = "Option::is_none"`
  abbrev content_fields : Option String → List (String × Value)
  content_fields none = []
  content_fields (some c) = ("content", string c) ∷ []

  abbrev pub any_to_value : Any → Value
  any_to_value a = object (("topic", string a.topic) ∷ content_fields a.content)

  abbrev pub tx_to_value : Tx → Value
  tx_to_value t = object (("txid", string t.txid) ∷ [])

  abbrev pub pair_to_value : Pair → Value
  pair_to_value p = object (("input", string p.input) ∷ ("output", string p.output) ∷ [])

  abbrev pub wallet_to_value : Wallet → Value
  wallet_to_value w = object (("id", string w.id) ∷ [])

  abbrev pub pset_to_value : Pset → Value
  pset_to_value p = object (("wallet_id", string p.wallet_id) ∷ ("pset", string p.pset) ∷ [])
