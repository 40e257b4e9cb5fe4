-- ===== src/Jsonrpc/Parse.antt =====
-- From a JSON-RPC message to a request: `parse_id`, `parse_method`, `parse_params`,
-- `validate_for_method` and `TryFrom<JsonRpc> for NexusRequest` of src/jsonrpc.rs.
pub mod Accepted
pub mod Malformed
pub mod RoundTrip
use text.Mathlib.Text.{◌==◌}
use Prim.Native.Nat.{◌%◌}
use nexus_relay.Prelude.{
  ℕ, ◌-◌, ◌^◌, String, Bool, true, false, ◌&&◌, Option, none, some, List, [], ◌∷◌, ℤ, pos, negsuc,
  ltb_ℤ, if◌then◌else◌, Outcome, returns, fails, panics, unwrap,
}
use nexus_relay.Prelude.Fallible.{◌>>=◌, ◌>>◌}
use nexus_relay.External.Json.{RpcParams, array, map, nothing}
use nexus_relay.External.Packages.{Packages}
use nexus_relay.Payload.{Any}
use nexus_relay.Jsonrpc.{
  Method, publish, subscribe, unsubscribe, method_from_str, Params, any, address, tx, pair, wallet,
  empty, proposal, pset, ping, Error, invalid_id, invalid_method, invalid_params,
  invalid_params_for_this_method, array_params_are_invalid,
  params_must_contain_a_single_root_element, NexusRequest,
}

-- `u32::MAX`
abbrev pub u32_max : ℕ
u32_max = 2 ^ 32 - 1

-- `n as u32`
abbrev pub as_u32 : ℤ → ℕ
as_u32 (pos n) = n % 2 ^ 32
as_u32 (negsuc n) = 2 ^ 32 - 1 - n % 2 ^ 32

module _ (pk : Packages) where
  open pk use {Value, RpcId, as_num, JsonRpc, get_id, get_method, get_params}

  -- The test of `if let Some(Id::Num(n)) = id`.
  num_of : Option RpcId → Option ℤ
  num_of none = none
  num_of (some id) = as_num id

  unfoldable pub parse_id : JsonRpc → Outcome (Error pk) ℕ
  unfolding num_of
  parse_id message =
      let id = get_id message in
      elim (num_of id) [
        | some n ↦
            if ltb_ℤ (pos 0) n && ltb_ℤ n (pos u32_max)
            then returns (as_u32 n)
            else fails (invalid_id id)
        | none ↦ fails (invalid_id id)
      ]

  unfoldable pub parse_method : JsonRpc → Outcome (Error pk) Method
  parse_method message = elim (get_method message) [
    | some s ↦ elim (method_from_str s) [ some m ↦ returns m | none ↦ fails invalid_method ]
    | none ↦ fails invalid_method
  ]

  -- The match on the name of the one parameter. Its payload is unwrapped.
  unfoldable pub parse_entry : String → Value → Outcome (Error pk) (Params pk)
  parse_entry key value =
      if key == "any"
      then (do a ← unwrap (pk.any_from_value value); returns (any a))
      else if key == "address"
      then (do a ← unwrap (pk.string_from_value value); returns (address a))
      else if key == "tx"
      then (do t ← unwrap (pk.tx_from_value value); returns (tx t))
      else if key == "pair"
      then (do p ← unwrap (pk.pair_from_value value); returns (pair p))
      else if key == "proposal"
      then (do p ← unwrap (pk.unvalidated_from_value value); returns (proposal p))
      else if key == "wallet"
      then (do w ← unwrap (pk.wallet_from_value value); returns (wallet w))
      else if key == "pset"
      then (do p ← unwrap (pk.pset_from_value value); returns (pset p))
      else if key == "ping"
      then returns ping
      else fails invalid_params

  -- A map with any number of entries but one is refused.
  unfoldable pub parse_entries : List (String × Value) → Outcome (Error pk) (Params pk)
  parse_entries ((key, value) ∷ []) = parse_entry key value
  parse_entries _ = fails params_must_contain_a_single_root_element

  unfoldable pub parse_params : JsonRpc → Outcome (Error pk) (Params pk)
  parse_params message = elim (get_params message) [
    | none ↦ returns empty
    | some (array values) ↦ fails array_params_are_invalid
    | some (map entries) ↦ parse_entries entries
    | some nothing ↦ returns empty
  ]

  any_for_method : Option String → Method → Outcome (Error pk) (Unit {0})
  any_for_method (some content) subscribe = fails invalid_params
  any_for_method none subscribe = returns tt
  any_for_method (some content) publish = returns tt
  any_for_method none publish = fails invalid_params
  any_for_method content unsubscribe = fails invalid_params

  unfoldable pub validate_for_method : Params pk → Method → Outcome (Error pk) (Unit {0})
  unfolding any_for_method
  validate_for_method (any a) method = any_for_method a.content method
  validate_for_method (address a) subscribe = returns tt
  validate_for_method (tx t) subscribe = returns tt
  validate_for_method (wallet w) subscribe = returns tt
  validate_for_method (pair p) subscribe = returns tt
  validate_for_method (proposal p) publish = returns tt
  validate_for_method (pset p) publish = returns tt
  validate_for_method ping publish = returns tt
  validate_for_method _ _ = fails invalid_params_for_this_method

  unfoldable pub try_from : JsonRpc → Outcome (Error pk) (NexusRequest pk)
  try_from message = do
    id ← parse_id message
    method ← parse_method message
    params ← parse_params message
    validate_for_method params method
    returns (record { id = id; method = method; params = params })
