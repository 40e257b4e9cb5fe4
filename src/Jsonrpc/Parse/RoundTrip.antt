-- ===== src/Jsonrpc/Parse/RoundTrip.antt =====
-- `Display for NexusRequest` and `TryFrom<JsonRpc> for NexusRequest` of src/jsonrpc.rs, one after
-- the other.
use nexus_relay.Prelude.{
  ℕ, ◌<◌, String, some, [], ◌∷◌, pos, returns, ◌≡◌, ◌∙◌, ap, refl, arith, ◌^◌,
}
use nexus_relay.External.Json.{map}
use nexus_relay.External.Packages.{Packages}
use nexus_relay.Payload.{
  Any, Tx, Pair, Wallet, Pset, any_to_value, tx_to_value, pair_to_value, wallet_to_value,
  pset_to_value,
}
use nexus_relay.Jsonrpc.{
  Method, Params, params_to_value, NexusRequest, method_to_string, request_to_json_rpc, new_ping,
  new_address_subscribe, new_txid_subscribe, new_publish_proposal,
}
use nexus_relay.Jsonrpc.Parse.{u32_max, parse_entry, parse_params, try_from}
use nexus_relay.Jsonrpc.Parse.Accepted.{
  parse_params-single, Allowed, subscribe_any, subscribe_address, subscribe_tx, subscribe_wallet,
  subscribe_pair, publish_any, publish_proposal, publish_pset, publish_ping, parse_id_iff,
  try_from_iff,
}

module _ (pk : Packages) where
  open pk use {Value, object, string, num, as_num, get_id, get_method, get_params}

  -- A request whose parameters are an object with one field, as `Params` is serialized.
  abbrev pub one_field : ℕ → String → String → Value → pk.JsonRpc
  one_field n m key v = pk.request_with_params (pos n) m (object ((key, v) ∷ []))

  -- The numbers from 0 on that an `Id::Num` holds.
  abbrev pub i64_bound : ℕ
  i64_bound = 2 ^ 63

  -- The documented behaviour of `jsonrpc_lite` and `serde_json`: the accessors of a message whose id
  -- fits an i64 and whose parameters are an object with one field give back what it was built from, and `from_value` reads what `to_value` made.
  pub record IsFaithful : Type 0 where
    pub as_num-num : (n : ℕ) → n < i64_bound → as_num (num (pos n)) ≡ some (pos n)
    pub get_id-request :
        (n : ℕ) (m : String) (key : String) (v : Value)
        → n < i64_bound
        → get_id (one_field n m key v) ≡ some (num (pos n))
    pub get_method-request :
        (n : ℕ) (m : String) (key : String) (v : Value)
        → n < i64_bound
        → get_method (one_field n m key v) ≡ some m
    pub get_params-request :
        (n : ℕ) (m : String) (key : String) (v : Value)
        → n < i64_bound
        → get_params (one_field n m key v) ≡ some (map ((key, v) ∷ []))
    pub string_reads : (s : String) → pk.string_from_value (string s) ≡ some s
    pub any_reads : (a : Any) → pk.any_from_value (any_to_value pk.json a) ≡ some a
    pub tx_reads : (t : Tx) → pk.tx_from_value (tx_to_value pk.json t) ≡ some t
    pub pair_reads : (p : Pair) → pk.pair_from_value (pair_to_value pk.json p) ≡ some p
    pub wallet_reads : (w : Wallet) → pk.wallet_from_value (wallet_to_value pk.json w) ≡ some w
    pub pset_reads : (p : Pset) → pk.pset_from_value (pset_to_value pk.json p) ≡ some p
    pub proposal_reads :
        (p : pk.Unvalidated) → pk.unvalidated_from_value (pk.unvalidated_to_value p) ≡ some p

  params_to_value-one_field :
      (n : ℕ) (s : String) {m : Method} {p : Params pk}
      → Allowed pk m p
      → (key : String) × (value : Value) × (pk.request_with_params (pos n) s (params_to_value pk p)
          ≡ one_field n s key value)
  unfolding params_to_value
  params_to_value-one_field n s (subscribe_any a e) = (_, _, refl)
  params_to_value-one_field n s (subscribe_address a) = (_, _, refl)
  params_to_value-one_field n s (subscribe_tx t) = (_, _, refl)
  params_to_value-one_field n s (subscribe_wallet w) = (_, _, refl)
  params_to_value-one_field n s (subscribe_pair p) = (_, _, refl)
  params_to_value-one_field n s (publish_any a c e) = (_, _, refl)
  params_to_value-one_field n s (publish_proposal p) = (_, _, refl)
  params_to_value-one_field n s (publish_pset p) = (_, _, refl)
  params_to_value-one_field n s publish_ping = (_, _, refl)

  module _ (faithful : IsFaithful) where
    parse_params-request :
        (n : ℕ) (s : String) {m : Method} {p : Params pk}
        → n < i64_bound
        → Allowed pk m p
        → parse_params pk (pk.request_with_params (pos n) s (params_to_value pk p)) ≡ returns p
    unfolding parse_entry params_to_value
    parse_params-request n s fits (subscribe_any a e) =
        parse_params-single pk _ (faithful.get_params-request n s _ _ fits)
        ∙ rw (faithful.any_reads a)
    parse_params-request n s fits (subscribe_address a) =
        parse_params-single pk _ (faithful.get_params-request n s _ _ fits)
        ∙ rw (faithful.string_reads a)
    parse_params-request n s fits (subscribe_tx t) =
        parse_params-single pk _ (faithful.get_params-request n s _ _ fits)
        ∙ rw (faithful.tx_reads t)
    parse_params-request n s fits (subscribe_wallet w) =
        parse_params-single pk _ (faithful.get_params-request n s _ _ fits)
        ∙ rw (faithful.wallet_reads w)
    parse_params-request n s fits (subscribe_pair p) =
        parse_params-single pk _ (faithful.get_params-request n s _ _ fits)
        ∙ rw (faithful.pair_reads p)
    parse_params-request n s fits (publish_any a c e) =
        parse_params-single pk _ (faithful.get_params-request n s _ _ fits)
        ∙ rw (faithful.any_reads a)
    parse_params-request n s fits (publish_proposal p) =
        parse_params-single pk _ (faithful.get_params-request n s _ _ fits)
        ∙ rw (faithful.proposal_reads p)
    parse_params-request n s fits (publish_pset p) =
        parse_params-single pk _ (faithful.get_params-request n s _ _ fits)
        ∙ rw (faithful.pset_reads p)
    parse_params-request n s fits publish_ping =
        parse_params-single pk _ (faithful.get_params-request n s _ _ fits)

    -- If the JSON packages give back, as they were written, ids that fit an i64, methods,
    -- parameters of one field, and payloads, a request whose id is above 0 and below u32::MAX and
    -- whose method may carry its parameters is read back from the message that it is written as.
    pub try_from-request_to_json_rpc :
        (r : NexusRequest pk)
        → 0 < r.id
        → r.id < u32_max
        → Allowed pk r.method r.params
        → try_from pk (request_to_json_rpc pk r) ≡ returns r
    unfolding request_to_json_rpc
    try_from-request_to_json_rpc r positive below allowed =
        let message = request_to_json_rpc pk r in
        let fits : r.id < i64_bound = omega (arith, below) in
        let (key, value, same) =
          params_to_value-one_field r.id (method_to_string r.method) allowed in
        (try_from_iff pk message r).1 (record {
          id_pos = positive;
          id_below = below;
          same_id = (parse_id_iff pk message r.id).1 (
            num (pos r.id),
            ap get_id same ∙ faithful.get_id-request _ _ key value fits,
            faithful.as_num-num _ fits,
            positive,
            below,
          );
          same_method = ap get_method same ∙ faithful.get_method-request _ _ key value fits;
          same_params = parse_params-request _ _ fits allowed;
          allowed = allowed;
        })

    -- If the JSON packages are faithful, each of the requests that the four constructors make with
    -- an id above 0 and below u32::MAX is read back as it was written.
    pub try_from-constructors :
        (id : ℕ) (text : String) (p : pk.Unvalidated)
        → 0 < id
        → id < u32_max
        → (try_from pk (request_to_json_rpc pk (new_ping pk id)) ≡ returns (new_ping pk id))
          × (try_from pk (request_to_json_rpc pk (new_address_subscribe pk id text))
              ≡ returns (new_address_subscribe pk id text))
          × (try_from pk (request_to_json_rpc pk (new_txid_subscribe pk id text))
              ≡ returns (new_txid_subscribe pk id text))
          × (try_from pk (request_to_json_rpc pk (new_publish_proposal pk id p))
              ≡ returns (new_publish_proposal pk id p))
    unfolding new_ping new_address_subscribe new_txid_subscribe new_publish_proposal
    try_from-constructors id text p positive below = (
      try_from-request_to_json_rpc (new_ping pk id) positive below publish_ping,
      try_from-request_to_json_rpc (new_address_subscribe pk id text) positive below
          (subscribe_address text),
      try_from-request_to_json_rpc (new_txid_subscribe pk id text) positive below
          (subscribe_tx (record { txid = text })),
      try_from-request_to_json_rpc (new_publish_proposal pk id p) positive below
          (publish_proposal p),
    )
