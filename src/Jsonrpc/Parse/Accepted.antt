-- ===== src/Jsonrpc/Parse/Accepted.antt =====
-- Which messages become requests, and how the others are refused: `TryFrom<JsonRpc> for
-- NexusRequest` of src/jsonrpc.rs.
use text.Mathlib.TextEquality.{eq_iff}
use nexus_relay.Prelude.{
  ℕ, ◌<◌, String, none, some, [], ◌∷◌, pos, negsuc, returns, fails, ◌≡◌, ◌↔◌, ◌⊎◌, inl, inr, refl,
  arith, Option-cases, Bool-cases, ltb, ◌&&◌,
}
use nexus_relay.Prelude.Fallible.{>>=-eq-returns}
use nexus_relay.External.Json.{map}
use nexus_relay.External.Packages.{Packages}
use nexus_relay.Payload.{Any, Tx, Pair, Wallet, Pset}
use nexus_relay.Jsonrpc.{
  Method, publish, subscribe, unsubscribe, method_from_str, method_to_string, Params, any, address,
  tx, pair, wallet, proposal, pset, ping, invalid_id, NexusRequest,
}
use nexus_relay.Jsonrpc.Parse.{
  u32_max, parse_id, parse_method, parse_entry, parse_entries, parse_params, validate_for_method,
  try_from,
}

-- The text of a method names it, and nothing else does.
pub method_from_str_iff :
    (s : String) (m : Method) → (method_from_str s ≡ some m) ↔ (s ≡ method_to_string m)
unfolding method_from_str method_to_string
method_from_str_iff s publish =
    ground (arith, eq_iff s "publish", eq_iff s "subscribe", eq_iff s "unsubscribe")
method_from_str_iff s subscribe = ground (
  arith,
  eq_iff s "publish",
  eq_iff s "subscribe",
  eq_iff s "unsubscribe",
  eq_iff "subscribe" "publish",
)
method_from_str_iff s unsubscribe = ground (
  arith,
  eq_iff s "publish",
  eq_iff s "subscribe",
  eq_iff s "unsubscribe",
  eq_iff "unsubscribe" "publish",
  eq_iff "unsubscribe" "subscribe",
)

module _ (pk : Packages) where
  open pk use {Value, RpcId, as_num, JsonRpc, get_id, get_method, get_params, num}

  -- A map with one entry is read by its name.
  pub parse_params-single :
      (m : JsonRpc) {key : String} {value : Value}
      → get_params m ≡ some (map ((key, value) ∷ []))
      → parse_params pk m ≡ parse_entry pk key value
  unfolding parse_params parse_entries
  parse_params-single m e = rw (e, parse_params)

  -- What each method may carry.
  pub data Allowed : Method → Params pk → Type 0 where
    subscribe_any : (a : Any) → a.content ≡ none → Allowed subscribe (any a)
    subscribe_address : (a : String) → Allowed subscribe (address a)
    subscribe_tx : (t : Tx) → Allowed subscribe (tx t)
    subscribe_wallet : (w : Wallet) → Allowed subscribe (wallet w)
    subscribe_pair : (p : Pair) → Allowed subscribe (pair p)
    publish_any : (a : Any) (c : String) → a.content ≡ some c → Allowed publish (any a)
    publish_proposal : (p : pk.Unvalidated) → Allowed publish (proposal p)
    publish_pset : (p : Pset) → Allowed publish (pset p)
    publish_ping : Allowed publish ping

  validate_for_method_complete :
      {m : Method} {p : Params pk} → Allowed m p → validate_for_method pk p m ≡ returns tt
  unfolding validate_for_method
  validate_for_method_complete (subscribe_any a e) = ground arith
  validate_for_method_complete (subscribe_address a) = refl
  validate_for_method_complete (subscribe_tx t) = refl
  validate_for_method_complete (subscribe_wallet w) = refl
  validate_for_method_complete (subscribe_pair p) = refl
  validate_for_method_complete (publish_any a c e) = ground arith
  validate_for_method_complete (publish_proposal p) = refl
  validate_for_method_complete (publish_pset p) = refl
  validate_for_method_complete publish_ping = refl

  validate_for_method_sound :
      (p : Params pk) (m : Method) → validate_for_method pk p m ≡ returns tt → Allowed m p
  unfolding validate_for_method
  validate_for_method_sound (any a) subscribe h = subscribe_any a (ground arith)
  validate_for_method_sound (any a) publish h = elim (Option-cases a.content) [
    | inl e ↦ absurd (ground arith)
    | inr (c, e) ↦ publish_any a c e
  ]
  validate_for_method_sound (any a) unsubscribe h = absurd (ground arith)
  validate_for_method_sound (address a) subscribe h = subscribe_address a
  validate_for_method_sound (tx t) subscribe h = subscribe_tx t
  validate_for_method_sound (wallet w) subscribe h = subscribe_wallet w
  validate_for_method_sound (pair p) subscribe h = subscribe_pair p
  validate_for_method_sound (proposal p) publish h = publish_proposal p
  validate_for_method_sound (pset p) publish h = publish_pset p
  validate_for_method_sound ping publish h = publish_ping
  validate_for_method_sound _ _ h = absurd (ground arith)

  -- validate_for_method passes exactly the listed combinations of a method and parameters.
  pub validate_for_method_iff :
      (p : Params pk) (m : Method) → (validate_for_method pk p m ≡ returns tt) ↔ Allowed m p
  validate_for_method_iff p m = (validate_for_method_sound p m, validate_for_method_complete)

  parse_id_sound :
      (m : JsonRpc) (n : ℕ)
      → parse_id pk m ≡ returns n
      → (i : RpcId) × (get_id m ≡ some i) × (as_num i ≡ some (pos n)) × (0 < n) × (n < u32_max)
  unfolding parse_id
  parse_id_sound m n h = elim (Option-cases (get_id m)) [
    | inl e ↦ absurd (ground arith)
    | inr (i, e) ↦ elim (Option-cases (as_num i)) [
      | inl f ↦ absurd (ground arith)
      | inr (pos k, f) ↦ (i, e, ground arith, ground arith, ground arith)
      | inr (negsuc k, f) ↦ absurd (ground arith)
    ]
  ]

  -- An id is taken as n exactly if it is the number n, above 0 and below u32::MAX.
  pub parse_id_iff :
      (m : JsonRpc) (n : ℕ)
      → (parse_id pk m ≡ returns n)
        ↔ ((i : RpcId) × (get_id m ≡ some i) × (as_num i ≡ some (pos n)) × (0 < n) × (n < u32_max))
  unfolding parse_id
  parse_id_iff m n = (parse_id_sound m n, λ (i, e, f, a, b). ground arith)

  -- Any other id is refused, and the refusal carries it.
  pub parse_id_total :
      (m : JsonRpc)
      → ((n : ℕ) × (parse_id pk m ≡ returns n)) ⊎ (parse_id pk m ≡ fails (invalid_id (get_id m)))
  unfolding parse_id
  parse_id_total m = elim (Option-cases (get_id m)) [
    | inl e ↦ inr (ground arith)
    | inr (i, e) ↦ elim (Option-cases (as_num i)) [
      | inl f ↦ inr (ground arith)
      | inr (pos k, f) ↦ elim (Bool-cases (ltb 0 k && ltb k u32_max)) [
        | inl t ↦ inl (k, ground arith)
        | inr t ↦ inr (ground arith)
      ]
      | inr (negsuc k, f) ↦ inr (ground arith)
    ]
  ]

  parse_method_iff :
      (m : JsonRpc) (k : Method)
      → (parse_method pk m ≡ returns k) ↔ (get_method m ≡ some (method_to_string k))
  unfolding parse_method
  parse_method_iff m k = elim (Option-cases (get_method m)) [
    | inl e ↦ ground arith
    | inr (s, e) ↦ elim (Option-cases (method_from_str s)) [
      | inl f ↦ ground (arith, method_from_str_iff s k)
      | inr (l, f) ↦ ground (arith, method_from_str_iff s k)
    ]
  ]

  -- A request that was accepted.
  pub record Accepts (m : JsonRpc) (r : NexusRequest pk) : Type 0 where
    pub id_pos : 0 < r.id
    pub id_below : r.id < u32_max
    pub same_id : parse_id pk m ≡ returns r.id
    pub same_method : get_method m ≡ some (method_to_string r.method)
    pub same_params : parse_params pk m ≡ returns r.params
    pub allowed : Allowed r.method r.params

  try_from_sound : (m : JsonRpc) (r : NexusRequest pk) → try_from pk m ≡ returns r → Accepts m r
  unfolding try_from
  try_from_sound m r h =
      let (id, e1, h1) = >>=-eq-returns (parse_id pk m) _ h in
      let (method, e2, h2) = >>=-eq-returns (parse_method pk m) _ h1 in
      let (params, e3, h3) = >>=-eq-returns (parse_params pk m) _ h2 in
      let (u, e4, h4) = >>=-eq-returns (validate_for_method pk params method) _ h3 in
      let same : r ≡ record { id = id; method = method; params = params } = ground arith in
      let (i, f, g, a, b) = parse_id_sound m id e1 in
      rw same (record {
        id_pos = a;
        id_below = b;
        same_id = e1;
        same_method = (parse_method_iff m method).0 e2;
        same_params = e3;
        allowed = validate_for_method_sound params method e4;
      })

  try_from_complete : (m : JsonRpc) (r : NexusRequest pk) → Accepts m r → try_from pk m ≡ returns r
  unfolding try_from
  try_from_complete m r a = rw (
    a.same_id,
    (parse_method_iff m r.method).1 a.same_method,
    a.same_params,
    validate_for_method_complete a.allowed,
  )

  -- A message becomes the request r exactly if its id is the number r.id, in range, its method is
  -- written as r.method is, its parameters are read as r.params, and the method may carry them.
  pub try_from_iff : (m : JsonRpc) (r : NexusRequest pk) → (try_from pk m ≡ returns r) ↔ Accepts m r
  try_from_iff m r = (try_from_sound m r, try_from_complete m r)
