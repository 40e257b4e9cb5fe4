-- ===== src/Jsonrpc/Parse/Malformed.antt =====
-- The payloads that make `parse_params` of src/jsonrpc.rs panic, by `from_value(value).unwrap()`.
use text.Mathlib.Text.{◌==◌}
use text.Mathlib.TextEquality.{eq_iff}
use nexus_relay.Prelude.{
  ℕ, String, Option, none, some, [], ◌∷◌, returns, panics, ◌≡◌, ◌↔◌, inl, inr, refl, arith,
  Option-cases, ◌≢◌, Bool-cases, sym, ◌∙◌, >>=-eq-panics,
}
use nexus_relay.External.Json.{RpcParams, array, map, nothing}
use nexus_relay.External.Packages.{Packages}
use nexus_relay.Jsonrpc.{Method, method_from_str, Params, any}
use nexus_relay.Jsonrpc.Parse.{
  parse_id, parse_method, parse_entry, parse_entries, parse_params, validate_for_method, try_from,
}
use nexus_relay.Jsonrpc.Parse.Accepted.{parse_id_total, parse_params-single}

module _ (pk : Packages) where
  open pk use {Value, JsonRpc, get_params}

  -- A known name, with a payload that its type does not read.
  pub data Malformed (key : String) (value : Value) : Type 0 where
    bad_any : key ≡ "any" → pk.any_from_value value ≡ none → Malformed key value
    bad_address : key ≡ "address" → pk.string_from_value value ≡ none → Malformed key value
    bad_tx : key ≡ "tx" → pk.tx_from_value value ≡ none → Malformed key value
    bad_pair : key ≡ "pair" → pk.pair_from_value value ≡ none → Malformed key value
    bad_proposal : key ≡ "proposal" → pk.unvalidated_from_value value ≡ none → Malformed key value
    bad_wallet : key ≡ "wallet" → pk.wallet_from_value value ≡ none → Malformed key value
    bad_pset : key ≡ "pset" → pk.pset_from_value value ≡ none → Malformed key value

  parse_entry-panics :
      (key : String) (value : Value) → Malformed key value → parse_entry pk key value ≡ panics
  unfolding parse_entry
  parse_entry-panics key value (bad_any k e) = rw (k, e)
  parse_entry-panics key value (bad_address k e) = rw (k, e)
  parse_entry-panics key value (bad_tx k e) = rw (k, e)
  parse_entry-panics key value (bad_pair k e) = rw (k, e)
  parse_entry-panics key value (bad_proposal k e) = rw (k, e)
  parse_entry-panics key value (bad_wallet k e) = rw (k, e)
  parse_entry-panics key value (bad_pset k e) = rw (k, e)

  parse_entry-Malformed :
      (key : String) (value : Value) → parse_entry pk key value ≡ panics → Malformed key value
  unfolding parse_entry
  parse_entry-Malformed key value h = elim (Bool-cases (key == "any")) [
    | inl k ↦ bad_any ((eq_iff _ _).0 k) (ground arith)
    | inr h0 ↦ elim (Bool-cases (key == "address")) [
      | inl k ↦ bad_address ((eq_iff _ _).0 k) (ground arith)
      | inr h1 ↦ elim (Bool-cases (key == "tx")) [
        | inl k ↦ bad_tx ((eq_iff _ _).0 k) (ground arith)
        | inr h2 ↦ elim (Bool-cases (key == "pair")) [
          | inl k ↦ bad_pair ((eq_iff _ _).0 k) (ground arith)
          | inr h3 ↦ elim (Bool-cases (key == "proposal")) [
            | inl k ↦ bad_proposal ((eq_iff _ _).0 k) (ground arith)
            | inr h4 ↦ elim (Bool-cases (key == "wallet")) [
              | inl k ↦ bad_wallet ((eq_iff _ _).0 k) (ground arith)
              | inr h5 ↦ elim (Bool-cases (key == "pset")) [
                | inl k ↦ bad_pset ((eq_iff _ _).0 k) (ground arith)
                | inr h6 ↦ absurd (ground arith)
              ]
            ]
          ]
        ]
      ]
    ]
  ]

  not-parse_id-panics : (m : JsonRpc) → parse_id pk m ≢ panics
  not-parse_id-panics m h = elim (parse_id_total pk m) [
    | inl (n, e) ↦ absurd (cc)
    | inr e ↦ absurd (cc)
  ]

  not-parse_method-panics : (m : JsonRpc) → parse_method pk m ≢ panics
  unfolding parse_method
  not-parse_method-panics m h = elim (Option-cases (pk.get_method m)) [
    | inl e ↦ ground arith
    | inr (s, e) ↦ elim (Option-cases (method_from_str s)) [
      | inl f ↦ ground arith
      | inr (k, f) ↦ ground arith
    ]
  ]

  not-validate_for_method-panics :
      (p : Params pk) (k : Method) → validate_for_method pk p k ≢ panics
  unfolding validate_for_method
  not-validate_for_method-panics (any a) k h = ground arith
  not-validate_for_method-panics p k h = ground arith

  -- What makes reading the parameters panic: they are a map with one entry, which is malformed.
  pub record HasMalformed (m : JsonRpc) : Type 0 where
    pub key : String
    pub value : Value
    pub single : get_params m ≡ some (map ((key, value) ∷ []))
    pub malformed : Malformed key value

  parse_params-HasMalformed : (m : JsonRpc) → parse_params pk m ≡ panics → HasMalformed m
  unfolding parse_params parse_entries
  parse_params-HasMalformed m h = go (get_params m) refl
    where
      go : (o : Option (RpcParams Value)) → get_params m ≡ o → HasMalformed m
      go none e = absurd (ground arith)
      go (some (array vs)) e = absurd (ground arith)
      go (some (map [])) e = absurd (ground arith)
      go (some (map ((k, v) ∷ []))) e = record {
        key = k;
        value = v;
        single = e;
        malformed = parse_entry-Malformed k v (sym (parse_params-single pk m e) ∙ h);
      }
      go (some (map (a ∷ b ∷ r))) e = absurd (ground arith)
      go (some nothing) e = absurd (ground arith)

  pub try_from-HasMalformed : (m : JsonRpc) → try_from pk m ≡ panics → HasMalformed m
  unfolding try_from
  try_from-HasMalformed m h = elim (>>=-eq-panics (parse_id pk m) _ h) [
    | inl e ↦ absurd (not-parse_id-panics m e)
    | inr (id, e1, h1) ↦ elim (>>=-eq-panics (parse_method pk m) _ h1) [
      | inl e ↦ absurd (not-parse_method-panics m e)
      | inr (k, e2, h2) ↦ elim (>>=-eq-panics (parse_params pk m) _ h2) [
        | inl e ↦ parse_params-HasMalformed m e
        | inr (p, e3, h3) ↦ elim (>>=-eq-panics (validate_for_method pk p k) _ h3) [
          | inl e ↦ absurd (not-validate_for_method-panics p k e)
          | inr (u, e4, h4) ↦ absurd (cc)
        ]
      ]
    ]
  ]

  -- Reading a message whose id and method are good panics exactly if its one parameter has a known
  -- name and a payload that the parameter's type does not read.
  pub try_from-panics_iff :
      (m : JsonRpc) {id : ℕ} {k : Method}
      → parse_id pk m ≡ returns id
      → parse_method pk m ≡ returns k
      → (try_from pk m ≡ panics) ↔ HasMalformed m
  unfolding try_from
  try_from-panics_iff m e f = (
    try_from-HasMalformed m,
    λ bad. rw (
      e,
      f,
      parse_params-single pk m bad.single,
      parse_entry-panics bad.key bad.value bad.malformed,
    ),
  )
