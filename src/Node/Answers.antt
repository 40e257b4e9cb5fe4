-- ===== src/Node/Answers.antt =====
-- What `Node` of src/node.rs makes of the answers of the node.
use nexus_relay.Prelude.{
  true, some, [], ◌∷◌, ok, ◌≡◌, ◌↔◌, arith, Option-cases, Result-cases, inl, inr,
}
use nexus_relay.External.Elements.{Bytes}
use nexus_relay.External.Packages.{Packages}
use nexus_relay.Node.{Node, tx, tx_url, utxos_url, is_spent}

module _ (pk : Packages) (node : Node pk) where
  -- The node gives a transaction exactly if the URL of its id answers with bytes that decode to it.
  pub tx_iff :
      (txid : pk.Txid) (t : pk.Transaction)
      → (tx pk node txid ≡ some t) ↔ (
          (bytes : Bytes) × (node.client.get_bytes (tx_url pk node.base_url txid) ≡ some bytes)
          × (pk.decode_transaction bytes ≡ ok t))
  unfolding tx
  tx_iff txid t = elim (Option-cases (node.client.get_bytes (tx_url pk node.base_url txid))) [
    | inl e ↦ (λ h. absurd (ground arith), λ (bytes, f, g). absurd (cc))
    | inr (bytes, e) ↦ elim (Result-cases (pk.decode_transaction bytes)) [
      | inl (u, d) ↦ (λ h. (bytes, e, ground arith), λ (bytes', f, g). ground arith)
      | inr (x, d) ↦ (λ h. absurd (ground arith), λ (bytes', f, g). ground arith)
    ]
  ]

  -- An outpoint counts as spent exactly if the URL of its unspent output answers with an array of
  -- unspent outputs that is empty.
  pub is_spent_iff :
      (o : pk.OutPoint)
      → (is_spent pk node o ≡ some true) ↔ (
          (json : pk.Value) × (node.client.get_json (utxos_url pk node.base_url o) ≡ some json)
          × (pk.as_array (pk.index json "utxos") ≡ some []))
  unfolding is_spent
  is_spent_iff o = elim (Option-cases (node.client.get_json (utxos_url pk node.base_url o))) [
    | inl e ↦ (λ h. absurd (ground arith), λ (json, f, g). absurd (cc))
    | inr (json, e) ↦ elim (Option-cases (pk.as_array (pk.index json "utxos"))) [
      | inl d ↦ (λ h. absurd (ground arith), λ (json', f, g). ground arith)
      | inr ([], d) ↦ (λ h. (json, e, d), λ (json', f, g). ground arith)
      | inr (v ∷ vs, d) ↦ (λ h. absurd (ground arith), λ (json', f, g). ground arith)
    ]
  ]
