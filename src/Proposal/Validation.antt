-- ===== src/Proposal/Validation.antt =====
-- What the validation of a proposal asks of the node, in `process_publish_proposal` of
-- src/proposal.rs.
use nexus_relay.Prelude.{
  none, some, returns, panics, ok, ◌≡◌, ◌↔◌, arith, Option-cases, Result-cases, inl, inr,
}
use nexus_relay.External.Packages.{Packages}
use nexus_relay.Node
use nexus_relay.Node.{Node}
use nexus_relay.Proposal.{validated}

module _ (pk : Packages) (node : Node pk) (p : pk.Unvalidated) where
  -- With a node, a proposal validates as v exactly if it names a transaction, the node gives that
  -- transaction, and the proposal validates against it as v.
  pub validated_iff :
      (v : pk.Validated)
      → (validated pk (some node) p ≡ returns v) ↔ (
          (txid : pk.Txid) × (t : pk.Transaction) × (pk.needed_tx p ≡ ok txid)
          × (Node.tx pk node txid ≡ some t)
          × (pk.validate p t ≡ ok v))
  unfolding validated
  validated_iff v = elim (Result-cases (pk.needed_tx p)) [
    | inr (x, e) ↦ (λ h. absurd (ground arith), λ (txid, t, f, g, k). absurd (cc))
    | inl (txid, e) ↦ elim (Option-cases (Node.tx pk node txid)) [
      | inl none_such ↦ (λ h. absurd (ground arith), λ (txid', t, f, g, k). ground arith)
      | inr (t, found) ↦
          (λ h. (txid, t, e, found, ground arith), λ (txid', t', f, g, k). ground arith)
    ]
  ]

  -- With a node, the validation panics exactly if the proposal names a transaction that the node
  -- does not give.
  pub validated-panics_iff :
      (validated pk (some node) p ≡ panics)
      ↔ ((txid : pk.Txid) × (pk.needed_tx p ≡ ok txid) × (Node.tx pk node txid ≡ none))
  unfolding validated
  validated-panics_iff = elim (Result-cases (pk.needed_tx p)) [
    | inr (x, e) ↦ (λ h. absurd (ground arith), λ (txid, f, g). absurd (cc))
    | inl (txid, e) ↦ elim (Option-cases (Node.tx pk node txid)) [
      | inl none_such ↦ (λ h. (txid, e, none_such), λ (txid', f, g). ground arith)
      | inr (t, found) ↦ (λ h. absurd (ground arith), λ (txid', f, g). ground arith)
    ]
  ]

  -- Two nodes that give the same transactions validate a proposal alike, whatever they say of
  -- unspent outputs.
  pub validated-same_tx :
      (other : Node pk)
      → ((txid : pk.Txid) → Node.tx pk node txid ≡ Node.tx pk other txid)
      → validated pk (some node) p ≡ validated pk (some other) p
  unfolding validated
  validated-same_tx other same = elim (Result-cases (pk.needed_tx p)) [
    | inr (x, e) ↦ ground arith
    | inl (txid, e) ↦ ground (arith, same txid)
  ]
