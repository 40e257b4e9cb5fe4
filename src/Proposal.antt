-- ===== src/Proposal.antt =====
-- `process_publish_proposal` of src/proposal.rs.
use nexus_relay.Prelude.{
  ℕ, String, Option, none, some, Outcome, returns, fails, panics, convert, attempt, unwrap,
}
pub mod Cases
pub mod Validation
use nexus_relay.Prelude.Fallible
use nexus_relay.External.Packages.{Packages}
use nexus_relay.Jsonrpc.{
  NexusResponse, new_proposal, new_published, response_to_string, topic_from_proposal,
}
use nexus_relay.Error.{Error, json_rpc, liquidex}
use nexus_relay.Node.{Node, tx}
use nexus_relay.Registry.{publish}
use nexus_relay.Shared.{Shared, Action, ◌>>=◌, pure, with_lock}

module _ (pk : Packages) where
  open pk use {Unvalidated, Validated, needed_tx, validate, insecure_validate}

  -- With a node the proposal is validated against the transaction that it spends, and without one
  -- by itself.
  unfoldable pub validated : Option (Node pk) → Unvalidated → Outcome (Error pk) Validated
  validated (some client) proposal = Fallible.◌>>=◌ (attempt liquidex (needed_tx proposal)) λ txid.
      Fallible.◌>>=◌ (unwrap (tx pk client txid))
        λ transaction. attempt liquidex (validate proposal transaction)
  validated none proposal = attempt liquidex (insecure_validate proposal)

  unfoldable pub process_publish_proposal :
      Unvalidated → Option (Node pk) → ℕ → Action pk (Error pk) (NexusResponse pk)
  unfolding validated
  process_publish_proposal unvalidated client id = do
    proposal ← pure (validated client unvalidated)
    topic ← pure (convert json_rpc (topic_from_proposal pk proposal))
    message ← pure (response_to_string pk (new_proposal pk proposal))
    sent_count ←
        with_lock (λ registry channels. returns (publish pk.mpsc topic message registry channels))
    pure (returns (new_published pk id))
