-- ===== src/Proposal/Cases.antt =====
-- The ways in which `process_publish_proposal` of src/proposal.rs ends.
use nexus_relay.Prelude.{
  ℕ, String, true, false, Option, Outcome, returns, fails, panics, ◌≡◌, arith, Outcome-cases,
  negsuc, inl, inr, Bool-cases,
}
use nexus_relay.External.Packages.{Packages}
use nexus_relay.Topic.{Topic}
use nexus_relay.Jsonrpc.{
  NexusResponse, new_published, pair_topic, topic_from_proposal, new_proposal, response_to_string,
}
use nexus_relay.Error.{Error}
use nexus_relay.Node.{Node}
use nexus_relay.Shared.{Shared}
use nexus_relay.Shared.Broadcast.{broadcast}
use nexus_relay.Proposal.{validated, process_publish_proposal}

module _ (pk : Packages) where
  -- The topic and the text of the notification of a validated proposal.
  unfoldable pub proposal_topic : pk.Validated → Topic
  proposal_topic v = pair_topic pk (record { input = pk.input_asset v; output = pk.output_asset v })

  unfoldable pub proposal_text : pk.Validated → String
  proposal_text v = pk.to_string (pk.success (negsuc 0) (pk.validated_to_value v))

  module _ (p : pk.Unvalidated) (client : Option (Node pk)) (id : ℕ) (s : Shared pk) where
    -- The three ways: published, refused, or a panic.
    pub data Ends : Shared pk × Outcome (Error pk) (NexusResponse pk) → Type 0 where
      published :
          (v : pk.Validated)
          → validated pk client p ≡ returns v
          → s.registry.poisoned ≡ false
          → Ends
              (broadcast pk (proposal_topic v) (proposal_text v) s, returns (new_published pk id))
      refused : (e : Error pk) → validated pk client p ≡ fails e → Ends (s, fails e)
      aborted : validated pk client p ≡ panics → Ends (s, panics)
      locked : s.registry.poisoned ≡ true → Ends (s, panics)

    -- A proposal that validates is broadcast, if the mutex is sound.
    pub process_publish_proposal-published :
        {v : pk.Validated}
        → validated pk client p ≡ returns v
        → s.registry.poisoned ≡ false
        → process_publish_proposal pk p client id s
          ≡ (broadcast pk (proposal_topic v) (proposal_text v) s, returns (new_published pk id))
    unfolding process_publish_proposal topic_from_proposal response_to_string new_proposal
        proposal_topic proposal_text broadcast pair_topic
    process_publish_proposal-published e d = ground arith

    -- process_publish_proposal ends in one of four ways, with the shared state of each: the
    -- proposal validates and is broadcast on the topic of its pair, its validation fails or panics
    -- and nothing changes, or the mutex is poisoned.
    pub process_publish_proposal-Ends : Ends (process_publish_proposal pk p client id s)
    unfolding process_publish_proposal topic_from_proposal response_to_string new_proposal
        proposal_topic proposal_text broadcast pair_topic
    process_publish_proposal-Ends = elim (Outcome-cases (validated pk client p)) [
      | inl (v, e) ↦ elim (Bool-cases s.registry.poisoned) [
        | inl d ↦
            let same : process_publish_proposal pk p client id s ≡ (s, panics) = ground arith in
            rw same (locked d)
        | inr d ↦ rw (process_publish_proposal-published e d) (published v e d)
      ]
      | inr (inl (x, e)) ↦
          let same : process_publish_proposal pk p client id s ≡ (s, fails x) = ground arith in
          rw same (refused x e)
      | inr (inr e) ↦
          let same : process_publish_proposal pk p client id s ≡ (s, panics) = ground arith in
          rw same (aborted e)
    ]
