-- ===== src/Jsonrpc/PairTopic.antt =====
-- The topics of pairs and of proposals, of src/jsonrpc.rs.
use Prim.Native.String
use nexus_relay.Prelude.{String, returns, ◌≡◌, ◌↔◌, sym, ◌∙◌, ap}
use nexus_relay.External.Packages.{Packages}
use nexus_relay.Payload.{Pair}
use nexus_relay.Topic.{validated}
use nexus_relay.Topic.Pairs.{NoColon, colon_split, colon-append}
use nexus_relay.Jsonrpc.{pair_topic, topic_from_proposal}

module _ (pk : Packages) where
  validated-injective : {s t : String} → validated s ≡ validated t → s ≡ t
  validated-injective e = cc

  pair_topic-injective :
      (p q : Pair)
      → NoColon p.input
      → NoColon q.input
      → pair_topic pk p ≡ pair_topic pk q
      → (p.input ≡ q.input) × (p.output ≡ q.output)
  unfolding pair_topic
  pair_topic-injective p q np nq e = colon_split p.input p.output q.input q.output np nq (
      ap (String.◌++◌ p.input) (sym (colon-append p.output))
      ∙ validated-injective e
      ∙ ap (String.◌++◌ q.input) (colon-append q.output))

  -- If no colon stands in the input asset of the proposal, nor in that of the pair, the topic of a
  -- proposal is the topic of the pair exactly if the proposal's assets are those of the pair.
  pub topic_from_proposal_iff :
      (v : pk.Validated) (p : Pair)
      → NoColon (pk.input_asset v)
      → NoColon p.input
      → (topic_from_proposal pk v ≡ returns (pair_topic pk p))
        ↔ ((pk.input_asset v ≡ p.input) × (pk.output_asset v ≡ p.output))
  unfolding topic_from_proposal pair_topic
  topic_from_proposal_iff v p nv np = (
    λ e.
        pair_topic-injective (record { input = pk.input_asset v; output = pk.output_asset v }) p nv
          np (cc e),
    λ (a, b). rw (a, b),
  )
