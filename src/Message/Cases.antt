-- ===== src/Message/Cases.antt =====
-- The ways in which `process_message` of src/lib.rs ends.
use nexus_relay.Prelude.{
  ℕ, String, true, false, Option, none, some, Outcome, returns, fails, panics, ◌≡◌, arith, inl, inr,
  negsuc, Option-cases, Bool-cases, Outcome-cases,
}
use nexus_relay.External.Packages.{Packages}
use nexus_relay.Payload.{Any}
use nexus_relay.Topic.{Topic, unvalidated}
use nexus_relay.Jsonrpc.{
  Method, publish, subscribe, unsubscribe, Params, any, address, proposal, ping,
  Error as JsonrpcError, invalid_params, NexusRequest, NexusResponse, new_pong, new_subscribed,
  new_published, notification, response_to_string, topic_from_params,
}
use nexus_relay.Jsonrpc.Parse.{try_from}
use nexus_relay.Error.{Error, json_rpc}
use nexus_relay.Node.{Node}
use nexus_relay.Proposal.{validated}
use nexus_relay.Proposal.Cases.{
  proposal_topic, proposal_text, published, refused, aborted, locked, process_publish_proposal-Ends,
}
use nexus_relay.Proposal.Cases.{Ends as ProposalEnds}
use nexus_relay.Shared.{Shared}
use nexus_relay.Shared.Broadcast.{broadcast, enrol}
use nexus_relay.Message.{process_request, process_message}

module _ (pk : Packages) where
  -- The notification of a content that anyone publishes.
  unfoldable pub content_text : String → String
  content_text c = pk.to_string (pk.success (negsuc 0) (pk.string c))

  -- What a call leaves behind, and how it ends.
  abbrev pub Reply : Type 0
  Reply = Shared pk × Outcome (Error pk) (NexusResponse pk)

  topic_from_params-fails :
      (p : Params pk) {e : JsonrpcError pk}
      → topic_from_params pk p ≡ fails e
      → topic_from_params pk p ≡ fails invalid_params
  unfolding topic_from_params
  topic_from_params-fails (any a) h = ground arith
  topic_from_params-fails p h = ground arith

  not-topic_from_params-panics : (p : Params pk) → topic_from_params pk p ≡ panics → ⊥
  unfolding topic_from_params
  not-topic_from_params-panics (any a) h = ground arith
  not-topic_from_params-panics p h = ground arith

module _ (pk : Packages) (client : Option (Node pk)) (client_tx : pk.Sender) (s : Shared pk) where
  -- The requests that pass `validate_for_method` and are refused all the same.
  pub data Unserved : Method → Params pk → Type 0 where
    no_topic :
        (p : Params pk) → topic_from_params pk p ≡ fails invalid_params → Unserved subscribe p
    no_content : (a : Any) → a.content ≡ none → Unserved publish (any a)
    no_publisher :
        (p : Params pk)
        → ((a : Any) → p ≡ any a → ⊥)
        → ((q : pk.Unvalidated) → p ≡ proposal q → ⊥)
        → (p ≡ ping → ⊥)
        → Unserved publish p
    no_unsubscribe : (p : Params pk) → Unserved unsubscribe p

  -- What becomes of a request.
  pub data Serves (id : ℕ) : Method → Params pk → Reply pk → Type 0 where
    pinged : Serves id publish ping (s, returns (new_pong pk id))
    enrolled :
        (p : Params pk) (t : Topic)
        → topic_from_params pk p ≡ returns t
        → s.registry.poisoned ≡ false
        → Serves id subscribe p (enrol pk t client_tx s, returns (new_subscribed pk id))
    relayed :
        (a : Any) (c : String)
        → a.content ≡ some c
        → s.registry.poisoned ≡ false
        → Serves id publish (any a) (
          broadcast pk (unvalidated a.topic) (content_text pk c) s,
          returns (new_published pk id),
        )
    proposed :
        (p : pk.Unvalidated) (v : pk.Validated)
        → validated pk client p ≡ returns v
        → s.registry.poisoned ≡ false
        → Serves id publish (proposal p) (
          broadcast pk (proposal_topic pk v) (proposal_text pk v) s,
          returns (new_published pk id),
        )
    unserved :
        {k : Method} {p : Params pk}
        → Unserved k p
        → Serves id k p (s, fails (json_rpc invalid_params))
    rejected :
        (p : pk.Unvalidated) (e : Error pk)
        → validated pk client p ≡ fails e
        → Serves id publish (proposal p) (s, fails e)
    unavailable :
        (p : pk.Unvalidated)
        → validated pk client p ≡ panics
        → Serves id publish (proposal p) (s, panics)
    unlockable :
        {k : Method} {p : Params pk} → s.registry.poisoned ≡ true → Serves id k p (s, panics)

  Serves-transport :
      {id : ℕ} {k : Method} {p : Params pk} {a b : Reply pk}
      → a ≡ b
      → Serves id k p b
      → Serves id k p a
  Serves-transport e h = rw e h

  subscribe-Serves :
      (id : ℕ) (p : Params pk)
      → Serves id subscribe p (process_request pk id subscribe p client client_tx s)
  unfolding process_request enrol
  subscribe-Serves id p = elim (Outcome-cases (topic_from_params pk p)) [
    | inl (t, e) ↦ elim (Bool-cases s.registry.poisoned) [
      | inl d ↦ Serves-transport (ground arith) (unlockable d)
      | inr d ↦ Serves-transport (ground arith) (enrolled p t e d)
    ]
    | inr (inl (x, e)) ↦
        let none_such = topic_from_params-fails pk p e in
        Serves-transport (ground arith) (unserved (no_topic p none_such))
    | inr (inr e) ↦ absurd (not-topic_from_params-panics pk p e)
  ]

  publish_any-Serves :
      (id : ℕ) (a : Any)
      → Serves id publish (any a) (process_request pk id publish (any a) client client_tx s)
  unfolding process_request broadcast content_text response_to_string notification
  publish_any-Serves id a = elim (Option-cases a.content) [
    | inl e ↦ Serves-transport (ground arith) (unserved (no_content a e))
    | inr (c, e) ↦ elim (Bool-cases s.registry.poisoned) [
      | inl d ↦ Serves-transport (ground arith) (unlockable d)
      | inr d ↦ Serves-transport (ground arith) (relayed a c e d)
    ]
  ]

  proposal-Serves :
      (id : ℕ) (p : pk.Unvalidated) {r : Reply pk}
      → ProposalEnds pk p client id s r
      → Serves id publish (proposal p) r
  proposal-Serves id p (published v e d) = proposed p v e d
  proposal-Serves id p (refused x e) = rejected p x e
  proposal-Serves id p (aborted e) = unavailable p e
  proposal-Serves id p (locked d) = unlockable d

  process_request-Serves :
      (id : ℕ) (k : Method) (p : Params pk)
      → Serves id k p (process_request pk id k p client client_tx s)
  unfolding process_request
  process_request-Serves id subscribe p = subscribe-Serves id p
  process_request-Serves id publish (any a) = publish_any-Serves id a
  process_request-Serves id publish (proposal p) =
      proposal-Serves id p (process_publish_proposal-Ends pk p client id s)
  process_request-Serves id publish ping = pinged
  process_request-Serves id publish (address a) =
      unserved (no_publisher _ (λ a e. cc) (λ q e. cc) (λ e. cc))
  process_request-Serves id publish p = unserved (no_publisher _ (λ a e. cc) (λ q e. cc) (λ e. cc))
  process_request-Serves id unsubscribe p = unserved (no_unsubscribe p)

  pub data Ends (m : pk.JsonRpc) : Reply pk → Type 0 where
    unread : (e : JsonrpcError pk) → try_from pk m ≡ fails e → Ends m (s, fails (json_rpc e))
    crashed : try_from pk m ≡ panics → Ends m (s, panics)
    served :
        (r : NexusRequest pk) {x : Reply pk}
        → try_from pk m ≡ returns r
        → Serves r.id r.method r.params x
        → Ends m x

  Ends-transport : {m : pk.JsonRpc} {a b : Reply pk} → a ≡ b → Ends m b → Ends m a
  Ends-transport e h = rw e h

  -- Every call of process_message ends in one of the listed ways, with the result and the shared
  -- state of that way: the message is not read, reading it panics, or the request is answered,
  -- enrolled, broadcast, refused, or panics.
  pub process_message-Ends : (m : pk.JsonRpc) → Ends m (process_message pk m client client_tx s)
  unfolding process_message
  process_message-Ends m = elim (Outcome-cases (try_from pk m)) [
    | inl (r, e) ↦
        Ends-transport (ground arith) (served r e (process_request-Serves r.id r.method r.params))
    | inr (inl (x, e)) ↦ Ends-transport (ground arith) (unread x e)
    | inr (inr e) ↦ Ends-transport (ground arith) (crashed e)
  ]
