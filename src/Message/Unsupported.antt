-- ===== src/Message/Unsupported.antt =====
-- Requests that `process_message` of src/lib.rs has no branch for.
use text.Mathlib.TextEquality.{eq_iff}
use nexus_relay.Prelude.{ℕ, Option, some, returns, fails, ◌≡◌, ◌≢◌, refl, arith}
use nexus_relay.External.Packages.{Packages}
use nexus_relay.Payload.{Wallet, Pset}
use nexus_relay.Jsonrpc.{
  Method, publish, subscribe, unsubscribe, method_to_string, Params, wallet, pset, invalid_params,
  NexusRequest, NexusResponse, topic_from_params,
}
use nexus_relay.Jsonrpc.Parse.{try_from}
use nexus_relay.Jsonrpc.Parse.Accepted.{
  Allowed, subscribe_any, subscribe_address, subscribe_tx, subscribe_wallet, subscribe_pair,
  publish_any, publish_proposal, publish_pset, publish_ping, try_from_iff,
}
use nexus_relay.Error.{json_rpc}
use nexus_relay.Node.{Node}
use nexus_relay.Shared.{Shared}
use nexus_relay.Message.{process_request, process_message}
use nexus_relay.Message.Safety.{process_message-Answers}

method_to_string-unsubscribe : (k : Method) → method_to_string k ≡ "unsubscribe" → k ≡ unsubscribe
unfolding method_to_string
method_to_string-unsubscribe publish e = absurd (ground (arith, eq_iff "publish" "unsubscribe"))
method_to_string-unsubscribe subscribe e = absurd (ground (arith, eq_iff "subscribe" "unsubscribe"))
method_to_string-unsubscribe unsubscribe e = refl

module _ (pk : Packages) (client : Option (Node pk)) (client_tx : pk.Sender) (s : Shared pk) where
  -- The two payloads that pass `validate_for_method` and that no branch serves.
  pub data NoBranch : Params pk → Type 0 where
    for_wallet : (w : Wallet) → NoBranch (wallet w)
    for_pset : (p : Pset) → NoBranch (pset p)

  process_request-NoBranch :
      (id : ℕ) {k : Method} {p : Params pk}
      → Allowed pk k p
      → NoBranch p
      → process_request pk id k p client client_tx s ≡ (s, fails (json_rpc invalid_params))
  unfolding process_request topic_from_params
  process_request-NoBranch id (subscribe_wallet w) b = refl
  process_request-NoBranch id (publish_pset p) b = refl
  process_request-NoBranch id (subscribe_any a e) b = elim b [ ]
  process_request-NoBranch id (subscribe_address a) b = elim b [ ]
  process_request-NoBranch id (subscribe_tx t) b = elim b [ ]
  process_request-NoBranch id (subscribe_pair p) b = elim b [ ]
  process_request-NoBranch id (publish_any a c e) b = elim b [ ]
  process_request-NoBranch id (publish_proposal p) b = elim b [ ]
  process_request-NoBranch id publish_ping b = elim b [ ]

  -- A message that is read as a request for a wallet or for a pset is refused, with nothing
  -- changed.
  pub process_message-NoBranch :
      (m : pk.JsonRpc) {r : NexusRequest pk}
      → try_from pk m ≡ returns r
      → NoBranch r.params
      → process_message pk m client client_tx s ≡ (s, fails (json_rpc invalid_params))
  unfolding process_message
  process_message-NoBranch m {r} e none_such =
      let a = (try_from_iff pk m r).0 e in
      let refused = process_request-NoBranch r.id a.allowed none_such in rw e refused

  not-Allowed-unsubscribe : {k : Method} {p : Params pk} → Allowed pk k p → k ≢ unsubscribe
  not-Allowed-unsubscribe (subscribe_any a e) h = cc
  not-Allowed-unsubscribe _ h = cc

  -- No message with the method "unsubscribe" is answered with a result.
  pub process_message-unsubscribe :
      (m : pk.JsonRpc)
      → pk.get_method m ≡ some "unsubscribe"
      → (a : NexusResponse pk) → (process_message pk m client client_tx s).1 ≢ returns a
  process_message-unsubscribe m e a h =
      let (r, read, answer) = process_message-Answers pk client client_tx s m h in
      let accepted = (try_from_iff pk m r).0 read in
      let same : method_to_string r.method ≡ "unsubscribe" = cc accepted.same_method in
      not-Allowed-unsubscribe accepted.allowed (method_to_string-unsubscribe r.method same)
