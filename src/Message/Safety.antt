-- ===== src/Message/Safety.antt =====
-- Failures, answers and panics of `process_message` of src/lib.rs.
use nexus_relay.Prelude.{ℕ, false, Option, some, returns, fails, panics, ◌≡◌, refl, arith, pos, ok}
use nexus_relay.External.Packages.{Packages}
use nexus_relay.Jsonrpc.{
  Method, Params, NexusRequest, NexusResponse, new_pong, new_subscribed, new_published,
}
use nexus_relay.Jsonrpc.Parse.{try_from}
use nexus_relay.Jsonrpc.Parse.Malformed.{HasMalformed, try_from-HasMalformed}
use nexus_relay.Error.{Error}
use nexus_relay.Node.{Node}
use nexus_relay.Proposal.{validated}
use nexus_relay.Shared.{Shared}
use nexus_relay.Message.{process_message}
use nexus_relay.Message.Cases.{
  Reply, Serves, pinged, enrolled, relayed, proposed, unserved, rejected, unavailable, unlockable,
  Ends, unread, crashed, served, process_message-Ends,
}

module _ (pk : Packages) (client : Option (Node pk)) (client_tx : pk.Sender) (s : Shared pk) where
  Serves-fails :
      {id : ℕ} {k : Method} {p : Params pk} {x : Reply pk} {e : Error pk}
      → Serves pk client client_tx s id k p x
      → x.1 ≡ fails e
      → x.0 ≡ s
  Serves-fails pinged h = cc
  Serves-fails (enrolled p t e d) h = absurd (cc)
  Serves-fails (relayed a c e d) h = absurd (cc)
  Serves-fails (proposed p v e d) h = absurd (cc)
  Serves-fails (unserved u) h = refl
  Serves-fails (rejected p e d) h = refl
  Serves-fails (unavailable p e) h = refl
  Serves-fails (unlockable d) h = refl

  Ends-fails :
      {m : pk.JsonRpc} {x : Reply pk} {e : Error pk}
      → Ends pk client client_tx s m x
      → x.1 ≡ fails e
      → x.0 ≡ s
  Ends-fails (unread e f) h = refl
  Ends-fails (crashed f) h = refl
  Ends-fails (served r f v) h = Serves-fails v h

  -- A message that ends in an error changes neither the registry nor any channel.
  pub process_message_atomic :
      (m : pk.JsonRpc) {e : Error pk}
      → (process_message pk m client client_tx s).1 ≡ fails e
      → (process_message pk m client client_tx s).0 ≡ s
  process_message_atomic m h = Ends-fails (process_message-Ends pk client client_tx s m) h

  -- A positive answer: the id is the request's, and the value is no error.
  pub record Answers (r : NexusRequest pk) (a : NexusResponse pk) : Type 0 where
    pub same_id : a.id ≡ some (pos r.id)
    pub value : pk.Value
    pub is_ok : a.val ≡ ok value

  Serves-Answers :
      (r : NexusRequest pk) {k : Method} {p : Params pk} {x : Reply pk} {a : NexusResponse pk}
      → Serves pk client client_tx s r.id k p x
      → x.1 ≡ returns a
      → Answers r a
  unfolding new_pong new_subscribed new_published
  Serves-Answers r pinged h = record {
    same_id = ground arith;
    value = pk.string "pong";
    is_ok = ground arith;
  }
  Serves-Answers r (enrolled p t e d) h = record {
    same_id = ground arith;
    value = pk.string "subscribed";
    is_ok = ground arith;
  }
  Serves-Answers r (relayed p t e d) h = record {
    same_id = ground arith;
    value = pk.string "published";
    is_ok = ground arith;
  }
  Serves-Answers r (proposed p t e d) h = record {
    same_id = ground arith;
    value = pk.string "published";
    is_ok = ground arith;
  }
  Serves-Answers r (unserved u) h = absurd (cc)
  Serves-Answers r (rejected p e d) h = absurd (cc)
  Serves-Answers r (unavailable p e) h = absurd (cc)
  Serves-Answers r (unlockable d) h = absurd (cc)

  Ends-Answers :
      {m : pk.JsonRpc} {x : Reply pk} {a : NexusResponse pk}
      → Ends pk client client_tx s m x
      → x.1 ≡ returns a
      → (r : NexusRequest pk) × (try_from pk m ≡ returns r) × Answers r a
  Ends-Answers (unread e f) h = absurd (cc)
  Ends-Answers (crashed f) h = absurd (cc)
  Ends-Answers (served r f v) h = (r, f, Serves-Answers r v h)

  -- An answer belongs to the request that was read from the message: it carries that request's id,
  -- and no error.
  pub process_message-Answers :
      (m : pk.JsonRpc) {a : NexusResponse pk}
      → (process_message pk m client client_tx s).1 ≡ returns a
      → (r : NexusRequest pk) × (try_from pk m ≡ returns r) × Answers r a
  process_message-Answers m h = Ends-Answers (process_message-Ends pk client client_tx s m) h

  -- What a panic comes from.
  pub data Cause (m : pk.JsonRpc) : Type 0 where
    malformed : HasMalformed pk m → Cause m
    no_proposal :
        (r : NexusRequest pk) (p : pk.Unvalidated)
        → try_from pk m ≡ returns r
        → validated pk client p ≡ panics
        → Cause m

  Serves-Cause :
      {m : pk.JsonRpc} (r : NexusRequest pk) {k : Method} {p : Params pk} {x : Reply pk}
      → try_from pk m ≡ returns r
      → s.registry.poisoned ≡ false
      → Serves pk client client_tx s r.id k p x
      → x.1 ≡ panics
      → Cause m
  Serves-Cause r f sound pinged h = absurd (cc)
  Serves-Cause r f sound (enrolled p t e d) h = absurd (cc)
  Serves-Cause r f sound (relayed p t e d) h = absurd (cc)
  Serves-Cause r f sound (proposed p t e d) h = absurd (cc)
  Serves-Cause r f sound (unserved u) h = absurd (cc)
  Serves-Cause r f sound (rejected p e d) h = absurd (cc)
  Serves-Cause r f sound (unavailable p e) h = no_proposal r p f e
  Serves-Cause r f sound (unlockable d) h = absurd (cc)

  Ends-Cause :
      {m : pk.JsonRpc} {x : Reply pk}
      → s.registry.poisoned ≡ false
      → Ends pk client client_tx s m x
      → x.1 ≡ panics
      → Cause m
  Ends-Cause sound (unread e f) h = absurd (cc)
  Ends-Cause {m} sound (crashed f) h = malformed (try_from-HasMalformed pk m f)
  Ends-Cause sound (served r f v) h = Serves-Cause r f sound v h

  -- With the mutex not poisoned, a message that panics has a parameter whose payload its type does
  -- not read, or a proposal whose validation panics.
  pub process_message-Cause :
      (m : pk.JsonRpc)
      → s.registry.poisoned ≡ false
      → (process_message pk m client client_tx s).1 ≡ panics
      → Cause m
  process_message-Cause m sound h =
      Ends-Cause sound (process_message-Ends pk client client_tx s m) h
