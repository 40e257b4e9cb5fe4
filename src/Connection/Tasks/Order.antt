-- ===== src/Connection/Tasks/Order.antt =====
-- The states that the tasks of `handle_connection` of src/lib.rs come to.
use nexus_relay.Prelude.{
  ℕ, zero, suc, String, true, List, [], ◌∷◌, ◌++◌, ◌≡◌, ◌≢◌, refl, sym, ◌∙◌, ap, ◌⊎◌, inl, inr,
  length, drop, arith, list_laws, Begins, Begins-trans,
}
use nexus_relay.External.Mpsc.{Mpsc, message, closed}
use nexus_relay.External.Packages.{Packages}
use nexus_relay.Connection.{
  continues, breaks, crashes, Next, handle_frame, senders, opened, cleanup,
}
use nexus_relay.Connection.Kept.{handle_frame-Grows}
use nexus_relay.Connection.Tasks.{
  Reader, reading, cleaning, finished, panicked, stopped, handles, after, Tasks, buffer,
  all_senders, TaskStep, reads, closes, sends, refuses, ends, finishes, meanwhile, Comes, accepted,
  later,
}
use nexus_relay.Shared.Broadcast.{received}

-- What a receiver gets is what stands first.
recv_message :
    (ch : Mpsc) (b : List String) (n : ℕ) {m : String} {rest : List String}
    → ch.recv b n ≡ message m rest
    → b ≡ m ∷ rest
recv_message ch [] zero h = ground (arith, ch.recv-closed)
recv_message ch [] (suc n) h = ground (arith, ch.recv-pending n)
recv_message ch (x ∷ xs) n h = ground (arith, ch.recv-message x xs n)

-- The end comes only when all senders are dropped.
recv_closed : (ch : Mpsc) (b : List String) (n : ℕ) → ch.recv b n ≡ closed → n ≡ 0
recv_closed ch b zero h = refl
recv_closed ch [] (suc n) h = ground (arith, ch.recv-pending n)
recv_closed ch (x ∷ xs) (suc n) h = ground (arith, ch.recv-message x xs (suc n))

drop_append {ℓ} : {A : Type ℓ} (xs ys : List A) → drop (length xs) (xs ++ ys) ≡ ys
drop_append [] ys = refl
drop_append (x ∷ xs) ys = drop_append xs ys

module _ (pk : Packages) (client_tx : pk.Sender) where
  -- What the socket took is the beginning of what the channel has accepted; the forward task has
  -- stopped only because the socket refused a message, or after a panic; and the reading task is
  -- past its end only if the socket refused a message.
  pub record IsOrdered (c : Tasks pk) : Type 0 where
    pub in_order : Begins c.sent (received pk c.shared client_tx)
    pub stopped_by : c.forward ≡ stopped → (c.send_failed ≡ true) ⊎ (c.reader ≡ panicked)
    pub finished_by : c.reader ≡ finished → c.send_failed ≡ true

  -- The task holds a sender as long as it is neither past its end nor has panicked.
  all_senders_zero :
      (r : Reader) (n : ℕ) → senders (handles r) n ≡ 0 → (r ≡ finished) ⊎ (r ≡ panicked)
  unfolding senders opened cleanup
  all_senders_zero reading n h = absurd (omega arith)
  all_senders_zero cleaning n h = absurd (omega arith)
  all_senders_zero finished n h = inl refl
  all_senders_zero panicked n h = inr refl

  pub buffer_lem :
      (c : Tasks pk) {rest : List String}
      → received pk c.shared client_tx ≡ c.sent ++ rest
      → buffer pk client_tx c ≡ rest
  buffer_lem c {rest} e = rw e (drop_append c.sent rest)

  after-ne-finished : (next : Next) → after next ≢ finished
  after-ne-finished continues h = cc
  after-ne-finished breaks h = cc
  after-ne-finished crashes h = cc

  module _ (c : Tasks pk) (v : IsOrdered c) where
    send_has_failed : c.reader ≢ panicked → c.forward ≡ stopped → c.send_failed ≡ true
    send_has_failed alive h = elim (v.stopped_by h) [
      | inl failed ↦ failed
      | inr p ↦ absurd (alive p)
    ]

    sends_in_order :
        {m : String} {rest : List String}
        → pk.recv (buffer pk client_tx c) (all_senders pk client_tx c) ≡ message m rest
        → Begins (c.sent ++ m ∷ []) (received pk c.shared client_tx)
    sends_in_order {m} {rest} h =
        let (behind, e) = v.in_order in
        let first : behind ≡ m ∷ rest =
          sym (buffer_lem c e) ∙ recv_message pk.mpsc (buffer pk client_tx c) _ h in
        (rest, e ∙ simp (first, list_laws))

    closed_by :
        pk.recv (buffer pk client_tx c) (all_senders pk client_tx c) ≡ closed
        → (c.send_failed ≡ true) ⊎ (c.reader ≡ panicked)
    closed_by h =
        elim (all_senders_zero c.reader _ (recv_closed pk.mpsc (buffer pk client_tx c) _ h)) [
          | inl f ↦ inl (v.finished_by f)
          | inr p ↦ inr p
        ]

  TaskStep-IsOrdered : {c c' : Tasks pk} → TaskStep pk client_tx c c' → IsOrdered c → IsOrdered c'
  TaskStep-IsOrdered {c} (reads frame client e) v =
      let next = (handle_frame pk frame client client_tx c.shared).1 in
      record {
        in_order =
            Begins-trans _ v.in_order
              (handle_frame-Grows pk client_tx client_tx c.shared frame client);
        stopped_by = λ h. inl (send_has_failed c v (λ p. cc) h);
        finished_by = λ h. absurd (after-ne-finished next h);
      }
  TaskStep-IsOrdered {c} (closes e) v = record {
    in_order = v.in_order;
    stopped_by = λ h. inl (send_has_failed c v (λ p. cc) h);
    finished_by = λ h. absurd (cc);
  }
  TaskStep-IsOrdered {c} (sends m rest r h) v = record {
    in_order = sends_in_order c v h;
    stopped_by = v.stopped_by;
    finished_by = v.finished_by;
  }
  TaskStep-IsOrdered {c} (refuses m rest r h) v = record {
    in_order =
        (v.in_order.0, pk.mpsc.log-close client_tx client_tx c.shared.channels ∙ v.in_order.1);
    stopped_by = λ e. inl refl;
    finished_by = λ e. refl;
  }
  TaskStep-IsOrdered {c} (ends r h) v = record {
    in_order =
        (v.in_order.0, pk.mpsc.log-close client_tx client_tx c.shared.channels ∙ v.in_order.1);
    stopped_by = λ e. closed_by c v h;
    finished_by = v.finished_by;
  }
  TaskStep-IsOrdered {c} (finishes e f) v = record {
    in_order = v.in_order;
    stopped_by = λ h. inl (send_has_failed c v (λ p. cc) h);
    finished_by = λ h. send_has_failed c v (λ p. cc) f;
  }
  TaskStep-IsOrdered {c} (meanwhile s grows) v = record {
    in_order = Begins-trans _ v.in_order grows;
    stopped_by = v.stopped_by;
    finished_by = v.finished_by;
  }

  -- In whatever order the tasks of a connection and all others take their turns, what the socket
  -- has taken is the beginning, in order, of what the client's channel has accepted; the forward
  -- task is over only if the socket refused a message or the reading task panicked; and the reading
  -- task comes past its clean-up only if the socket refused a message.
  pub Comes-IsOrdered : (c : Tasks pk) → Comes pk client_tx c → IsOrdered c
  Comes-IsOrdered _ (accepted s e) = record {
    in_order = (
      [],
      pk.mpsc.log-unbounded_channel client_tx s.channels
          ∙ ap (pk.log s.channels) (sym e)
          ∙ pk.mpsc.log-new s.channels,
    );
    stopped_by = λ h. absurd (cc);
    finished_by = λ h. absurd (cc);
  }
  Comes-IsOrdered _ (later {c} run step) = TaskStep-IsOrdered step (Comes-IsOrdered c run)
