-- ===== src/Connection/Cleanup.antt =====
-- The end of `handle_connection` of src/lib.rs: what the await of the forward task waits for.
use nexus_relay.Prelude.{
  ℕ, zero, suc, ◌<◌, String, Bool, true, List, [], ◌∷◌, ◌≡◌, ◌≢◌, length, arith, refl, ap, ◌++◌,
  Bool-cases, inl, inr,
}
use nexus_relay.External.Mpsc.{Mpsc}
use nexus_relay.Connection.{ended, waiting, out_of_fuel, forward_task, opened, cleanup, senders}

module _ (ch : Mpsc) (ws_send : String → Bool) where
  -- With fuel above the number of buffered messages the forward task ends or waits and does not run
  -- out of fuel, and the messages that the socket took are the first of the buffer, in order.
  pub forward_task_in_order :
      (buffer : List String) (senders fuel : ℕ)
      → length buffer < fuel
      → let (taken, left) = forward_task ch fuel ws_send buffer senders in
        (left ≢ out_of_fuel) × ((rest : List String) × (buffer ≡ taken ++ rest))
  unfolding forward_task
  forward_task_in_order buffer n zero h = absurd (omega arith)
  forward_task_in_order [] zero (suc fuel) h =
      rw (ch.recv-closed, forward_task) (λ e. cc, ([], refl))
  forward_task_in_order [] (suc n) (suc fuel) h =
      rw (ch.recv-pending n, forward_task) (λ e. cc, ([], refl))
  forward_task_in_order (m ∷ rest) n (suc fuel) h =
      let (calm, (behind, same)) = forward_task_in_order rest n fuel (omega arith) in
      elim (Bool-cases (ws_send m)) [
        | inl takes ↦
            rw (ch.recv-message m rest n, forward_task, takes)
              (calm, (behind, ap (λ l. m ∷ l) same))
        | inr fails ↦ rw (ch.recv-message m rest n, forward_task, fails) (λ e. cc, (m ∷ rest, refl))
      ]

  module _ (takes_all : (m : String) → ws_send m ≡ true) where
    -- With all senders dropped the forward task sends what is buffered, and ends.
    forward_task-ended :
        (buffer : List String) (fuel : ℕ)
        → length buffer < fuel
        → forward_task ch fuel ws_send buffer 0 ≡ (buffer, ended)
    unfolding forward_task
    forward_task-ended buffer zero h = absurd (omega arith)
    forward_task-ended [] (suc fuel) h = ground (arith, ch.recv-closed)
    forward_task-ended (m ∷ rest) (suc fuel) h =
        ground (arith, ch.recv-message m rest 0, takes_all m, forward_task-ended rest fuel)

    forward_task-waiting :
        (buffer : List String) (n fuel : ℕ)
        → length buffer < fuel
        → forward_task ch fuel ws_send buffer (suc n) ≡ (buffer, waiting)
    unfolding forward_task
    forward_task-waiting buffer n zero h = absurd (omega arith)
    forward_task-waiting [] n (suc fuel) h = ground (arith, ch.recv-pending n)
    forward_task-waiting (m ∷ rest) n (suc fuel) h =
        ground
          (arith, ch.recv-message m rest (suc n), takes_all m, forward_task-waiting rest n fuel)

    -- While the socket takes every message, and with fuel above the number of buffered messages,
    -- the forward task sends all of them in order after the cleanup and is then waiting, however
    -- many senders the registry holds.
    pub cleanup-waiting :
        (buffer : List String) (in_registry fuel : ℕ)
        → length buffer < fuel
        → forward_task ch fuel ws_send buffer (senders (cleanup opened) in_registry)
          ≡ (buffer, waiting)
    unfolding senders cleanup opened
    cleanup-waiting buffer n fuel h =
        let one : senders (cleanup opened) n ≡ suc n = omega arith in
        rw one (forward_task-waiting buffer n fuel h)
