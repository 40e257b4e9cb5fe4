-- ===== src/Tests/Connection.antt =====
-- A connection of src/lib.rs with small texts.
use nexus_relay.Prelude.{String, ◌++◌}
use nexus_relay.Prelude.{List, [], ◌∷◌}
use nexus_relay.Prelude.{true, [], ◌∷◌, ◌≡◌, ◌≢◌, refl, arith}
use nexus_relay.Connection.{
  crashes, send_to_client, handle_text, waiting, out_of_fuel, forward_task, opened, cleanup,
  senders,
}
use nexus_relay.Connection.Answers.{Answered, handle_text-Answered}
use nexus_relay.Connection.Cleanup.{cleanup-waiting, forward_task_in_order}
use nexus_relay.Prelude.{sym, append-nil, ◌↔◌, false}
use nexus_relay.Shared.Broadcast.{is_alive}
use nexus_relay.Connection.{continues, connect}
use nexus_relay.Connection.Loop.{handle_text-continues_iff}
use nexus_relay.Connection.Tasks.{
  Tasks, reading, running, after, Comes, accepted, later, reads, sends,
}
use nexus_relay.Connection.Tasks.Drain.{Drained, Comes-Drained}
use nexus_relay.Connection.Tasks.Order.{IsOrdered, Comes-IsOrdered}
use nexus_relay.Connection.{text, other, failure, Turn, handle_frame, message_loop}
use nexus_relay.Connection.Transcript.{IsHarmless, Transcript}
use nexus_relay.Connection.Whole.{handle_connection-Transcript}
use nexus_relay.Shared.{Shared}
use nexus_relay.Shared.Broadcast.{received}
use nexus_relay.Connection.{handle_connection, Next}
use nexus_relay.Tests.Sample.{sample}
use nexus_relay.Tests.Sample.Channels.{sample_mpsc}
use nexus_relay.Tests.Sample.State.{shared, node}

no_crash : (handle_text sample "no json" node 2 shared).1 ≢ crashes
unfolding handle_text send_to_client
no_crash = λ h. cc

handle_text-Answered_example :
    Answered sample node 2 "no json" shared (handle_text sample "no json" node 2 shared)
handle_text-Answered_example = handle_text-Answered sample node 2 "no json" shared refl no_crash

cleanup-waiting_example :
    forward_task sample_mpsc 2 (λ text. true) ("last" ∷ []) (senders (cleanup opened) 4)
    ≡ ("last" ∷ [], waiting)
cleanup-waiting_example =
    cleanup-waiting sample_mpsc (λ text. true) (λ text. refl) ("last" ∷ []) 4 2 (omega arith)

forward_task_in_order_example :
    let (taken, left) = forward_task sample_mpsc 2 (λ text. true) ("last" ∷ []) 0 in
    (left ≢ out_of_fuel) × ((rest : List String) × ("last" ∷ [] ≡ taken ++ rest))
forward_task_in_order_example =
    forward_task_in_order sample_mpsc (λ text. true) ("last" ∷ []) 0 2 (omega arith)

-- A client that sends a text which is no JSON-RPC, and closes.
abbrev turns : List (Turn sample)
turns =
    record { meanwhile = λ s. s; frame = text "no json" }
    ∷ record { meanwhile = λ s. s; frame = other }
    ∷ record { meanwhile = λ s. s; frame = failure }
    ∷ []

idle-IsHarmless : IsHarmless sample node 4 (λ s. s)
idle-IsHarmless = record { alive = λ s. refl; grows = λ s. ([], sym (append-nil _)) }

abbrev end : Shared sample × Next
end = message_loop sample turns node 4 (connect sample shared).0

end_calm : end.1 ≢ crashes
unfolding message_loop handle_frame handle_text send_to_client
end_calm = λ h. cc

handle_connection-Transcript_example :
    Transcript sample node 4 turns (connect sample shared).0 (received sample end.0 4)
unfolding handle_connection
handle_connection-Transcript_example =
    handle_connection-Transcript sample shared turns node {next = end.1} refl
      (idle-IsHarmless, (idle-IsHarmless, (idle-IsHarmless, tt))) end_calm

handle_text-continues_iff_example :
    ((handle_text sample "no json" node 2 shared).1 ≡ continues) ↔ (is_alive sample shared 2 ≡ true)
handle_text-continues_iff_example =
    handle_text-continues_iff sample 2 "no json" node shared no_crash

abbrev parse_error_text : String
parse_error_text =
    "{\"jsonrpc\":\"2.0\",\"error\":{\"code\":-32700,\"message\":\"Parse error\"},\"id\":0}"

-- A new connection: its client sends a text that is no JSON-RPC, and the socket takes the answer.
abbrev begun : Tasks sample
begun = record {
  shared = (connect sample shared).0;
  reader = reading;
  forward = running;
  sent = [];
  send_failed = false;
}

abbrev read : Tasks sample
read = record begun {
  shared = (handle_frame sample (text "no json") node 4 begun.shared).0;
  reader = after (handle_frame sample (text "no json") node 4 begun.shared).1;
}

abbrev told : Tasks sample
told = record read { sent = parse_error_text ∷ [] }

told-Comes : Comes sample 4 told
unfolding handle_frame handle_text send_to_client senders opened
told-Comes =
    later (later (accepted shared refl) (reads (text "no json") node refl))
      (sends parse_error_text [] refl refl)

Comes-IsOrdered_example : IsOrdered sample 4 told
Comes-IsOrdered_example = Comes-IsOrdered sample 4 told told-Comes

Comes-Drained_example : (d : Drained sample 4 told) × Comes sample 4 d.last
Comes-Drained_example = Comes-Drained sample 4 told told-Comes refl
