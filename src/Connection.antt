-- ===== src/Connection.antt =====
-- `handle_connection` of src/lib.rs: one WebSocket client.
pub mod Answers
pub mod Cleanup
pub mod Tasks
pub mod Transcript
pub mod Whole
pub mod Effects
pub mod Kept
pub mod Loop
pub mod Privacy
pub mod Soundness
pub mod Subscription
use nexus_relay.Prelude.{
  ℕ, zero, suc, ◌+◌, String, Bool, true, false, Option, none, some, List, [], ◌∷◌, if◌then◌else◌,
  Outcome, returns, fails, panics, pos, ◌≡◌, ◌≢◌, ◌⊎◌, inl, inr, refl,
}
use nexus_relay.External.Mpsc.{Mpsc, Recv, message, closed, pending}
use nexus_relay.External.Packages.{Packages}
use nexus_relay.Jsonrpc.{NexusResponse, response_to_json_rpc, error_to_json_rpc}
use nexus_relay.Error.{Error, json_rpc}
use nexus_relay.Message.{process_message}
use nexus_relay.Node.{Node}
use nexus_relay.Shared.{Shared}

-- What the socket yields: a text, another kind of message, or an error.
pub data Frame : Type 0 where
  text : String → Frame
  other failure : Frame

-- How the loop goes on after a frame, and how it ends: by `break` or the end of the stream, or by
-- a panic.
pub data Next : Type 0 where
  continues breaks crashes : Next

pub Next-cases : (n : Next) → (n ≡ crashes) ⊎ (n ≢ crashes)
Next-cases crashes = inl refl
Next-cases continues = inr (λ e. cc)
Next-cases breaks = inr (λ e. cc)

module _ (pk : Packages) where
  open pk use {JsonRpc, Sender, Channels, send, to_string, parse_error}

  -- A frame, and what other tasks have done to the shared state before it comes.
  pub record Turn : Type 0 where
    pub meanwhile : Shared pk → Shared pk
    pub frame : Frame

  -- `mpsc::unbounded_channel()`
  abbrev pub connect : Shared pk → Shared pk × Sender
  connect s =
      let (client_tx, w) = pk.unbounded_channel s.channels in (record s { channels = w }, client_tx)

  -- The receiver of a client's channel is dropped with the forward task.
  abbrev pub drop_receiver : Sender → Shared pk → Shared pk
  drop_receiver client_tx s = record s { channels = pk.close client_tx s.channels }

  -- `client_tx_clone.send(..)`; an error breaks the loop.
  unfoldable pub send_to_client : String → Sender → Shared pk → Shared pk × Next
  send_to_client response client_tx s =
      let (sent, w) = send client_tx response s.channels in
      (record s { channels = w }, if sent then continues else breaks)

  pub parse_error_response : JsonRpc
  parse_error_response = pk.error (pos 0) parse_error

  -- The answer to what `process_message` returns.
  pub response_of : Outcome (Error pk) (NexusResponse pk) → Outcome (Error pk) JsonRpc
  unfolding parse_error_response
  response_of (returns response) = response_to_json_rpc pk response
  response_of (fails (json_rpc e)) = returns (error_to_json_rpc pk e)
  response_of (fails _) = returns parse_error_response
  response_of panics = panics

  unfoldable pub handle_text : String → Node pk → Sender → Shared pk → Shared pk × Next
  unfolding send_to_client response_of
  handle_text t client client_tx s = elim (pk.parse t) [
    | none ↦ send_to_client (to_string parse_error_response) client_tx s
    | some raw_message ↦
        let (s', o) = process_message pk raw_message (some client) client_tx s in
        elim (response_of o) [
          | returns response ↦ send_to_client (to_string response) client_tx s'
          | fails e ↦ (s', crashes)
          | panics ↦ (s', crashes)
        ]
  ]

  unfoldable pub handle_frame : Frame → Node pk → Sender → Shared pk → Shared pk × Next
  unfolding handle_text
  handle_frame (text t) client client_tx s = handle_text t client client_tx s
  handle_frame other client client_tx s = (s, continues)
  handle_frame failure client client_tx s = (s, breaks)

  -- `while let Some(result) = ws_rx.next().await`
  unfoldable pub message_loop : List Turn → Node pk → Sender → Shared pk → Shared pk × Next
  unfolding handle_frame
  message_loop [] client client_tx s = (s, breaks)
  message_loop (turn ∷ rest) client client_tx s =
      let (s', next) = handle_frame turn.frame client client_tx (turn.meanwhile s) in
      elim next [
        | continues ↦ message_loop rest client client_tx s'
        | breaks ↦ (s', breaks)
        | crashes ↦ (s', crashes)
      ]

  -- The whole of `handle_connection` but its tasks' waiting: `handshake` says whether `accept_async`
  -- succeeds. `none` is its error; else the client's channel, the state after the loop, and how the
  -- loop ended.
  unfoldable pub handle_connection :
      Bool → List Turn → Node pk → Shared pk → Option (Sender × Shared pk × Next)
  unfolding message_loop
  handle_connection handshake turns client s =
      if handshake
      then (let (s', client_tx) = connect s in
          let (s'', next) = message_loop turns client client_tx s' in some (client_tx, s'', next))
      else none

-- How the forward task is left: ended, or waiting for a message; `out_of_fuel` is of the model.
pub data Forward : Type 0 where
  ended waiting out_of_fuel : Forward

module _ (ch : Mpsc) where
  -- `while let Some(msg) = client_rx.recv().await`: `ws_send` says whether the socket takes a
  -- message. The messages that it took, and how the task is left.
  pub forward_task : ℕ → (String → Bool) → List String → ℕ → List String × Forward
  forward_task zero ws_send buffer senders = ([], out_of_fuel)
  forward_task (suc fuel) ws_send buffer senders = elim (ch.recv buffer senders) [
    | message msg rest ↦
        let (taken, left) = forward_task fuel ws_send rest senders in
        if ws_send msg then (msg ∷ taken, left) else ([], ended)
    | closed ↦ ([], ended)
    | pending ↦ ([], waiting)
  ]

-- The senders of the client's channel that are in scope in `handle_connection`.
pub record Handles : Type 0 where
  pub client_tx : Bool
  pub client_tx_clone : Bool

abbrev pub held : Bool → ℕ
held true = 1
held false = 0

-- Both from the start; `drop(client_tx_clone)` drops one, and the other lives to the end of the
-- function.
unfoldable pub opened : Handles
opened = record { client_tx = true; client_tx_clone = true }

pub cleanup : Handles → Handles
cleanup h = record h { client_tx_clone = false }

-- All senders of the channel: those in scope, and the clones in the registry.
unfoldable pub senders : Handles → ℕ → ℕ
senders h in_registry = held h.client_tx + held h.client_tx_clone + in_registry
