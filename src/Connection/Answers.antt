-- ===== src/Connection/Answers.antt =====
-- What a client gets back for a text: `handle_connection` of src/lib.rs.
use nexus_relay.Prelude.{
  String, true, none, some, List, [], ◌∷◌, ◌++◌, ◌≡◌, ◌≢◌, ◌∙◌, Outcome, ok, returns, fails, panics,
  pos, arith, Option-cases, Outcome-cases, inl, inr, append-nil,
}
use nexus_relay.External.Packages.{Packages}
use nexus_relay.Jsonrpc.{
  Error as JsonrpcError, NexusRequest, NexusResponse, response_to_json_rpc, error_to_rpc_error,
  error_to_json_rpc,
}
use nexus_relay.Jsonrpc.Parse.{try_from}
use nexus_relay.Error.{Error, json_rpc, json_rpc_lite, elements, liquidex}
use nexus_relay.Node.{Node}
use nexus_relay.Shared.{Shared}
use nexus_relay.Shared.Broadcast.{received, is_alive}
use nexus_relay.Message.{process_message}
use nexus_relay.Message.Safety.{process_message-Answers}
use nexus_relay.Message.Delivery.{Brings, process_message-Received}
use nexus_relay.Message.Effects.{process_message-Effect}
use nexus_relay.Message.Kept.{Effect-is_alive}
use nexus_relay.Connection.{
  Next, continues, crashes, send_to_client, parse_error_response, response_of, handle_text,
}

module _ (pk : Packages) (client : Node pk) (client_tx : pk.Sender) where
  abbrev outcome : pk.JsonRpc → Shared pk → Outcome (Error pk) (NexusResponse pk)
  outcome m s = (process_message pk m (some client) client_tx s).1

  -- The answer to a text: an error with id 0 if it is no JSON-RPC or its message fails, and if its
  -- message is served the value of what is returned, as a result with the id of the request.
  pub data Response (t : String) (s : Shared pk) : pk.JsonRpc → Type 0 where
    no_json_rpc : pk.parse t ≡ none → Response t s (pk.error (pos 0) pk.parse_error)
    failed :
        (m : pk.JsonRpc) (e : JsonrpcError pk)
        → pk.parse t ≡ some m
        → outcome m s ≡ fails (json_rpc e)
        → Response t s (pk.error (pos 0) (error_to_rpc_error pk e))
    failed_elsewhere :
        (m : pk.JsonRpc) (e : Error pk)
        → pk.parse t ≡ some m
        → outcome m s ≡ fails e
        → ((x : JsonrpcError pk) → e ≢ json_rpc x)
        → Response t s (pk.error (pos 0) pk.parse_error)
    answered :
        (m : pk.JsonRpc) (r : NexusRequest pk) (a : NexusResponse pk) (value : pk.Value)
        → pk.parse t ≡ some m
        → try_from pk m ≡ returns r
        → outcome m s ≡ returns a
        → a.val ≡ ok value
        → Response t s (pk.success (pos r.id) value)

  send_to_client_alive :
      (response : String) (s : Shared pk)
      → is_alive pk s client_tx ≡ true
      → (received pk (send_to_client pk response client_tx s).0 client_tx
          ≡ received pk s client_tx ++ response ∷ [])
        × ((send_to_client pk response client_tx s).1 ≡ continues)
        × (is_alive pk (send_to_client pk response client_tx s).0 client_tx ≡ true)
  unfolding send_to_client
  send_to_client_alive response s alive = ground (
    arith,
    pk.mpsc.send-result client_tx response s.channels,
    pk.mpsc.log-send client_tx client_tx response s.channels,
    pk.mpsc.same_iff client_tx client_tx,
    pk.mpsc.is_open-send client_tx client_tx response s.channels,
  )

  -- What `response_of` makes of the end of a message.
  Responds : String → Shared pk → Outcome (Error pk) (NexusResponse pk) → Type 0
  Responds t s o = (j : pk.JsonRpc) × (response_of pk o ≡ returns j) × Response t s j

  response_of-Response :
      (t : String) (m : pk.JsonRpc) (s : Shared pk)
      → pk.parse t ≡ some m
      → outcome m s ≢ panics
      → Responds t s (outcome m s)
  unfolding response_of response_to_json_rpc error_to_json_rpc parse_error_response Responds
  response_of-Response t m s parsed calm = elim (Outcome-cases (outcome m s)) [
    | inl (a, e) ↦
        let (r, read, answer) = process_message-Answers pk (some client) client_tx s m e in
        (
          pk.success (pos r.id) answer.value,
          ground (arith, answer.same_id, answer.is_ok),
          answered m r a answer.value parsed read e answer.is_ok,
        )
    | inr (inl (json_rpc x, e)) ↦ (_, rw e, failed m x parsed e)
    | inr (inl (json_rpc_lite x, e)) ↦ (_, rw e, failed_elsewhere m _ parsed e (λ y f. cc))
    | inr (inl (elements x, e)) ↦ (_, rw e, failed_elsewhere m _ parsed e (λ y f. cc))
    | inr (inl (liquidex x, e)) ↦ (_, rw e, failed_elsewhere m _ parsed e (λ y f. cc))
    | inr (inr e) ↦ absurd (calm e)
  ]

  -- What comes before the response: what the text's message publishes to the client itself.
  pub data Others (t : String) (s : Shared pk) : List String → Type 0 where
    none_else : pk.parse t ≡ none → Others t s []
    own_message :
        {new : List String} (m : pk.JsonRpc)
        → pk.parse t ≡ some m
        → Brings pk (some client) client_tx s m client_tx new
        → Others t s new

  -- The response stands last in what the client has received, its channel stays open, and the loop
  -- goes on.
  pub record Answered (t : String) (s : Shared pk) (x : Shared pk × Next) : Type 0 where
    pub response : pk.JsonRpc
    pub before : List String
    pub others : Others t s before
    pub last :
        received pk x.0 client_tx ≡ received pk s client_tx ++ before ++ pk.to_string response ∷ []
    pub right : Response t s response
    pub goes_on : x.1 ≡ continues
    pub still_alive : is_alive pk x.0 client_tx ≡ true

  parsed-Answered :
      (t : String) (m : pk.JsonRpc) (s : Shared pk)
      → pk.parse t ≡ some m
      → is_alive pk s client_tx ≡ true
      → outcome m s ≢ panics
      → Answered t s (handle_text pk t client client_tx s)
  unfolding handle_text Responds
  parsed-Answered t m s parsed alive calm =
      let (j, e, right) = response_of-Response t m s parsed calm in
      let (new, same, brings) =
        process_message-Received pk (some client) client_tx s m client_tx alive in
      let s' = (process_message pk m (some client) client_tx s).0 in
      let (sent, goes_on, still_alive) = send_to_client_alive (pk.to_string j) s' (
        Effect-is_alive pk client_tx s client_tx
          (process_message-Effect pk (some client) client_tx s m)
        ∙ alive) in
      let step : handle_text pk t client client_tx s
          ≡ send_to_client pk (pk.to_string j) client_tx s' =
        ground arith in
      rw step (record {
        response = j;
        before = new;
        others = own_message m parsed brings;
        last = sent ∙ rw same;
        right = right;
        goes_on = goes_on;
        still_alive = still_alive;
      })

  -- A text from a client whose channel lives is answered, once and last, unless its handling
  -- panics, with an error of id 0 if it is no JSON-RPC or its message fails, and otherwise with the
  -- value that its message returns as a result of the request's id; before the answer comes only
  -- what its message publishes to the client itself, and the loop goes on.
  pub handle_text-Answered :
      (t : String) (s : Shared pk)
      → is_alive pk s client_tx ≡ true
      → (handle_text pk t client client_tx s).1 ≢ crashes
      → Answered t s (handle_text pk t client client_tx s)
  unfolding handle_text parse_error_response
  handle_text-Answered t s alive calm = elim (Option-cases (pk.parse t)) [
    | inl e ↦
        let (sent, goes_on, still_alive) =
          send_to_client_alive (pk.to_string (parse_error_response pk)) s alive in
        let step : handle_text pk t client client_tx s
            ≡ send_to_client pk (pk.to_string (parse_error_response pk)) client_tx s =
          ground arith in
        rw step (record {
          response = parse_error_response pk;
          before = [];
          others = none_else e;
          last = sent ∙ rw append-nil;
          right = no_json_rpc e;
          goes_on = goes_on;
          still_alive = still_alive;
        })
    | inr (m, e) ↦ parsed-Answered t m s e alive (λ p. calm (ground arith))
  ]
