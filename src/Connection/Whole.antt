-- ===== src/Connection/Whole.antt =====
-- What the client of a new connection receives, in `handle_connection` of src/lib.rs.
use nexus_relay.Prelude.{true, some, List, [], ◌≡◌, ◌≢◌, refl, sym, ◌∙◌, subst, All, arith}
use nexus_relay.External.Packages.{Packages}
use nexus_relay.Connection.{Next, crashes, Turn, connect, message_loop, handle_connection}
use nexus_relay.Connection.Transcript.{IsHarmless, Transcript, message_loop-Transcript}
use nexus_relay.Node.{Node}
use nexus_relay.Shared.{Shared}
use nexus_relay.Shared.Broadcast.{received, is_alive}

module _ (pk : Packages) (s : Shared pk) where
  -- The channel of a new connection is open, and has received nothing.
  pub connect-received : received pk (connect pk s).0 (connect pk s).1 ≡ []
  connect-received =
      pk.mpsc.log-unbounded_channel (connect pk s).1 s.channels ∙ pk.mpsc.log-new s.channels

  connect-is_alive : is_alive pk (connect pk s).0 (connect pk s).1 ≡ true
  connect-is_alive = ground (
    arith,
    pk.mpsc.is_open-unbounded_channel (connect pk s).1 s.channels,
    pk.mpsc.same_iff (connect pk s).1 (connect pk s).1,
  )

  module _ (turns : List (Turn pk)) (client : Node pk) where
    -- What is left of a connection: its channel, the state, and how its loop ended.
    abbrev Left : Type 0
    Left = pk.Sender × Shared pk × Next

    -- The client has received what a transcript of its frames says, and nothing else.
    abbrev pub OnlyTold : Left → Type 0
    OnlyTold (client_tx, s', next) =
        All (λ (turn : Turn pk). IsHarmless pk client client_tx turn.meanwhile) turns
        → next ≢ crashes
        → Transcript pk client client_tx turns (connect pk s).0 (received pk s' client_tx)

    left : Left
    left =
        let (s', client_tx) = connect pk s in
        let (s'', next) = message_loop pk turns client client_tx s' in (client_tx, s'', next)

    left-OnlyTold : OnlyTold left
    unfolding left
    left-OnlyTold harmless calm =
        let (s', client_tx) = connect pk s in
        let (new, same, told) =
          message_loop-Transcript pk client client_tx turns s' harmless connect-is_alive calm in
        subst (Transcript pk client client_tx turns s') (sym (same ∙ rw connect-received refl)) told

    -- The client of a new connection, if the other tasks neither close its channel nor take back
    -- what it received, and the loop does not crash, has received at its end, frame by frame until
    -- the stream ends or fails, what the other tasks brought before the frame and, for a text, what
    -- the text publishes to the client itself and then one answer to it, and nothing else.
    pub handle_connection-Transcript :
        {client_tx : pk.Sender} {s' : Shared pk} {next : Next}
        → handle_connection pk true turns client s ≡ some (client_tx, s', next)
        → All (λ (turn : Turn pk). IsHarmless pk client client_tx turn.meanwhile) turns
        → next ≢ crashes
        → Transcript pk client client_tx turns (connect pk s).0 (received pk s' client_tx)
    unfolding handle_connection left
    handle_connection-Transcript {client_tx} {s'} {next} e =
        let same : left ≡ (client_tx, s', next) = ground (arith, e) in
        subst OnlyTold same left-OnlyTold
