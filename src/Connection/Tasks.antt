-- ===== src/Connection/Tasks.antt =====
-- The two tasks of `handle_connection` of src/lib.rs: the one that reads the socket, and the forward
-- task, which writes to it, in any order of their turns and of other tasks'.
pub mod Drain
pub mod Order
use nexus_relay.Prelude.{ℕ, ◌+◌, String, Bool, true, false, List, [], ◌∷◌, ◌++◌, ◌≡◌, length, drop}
use nexus_relay.External.Mpsc.{message, closed}
use nexus_relay.External.Packages.{Packages}
use nexus_relay.Connection.{
  Frame, Next, continues, breaks, crashes, handle_frame, Handles, opened, cleanup, senders, connect,
  drop_receiver,
}
use nexus_relay.Node.{Node}
use nexus_relay.Registry.{TopicRegistry}
use nexus_relay.Registry.Delivery.{times}
use nexus_relay.Shared.{Shared}
use nexus_relay.Shared.Broadcast.{received, Grows}
use nexus_relay.Std.HashMap.{HashMap}
use nexus_relay.Topic.{Topic}

-- The reading task is in the loop, at the await of the forward task behind the cleanup, past its end,
-- or it has panicked.
pub data Reader : Type 0 where
  reading cleaning finished panicked : Reader

-- The forward task is in its loop, or has left it and dropped the receiver.
pub data ForwardTask : Type 0 where
  running stopped : ForwardTask

-- The senders in scope. A panic drops both.
abbrev pub handles : Reader → Handles
handles reading = opened
handles cleaning = cleanup opened
handles _ = record { client_tx = false; client_tx_clone = false }

-- Where the reading task goes after a frame.
abbrev pub after : Next → Reader
after continues = reading
after breaks = cleaning
after crashes = panicked

module _ (pk : Packages) where
  abbrev entry_clones : HashMap Topic (List pk.Sender) → pk.Sender → ℕ
  entry_clones [] t = 0
  entry_clones ((topic, ss) ∷ rest) t = times pk.mpsc ss t + entry_clones rest t

  -- The clones of a sender that the registry holds.
  abbrev pub clones : TopicRegistry pk.mpsc → pk.Sender → ℕ
  clones r t = entry_clones r.topics t

  -- `sent` is what the socket has taken so far, and `send_failed` says that it has refused a message.
  pub record Tasks : Type 0 where
    pub shared : Shared pk
    pub reader : Reader
    pub forward : ForwardTask
    pub sent : List String
    pub send_failed : Bool

  module _ (client_tx : pk.Sender) where
    -- What the channel has accepted and the forward task has not received.
    abbrev pub buffer : Tasks → List String
    buffer c = drop (length c.sent) (received pk c.shared client_tx)

    abbrev pub all_senders : Tasks → ℕ
    all_senders c = senders (handles c.reader) (clones c.shared.registry.inner client_tx)

    pub data TaskStep (c : Tasks) : Tasks → Type 0 where
      -- A frame comes.
      reads :
          (frame : Frame) (client : Node pk)
          → c.reader ≡ reading
          → TaskStep c (record c {
            shared = (handle_frame pk frame client client_tx c.shared).0;
            reader = after (handle_frame pk frame client client_tx c.shared).1;
          })
      -- The stream of frames ends.
      closes : c.reader ≡ reading → TaskStep c (record c { reader = cleaning })
      -- The forward task receives a message, and the socket takes it.
      sends :
          (m : String) (rest : List String)
          → c.forward ≡ running
          → pk.recv (buffer c) (all_senders c) ≡ message m rest
          → TaskStep c (record c { sent = c.sent ++ m ∷ [] })
      -- The socket refuses it.
      refuses :
          (m : String) (rest : List String)
          → c.forward ≡ running
          → pk.recv (buffer c) (all_senders c) ≡ message m rest
          → TaskStep c (record c {
            shared = drop_receiver pk client_tx c.shared;
            forward = stopped;
            send_failed = true;
          })
      -- The channel is empty and has no sender.
      ends :
          c.forward ≡ running
          → pk.recv (buffer c) (all_senders c) ≡ closed
          → TaskStep c
              (record c { shared = drop_receiver pk client_tx c.shared; forward = stopped })
      -- The await is over when the forward task is.
      finishes :
          c.reader ≡ cleaning → c.forward ≡ stopped → TaskStep c (record c { reader = finished })
      -- Other tasks take their turns; none takes back what the channel has accepted.
      meanwhile :
          (s : Shared pk) → Grows pk client_tx c.shared s → TaskStep c (record c { shared = s })

    -- What a connection comes to. Its channel is new.
    pub data Comes : Tasks → Type 0 where
      accepted :
          (s : Shared pk)
          → (connect pk s).1 ≡ client_tx
          → Comes (record {
            shared = (connect pk s).0;
            reader = reading;
            forward = running;
            sent = [];
            send_failed = false;
          })
      later : {c c' : Tasks} → Comes c → TaskStep c c' → Comes c'
