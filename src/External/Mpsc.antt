-- ===== src/External/Mpsc.antt =====
-- `tokio::sync::mpsc`, the unbounded channels of strings (src/lib.rs, src/zmq.rs).
use nexus_relay.Prelude.{
  ℕ, suc, String, Bool, ◌≡◌, ◌↔◌, true, false, List, [], ◌∷◌, ◌++◌, ◌&&◌, ◌||◌, not, if◌then◌else◌,
  Eq,
}

-- `Channels` is the state of all channels. A `Sender` stands for the channel that its clones
-- share, and `same` is `same_channel`. `log w s` is what the channel of `s` has accepted so far,
-- and `is_open w s` says that its receiver has not been dropped.
-- What `recv().await` gives of a buffer: the next message with the rest, the end (`None`), or
-- nothing yet.
pub data Recv : Type 0 where
  message : String → List String → Recv
  closed pending : Recv

pub record Mpsc : Type 1 where
  pub Sender : Type 0
  pub Channels : Type 0
  pub same : Sender → Sender → Bool
  pub is_open : Channels → Sender → Bool
  pub log : Channels → Sender → List String
  -- `true` is `Ok(())`, and `false` is `Err(SendError)`.
  pub send : Sender → String → Channels → Bool × Channels
  pub same_iff : (s t : Sender) → (same s t ≡ true) ↔ (s ≡ t)
  -- A send fails exactly when the receiver was dropped.
  pub send-result : (s : Sender) (m : String) (w : Channels) → (send s m w).0 ≡ is_open w s
  -- A send drops no receiver.
  pub is_open-send :
      (s t : Sender) (m : String) (w : Channels) → is_open (send s m w).1 t ≡ is_open w t
  -- A send that succeeds puts the message behind those of its own channel, and changes no other.
  pub log-send :
      (s t : Sender) (m : String) (w : Channels)
      → log (send s m w).1 t ≡ (if is_open w s && same s t then log w t ++ m ∷ [] else log w t)
  -- A new channel has accepted nothing, and its receiver lives; other channels are as before.
  pub unbounded_channel : Channels → Sender × Channels
  pub log-unbounded_channel : (t : Sender) (w : Channels) → log (unbounded_channel w).1 t ≡ log w t
  pub log-new : (w : Channels) → log w (unbounded_channel w).0 ≡ []
  pub is_open-unbounded_channel :
      (t : Sender) (w : Channels)
      → is_open (unbounded_channel w).1 t ≡ (is_open w t || same (unbounded_channel w).0 t)
  -- The channels that have been made: a new one is none of them, and nothing unmakes a channel.
  pub is_made : Channels → Sender → Bool
  pub is_made-new : (w : Channels) → is_made w (unbounded_channel w).0 ≡ false
  pub is_made-unbounded_channel :
      (t : Sender) (w : Channels)
      → is_made (unbounded_channel w).1 t ≡ (is_made w t || same (unbounded_channel w).0 t)
  pub is_made-send :
      (s t : Sender) (m : String) (w : Channels) → is_made (send s m w).1 t ≡ is_made w t
  -- The receiver is dropped: no send to its channel succeeds from then on, and what the channel has
  -- accepted is history.
  pub close : Sender → Channels → Channels
  pub is_open-close :
      (s t : Sender) (w : Channels) → is_open (close s w) t ≡ (is_open w t && not (same s t))
  pub is_made-close : (s t : Sender) (w : Channels) → is_made (close s w) t ≡ is_made w t
  pub log-close : (s t : Sender) (w : Channels) → log (close s w) t ≡ log w t
  -- `recv` on a buffer, with the number of senders that are not yet dropped: it ends only when
  -- the buffer is empty and all senders are dropped.
  pub recv : List String → ℕ → Recv
  pub recv-message : (m : String) (rest : List String) (n : ℕ) → recv (m ∷ rest) n ≡ message m rest
  pub recv-closed : recv [] 0 ≡ closed
  pub recv-pending : (n : ℕ) → recv [] (suc n) ≡ pending

-- The equality of channels.
abbrev pub sender_eq : (ch : Mpsc) → Eq ch.Sender
sender_eq ch = record { beq = ch.same; beq_true = ch.same_iff }
