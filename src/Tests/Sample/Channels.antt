-- ===== src/Tests/Sample/Channels.antt =====
-- Channels as functions from their number, for runs of the model.
use nexus_relay.Prelude.{
  ℕ, zero, suc, String, Bool, true, false, ◌&&◌, ◌||◌, not, ltb, List, [], ◌∷◌, ◌++◌, ◌≡◌, ◌↔◌,
  refl, if◌then◌else◌, nat_beq, arith,
}
use nexus_relay.External.Mpsc.{Mpsc, Recv, message, closed, pending}

pub record Channels : Type 0 where
  pub opened : ℕ → Bool
  pub accepted : ℕ → List String
  pub count : ℕ

-- What has no number yet is not open and has accepted nothing.
abbrev pub is_open : Channels → ℕ → Bool
is_open w s = ltb s w.count && w.opened s

abbrev pub log : Channels → ℕ → List String
log w s = if ltb s w.count then w.accepted s else []

-- A send to an open channel puts the message last in its own log.
abbrev pub sent : ℕ → String → Channels → Bool × Channels
sent s m w =
    if is_open w s
    then (
      true,
      record w { accepted = λ t. if nat_beq s t then w.accepted t ++ m ∷ [] else w.accepted t },
    )
    else (false, w)

abbrev pub received_of : List String → ℕ → Recv
received_of (m ∷ rest) n = message m rest
received_of [] zero = closed
received_of [] (suc n) = pending

pub nat_beq_iff : (a b : ℕ) → (nat_beq a b ≡ true) ↔ (a ≡ b)
nat_beq_iff a b = ground arith

pub sent-result : (s : ℕ) (m : String) (w : Channels) → (sent s m w).0 ≡ is_open w s
sent-result s m w = ground arith

pub opened-sent : (s t : ℕ) (m : String) (w : Channels) → is_open (sent s m w).1 t ≡ is_open w t
opened-sent s t m w = ground arith

pub accepted-sent :
    (s t : ℕ) (m : String) (w : Channels)
    → log (sent s m w).1 t ≡ (if is_open w s && nat_beq s t then log w t ++ m ∷ [] else log w t)
accepted-sent s t m w = ground arith

abbrev pub shut : ℕ → Channels → Channels
shut s w = record w { opened = λ t. w.opened t && not (nat_beq s t) }

pub opened-shut :
    (s t : ℕ) (w : Channels) → is_open (shut s w) t ≡ (is_open w t && not (nat_beq s t))
opened-shut s t w = ground arith

abbrev pub made : Channels → ℕ × Channels
made w = (
  w.count,
  record {
    opened = λ t. w.opened t || nat_beq w.count t;
    accepted = λ t. if ltb t w.count then w.accepted t else [];
    count = suc w.count;
  },
)

pub accepted-made : (t : ℕ) (w : Channels) → log (made w).1 t ≡ log w t
accepted-made t w = ground arith

pub accepted_made : (w : Channels) → log w (made w).0 ≡ []
accepted_made w = ground arith

pub opened-made :
    (t : ℕ) (w : Channels) → is_open (made w).1 t ≡ (is_open w t || nat_beq (made w).0 t)
opened-made t w = ground arith

abbrev pub is_made : Channels → ℕ → Bool
is_made w s = ltb s w.count

pub is_made_made : (w : Channels) → is_made w (made w).0 ≡ false
is_made_made w = ground arith

pub is_made-made :
    (t : ℕ) (w : Channels) → is_made (made w).1 t ≡ (is_made w t || nat_beq (made w).0 t)
is_made-made t w = ground arith

pub is_made-sent : (s t : ℕ) (m : String) (w : Channels) → is_made (sent s m w).1 t ≡ is_made w t
is_made-sent s t m w = ground arith

abbrev pub sample_mpsc : Mpsc
sample_mpsc = record {
  Sender = ℕ;
  Channels = Channels;
  same = nat_beq;
  is_open = is_open;
  log = log;
  send = sent;
  same_iff = nat_beq_iff;
  send-result = sent-result;
  is_open-send = opened-sent;
  log-send = accepted-sent;
  unbounded_channel = made;
  log-unbounded_channel = accepted-made;
  log-new = accepted_made;
  is_open-unbounded_channel = opened-made;
  is_made = is_made;
  is_made-new = is_made_made;
  is_made-unbounded_channel = is_made-made;
  is_made-send = is_made-sent;
  is_made-close = λ s t w. refl;
  close = shut;
  is_open-close = opened-shut;
  log-close = λ s t w. refl;
  recv = received_of;
  recv-message = λ m rest n. refl;
  recv-closed = refl;
  recv-pending = λ n. refl;
}
