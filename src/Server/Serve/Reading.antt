-- ===== src/Server/Serve/Reading.antt =====
-- The channels of the connections that read, in the running server of src/lib.rs.
use nexus_relay.Prelude.{
  true, false, List, [], ◌∷◌, ◌≡◌, inl, inr, contains, IsNodup, Bool-cases, arith,
}
use nexus_relay.External.Mpsc.{sender_eq}
use nexus_relay.External.Packages.{Packages}
use nexus_relay.Connection.{Next, continues, breaks, crashes, connect}
use nexus_relay.Server.{Config, Step}
use nexus_relay.Server.Channels.{Step-made}
use nexus_relay.Server.Serve.{without, reading_after}
use nexus_relay.Zmq.{Listener}

module _ (pk : Packages) where
  contains-without :
      (s t : pk.Sender) (xs : List pk.Sender)
      → contains ⦃e = sender_eq pk.mpsc⦄ (without pk s xs) t ≡ true
      → contains ⦃e = sender_eq pk.mpsc⦄ xs t ≡ true
  contains-without s t [] h = h
  contains-without s t (x ∷ xs) h = ground (arith, contains-without s t xs)

  IsNodup-without :
      (s : pk.Sender) (xs : List pk.Sender)
      → IsNodup ⦃e = sender_eq pk.mpsc⦄ xs
      → IsNodup ⦃e = sender_eq pk.mpsc⦄ (without pk s xs)
  IsNodup-without s [] d = tt
  IsNodup-without s (x ∷ xs) (new, d) = elim (Bool-cases (pk.same x s)) [
    | inl e ↦ rw e (IsNodup-without s xs d)
    | inr e ↦ rw e (ground (arith, contains-without s x xs, new), IsNodup-without s xs d)
  ]

  -- The channels have been made, and no two connections share one.
  pub record IsSeparate (l : Listener pk) (reading : List pk.Sender) : Type 0 where
    pub made :
        (t : pk.Sender)
        → contains ⦃e = sender_eq pk.mpsc⦄ reading t ≡ true
        → pk.is_made l.shared.channels t ≡ true
    pub once : IsNodup ⦃e = sender_eq pk.mpsc⦄ reading

  pub without-IsSeparate :
      (s : pk.Sender) (l : Listener pk) (reading : List pk.Sender)
      → IsSeparate l reading
      → IsSeparate l (without pk s reading)
  without-IsSeparate s l reading v = record {
    made = λ t h. v.made t (contains-without s t reading h);
    once = IsNodup-without s reading v.once;
  }

  pub reading_after-IsSeparate :
      (n : Next) (s : pk.Sender) (l : Listener pk) (reading : List pk.Sender)
      → IsSeparate l reading
      → IsSeparate l (reading_after pk n s reading)
  reading_after-IsSeparate continues s l reading v = v
  reading_after-IsSeparate breaks s l reading v = without-IsSeparate s l reading v
  reading_after-IsSeparate crashes s l reading v = without-IsSeparate s l reading v

  pub Step-IsSeparate :
      (config : Config) {l l' : Listener pk} (reading : List pk.Sender)
      → Step pk config l l'
      → l.shared.registry.poisoned ≡ false
      → IsSeparate l reading
      → IsSeparate l' reading
  Step-IsSeparate config reading step sound v = record {
    made = λ t h. Step-made pk config t step sound (v.made t h);
    once = v.once;
  }

  -- A new channel is none of those that have been made.
  pub accept-IsSeparate :
      (l : Listener pk) (reading : List pk.Sender)
      → IsSeparate l reading
      → IsSeparate
          (record l { shared = (connect pk l.shared).0 })
          ((connect pk l.shared).1 ∷ reading)
  accept-IsSeparate l reading v =
      let w = l.shared.channels in
      let s = (connect pk l.shared).1 in
      record {
        made = λ t h. ground (arith, h, pk.mpsc.is_made-unbounded_channel t w, v.made t);
        once = (
          elim (Bool-cases (contains ⦃e = sender_eq pk.mpsc⦄ reading s)) [
            | inl old ↦ absurd (ground (arith, v.made s old, pk.mpsc.is_made-new w))
            | inr new ↦ new
          ],
          v.once,
        );
      }
