-- ===== src/Connection/Transcript.antt =====
-- What a client receives over a whole connection: the message loop of `handle_connection` of
-- src/lib.rs.
use nexus_relay.Prelude.{
  String, true, List, [], ◌∷◌, ◌++◌, ◌≡◌, ◌≢◌, refl, sym, ◌∙◌, All, append-nil, list_laws, ◌⊎◌, inl,
  inr,
}
use nexus_relay.External.Packages.{Packages}
use nexus_relay.Connection.{
  Frame, text, other, failure, Next, continues, breaks, crashes, Turn, handle_text, handle_frame,
  message_loop,
}
use nexus_relay.Connection.Answers.{Response, Others, Answered, handle_text-Answered}
use nexus_relay.Node.{Node}
use nexus_relay.Shared.{Shared}
use nexus_relay.Shared.Broadcast.{received, is_alive}

-- A list that grows twice, and four times.
grown {ℓ} :
    {A : Type ℓ} (start : List A) {middle end : List A} (first second : List A)
    → middle ≡ start ++ first
    → end ≡ middle ++ second
    → end ≡ start ++ (first ++ second)
grown start first second e f = f ∙ simp (e, list_laws)

grown_around {ℓ} :
    {A : Type ℓ} (start : List A) {middle end last : List A} (first second third : List A) (x : A)
    → middle ≡ start ++ first
    → end ≡ (middle ++ second) ++ x ∷ []
    → last ≡ end ++ third
    → last ≡ start ++ (((first ++ second) ++ x ∷ []) ++ third)
grown_around start first second third x e f g =
    grown start ((first ++ second) ++ x ∷ []) third
      (grown start (first ++ second) (x ∷ []) (grown start first second e refl) f) g

module _ (pk : Packages) (client : Node pk) (client_tx : pk.Sender) where
  -- What the other tasks do between two frames leaves the client's channel open, and what it has
  -- received in place.
  pub record IsHarmless (meanwhile : Shared pk → Shared pk) : Type 0 where
    pub alive : (s : Shared pk) → is_alive pk (meanwhile s) client_tx ≡ is_alive pk s client_tx
    pub grows :
        (s : Shared pk)
        → (new : List String) × (received pk (meanwhile s) client_tx
            ≡ received pk s client_tx ++ new)

  -- What a client whose channel the state `s` holds receives for a list of frames: what the other
  -- tasks bring it before each frame, and for each text, in the order of the texts, what the text
  -- publishes to the client itself and then the answer, until the stream ends or fails.
  pub data Transcript : List (Turn pk) → Shared pk → List String → Type 0 where
    finished : {s : Shared pk} → Transcript [] s []
    failed :
        {turn : Turn pk} {rest : List (Turn pk)} {s : Shared pk} (others : List String)
        → received pk (turn.meanwhile s) client_tx ≡ received pk s client_tx ++ others
        → turn.frame ≡ failure
        → Transcript (turn ∷ rest) s others
    skipped :
        {turn : Turn pk} {rest : List (Turn pk)} {s : Shared pk} {later : List String}
        (others : List String)
        → received pk (turn.meanwhile s) client_tx ≡ received pk s client_tx ++ others
        → turn.frame ≡ other
        → Transcript rest (turn.meanwhile s) later
        → Transcript (turn ∷ rest) s (others ++ later)
    answered :
        {turn : Turn pk} {rest : List (Turn pk)} {s : Shared pk} {later : List String}
        (others own : List String) (t : String) (response : pk.JsonRpc)
        → received pk (turn.meanwhile s) client_tx ≡ received pk s client_tx ++ others
        → turn.frame ≡ text t
        → Others pk client client_tx t (turn.meanwhile s) own
        → Response pk client client_tx t (turn.meanwhile s) response
        → received pk (handle_text pk t client client_tx (turn.meanwhile s)).0 client_tx
          ≡ received pk (turn.meanwhile s) client_tx ++ own ++ pk.to_string response ∷ []
        → Transcript rest (handle_text pk t client client_tx (turn.meanwhile s)).0 later
        → Transcript (turn ∷ rest) s (((others ++ own) ++ pk.to_string response ∷ []) ++ later)

  -- The channel `client_tx` has received what the transcript says.
  abbrev pub Told : List (Turn pk) → Shared pk → Shared pk → Type 0
  Told turns s s' =
      (new : List String) × (received pk s' client_tx ≡ received pk s client_tx ++ new)
      × Transcript turns s new

  module _ (turn : Turn pk) (rest : List (Turn pk)) (s : Shared pk) where
    -- The frame, handled in the state in which it comes.
    handled : Shared pk × Next
    handled = handle_frame pk turn.frame client client_tx (turn.meanwhile s)

    message_loop-continues :
        handled.1 ≡ continues
        → message_loop pk (turn ∷ rest) client client_tx s
          ≡ message_loop pk rest client client_tx handled.0
    unfolding message_loop handled
    message_loop-continues e = rw (e, message_loop) refl

    message_loop-breaks :
        handled.1 ≡ breaks → message_loop pk (turn ∷ rest) client client_tx s ≡ (handled.0, breaks)
    unfolding message_loop handled
    message_loop-breaks e = rw (e, message_loop) refl

    message_loop-crashes :
        handled.1 ≡ crashes → (message_loop pk (turn ∷ rest) client client_tx s).1 ≡ crashes
    unfolding message_loop handled
    message_loop-crashes e = rw (e, message_loop) refl

  Frame-cases : (f : Frame) → ((t : String) × (f ≡ text t)) ⊎ ((f ≡ other) ⊎ (f ≡ failure))
  Frame-cases (text t) = inl (t, refl)
  Frame-cases other = inr (inl refl)
  Frame-cases failure = inr (inr refl)

  -- While the client's channel is open, the other tasks neither close it nor take back what it
  -- received, and the loop does not crash, the client receives what the transcript of its frames says.
  pub message_loop-Transcript :
      (turns : List (Turn pk)) (s : Shared pk)
      → All (λ (turn : Turn pk). IsHarmless turn.meanwhile) turns
      → is_alive pk s client_tx ≡ true
      → (message_loop pk turns client client_tx s).1 ≢ crashes
      → Told turns s (message_loop pk turns client client_tx s).0
  unfolding message_loop handled handle_frame
  message_loop-Transcript [] s h alive calm = ([], sym (append-nil _), finished)
  message_loop-Transcript (turn ∷ rest) s (h, hs) alive calm =
      let s0 = turn.meanwhile s in
      let (others, grew) = h.grows s in
      let alive0 : is_alive pk s0 client_tx ≡ true = h.alive s ∙ alive in
      elim (Frame-cases turn.frame) [
        | inl (t, e) ↦
            let a : Answered pk client client_tx t s0 (handle_text pk t client client_tx s0) =
              handle_text-Answered pk client client_tx t s0 alive0
                (λ c. calm (message_loop-crashes turn rest s (rw e c))) in
            let x = handle_text pk t client client_tx s0 in
            let step : message_loop pk (turn ∷ rest) client client_tx s
                ≡ message_loop pk rest client client_tx x.0 =
              message_loop-continues turn rest s (rw e a.goes_on) ∙ rw e refl in
            let (later, same, told) =
              message_loop-Transcript rest x.0 hs a.still_alive (λ c. calm (rw step c)) in
            rw step (
              _,
              grown_around (received pk s client_tx) others a.before later (pk.to_string a.response)
                  grew a.last same,
              answered others a.before t a.response grew e a.others a.right a.last told,
            )
        | inr (inl e) ↦
            let step : message_loop pk (turn ∷ rest) client client_tx s
                ≡ message_loop pk rest client client_tx s0 =
              message_loop-continues turn rest s (rw e refl) ∙ rw e refl in
            let (later, same, told) =
              message_loop-Transcript rest s0 hs alive0 (λ c. calm (rw step c)) in
            rw step (
              _,
              grown (received pk s client_tx) others later grew same,
              skipped others grew e told,
            )
        | inr (inr e) ↦
            let step : message_loop pk (turn ∷ rest) client client_tx s ≡ (s0, breaks) =
              message_loop-breaks turn rest s (rw e refl) ∙ rw e refl in
            rw step (others, grew, failed others grew e)
      ]
