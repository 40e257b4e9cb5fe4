-- ===== src/Shared.antt =====
-- What the tasks share: the registry behind its mutex (src/lib.rs), and the channels to clients.
pub mod Broadcast
pub mod Soundness
use nexus_relay.Prelude.{ℕ, Bool, true, false, Option, none, some, Outcome, returns, fails, panics}
use mathlib.Core.Path.{◌≡◌, ap}
use nexus_relay.External.Packages.{Packages}
use nexus_relay.Std.Mutex.{Mutex, lock, unlock, poison}
use nexus_relay.Registry.{TopicRegistry, new}

module _ (pk : Packages) where
  open pk use {Channels}

  pub record Shared : Type 0 where
    pub registry : Mutex (TopicRegistry pk.mpsc)
    pub channels : Channels

  -- A call that may change what is shared.
  abbrev pub Action {ℓ κ} : Type κ → Type ℓ → Type (ℓ ⊔ κ)
  Action E A = Shared → Shared × Outcome E A

module _ {pk : Packages} where
  -- A call goes on after one that returns, in the state that it leaves.
  abbrev resume {ℓ κ ι} :
      {E : Type ι} {A : Type ℓ} {B : Type κ}
      → (A → Action pk E B)
      → Shared pk × Outcome E A
      → Shared pk × Outcome E B
  resume f (s, returns a) = f a s
  resume f (s, fails e) = (s, fails e)
  resume f (s, panics) = (s, panics)

  infixl 5 ◌>>=◌
  abbrev pub ◌>>=◌ {ℓ κ ι} :
      {E : Type ι} {A : Type ℓ} {B : Type κ} → Action pk E A → (A → Action pk E B) → Action pk E B
  ◌>>=◌ m f s = resume f (m s)

  -- A step that reads and changes nothing that is shared.
  abbrev pub pure {ℓ ι} : {E : Type ι} {A : Type ℓ} → Outcome E A → Action pk E A
  pure o s = (s, o)

  -- The scope of `registry.lock().unwrap()`. A body that panics does so before it changes anything,
  -- and poisons the mutex.
  abbrev pub with_lock {ℓ ι} :
      {E : Type ι} {A : Type ℓ}
      → (TopicRegistry pk.mpsc → pk.Channels → Outcome E (TopicRegistry pk.mpsc × pk.Channels × A))
      → Action pk E A
  with_lock body s = elim (lock s.registry) [
    | none ↦ (s, panics)
    | some r ↦ elim (body r s.channels) [
      | returns (r', w', a) ↦
          (record s { registry = unlock s.registry r'; channels = w' }, returns a)
      | fails e ↦ (s, fails e)
      | panics ↦ (record s { registry = poison s.registry }, panics)
    ]
  ]

  -- `if let Ok(guard) = registry.lock()`: nothing is done if the mutex is poisoned.
  abbrev pub if_lock {ι} :
      {E : Type ι}
      → (TopicRegistry pk.mpsc → pk.Channels → Outcome E (TopicRegistry pk.mpsc × pk.Channels × ℕ))
      → Action pk E (Unit {0})
  if_lock body s = elim (lock s.registry) [
    | none ↦ (s, returns tt)
    | some r ↦ elim (body r s.channels) [
      | returns (r', w', sent_count) ↦
          (record s { registry = unlock s.registry r'; channels = w' }, returns tt)
      | fails e ↦ (s, fails e)
      | panics ↦ (record s { registry = poison s.registry }, panics)
    ]
  ]

  pub >>=-returns {ℓ κ ι} :
      {E : Type ι} {A : Type ℓ} {B : Type κ} (m : Action pk E A) (f : A → Action pk E B)
      {s s' : Shared pk} {a : A}
      → m s ≡ (s', returns a)
      → (m >>= f) s ≡ f a s'
  >>=-returns m f e = ap (resume f) e
