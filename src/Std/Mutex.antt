-- ===== src/Std/Mutex.antt =====
-- `std::sync::Mutex`. A panic of a thread that holds the guard poisons the mutex.
use nexus_relay.Prelude.{Bool, true, Option, none, some, if◌then◌else◌}

pub record Mutex {ℓ} (A : Type ℓ) : Type ℓ where
  pub poisoned : Bool
  pub inner : A

-- `lock()`: `none` is `Err(PoisonError)`.
abbrev pub lock {ℓ} : {A : Type ℓ} → Mutex A → Option A
lock m = if m.poisoned then none else some m.inner

-- What the guard was used to change.
abbrev pub unlock {ℓ} : {A : Type ℓ} → Mutex A → A → Mutex A
unlock m a = record m { inner = a }

-- A thread has panicked with the guard in hand.
abbrev pub poison {ℓ} : {A : Type ℓ} → Mutex A → Mutex A
poison m = record m { poisoned = true }
