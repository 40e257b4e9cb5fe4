-- ===== src/Prelude/Fallible.antt =====
-- How a call ends: Rust's `Result`, and `Outcome` for code that may also panic (`unwrap` on a
-- failure, `unreachable!`).
use mathlib.Core.Path.{◌≡◌, refl}
use mathlib.Core.Logic.{◌⊎◌, inl, inr}
use mathlib.Core.Option.{Option, none, some}

pub data Result {ℓ κ} (E : Type κ) (A : Type ℓ) : Type (ℓ ⊔ κ) where
  ok : A → Result E A
  err : E → Result E A

pub data Outcome {ℓ κ} (E : Type κ) (A : Type ℓ) : Type (ℓ ⊔ κ) where
  returns : A → Outcome E A
  fails : E → Outcome E A
  panics : Outcome E A

infixl 5 ◌>>=◌ ◌>>◌
abbrev pub ◌>>=◌ {ℓ κ ι} :
    {E : Type ι} {A : Type ℓ} {B : Type κ} → Outcome E A → (A → Outcome E B) → Outcome E B
returns a >>= f = f a
fails e >>= f = fails e
panics >>= f = panics

-- `?` at an error type with a `From` conversion.
abbrev pub convert {ℓ κ ι} :
    {E : Type ι} {F : Type κ} {A : Type ℓ} → (E → F) → Outcome E A → Outcome F A
convert f (returns a) = returns a
convert f (fails e) = fails (f e)
convert f panics = panics

abbrev pub attempt {ℓ κ ι} :
    {E : Type ι} {F : Type κ} {A : Type ℓ} → (E → F) → Result E A → Outcome F A
attempt f (ok a) = returns a
attempt f (err e) = fails (f e)

-- `unwrap()`
abbrev pub unwrap {ℓ κ} : {E : Type κ} {A : Type ℓ} → Option A → Outcome E A
unwrap none = panics
unwrap (some a) = returns a

-- `ok_or(e)?`
abbrev pub ok_or {ℓ κ} : {E : Type κ} {A : Type ℓ} → Option A → E → Outcome E A
ok_or none e = fails e
ok_or (some a) e = returns a

abbrev pub ◌>>◌ {ℓ ι} : {E : Type ι} {B : Type ℓ} → Outcome E (Unit {0}) → Outcome E B → Outcome E B
m >> k = m >>= λ _. k

-- Inversion of a call that returns.
pub >>=-eq-returns {ℓ κ ι} :
    {E : Type ι} {A : Type ℓ} {B : Type κ} (m : Outcome E A) (f : A → Outcome E B) {b : B}
    → (m >>= f) ≡ returns b
    → (a : A) × (m ≡ returns a) × (f a ≡ returns b)
>>=-eq-returns (returns a) f h = (a, refl, h)
>>=-eq-returns (fails e) f h = cc
>>=-eq-returns panics f h = cc

pub >>=-eq-panics {ℓ κ ι} :
    {E : Type ι} {A : Type ℓ} {B : Type κ} (m : Outcome E A) (f : A → Outcome E B)
    → (m >>= f) ≡ panics
    → (m ≡ panics) ⊎ ((a : A) × (m ≡ returns a) × (f a ≡ panics))
>>=-eq-panics (returns a) f h = inr (a, refl, h)
>>=-eq-panics (fails e) f h = cc
>>=-eq-panics panics f h = inl refl

pub Outcome-cases {ℓ κ} :
    {E : Type κ} {A : Type ℓ} (o : Outcome E A)
    → ((a : A) × (o ≡ returns a)) ⊎ (((e : E) × (o ≡ fails e)) ⊎ (o ≡ panics))
Outcome-cases (returns a) = inl (a, refl)
Outcome-cases (fails e) = inr (inl (e, refl))
Outcome-cases panics = inr (inr refl)

pub Result-cases {ℓ κ} :
    {E : Type κ} {A : Type ℓ} (r : Result E A) → ((a : A) × (r ≡ ok a)) ⊎ ((e : E) × (r ≡ err e))
Result-cases (ok a) = inl (a, refl)
Result-cases (err e) = inr (e, refl)
