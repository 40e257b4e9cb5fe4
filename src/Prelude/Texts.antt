-- ===== src/Prelude/Texts.antt =====
-- Texts, put together and made of numbers.
use Prim.Native.Nat.{ℕ, zero, suc, ◌/◌, ◌%◌}
use Prim.Native.String
use Prim.Native.String.{String}
use nexus_relay.Prelude.Tests.{ltb, if◌then◌else◌}

infixr 65 ◌&◌
abbrev pub ◌&◌ : String → String → String
s & t = String.◌++◌ s t

abbrev digit : ℕ → String
digit n = String.slice "0123456789" n (suc n)

-- The last digits of a number, at most `fuel` of them, without zeros in front.
abbrev digits : ℕ → ℕ → String
digits zero n = ""
digits (suc fuel) n =
    let before = digits fuel (n / 10) in if ltb n 10 then digit n else before & digit (n % 10)

-- A number below 10 ^ 20, as `Display` writes it.
abbrev pub decimal : ℕ → String
decimal n = digits 20 n
