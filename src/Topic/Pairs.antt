-- ===== src/Topic/Pairs.antt =====
-- The topic of a pair of assets: `format!("{}:{}", input, output)` of src/jsonrpc.rs.
use Prim.Native.Char.{Char, code}
use Prim.Native.String
use Prim.Native.String.{[], ◌∷◌}
use text.Mathlib.TextLemmas.{nil-append, cons-append}
use nexus_relay.Prelude.{String, ◌≡◌, ◌≢◌, refl, sym, ◌∙◌, ap}
use mathlib.Core.Path.{ap₂}

-- No colon stands in the text.
abbrev pub NoColon : String → Type 0
NoColon [] = Unit {0}
NoColon (c ∷ s) = (code c ≢ b':') × NoColon s

abbrev pub colon : Char
colon = ":"

cons-injective : {x y : Char} {s t : String} → x ∷ s ≡ y ∷ t → (x ≡ y) × (s ≡ t)
cons-injective h = (cc, cc)

pub colon-append : (b : String) → String.◌++◌ ":" b ≡ colon ∷ b
colon-append b = cons-append colon [] b ∙ ap (λ t. colon ∷ t) (nil-append b)

-- A text without a colon, a colon, and any text can be taken apart again.
pub colon_split :
    (a b c d : String)
    → NoColon a
    → NoColon c
    → String.◌++◌ a (colon ∷ b) ≡ String.◌++◌ c (colon ∷ d)
    → (a ≡ c) × (b ≡ d)
colon_split [] b [] d n m h =
    (refl, (cons-injective (sym (nil-append (colon ∷ b)) ∙ h ∙ nil-append (colon ∷ d))).1)
colon_split [] b (y ∷ c) d n m h =
    let (same, rest) =
      cons-injective (sym (nil-append (colon ∷ b)) ∙ h ∙ cons-append y c (colon ∷ d)) in
    absurd (m.0 (ap code (sym same)))
colon_split (x ∷ a) b [] d n m h =
    let (same, rest) =
      cons-injective (sym (cons-append x a (colon ∷ b)) ∙ h ∙ nil-append (colon ∷ d)) in
    absurd (n.0 (ap code same))
colon_split (x ∷ a) b (y ∷ c) d n m h =
    let (same, rest) =
      cons-injective (sym (cons-append x a (colon ∷ b)) ∙ h ∙ cons-append y c (colon ∷ d)) in
    let (front, back) = colon_split a b c d n.1 m.1 rest in (ap₂ (λ u v. u ∷ v) same front, back)
