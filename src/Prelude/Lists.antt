-- ===== src/Prelude/Lists.antt =====
-- Lists measured by native numbers, under the library's names, and searched by `==`.
use Prim.Native.Nat.{ℕ, zero, suc, ◌+◌, ◌-◌, ◌≤◌}
use mathlib.Core.Path.{◌≡◌, refl, sym, ◌∙◌}
use native.Mathlib.Nat.{zero-add, suc-add}
use mathlib.Core.Bool.{Bool, true, false, ◌||◌, ◌&&◌}
use mathlib.Core.List.{List, [], ◌∷◌, ◌++◌, append-nil, append_assoc}
use native.Mathlib.Omega.{arith}
use nexus_relay.Prelude.Tests.{nat_beq, Eq, ◌==◌, if◌then◌else◌}

-- What a list of pieces is, however they are bracketed.
pub ruleset list_laws = (append-nil, append_assoc)

module _ {ℓ} {A : Type ℓ} where
  abbrev pub length : List A → ℕ
  length [] = 0
  length (x ∷ xs) = suc (length xs)

  abbrev pub replicate : ℕ → A → List A
  replicate zero a = []
  replicate (suc n) a = a ∷ replicate n a

  abbrev pub drop : ℕ → List A → List A
  drop zero xs = xs
  drop (suc n) [] = []
  drop (suc n) (x ∷ xs) = drop n xs

  pub length-append : (xs ys : List A) → length (xs ++ ys) ≡ length xs + length ys
  length-append [] ys = omega arith
  length-append (x ∷ xs) ys = omega (arith, length-append xs ys)

  pub length-replicate : (n : ℕ) (a : A) → length (replicate n a) ≡ n
  length-replicate zero a = refl
  length-replicate (suc n) a = omega (arith, length-replicate n a)

  -- A list and what comes of it by appending.
  abbrev pub Begins : List A → List A → Type ℓ
  Begins xs ys = (rest : List A) × (ys ≡ xs ++ rest)

  pub Begins-refl : (xs : List A) → Begins xs xs
  Begins-refl xs = ([], sym (append-nil xs))

  pub Begins-eq : {xs ys : List A} → ys ≡ xs → Begins xs ys
  Begins-eq {xs} e = ([], e ∙ sym (append-nil xs))

  pub Begins-trans : (xs : List A) {ys zs : List A} → Begins xs ys → Begins ys zs → Begins xs zs
  Begins-trans xs (first, e) (second, f) = (first ++ second, f ∙ simp (e, list_laws))

  -- A list in which something stands.
  abbrev pub Occurs : A → List A → Type ℓ
  Occurs x xs = (before : List A) × ((after : List A) × (xs ≡ before ++ x ∷ after))

  pub Occurs-replicate : (n : ℕ) (x : A) (ys : List A) → 1 ≤ n → Occurs x (replicate n x ++ ys)
  Occurs-replicate zero x ys h = absurd (omega arith)
  Occurs-replicate (suc n) x ys h = ([], (replicate n x ++ ys, refl))

  pub Occurs-append : (xs : List A) {ys : List A} {x : A} → Occurs x ys → Occurs x (xs ++ ys)
  Occurs-append xs {x = x} (before, (after, e)) = (xs ++ before, (after, simp (e, list_laws)))

module _ {ℓ κ} {A : Type ℓ} (P : A → Type κ) where
  abbrev pub All : List A → Type κ
  All [] = Unit
  All (x ∷ xs) = P x × All xs

module _ {ℓ} {A : Type ℓ} ⦃e : Eq A⦄ where
  abbrev pub contains : List A → A → Bool
  contains [] a = false
  contains (x ∷ xs) a = x == a || contains xs a

  abbrev pub count : List A → A → ℕ
  count [] a = 0
  count (x ∷ xs) a = if x == a then suc (count xs a) else count xs a

  -- No member stands twice.
  abbrev pub IsNodup : List A → Type 0
  IsNodup [] = Unit
  IsNodup (x ∷ xs) = (contains xs x ≡ false) × IsNodup xs

  pub contains-append :
      (xs ys : List A) (a : A) → contains (xs ++ ys) a ≡ (contains xs a || contains ys a)
  contains-append [] ys a = refl
  contains-append (x ∷ xs) ys a = ground (arith, contains-append xs ys a)

  pub IsNodup-snoc :
      (xs : List A) (a : A) → IsNodup xs → contains xs a ≡ false → IsNodup (xs ++ a ∷ [])
  IsNodup-snoc [] a d h = (refl, tt)
  IsNodup-snoc (x ∷ xs) a d h =
      ground (
        arith,
        e.beq_true x a,
        e.beq_true a x,
        contains-append xs (a ∷ []) x,
        IsNodup-snoc xs a d.1,
      )

  pub IsNodup-append_disjoint :
      (xs ys : List A) (a : A)
      → IsNodup (xs ++ a ∷ ys)
      → (contains xs a ≡ false) × (contains ys a ≡ false)
  IsNodup-append_disjoint [] ys a d = (refl, d.0)
  IsNodup-append_disjoint (x ∷ xs) ys a d = ground (
    arith,
    e.beq_true x a,
    e.beq_true a x,
    e.beq_true a a,
    contains-append xs (a ∷ ys) x,
    IsNodup-append_disjoint xs ys a d.1,
  )

  pub IsNodup-drop : (n : ℕ) (xs : List A) → IsNodup xs → IsNodup (drop n xs)
  IsNodup-drop zero xs d = d
  IsNodup-drop (suc n) [] d = d
  IsNodup-drop (suc n) (x ∷ xs) d = IsNodup-drop n xs d.1

module _ {ℓ} {A : Type ℓ} where
  pub drop-append : (n : ℕ) (xs ys : List A) → n ≤ length xs → drop n (xs ++ ys) ≡ drop n xs ++ ys
  drop-append zero xs ys h = refl
  drop-append (suc n) [] ys h = absurd (omega arith)
  drop-append (suc n) (x ∷ xs) ys h = drop-append n xs ys (omega arith)

  drop-nil : (n : ℕ) → drop {A = A} n [] ≡ []
  drop-nil zero = refl
  drop-nil (suc n) = refl

  pub drop-drop : (m n : ℕ) (xs : List A) → drop m (drop n xs) ≡ drop (n + m) xs
  drop-drop m zero xs = rw zero-add
  drop-drop m (suc n) [] = rw suc-add (drop-nil m)
  drop-drop m (suc n) (x ∷ xs) = rw suc-add (drop-drop m n xs)

  pub length-drop : (n : ℕ) (xs : List A) → length (drop n xs) ≡ length xs - n
  length-drop zero xs = omega arith
  length-drop (suc n) [] = omega arith
  length-drop (suc n) (x ∷ xs) = omega (arith, length-drop n xs)

-- The equality of byte strings.
abbrev pub bytes_beq : List ℕ → List ℕ → Bool
bytes_beq [] [] = true
bytes_beq (x ∷ xs) (y ∷ ys) = nat_beq x y && bytes_beq xs ys
bytes_beq _ _ = false
