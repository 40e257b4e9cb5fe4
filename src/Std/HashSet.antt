-- ===== src/Std/HashSet.antt =====
-- The `HashSet` of the standard library, as a list that holds each member once.
use nexus_relay.Prelude.{
  ◌≡◌, refl, List, [], ◌∷◌, if◌then◌else◌, Eq, ◌==◌, contains, ◌&&◌, ◌||◌, not, arith,
}

module _ {ℓ} {A : Type ℓ} ⦃e : Eq A⦄ where
  unfoldable pub insert : A → List A → List A
  insert a xs = if contains xs a then xs else a ∷ xs

  unfoldable pub remove : A → List A → List A
  remove a [] = []
  remove a (x ∷ xs) = if x == a then remove a xs else x ∷ remove a xs

  pub contains-insert :
      (a b : A) (xs : List A) → contains (insert a xs) b ≡ (contains xs b || a == b)
  unfolding insert
  contains-insert a b xs = ground (arith, e.beq_true a b)

  pub contains-remove :
      (a b : A) (xs : List A) → contains (remove a xs) b ≡ (contains xs b && not (a == b))
  unfolding remove
  contains-remove a b [] = refl
  contains-remove a b (x ∷ xs) =
      ground (arith, e.beq_true a b, e.beq_true x a, e.beq_true x b, contains-remove a b xs)
