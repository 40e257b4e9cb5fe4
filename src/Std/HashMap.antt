-- ===== src/Std/HashMap.antt =====
-- The `HashMap` of the standard library, as the registry uses it: `entry(k).or_default()` and a
-- change of the value in place. Keys stand in the order of their first entry.
use nexus_relay.Prelude.{
  ◌≡◌, refl, List, [], ◌∷◌, if◌then◌else◌, Eq, ◌==◌, contains, IsNodup, arith, ◌||◌,
}

abbrev pub HashMap {ℓ κ} : Type ℓ → Type κ → Type (ℓ ⊔ κ)
HashMap K V = List (K × V)

module _ {ℓ κ} {K : Type ℓ} {V : Type κ} where
  abbrev pub keys : HashMap K V → List K
  keys [] = []
  keys ((k, v) ∷ m) = k ∷ keys m

module _ {ℓ κ} {K : Type ℓ} {V : Type κ} ⦃e : Eq K⦄ where
  unfoldable pub get_or : K → V → HashMap K V → V
  get_or k d [] = d
  get_or k d ((j, v) ∷ m) = if j == k then v else get_or k d m

  -- `let v = m.entry(k).or_insert(d); *v = f(v)`
  unfoldable pub or_insert : K → V → (V → V) → HashMap K V → HashMap K V
  or_insert k d f [] = (k, f d) ∷ []
  or_insert k d f ((j, v) ∷ m) = if j == k then (j, f v) ∷ m else (j, v) ∷ or_insert k d f m

  pub get_or-or_insert :
      (j k : K) (d : V) (f : V → V) (m : HashMap K V)
      → get_or j d (or_insert k d f m) ≡ (if k == j then f (get_or k d m) else get_or j d m)
  unfolding get_or or_insert
  get_or-or_insert j k d f [] = refl
  get_or-or_insert j k d f ((i, v) ∷ m) =
      ground (arith, e.beq_true k j, e.beq_true i k, e.beq_true i j, get_or-or_insert j k d f m)

  -- The key is there afterwards, and no key is lost.
  pub contains-keys-or_insert :
      (j k : K) (d : V) (f : V → V) (m : HashMap K V)
      → contains (keys (or_insert k d f m)) j ≡ (contains (keys m) j || k == j)
  unfolding or_insert
  contains-keys-or_insert j k d f [] = ground arith
  contains-keys-or_insert j k d f ((i, v) ∷ m) =
      ground (arith, e.beq_true i k, e.beq_true i j, contains-keys-or_insert j k d f m)

  pub or_insert-IsNodup :
      (k : K) (d : V) (f : V → V) (m : HashMap K V)
      → IsNodup (keys m)
      → IsNodup (keys (or_insert k d f m))
  unfolding or_insert
  or_insert-IsNodup k d f [] h = ground arith
  or_insert-IsNodup k d f ((i, v) ∷ m) h = ground (
    arith,
    e.beq_true i k,
    e.beq_true k i,
    contains-keys-or_insert i k d f m,
    or_insert-IsNodup k d f m,
  )
