-- ===== src/BoundedSet/Window.antt =====
-- What a `BoundedSet` of src/zmq.rs remembers of a history of new items.
use nexus_relay.Prelude.{
  ℕ, zero, suc, ◌+◌, ◌-◌, ◌≤◌, ◌<◌, Bool, true, false, List, [], ◌∷◌, ◌++◌, ◌≡◌, refl, sym, ◌∙◌, ap,
  Eq, ◌==◌, leb, ltb, length, drop, IsNodup, arith, length-append, length-drop, drop-append,
  drop-drop, append_assoc, IsNodup-append_disjoint, IsNodup-drop, append-nil, contains-append,
}
use nexus_relay.Prelude
use nexus_relay.BoundedSet.{BoundedSet, contains, insert}
use nexus_relay.BoundedSet.Invariant.{
  IsBounded, excess, room-queue, insert_new, insert-IsBounded, contains-drop,
}

module _ {ℓ} {T : Type ℓ} ⦃e : Eq T⦄ where
  pub insert_all : List T → BoundedSet T → BoundedSet T
  insert_all [] s = s
  insert_all (x ∷ xs) s = insert_all xs (insert x s).0

  pub insert_all-IsBounded :
      (xs : List T) (s : BoundedSet T) → IsBounded s → IsBounded (insert_all xs s)
  unfolding insert_all
  insert_all-IsBounded [] s v = v
  insert_all-IsBounded (x ∷ xs) s v =
      insert_all-IsBounded xs (insert x s).0 (insert-IsBounded x s v)

  -- The last `limit` of a list.
  abbrev pub last_of : ℕ → List T → List T
  last_of limit xs = drop (length xs - limit) xs

  -- What it may hold.
  abbrev pub limit : BoundedSet T → ℕ
  limit s = 1 + (s.capacity - 1)

  last_of-drop :
      (n limit : ℕ) (xs : List T)
      → n ≤ length xs - limit
      → last_of limit (drop n xs) ≡ last_of limit xs
  last_of-drop n limit xs h =
      let sum : n + (length (drop n xs) - limit) ≡ length xs - limit =
        omega (arith, length-drop n xs) in
      drop-drop (length (drop n xs) - limit) n xs ∙ rw sum

  insert_fresh :
      (x : T) (xs : List T) (s : BoundedSet T)
      → IsBounded s
      → IsNodup (s.queue ++ x ∷ xs)
      → ((insert x s).0.capacity ≡ s.capacity)
        × ((insert x s).0.queue ++ xs ≡ drop (excess s.capacity s.queue) (s.queue ++ x ∷ xs))
  unfolding contains
  insert_fresh x xs s v d =
      let absent = (IsNodup-append_disjoint s.queue xs x d).0 in
      let new : contains s x ≡ false = v.same x ∙ absent in
      rw (insert_new x s new) (
        refl,
        rw (append_assoc, room-queue s v)
            (sym (drop-append (excess s.capacity s.queue) s.queue (x ∷ xs) (omega arith))),
      )

  -- In a bounded set whose set and queue agree, after items that are all new the queue holds the
  -- last ones of the whole history, in order, as many as it may hold.
  pub insert_all-queue :
      (xs : List T) (s : BoundedSet T)
      → IsBounded s
      → IsNodup (s.queue ++ xs)
      → (insert_all xs s).queue ≡ last_of (limit s) (s.queue ++ xs)
  unfolding insert_all
  insert_all-queue [] s v d =
      let fits : length s.queue - limit s ≡ 0 = omega (arith, v.bounded) in rw (append-nil, fits)
  insert_all-queue (x ∷ xs) s v d =
      let (cap, joined) = insert_fresh x xs s v d in
      let later : IsNodup ((insert x s).0.queue ++ xs) =
        rw joined (IsNodup-drop (excess s.capacity s.queue) _ d) in
      insert_all-queue xs (insert x s).0 (insert-IsBounded x s v) later
      ∙ rw (joined, cap)
          (last_of-drop (excess s.capacity s.queue) (limit s) (s.queue ++ x ∷ xs)
            (omega (arith, length-append s.queue (x ∷ xs))))

  contains-drop-middle :
      (k : ℕ) (xs ys : List T) (a : T)
      → IsNodup (xs ++ a ∷ ys)
      → Prelude.contains (drop k (xs ++ a ∷ ys)) a ≡ leb k (length xs)
  contains-drop-middle zero [] ys a d = ground (arith, e.beq_true a a)
  contains-drop-middle zero (x ∷ xs) ys a d =
      ground (arith, contains-append xs (a ∷ ys) a, e.beq_true a a)
  contains-drop-middle (suc k) [] ys a d = contains-drop k ys a d.0 ∙ ground arith
  contains-drop-middle (suc k) (x ∷ xs) ys a d = contains-drop-middle k xs ys a d.1 ∙ ground arith

  -- In a bounded set whose set and queue agree, after an item and then other items, all of them
  -- new, the item is a member exactly if fewer than max(capacity, 1) came after it.
  pub insert_all-contains :
      (x : T) (ys : List T) (s : BoundedSet T)
      → IsBounded s
      → IsNodup (s.queue ++ x ∷ ys)
      → contains (insert_all (x ∷ ys) s) x ≡ ltb (length ys) (limit s)
  unfolding contains
  insert_all-contains x ys s v d =
      (insert_all-IsBounded (x ∷ ys) s v).same x
      ∙ rw (insert_all-queue (x ∷ ys) s v d) (
          contains-drop-middle (length (s.queue ++ x ∷ ys) - limit s) s.queue ys x d
          ∙ ground (arith, length-append s.queue (x ∷ ys), v.bounded))
