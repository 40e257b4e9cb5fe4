-- ===== src/BoundedSet/Invariant.antt =====
-- How the set, the queue and the capacity of a `BoundedSet` of src/zmq.rs hang together.
use nexus_relay.Prelude.{
  ℕ, ◌+◌, ◌-◌, ◌≤◌, Bool, true, false, ◌||◌, ◌&&◌, not, List, [], ◌∷◌, ◌++◌, ◌≡◌, refl, Eq, ◌==◌,
  leb, length, IsNodup, arith, length-append, contains-append, IsNodup-snoc, if◌then◌else◌,
  Bool-cases, inl, inr, drop, length-drop, suc, zero, sym, ◌∙◌, ap,
}
use nexus_relay.Prelude
use nexus_relay.Std.HashSet
use nexus_relay.Std.HashSet.{contains-insert, contains-remove}
use nexus_relay.BoundedSet.{BoundedSet, new, contains, insert, evict}

module _ {ℓ} {T : Type ℓ} ⦃e : Eq T⦄ where
  -- A set of capacity 0 still holds its last member.
  pub record IsBounded (s : BoundedSet T) : Type ℓ where
    pub same : (x : T) → Prelude.contains s.set x ≡ Prelude.contains s.queue x
    pub once : IsNodup s.queue
    pub bounded : length s.queue ≤ 1 + (s.capacity - 1)

  pub new-IsBounded : (capacity : ℕ) → IsBounded (new capacity)
  unfolding new
  new-IsBounded capacity = record { same = λ x. refl; once = tt; bounded = omega arith }

  -- Any list of members that agree with the queue.
  Agree : List T × List T → Type ℓ
  Agree p = ((x : T) → Prelude.contains p.0 x ≡ Prelude.contains p.1 x) × IsNodup p.1

  evict-Agree : (set queue : List T) → Agree (set, queue) → Agree (evict set queue)
  unfolding Agree evict
  evict-Agree set [] a = a
  evict-Agree set (o ∷ rest) (same, once) =
      (λ x. ground (arith, e.beq_true o x, contains-remove o x set, same x), once.1)

  snoc-Agree :
      (item : T) (set queue : List T)
      → Prelude.contains queue item ≡ false
      → Agree (set, queue)
      → Agree (HashSet.insert item set, queue ++ item ∷ [])
  unfolding Agree
  snoc-Agree item set queue fresh (same, once) = (
    λ x. ground (arith, contains-insert item x set, contains-append queue (item ∷ []) x, same x),
    IsNodup-snoc queue item once fresh,
  )

  -- The two lists after room was made.
  pub room : BoundedSet T → List T × List T
  room s = if leb s.capacity (length s.queue) then evict s.set s.queue else (s.set, s.queue)

  pub insert_old :
      (item : T) (s : BoundedSet T) → contains s item ≡ true → insert item s ≡ (s, false)
  unfolding insert
  insert_old item s h = rw (h, insert)

  pub insert_new :
      (item : T) (s : BoundedSet T)
      → contains s item ≡ false
      → insert item s
        ≡ (record s { set = HashSet.insert item (room s).0; queue = (room s).1 ++ item ∷ [] }, true)
  unfolding insert room
  insert_new item s h = rw (h, insert)

  room-Agree : (s : BoundedSet T) → IsBounded s → Agree (room s)
  unfolding room Agree
  room-Agree s v = elim (Bool-cases (leb s.capacity (length s.queue))) [
    | inl full ↦ rw full (evict-Agree s.set s.queue (v.same, v.once))
    | inr free ↦ rw free (v.same, v.once)
  ]

  -- How many members fall out when one comes in.
  abbrev pub excess : ℕ → List T → ℕ
  excess capacity queue = length queue - (capacity - 1)

  room-drop :
      (capacity : ℕ) (set queue : List T)
      → length queue ≤ 1 + (capacity - 1)
      → (if leb capacity (length queue) then evict set queue else (set, queue)).1
        ≡ drop (excess capacity queue) queue
  unfolding evict
  room-drop capacity set [] h = ground arith
  room-drop capacity set (x ∷ xs) h = elim (Bool-cases (leb capacity (length (x ∷ xs)))) [
    | inl full ↦ let one : excess capacity (x ∷ xs) ≡ suc 0 = ground arith in rw (full, one)
    | inr free ↦ let nothing : excess capacity (x ∷ xs) ≡ 0 = ground arith in rw (free, nothing)
  ]

  pub room-queue :
      (s : BoundedSet T) → IsBounded s → (room s).1 ≡ drop (excess s.capacity s.queue) s.queue
  unfolding room
  room-queue s v = room-drop s.capacity s.set s.queue v.bounded

  pub contains-drop :
      (n : ℕ) (xs : List T) (x : T)
      → Prelude.contains xs x ≡ false
      → Prelude.contains (drop n xs) x ≡ false
  contains-drop zero xs x h = h
  contains-drop (suc n) [] x h = h
  contains-drop (suc n) (y ∷ xs) x h = contains-drop n xs x (ground arith)

  insert_new-IsBounded :
      (item : T) (s : BoundedSet T)
      → contains s item ≡ false
      → IsBounded s
      → IsBounded (insert item s).0
  unfolding contains Agree
  insert_new-IsBounded item s h v =
      let fresh : Prelude.contains (room s).1 item ≡ false =
        rw (room-queue s v) (contains-drop _ s.queue item (sym (v.same item) ∙ h)) in
      let (same, once) = snoc-Agree item (room s).0 (room s).1 fresh (room-Agree s v) in
      rw (insert_new item s h) (record {
        same = same;
        once = once;
        bounded = omega (
          arith,
          v.bounded,
          ap length (room-queue s v),
          length-drop (excess s.capacity s.queue) s.queue,
          length-append (room s).1 (item ∷ []),
        );
      })

  -- Inserting keeps the set and the queue in agreement, without repetitions, and within the
  -- capacity.
  pub insert-IsBounded : (item : T) (s : BoundedSet T) → IsBounded s → IsBounded (insert item s).0
  insert-IsBounded item s v = elim (Bool-cases (contains s item)) [
    | inl old ↦ rw (insert_old item s old) v
    | inr new ↦ insert_new-IsBounded item s new v
  ]

  pub insert-capacity : (item : T) (s : BoundedSet T) → (insert item s).0.capacity ≡ s.capacity
  unfolding insert
  insert-capacity item s = ground arith

  -- What `insert` returns says whether the item was new, and the item is a member afterwards.
  pub insert-contains :
      (item : T) (s : BoundedSet T)
      → ((insert item s).1 ≡ not (contains s item)) × (contains (insert item s).0 item ≡ true)
  unfolding contains
  insert-contains item s = elim (Bool-cases (contains s item)) [
    | inl old ↦ rw (insert_old item s old) (ground arith)
    | inr new ↦
        rw (insert_new item s new)
          (ground (arith, contains-insert item item (room s).0, e.beq_true item item))
  ]
