-- ===== src/BoundedSet.antt =====
-- `BoundedSet` of src/zmq.rs: a set with the order in which its members came, and a capacity.
pub mod Invariant
pub mod Window
use nexus_relay.Prelude.{ℕ, Bool, true, false, List, [], ◌∷◌, ◌++◌, leb, if◌then◌else◌, Eq, length}
use nexus_relay.Prelude
use nexus_relay.Std.HashSet

-- The front of the queue is the head of the list.
pub record BoundedSet {ℓ} (T : Type ℓ) : Type ℓ where
  pub set : List T
  pub queue : List T
  pub capacity : ℕ

module _ {ℓ} {T : Type ℓ} ⦃e : Eq T⦄ where
  unfoldable pub new : ℕ → BoundedSet T
  new capacity = record { set = []; queue = []; capacity = capacity }

  unfoldable pub contains : BoundedSet T → T → Bool
  contains s item = Prelude.contains s.set item

  -- `if let Some(oldest) = queue.pop_front() { set.remove(&oldest); }`
  evict : List T → List T → List T × List T
  evict set [] = (set, [])
  evict set (oldest ∷ rest) = (HashSet.remove oldest set, rest)

  pub insert : T → BoundedSet T → BoundedSet T × Bool
  unfolding contains evict
  insert item s =
      if contains s item
      then (s, false)
      else let (set, queue) =
          if leb s.capacity (length s.queue) then evict s.set s.queue else (s.set, s.queue) in
        (record s { set = HashSet.insert item set; queue = queue ++ item ∷ [] }, true)
