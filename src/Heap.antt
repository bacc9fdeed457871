-- ===== src/Heap.antt =====
-- Binary heaps kept in a slice: the sift loops of riblt/encoder.go (fixHead, fixTail), which are
-- also those of Go's container/heap, over any order on the entries.
pub mod Laws
pub mod Up
pub mod Down
pub mod Pop
mod Tests
use rateless_set_reconcile.Base.{
  ℕ, zero, suc, ◌+◌, ◌-◌, ◌*◌, ◌/◌, ◌≤◌, ◌<◌, ◌≡◌, Bool, true, false, not, ◌&&◌, ◌||◌, List, ltb,
  leb, ◌==◌, if◌then◌else◌, [], ◌∷◌, ◌++◌, length, take,
}
use rateless_set_reconcile.Base.Array.{Zero, get, swap}

-- A strict order whose negation is transitive: what a `Less` method has to give.
pub record Order {ℓ} (A : Type ℓ) : Type ℓ where
  pub lt : A → A → Bool
  pub lt_asymm : (x y : A) → lt x y ≡ true → lt y x ≡ false
  pub not_lt_trans : (x y z : A) → lt y x ≡ false → lt z y ≡ false → lt z x ≡ false

abbrev pub parent : ℕ → ℕ
parent c = (c - 1) / 2

module _ {ℓ} {A : Type ℓ} ⦃z : Zero A⦄ ⦃o : Order A⦄ where
  -- `fixTail` from the entry at `i`, on fuel; the entry climbs while it is less than its parent.
  sift_up_loop : ℕ → List A → ℕ → List A
  sift_up_loop zero a i = a
  sift_up_loop (suc k) a i =
      let rise = sift_up_loop k (swap a (parent i) i) (parent i) in
      if i == parent i || not (o.lt (get a i) (get a (parent i))) then a else rise

  -- The index at least halves in each round, so `i + 1` rounds are enough.
  unfoldable pub sift_up : List A → ℕ → List A
  unfolding sift_up_loop
  sift_up a i = sift_up_loop (suc i) a i

  -- The lesser child of `i` among the first `n` entries; the left one if the right one is missing.
  pub lesser_child : ℕ → List A → ℕ → ℕ
  lesser_child n a i =
      let left = i * 2 + 1 in
      if ltb (left + 1) n && o.lt (get a (left + 1)) (get a left) then left + 1 else left

  -- `fixHead` from the entry at `i`, on fuel, within the first `n` entries.
  sift_down_loop : ℕ → ℕ → List A → ℕ → List A
  unfolding lesser_child
  sift_down_loop zero n a i = a
  sift_down_loop (suc k) n a i =
      let child = lesser_child n a i in
      let sink = sift_down_loop k n (swap a i child) child in
      if leb n (i * 2 + 1) then a else if not (o.lt (get a child) (get a i)) then a else sink

  -- The index grows in each round and stays below `n`.
  unfoldable pub sift_down : ℕ → List A → ℕ → List A
  unfolding sift_down_loop
  sift_down n a i = sift_down_loop (suc n) n a i

  -- `heap.Push` of Go's container/heap: `Push` of the slice, then `up`.
  unfoldable pub heap_push : List A → A → List A
  unfolding sift_up
  heap_push a x = sift_up (a ++ x ∷ []) (length a)

  -- `heap.Pop`: the head is swapped to the end, the others are sifted, and the end is cut off.
  unfoldable pub heap_pop : List A → A × List A
  unfolding sift_down
  heap_pop a =
      let last = length a - 1 in
      let b = sift_down last (swap a 0 last) 0 in (get b last, take last b)
