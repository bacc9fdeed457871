-- ===== src/Heap/Down.antt =====
-- `fixHead` restores the heap after its head was written.
use mathlib.Core.Logic.{◌≢◌}
use mathlib.Core.List.Perm
use rateless_set_reconcile.Base.{
  ℕ, zero, suc, ◌+◌, ◌-◌, ◌*◌, ◌≤◌, ◌<◌, ◌≡◌, refl, true, ◌&&◌, List, Perm, arith, Bool-cases, inl,
  inr, length, ltb, leb,
}
use rateless_set_reconcile.Base.Array.{Zero, get, swap, swap-perm, get-swap, length-swap}
use rateless_set_reconcile.Heap.{Order, parent, lesser_child, sift_down_loop, sift_down}
use rateless_set_reconcile.Heap.Laws.{le, le_refl, IsHeap}

module _ {ℓ} {A : Type ℓ} ⦃z : Zero A⦄ ⦃o : Order A⦄ where
  -- Only the edges below `i` may be out of order, and the parent of `i` is not above its children.
  pub record IsSinking (n : ℕ) (a : List A) (i : ℕ) : Type 0 where
    pub edges : (c : ℕ) → 0 < c → c < n → parent c ≢ i → le (get a (parent c)) (get a c)
    pub spans : (c : ℕ) → 0 < c → c < n → parent c ≡ i → 0 < i → le (get a (parent i)) (get a c)

  record IsLesserChild (n : ℕ) (a : List A) (i m : ℕ) : Type 0 where
    inside : m < n
    child : parent m ≡ i
    below : i < m
    least : (c : ℕ) → 0 < c → c < n → parent c ≡ i → le (get a m) (get a c)

  lesser_child-IsLesserChild :
      (n : ℕ) (a : List A) (i : ℕ) → i * 2 + 1 < n → IsLesserChild n a i (lesser_child n a i)
  unfolding lesser_child
  lesser_child-IsLesserChild n a i h =
      elim (Bool-cases
        (ltb (i * 2 + 1 + 1) n && o.lt (get a (i * 2 + 1 + 1)) (get a (i * 2 + 1)))) [
          | inl right ↦ rw right (record {
            inside = ground arith;
            child = omega arith;
            below = omega arith;
            least = λ c p q r. ground (
              arith,
              le_refl (get a (i * 2 + 1 + 1)),
              o.lt_asymm (get a (i * 2 + 1 + 1)) (get a (i * 2 + 1)),
            );
          })
          | inr left ↦ rw left (record {
            inside = h;
            child = omega arith;
            below = omega arith;
            least = λ c p q r. ground (arith, le_refl (get a (i * 2 + 1)));
          })
        ]

  module _ (n : ℕ) (a : List A) (i m : ℕ) (fits : n ≤ length a) (v : IsSinking n a i)
      (s : IsLesserChild n a i m) (less : o.lt (get a m) (get a i) ≡ true) where
    swap-IsSinking : IsSinking n (swap a i m) m
    swap-IsSinking =
        let here = get-swap a i m (omega (arith, s.inside, s.below)) (omega (arith, s.inside)) in
        let over = o.lt_asymm (get a m) (get a i) less in
        record {
          edges = λ c p q r. ground (
            arith,
            here c,
            here (parent c),
            over,
            s.child,
            s.below,
            v.edges c,
            v.spans m,
            s.inside,
            s.least c,
          );
          spans = λ c p q r t. ground (arith, here c, here (parent m), s.child, s.below, v.edges c);
        }

  -- The first `n` entries are a heap, of the same entries, and the rest is as it was.
  pub record IsSunk (n : ℕ) (a b : List A) : Type ℓ where
    pub heap : IsHeap n b
    pub same : Perm b a
    pub rest : (j : ℕ) → n ≤ j → get b j ≡ get a j

  sift_down_loop-IsSunk :
      (k n : ℕ) (a : List A) (i : ℕ)
      → n - i < k
      → n ≤ length a
      → IsSinking n a i
      → IsSunk n a (sift_down_loop k n a i)
  unfolding sift_down_loop
  sift_down_loop-IsSunk zero n a i f fits v = absurd (omega arith)
  sift_down_loop-IsSunk (suc k) n a i f fits v = elim (Bool-cases (leb n (i * 2 + 1))) [
    | inl leaf ↦
        rw leaf (record {
          heap = λ c p q. ground (arith, v.edges c);
          same = Perm.rfl;
          rest = λ j h. refl;
        })
    | inr inner ↦
        let m = lesser_child n a i in
        let s : IsLesserChild n a i m = lesser_child-IsLesserChild n a i (ground arith) in
        elim (Bool-cases (o.lt (get a m) (get a i))) [
          | inl less ↦
              let done =
                sift_down_loop-IsSunk k n (swap a i m) m (omega (arith, s.inside, s.below))
                  (rw length-swap fits) (swap-IsSinking n a i m fits v s less) in
              let hi : i < length a = omega (arith, s.inside, s.below) in
              let hm : m < length a = omega (arith, s.inside) in
              rw (inner, less)
                (record {
                  heap = done.heap;
                  same = Perm.trans done.same (swap-perm a i m hi hm);
                  rest =
                      λ j h. ground (arith, done.rest j, get-swap a i m hi hm j, s.inside, s.below);
                })
          | inr settled ↦
              rw (inner, settled)
                (record {
                  heap = λ c p q.
                      ground
                        (arith, v.edges c, s.least c, o.not_lt_trans (get a i) (get a m) (get a c));
                  same = Perm.rfl;
                  rest = λ j h. refl;
                })
        ]
  ]

  -- If the first `n` entries are in heap order but for their head, moving the head down as fixHead
  -- does makes them a heap of the same entries, and leaves the rest as it was.
  pub sift_down_head :
      (n : ℕ) (a : List A)
      → n ≤ length a
      → ((c : ℕ) → 0 < c → c < n → parent c ≢ 0 → le (get a (parent c)) (get a c))
      → IsSunk n a (sift_down n a 0)
  unfolding sift_down
  sift_down_head n a fits h =
      sift_down_loop-IsSunk (suc n) n a 0 (omega arith) fits
        (record { edges = h; spans = λ c p q r s. absurd (omega arith) })
