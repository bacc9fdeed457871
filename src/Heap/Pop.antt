-- ===== src/Heap/Pop.antt =====
-- `heap.Pop` takes out a least entry, and `heap.Push` adds one.
use mathlib.Core.List.Perm
use rateless_set_reconcile.Base.{
  ℕ, suc, ◌-◌, ◌<◌, ◌≡◌, ◌∙◌, List, ◌∷◌, Perm, arith, length, take, length-take, length-perm,
}
use rateless_set_reconcile.Base.Array.{
  Zero, get, swap, swap-perm, get-swap, length-swap, get-take, take-append-get, append_one-perm,
}
use rateless_set_reconcile.Heap.{Order, parent, sift_down, heap_push, heap_pop}
use rateless_set_reconcile.Heap.Laws.{le, IsHeap, head_least}
use rateless_set_reconcile.Heap.Up.{sift_up-append}
use rateless_set_reconcile.Heap.Down.{sift_down_head}

module _ {ℓ} {A : Type ℓ} ⦃z : Zero A⦄ ⦃o : Order A⦄ where
  -- A pushed heap is a heap of one entry more.
  pub heap_push-IsHeap :
      (a : List A) (x : A)
      → IsHeap (length a) a
      → IsHeap (length (heap_push a x)) (heap_push a x) × Perm (heap_push a x) (x ∷ a)
  unfolding heap_push
  heap_push-IsHeap a x h =
      let (heap, same) = sift_up-append a x h in (heap, Perm.trans same (append_one-perm a x))

  pub record IsPopped (a : List A) (r : A × List A) : Type ℓ where
    pub first : r.0 ≡ get a 0
    pub same : Perm (r.0 ∷ r.1) a
    pub heap : IsHeap (length r.1) r.1
    pub least : (i : ℕ) → i < length a → le r.0 (get a i)

  -- Popping from a heap that is not empty returns its head, which no entry is less than, and
  -- leaves a heap of the other entries.
  pub heap_pop-IsPopped :
      (a : List A) → IsHeap (length a) a → 0 < length a → IsPopped a (heap_pop a)
  unfolding heap_pop
  heap_pop-IsPopped a h p =
      let n = length a - 1 in
      let q = swap a 0 n in
      let here = get-swap a 0 n p (omega arith) in
      let size : length q ≡ suc n = omega (arith, length-swap a 0 n) in
      let sunk =
        sift_down_head n q (omega arith)
          (λ c k l m. ground (arith, here c, here (parent c), h c)) in
      let b = sift_down n q 0 in
      let size_b : length b ≡ suc n = length-perm sunk.same ∙ size in
      let cut : length (take n b) ≡ n = omega (arith, length-take n b) in
      let first : get b n ≡ get a 0 = sunk.rest n (omega arith) ∙ ground (arith, here n) in
      record {
        first = first;
        same = Perm.trans (Perm.symm (append_one-perm (take n b) (get b n))) (
            rw (take-append-get n b size_b)
              (Perm.trans sunk.same (swap-perm a 0 n p (omega arith))));
        heap = λ c k l.
            rw (get-take n b c (omega arith), get-take n b (parent c) (omega arith))
              (sunk.heap c k (omega arith));
        least = λ i k. rw first (head_least (length a) a i h k);
      }
