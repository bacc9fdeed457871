-- ===== src/Heap/Up.antt =====
-- `fixTail` restores the heap after an entry was appended.
use mathlib.Core.Logic.{◌≢◌}
use mathlib.Core.List.Perm
use rateless_set_reconcile.Base.{
  ℕ, zero, suc, ◌<◌, ◌≡◌, true, not, ◌||◌, List, [], ◌∷◌, ◌++◌, Perm, arith, Bool-cases, inl, inr,
  length, length-append, ◌==◌,
}
use rateless_set_reconcile.Base.Array.{
  Zero, get, swap, swap-perm, get-swap, length-swap, get-append_left,
}
use rateless_set_reconcile.Heap.{Order, parent, sift_up_loop, sift_up}
use rateless_set_reconcile.Heap.Laws.{le, IsHeap}

module _ {ℓ} {A : Type ℓ} ⦃z : Zero A⦄ ⦃o : Order A⦄ where
  -- Only the edge above `i` may be out of order, and the parent of `i` is not above its children.
  pub record IsRising (a : List A) (i : ℕ) : Type 0 where
    pub inside : i < length a
    pub edges : (c : ℕ) → 0 < c → c < length a → c ≢ i → le (get a (parent c)) (get a c)
    pub spans :
        (c : ℕ) → 0 < c → c < length a → parent c ≡ i → 0 < i → le (get a (parent i)) (get a c)

  swap-IsRising :
      (a : List A) (i : ℕ)
      → IsRising a i
      → 0 < i
      → o.lt (get a i) (get a (parent i)) ≡ true
      → IsRising (swap a (parent i) i) (parent i)
  swap-IsRising a i v pos less =
      let p = parent i in
      let size = length-swap a p i in
      let here = get-swap a p i (omega (arith, v.inside)) v.inside in
      let over = o.lt_asymm (get a i) (get a p) less in
      record {
        inside = omega (arith, size, v.inside);
        edges = λ c q r s. ground (
          arith,
          size,
          here c,
          here (parent c),
          over,
          v.edges c,
          v.spans c,
          o.not_lt_trans (get a i) (get a p) (get a c),
        );
        spans = λ c q r s t. ground (
          arith,
          size,
          here c,
          here (parent p),
          v.edges c,
          v.edges p,
          o.not_lt_trans (get a (parent p)) (get a p) (get a c),
        );
      }

  -- The result holds the same entries as `a`, as a heap.
  abbrev pub Heaped : List A → List A → Type ℓ
  Heaped a b = IsHeap (length b) b × Perm b a

  Heaped-trans : {a b c : List A} → Heaped b c → Perm b a → Heaped a c
  Heaped-trans h p = (h.0, Perm.trans h.1 p)

  sift_up_loop-Heaped :
      (k : ℕ) (a : List A) (i : ℕ) → i < k → IsRising a i → Heaped a (sift_up_loop k a i)
  unfolding sift_up_loop
  sift_up_loop-Heaped zero a i f v = absurd (omega arith)
  sift_up_loop-Heaped (suc k) a i f v =
      elim (Bool-cases (i == parent i || not (o.lt (get a i) (get a (parent i))))) [
        | inl stop ↦ rw stop ((λ c q r. ground (arith, v.edges c)), Perm.rfl)
        | inr climb ↦ rw climb (
            Heaped-trans
              (sift_up_loop-Heaped k (swap a (parent i) i) (parent i) (ground arith)
                (swap-IsRising a i v (ground arith) (ground arith)))
              (swap-perm a (parent i) i (omega (arith, v.inside)) v.inside))
      ]

  append-IsRising : (a : List A) (x : A) → IsHeap (length a) a → IsRising (a ++ x ∷ []) (length a)
  append-IsRising a x h =
      let size = length-append a (x ∷ []) in
      let kept = get-append_left a (x ∷ []) in
      record {
        inside = omega (arith, size);
        edges = λ c q r s. ground (arith, size, h c, kept c, kept (parent c));
        spans = λ c q r s t. absurd (omega (arith, size));
      }

  -- An entry appended to a heap and moved up as fixTail does makes a heap of the old entries and
  -- the new one.
  pub sift_up-append :
      (a : List A) (x : A)
      → IsHeap (length a) a
      → Heaped (a ++ x ∷ []) (sift_up (a ++ x ∷ []) (length a))
  unfolding sift_up
  sift_up-append a x h =
      sift_up_loop-Heaped (suc (length a)) (a ++ x ∷ []) (length a) (omega arith)
        (append-IsRising a x h)
