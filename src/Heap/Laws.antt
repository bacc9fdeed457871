-- ===== src/Heap/Laws.antt =====
-- The heap order of the first `n` entries, and what it says of the head.
use rateless_set_reconcile.Base.{ℕ, zero, suc, ◌<◌, ◌≡◌, false, List, arith, Bool-cases, inl, inr}
use rateless_set_reconcile.Base.Array.{Zero, get}
use rateless_set_reconcile.Heap.{Order, parent}

module _ {ℓ} {A : Type ℓ} ⦃o : Order A⦄ where
  -- `x` is not above `y`.
  abbrev pub le : A → A → Type 0
  le x y = o.lt y x ≡ false

  pub le_refl : (x : A) → le x x
  le_refl x = elim (Bool-cases (o.lt x x)) [ inl h ↦ o.lt_asymm x x h | inr h ↦ h ]

module _ {ℓ} {A : Type ℓ} ⦃z : Zero A⦄ ⦃o : Order A⦄ where
  -- No entry is less than its parent.
  abbrev pub IsHeap : ℕ → List A → Type 0
  IsHeap n a = (c : ℕ) → 0 < c → c < n → le (get a (parent c)) (get a c)

  head_least_below :
      (k n : ℕ) (a : List A) (i : ℕ) → IsHeap n a → i < k → i < n → le (get a 0) (get a i)
  head_least_below zero n a i h f p = absurd (omega arith)
  head_least_below (suc k) n a zero h f p = le_refl (get a 0)
  head_least_below (suc k) n a (suc i) h f p =
      o.not_lt_trans (get a 0) (get a (parent (suc i))) (get a (suc i))
        (head_least_below k n a (parent (suc i)) h (omega arith) (omega arith))
        (h (suc i) (omega arith) p)

  -- No entry of a heap is less than its head.
  pub head_least : (n : ℕ) (a : List A) (i : ℕ) → IsHeap n a → i < n → le (get a 0) (get a i)
  head_least n a i h p = head_least_below (suc i) n a i h (omega arith) p
