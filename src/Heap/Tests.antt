-- ===== src/Heap/Tests.antt =====
-- The heap at lists of numbers.
use rateless_set_reconcile.Base.{
  ℕ, zero, suc, ◌<◌, ◌≡◌, ◌≢◌, refl, true, false, List, [], ◌∷◌, ◌++◌, arith, ltb,
}
use rateless_set_reconcile.Base.Array.{Zero, get, swap}
use rateless_set_reconcile.Heap.{Order, sift_up, sift_down, heap_pop, parent}
use rateless_set_reconcile.Heap.Laws.{IsHeap}
use rateless_set_reconcile.Heap.Up.{Heaped, sift_up-append}
use rateless_set_reconcile.Heap.Down.{IsSunk, sift_down_head}
use rateless_set_reconcile.Heap.Pop.{IsPopped, heap_pop-IsPopped}

instance abbrev number_zero : Zero ℕ
number_zero = record { zero_value = 0 }

ltb_asymm : (x y : ℕ) → ltb x y ≡ true → ltb y x ≡ false
ltb_asymm x y h = ground arith

ltb_trans : (x y z : ℕ) → ltb y x ≡ false → ltb z y ≡ false → ltb z x ≡ false
ltb_trans x y z h k = ground arith

instance abbrev by_number : Order ℕ
by_number = record { lt = ltb; lt_asymm = ltb_asymm; not_lt_trans = ltb_trans }

abbrev few : List ℕ
few = 2 ∷ 5 ∷ 3 ∷ []

few-IsHeap : IsHeap 3 few
unfolding get
few-IsHeap zero p q = absurd (omega arith)
few-IsHeap (suc zero) p q = refl
few-IsHeap (suc (suc zero)) p q = refl
few-IsHeap (suc (suc (suc c))) p q = absurd (omega arith)

sift_up-append_example : Heaped (few ++ 1 ∷ []) (sift_up (few ++ 1 ∷ []) 3)
sift_up-append_example = sift_up-append few 1 few-IsHeap

sift_up-few : sift_up (few ++ 1 ∷ []) 3 ≡ 1 ∷ 2 ∷ 3 ∷ 5 ∷ []
unfolding sift_up get swap
sift_up-few = refl

abbrev written : List ℕ
written = 9 ∷ 5 ∷ 3 ∷ []

written-edges :
    (c : ℕ) → 0 < c → c < 3 → parent c ≢ 0 → ltb (get written c) (get written (parent c)) ≡ false
unfolding get
written-edges zero p q r = absurd (omega arith)
written-edges (suc zero) p q r = absurd (r refl)
written-edges (suc (suc zero)) p q r = absurd (r refl)
written-edges (suc (suc (suc c))) p q r = absurd (omega arith)

sift_down_head_example : IsSunk 3 written (sift_down 3 written 0)
sift_down_head_example = sift_down_head 3 written (omega arith) written-edges

heap_pop-IsPopped_example : IsPopped few (heap_pop few)
heap_pop-IsPopped_example = heap_pop-IsPopped few few-IsHeap (omega arith)
