-- ===== src/Riblt/Window/Negative.antt =====
-- riblt/encoder.go: a mapping whose index is negative as an `int` stays at the head of the queue.
use rateless_set_reconcile.Base.{
  ℕ, zero, suc, ◌+◌, ◌≤◌, ◌<◌, ◌≡◌, some, false, [], arith, length, replicate, ◌==◌,
}
use rateless_set_reconcile.Base.Array.{get}
use rateless_set_reconcile.Base.Word.{u64, i63, less_int}
use rateless_set_reconcile.Heap.Laws.{IsHeap, head_least}
use rateless_set_reconcile.Riblt.Symbol.{Symbol, empty_coded}
use rateless_set_reconcile.Riblt.Mapping.{Jump}
use rateless_set_reconcile.Riblt.Window.{
  CodingWindow, symbol_mapping_zero, by_coded_idx, produce_next_coded_symbol, apply_loop,
}
use rateless_set_reconcile.Riblt.Window.Stream.{produce_coded_symbols}

less_int-negative : (a b : ℕ) → i63 ≤ b → b < u64 → less_int b a ≡ false → i63 ≤ a
less_int-negative a b p q h = ground arith

module _ {T : Type 0} ⦃s : Symbol T⦄ ⦃j : Jump⦄ where
  -- A head that no index below 2^63 meets.
  blocked_window :
      (k fuel : ℕ) (e : CodingWindow T)
      → 0 < length e.queue
      → i63 ≤ (get e.queue 0).coded_idx
      → e.next_idx + k ≤ i63
      → 0 < fuel
      → produce_coded_symbols fuel k e
        ≡ some (replicate k empty_coded, record e { next_idx = e.next_idx + k })
  unfolding produce_coded_symbols produce_next_coded_symbol apply_loop
  blocked_window zero fuel e h negative near f =
      let same : e.next_idx ≡ e.next_idx + 0 = omega arith in
      λ i. some ([], record e { next_idx = same i })
  blocked_window (suc k) zero e h negative near f = absurd (omega arith)
  blocked_window (suc k) (suc fuel) e h negative near f =
      let busy : (length e.queue == 0) ≡ false = ground arith in
      let apart : ((get e.queue 0).coded_idx == e.next_idx) ≡ false = ground arith in
      let rest =
        blocked_window k (suc fuel) (record e { next_idx = e.next_idx + 1 }) h negative
          (omega arith) f in
      let index : e.next_idx + 1 + k ≡ e.next_idx + suc k = omega arith in
      rw (busy, apart, rest)
        (λ i. some (replicate (suc k) empty_coded, record e { next_idx = index i }))

  -- If the queue of a window is a heap and one of its entries stands at an index from 2^63 on,
  -- which is negative as an int, every coded symbol that the window produces until its next index
  -- is 2^63 is empty, for any positive fuel, and the window changes in its next index only.
  pub negative_index_blocks :
      (e : CodingWindow T) (i k fuel : ℕ)
      → IsHeap (length e.queue) e.queue
      → i < length e.queue
      → i63 ≤ (get e.queue i).coded_idx
      → (get e.queue i).coded_idx < u64
      → e.next_idx + k ≤ i63
      → 0 < fuel
      → produce_coded_symbols fuel k e
        ≡ some (replicate k empty_coded, record e { next_idx = e.next_idx + k })
  negative_index_blocks e i k fuel heap inside negative word near f =
      let least = head_least (length e.queue) e.queue i heap inside in
      blocked_window k fuel e (omega arith)
        (less_int-negative _ (get e.queue i).coded_idx negative word least) near f
