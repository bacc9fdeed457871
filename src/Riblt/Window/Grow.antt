-- ===== src/Riblt/Window/Grow.antt =====
-- Adding symbols keeps the window consistent.
use mathlib.Core.List.Perm
use rateless_set_reconcile.Base.{
  ℕ, ◌+◌, ◌-◌, ◌≤◌, ◌<◌, ◌≡◌, refl, Bool-cases, inl, inr, List, [], ◌∷◌, ◌++◌, Perm, arith, length,
  length-append, ◌==◌, ==_iff,
}
use rateless_set_reconcile.Base.Array.{get, mem_of_get, get-append_left, get-append_last}
use rateless_set_reconcile.Base.Word.{i63, less_int-le}
use rateless_set_reconcile.Heap.{sift_up}
use rateless_set_reconcile.Heap.Laws.{le, head_least}
use rateless_set_reconcile.Heap.Up.{sift_up-append}
use rateless_set_reconcile.Riblt.Symbol.{HashedSymbol}
use rateless_set_reconcile.Riblt.Mapping.{Jump, RandomMapping, Moves}
use rateless_set_reconcile.Riblt.Window.{
  CodingWindow, symbol_mapping_zero, mapping_zero, by_coded_idx, fix_tail, new_window, reset,
  add_hashed_symbol_with_mapping,
}
use rateless_set_reconcile.Riblt.Window.Entries.{entry, entries, entries-append, entry-mem}
use rateless_set_reconcile.Riblt.Window.Apply.{
  IsConsistent, AllMove, length-queue, head-lt, head-last_idx,
}

pub new_window-IsConsistent : {T : Type 0} → IsConsistent (new_window {T = T})
new_window-IsConsistent = record {
  paired = refl;
  queued = Perm.nil;
  heap = λ c p q. absurd (omega arith);
  ahead = λ i p. absurd (omega arith);
  fits = λ i p. absurd (omega arith);
}

pub reset-new_window : {T : Type 0} (e : CodingWindow T) → reset e ≡ new_window
unfolding reset
reset-new_window e = refl

-- What holds of all entries and of one more holds of the longer list.
get-append_one {ℓ} :
    (P : RandomMapping → Type ℓ) (ms : List RandomMapping) (m : RandomMapping)
    → ((i : ℕ) → i < length ms → P (get ms i))
    → P m
    → (i : ℕ) → i < length (ms ++ m ∷ [])
    → P (get (ms ++ m ∷ []) i)
get-append_one P ms m old new i p = elim (Bool-cases (i == length ms)) [
  | inl last ↦ rw ((==_iff _ _).0 last, get-append_last ms m) new
  | inr other ↦
      let lt : i < length ms = ground (arith, length-append ms (m ∷ [])) in
      rw (get-append_left ms (m ∷ []) i lt) (old i lt)
]

module _ {T : Type 0} (e : CodingWindow T) (t : HashedSymbol T) (m : RandomMapping) where
  -- A symbol added with a mapping that is not behind the next index and fits an int keeps a window
  -- consistent: as many mappings as symbols, one queue entry for each at its mapping's index, in
  -- the heap order of signed indices, none behind the next index, and all within an int.
  pub add_hashed_symbol_with_mapping-IsConsistent :
      IsConsistent e
      → e.next_idx ≤ m.last_idx
      → m.last_idx < i63
      → IsConsistent (add_hashed_symbol_with_mapping e t m)
  unfolding add_hashed_symbol_with_mapping fix_tail
  add_hashed_symbol_with_mapping-IsConsistent v near small =
      let size = length-append e.symbols (t ∷ []) in
      let last : length (e.symbols ++ t ∷ []) - 1 ≡ 0 + length e.mappings =
        omega (arith, v.paired) in
      let x = entry (0 + length e.mappings) m in
      let end : length (e.queue ++ x ∷ []) - 1 ≡ length e.queue =
        omega (arith, length-append e.queue (x ∷ [])) in
      let heaped = sift_up-append e.queue x v.heap in
      let grown : Perm (sift_up (e.queue ++ x ∷ []) (length e.queue))
          (entries 0 (e.mappings ++ m ∷ [])) =
        rw (entries-append 0 e.mappings m)
          (Perm.trans heaped.1 (Perm.append_right (x ∷ []) v.queued)) in
      rw (last, end)
        (record {
          paired = omega (arith, length-append e.mappings (m ∷ []), v.paired);
          queued = grown;
          heap = heaped.0;
          ahead = get-append_one (λ l. e.next_idx ≤ l.last_idx) e.mappings m v.ahead near;
          fits = get-append_one (λ l. l.last_idx < i63) e.mappings m v.fits small;
        })

  pub add_hashed_symbol_with_mapping-AllMove :
      ⦃j : Jump⦄ (n : ℕ)
      → AllMove n e
      → Moves n m
      → AllMove n (add_hashed_symbol_with_mapping e t m)
  unfolding add_hashed_symbol_with_mapping
  add_hashed_symbol_with_mapping-AllMove n old new = get-append_one (Moves n) e.mappings m old new

-- If some mapping stands at 0, so does the head of the queue.
head_at_zero :
    {T : Type 0} (e : CodingWindow T) (i : ℕ)
    → IsConsistent e
    → i < length e.mappings
    → (get e.mappings i).last_idx ≡ 0
    → (0 < length e.queue) × ((get e.queue 0).coded_idx ≡ 0)
head_at_zero e i v p start =
    let busy : 0 < length e.queue = omega (arith, length-queue e v) in
    let low_fits = v.fits (get e.queue 0).source_idx (head-lt e v busy) in
    let head_fits : (get e.queue 0).coded_idx < i63 = omega (arith, head-last_idx e v busy) in
    let least =
      mem_of_get (le (get e.queue 0)) (λ x. hlevel) e.queue
        (λ k q. head_least (length e.queue) e.queue k v.heap q) (entry i (get e.mappings i))
        (entry-mem e.queue e.mappings v.queued i p) in
    (busy, omega (arith, less_int-le _ _ head_fits (v.fits i p) least))

module _ {T : Type 0} (e : CodingWindow T) (t : HashedSymbol T) (m : RandomMapping) where
  -- A symbol whose mapping starts at 0 puts 0 at the head of the queue.
  pub added_at_head :
      IsConsistent e
      → m.last_idx ≡ 0
      → (0 < length (add_hashed_symbol_with_mapping e t m).queue)
        × ((get (add_hashed_symbol_with_mapping e t m).queue 0).coded_idx ≡ 0)
  unfolding add_hashed_symbol_with_mapping
  added_at_head v start =
      let old : CodingWindow T = record e { next_idx = 0 } in
      let ov : IsConsistent old = record {
        paired = v.paired;
        queued = v.queued;
        heap = v.heap;
        ahead = λ i p. omega arith;
        fits = v.fits;
      } in
      head_at_zero (add_hashed_symbol_with_mapping old t m) (length e.mappings)
        (add_hashed_symbol_with_mapping-IsConsistent old t m ov (omega arith) (omega arith))
        (omega (arith, length-append e.mappings (m ∷ []))) (rw get-append_last start)
