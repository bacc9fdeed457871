-- ===== src/Riblt/Window/Stream.antt =====
-- The rateless stream of an encoder, against its definition.
use mathlib.Core.List.{append_assoc, append-nil}
use rateless_set_reconcile.Base.{
  ℕ, zero, suc, ◌+◌, ◌≤◌, ◌<◌, ◌≡◌, refl, sym, ap, ◌∙◌, Option, some, false, List, [], ◌∷◌, ◌++◌,
  arith, length, replicate, ◌==◌, All, map, ◌>>=◌,
}
use rateless_set_reconcile.Base.Array.{get}
use rateless_set_reconcile.Riblt.Symbol.{Symbol, IsXor, HashedSymbol, CodedSymbol, add, empty_coded}
use rateless_set_reconcile.Riblt.Mapping.{Jump, RandomMapping, new_mapping, Moves}
use rateless_set_reconcile.Riblt.Window.{
  CodingWindow, symbol_mapping_zero, mapping_zero, hashed_zero, by_coded_idx, new_window,
  add_hashed_symbol, produce_next_coded_symbol, apply_loop,
}
use rateless_set_reconcile.Riblt.Window.Visit.{coded_stream}
use rateless_set_reconcile.Riblt.Window.Apply.{
  IsConsistent, AllMove, IsApplied, apply_window-IsApplied,
}
use rateless_set_reconcile.Riblt.Window.Grow.{
  new_window-IsConsistent, add_hashed_symbol_with_mapping-IsConsistent,
  add_hashed_symbol_with_mapping-AllMove, added_at_head,
}

-- `AddHashedSymbol` for each of the symbols.
pub add_hashed_symbols : {T : Type 0} → List (HashedSymbol T) → CodingWindow T → CodingWindow T
add_hashed_symbols [] e = e
add_hashed_symbols (t ∷ ts) e = add_hashed_symbols ts (add_hashed_symbol e t)

module _ {T : Type 0} ⦃s : Symbol T⦄ ⦃j : Jump⦄ where
  -- `ProduceNextCodedSymbol`, called `n` times.
  unfoldable pub produce_coded_symbols :
      ℕ → ℕ → CodingWindow T → Option (List (CodedSymbol T) × CodingWindow T)
  produce_coded_symbols fuel zero e = some ([], e)
  produce_coded_symbols fuel (suc n) e = do
    (c, e') ← produce_next_coded_symbol fuel e
    (cs, e'') ← produce_coded_symbols fuel n e'
    some (c ∷ cs, e'')

  -- After `applyWindow` the window is consistent for the next index.
  pub next-IsConsistent :
      (n d : ℕ) (e : CodingWindow T) (c : CodedSymbol T) (r : CodedSymbol T × CodingWindow T)
      → IsApplied n d e c r
      → IsConsistent (record r.1 { next_idx = e.next_idx + 1 })
  next-IsConsistent n d e c r a = record {
    paired = a.consistent.paired;
    queued = a.consistent.queued;
    heap = a.consistent.heap;
    ahead = λ i p. omega (arith, a.past i p);
    fits = a.consistent.fits;
  }

  module _ (x : IsXor s) (n fuel : ℕ) where
    -- Any number of coded symbols that a consistent window produces are those of the definition.
    pub produce_coded_symbols-coded_stream :
        (k : ℕ) (e : CodingWindow T)
        → IsConsistent e
        → e.next_idx + k ≤ n
        → AllMove n e
        → length e.symbols < fuel
        → (e' : CodingWindow T) × (produce_coded_symbols fuel k e
            ≡ some (coded_stream e.next_idx k e.symbols e.mappings, e'))
          × IsConsistent e'
          × (e'.next_idx ≡ e.next_idx + k)
    unfolding produce_coded_symbols produce_next_coded_symbol
    produce_coded_symbols-coded_stream zero e v below moves f = (e, refl, v, omega arith)
    produce_coded_symbols-coded_stream (suc k) e v below moves f =
        let (r, ran, done) =
          apply_window-IsApplied x n add fuel e empty_coded v (omega arith) moves f in
        let one : e.next_idx + 1 ≡ suc e.next_idx = omega arith in
        let (e', rest, v', index) =
          produce_coded_symbols-coded_stream k (record r.1 { next_idx = e.next_idx + 1 })
            (next-IsConsistent n add e empty_coded r done) (omega arith) done.moves
            (rw done.symbols f) in
        let same : Option (List (CodedSymbol T) × CodingWindow T) =
          some (r.0 ∷ coded_stream (e.next_idx + 1) k r.1.symbols r.1.mappings, e') in
        let meets : same ≡ some (coded_stream e.next_idx (suc k) e.symbols e.mappings, e') = λ i.
          some (done.coded i ∷ coded_stream (one i) k (done.symbols i) (done.mappings i), e') in
        (e', rw (ran, rest) meets, v', omega arith)

module _ {T : Type 0} where
  pub add_hashed_symbols-symbols :
      (ts : List (HashedSymbol T)) (e : CodingWindow T)
      → (add_hashed_symbols ts e).symbols ≡ e.symbols ++ ts
  unfolding add_hashed_symbols add_hashed_symbol
  add_hashed_symbols-symbols [] e = sym (append-nil e.symbols)
  add_hashed_symbols-symbols (t ∷ ts) e =
      add_hashed_symbols-symbols ts (add_hashed_symbol e t) ∙ append_assoc e.symbols (t ∷ []) ts

  pub add_hashed_symbols-mappings :
      (ts : List (HashedSymbol T)) (e : CodingWindow T)
      → (add_hashed_symbols ts e).mappings ≡ e.mappings ++ map (λ t. new_mapping t.hash) ts
  unfolding add_hashed_symbols add_hashed_symbol
  add_hashed_symbols-mappings [] e = sym (append-nil e.mappings)
  add_hashed_symbols-mappings (t ∷ ts) e =
      add_hashed_symbols-mappings ts (add_hashed_symbol e t)
      ∙ append_assoc e.mappings (new_mapping t.hash ∷ []) (map (λ t. new_mapping t.hash) ts)

  pub add_hashed_symbols-next_idx :
      (ts : List (HashedSymbol T)) (e : CodingWindow T)
      → (add_hashed_symbols ts e).next_idx ≡ e.next_idx
  unfolding add_hashed_symbols add_hashed_symbol
  add_hashed_symbols-next_idx [] e = refl
  add_hashed_symbols-next_idx (t ∷ ts) e = add_hashed_symbols-next_idx ts (add_hashed_symbol e t)

  pub add_hashed_symbols-IsConsistent :
      (ts : List (HashedSymbol T)) (e : CodingWindow T)
      → IsConsistent e
      → e.next_idx ≡ 0
      → IsConsistent (add_hashed_symbols ts e)
  unfolding add_hashed_symbols add_hashed_symbol
  add_hashed_symbols-IsConsistent [] e v z = v
  add_hashed_symbols-IsConsistent (t ∷ ts) e v z =
      add_hashed_symbols-IsConsistent ts (add_hashed_symbol e t)
        (add_hashed_symbol_with_mapping-IsConsistent e t (new_mapping t.hash) v (omega arith)
          (omega arith))
        z

  pub add_hashed_symbols-AllMove :
      ⦃j : Jump⦄ (n : ℕ) (ts : List (HashedSymbol T)) (e : CodingWindow T)
      → AllMove n e
      → All (λ t. Moves n (new_mapping t.hash)) ts
      → AllMove n (add_hashed_symbols ts e)
  unfolding add_hashed_symbols add_hashed_symbol
  add_hashed_symbols-AllMove n [] e old new = old
  add_hashed_symbols-AllMove n (t ∷ ts) e old new =
      add_hashed_symbols-AllMove n ts (add_hashed_symbol e t)
        (add_hashed_symbol_with_mapping-AllMove e t (new_mapping t.hash) n old new.0) new.1

-- The mappings with which symbols are added.
abbrev pub fresh_mappings : {T : Type 0} → List (HashedSymbol T) → List RandomMapping
fresh_mappings = map (λ t. new_mapping t.hash)

module _ {T : Type 0} ⦃s : Symbol T⦄ ⦃j : Jump⦄ (x : IsXor s) where
  -- The first `n` coded symbols of an encoder of `ts` are, each, the sum of the symbols mapped to
  -- its index: if XOR is an exclusive or, each symbol's mapping moves on below `n` to indices that
  -- fit an int, and the fuel is above the number of symbols, production returns them, and leaves a
  -- consistent window at index `n`.
  pub encoder-coded_stream :
      (n fuel : ℕ) (ts : List (HashedSymbol T))
      → All (λ t. Moves n (new_mapping t.hash)) ts
      → length ts < fuel
      → (e' : CodingWindow T) × (produce_coded_symbols fuel n (add_hashed_symbols ts new_window)
          ≡ some (coded_stream 0 n ts (fresh_mappings ts), e'))
        × IsConsistent e'
        × (e'.next_idx ≡ n)
  encoder-coded_stream n fuel ts moves f =
      let e = add_hashed_symbols ts new_window in
      let index = add_hashed_symbols-next_idx ts new_window in
      let symbols = add_hashed_symbols-symbols ts new_window in
      let mappings = add_hashed_symbols-mappings ts new_window in
      let (e', ran, v, at) =
        produce_coded_symbols-coded_stream x n fuel n e
          (add_hashed_symbols-IsConsistent ts new_window new_window-IsConsistent refl) (omega arith)
          (add_hashed_symbols-AllMove n ts new_window (λ i p. absurd (omega arith)) moves)
          (rw symbols f) in
      let meets : coded_stream e.next_idx n e.symbols e.mappings
          ≡ coded_stream 0 n ts (fresh_mappings ts) =
        λ i. coded_stream (index i) n (symbols i) (mappings i) in
      (e', ran ∙ ap (λ (cs : List (CodedSymbol T)). some (cs, e')) meets, v, omega arith)

module _ {T : Type 0} ⦃s : Symbol T⦄ ⦃j : Jump⦄ where
  -- A window whose head is behind the next index applies nothing, and stays so.
  stuck_window :
      (k fuel : ℕ) (e : CodingWindow T)
      → 0 < length e.queue
      → (get e.queue 0).coded_idx < e.next_idx
      → 0 < fuel
      → (e' : CodingWindow T) × (produce_coded_symbols fuel k e
          ≡ some (replicate k empty_coded, e'))
  unfolding produce_coded_symbols produce_next_coded_symbol apply_loop
  stuck_window zero fuel e h late f = (e, refl)
  stuck_window (suc k) zero e h late f = absurd (omega arith)
  stuck_window (suc k) (suc fuel) e h late f =
      let busy : (length e.queue == 0) ≡ false = ground arith in
      let settled : ((get e.queue 0).coded_idx == e.next_idx) ≡ false = ground arith in
      let (e', rest) =
        stuck_window k (suc fuel) (record e { next_idx = e.next_idx + 1 }) h (omega arith) f in
      (e', rw (busy, settled, rest))

  index_stays :
      (e : CodingWindow T) (t : HashedSymbol T)
      → 0 < e.next_idx
      → 0 < (add_hashed_symbol e t).next_idx
  unfolding add_hashed_symbol
  index_stays e t h = h

  -- If a symbol is added to a consistent window that has already produced a coded symbol, every
  -- later coded symbol is empty, for any positive fuel.
  pub late_symbol_blocks :
      (e : CodingWindow T) (t : HashedSymbol T) (k fuel : ℕ)
      → IsConsistent e
      → 0 < e.next_idx
      → 0 < fuel
      → (e' : CodingWindow T) × (produce_coded_symbols fuel k (add_hashed_symbol e t)
          ≡ some (replicate k empty_coded, e'))
  unfolding add_hashed_symbol
  late_symbol_blocks e t k fuel v late f =
      let (h, at) = added_at_head e t (new_mapping t.hash) v refl in
      stuck_window k fuel (add_hashed_symbol e t) h (rw at (index_stays e t late)) f
