-- ===== src/Riblt/Sketch/Laws.antt =====
-- A sketch is the beginning of the encoder's stream.
use rateless_set_reconcile.Base.{
  ℕ, ◌<◌, ◌≡◌, refl, ap, ◌∙◌, some, List, [], ◌∷◌, length, length-replicate, replicate, All, arith,
}
use rateless_set_reconcile.Riblt.Symbol.{
  Symbol, IsXor, HashedSymbol, CodedSymbol, add, empty_coded, apply,
}
use rateless_set_reconcile.Riblt.Mapping.{Jump, new_mapping, Moves}
use rateless_set_reconcile.Riblt.Window.{CodingWindow, new_window}
use rateless_set_reconcile.Riblt.Window.Visit.{
  visit, length-visit, visit_all, coded_stream, visit_all-coded_stream, walk_loop-visit,
}
use rateless_set_reconcile.Riblt.Window.Stream.{
  add_hashed_symbols as encoder_add, produce_coded_symbols, fresh_mappings, encoder-coded_stream,
}
use rateless_set_reconcile.Riblt.Sketch.{
  add_to_cell, add_hashed_symbol, add_hashed_symbols, coded_zero,
}

module _ {T : Type 0} ⦃s : Symbol T⦄ ⦃j : Jump⦄ where
  add_to_cell-apply : (t : HashedSymbol T) → add_to_cell t ≡ (λ c. apply c t add)
  unfolding add_to_cell apply
  add_to_cell-apply t = refl

  pub add_hashed_symbols-visit_all :
      (fuel : ℕ) (ts : List (HashedSymbol T)) (cs : List (CodedSymbol T))
      → All (λ t. Moves (length cs) (new_mapping t.hash)) ts
      → length cs < fuel
      → add_hashed_symbols fuel ts cs ≡ some (visit_all add 0 ts (fresh_mappings ts) cs)
  unfolding add_hashed_symbols add_hashed_symbol
  add_hashed_symbols-visit_all fuel [] cs moves f = refl
  add_hashed_symbols-visit_all fuel (t ∷ ts) cs moves f =
      let size = length-visit (add_to_cell t) 0 (new_mapping t.hash) cs in
      rw (walk_loop-visit fuel (add_to_cell t) cs (new_mapping t.hash) f moves.0 (omega arith)) (
        add_hashed_symbols-visit_all fuel ts (visit (add_to_cell t) 0 (new_mapping t.hash) cs)
          (rw size moves.1) (rw size f)
        ∙ ap
            (λ (g : CodedSymbol T → CodedSymbol T).
              some (visit_all add 0 ts (fresh_mappings ts) (visit g 0 (new_mapping t.hash) cs)))
            (add_to_cell-apply t))

  pub sketch-coded_stream :
      (n fuel : ℕ) (ts : List (HashedSymbol T))
      → All (λ t. Moves n (new_mapping t.hash)) ts
      → n < fuel
      → add_hashed_symbols fuel ts (replicate n empty_coded)
        ≡ some (coded_stream 0 n ts (fresh_mappings ts))
  sketch-coded_stream n fuel ts moves f =
      let size = length-replicate n (empty_coded {T = T}) in
      add_hashed_symbols-visit_all fuel ts (replicate n empty_coded) (rw size moves) (rw size f)
      ∙ ap some (visit_all-coded_stream 0 n ts (fresh_mappings ts))

  -- A sketch with `n` cells and the first `n` coded symbols of an encoder are the same, if the
  -- symbols' XOR is an exclusive or, both were given the same symbols, each symbol's mapping moves
  -- on below `n` to indices that fit an int, and the fuel is above `n` and above the number of
  -- symbols; both are then computed in full.
  pub sketch-encoder :
      IsXor s
      → (n fuel : ℕ) (ts : List (HashedSymbol T)) → All (λ t. Moves n (new_mapping t.hash)) ts
      → n < fuel
      → length ts < fuel
      → (cells : List (CodedSymbol T)) × (e' : CodingWindow T) × (add_hashed_symbols fuel ts
            (replicate n empty_coded)
          ≡ some cells)
        × (produce_coded_symbols fuel n (encoder_add ts new_window) ≡ some (cells, e'))
  sketch-encoder x n fuel ts moves f g =
      let (e', ran, _, _) = encoder-coded_stream x n fuel ts moves g in
      (coded_stream 0 n ts (fresh_mappings ts), e', sketch-coded_stream n fuel ts moves f, ran)
