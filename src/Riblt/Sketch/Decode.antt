-- ===== src/Riblt/Sketch/Decode.antt =====
-- Decoding a sketch that was computed in full.
use rateless_set_reconcile.Base.{ℕ, Bool, Option, some, List, [], ◌∷◌, ◌>>=◌}
use rateless_set_reconcile.Riblt.Symbol.{Symbol, HashedSymbol, CodedSymbol}
use rateless_set_reconcile.Riblt.Mapping.{Jump}
use rateless_set_reconcile.Riblt.Decoder.{
  Decoder, new_decoder, decoded, local_symbols, remote_symbols, add_coded_symbol, try_decode,
}

module _ {T : Type 0} ⦃s : Symbol T⦄ ⦃j : Jump⦄ where
  -- `AddCodedSymbol` for each of the cells.
  pub add_coded_symbols : ℕ → Decoder T → List (CodedSymbol T) → Option (Decoder T)
  add_coded_symbols fuel d [] = some d
  add_coded_symbols fuel d (c ∷ cs) = do
    d' ← add_coded_symbol fuel d c
    add_coded_symbols fuel d' cs

  -- The symbols on the receiver's side only, those on the other side only, and whether all are found.
  pub decode :
      ℕ → ℕ → List (CodedSymbol T) → Option (List (HashedSymbol T) × List (HashedSymbol T) × Bool)
  unfolding add_coded_symbols decoded local_symbols remote_symbols
  decode rounds fuel cells = do
    d ← add_coded_symbols fuel new_decoder cells
    d' ← try_decode rounds fuel d
    some (remote_symbols d', local_symbols d', decoded d')
