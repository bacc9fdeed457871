-- ===== src/Riblt/Sketch.antt =====
-- riblt/sketch.go: a fixed number of coded symbols, written in place.
pub mod Laws
pub mod Linear
pub mod Decode
use Prim.Native.Nat.{bit_xor}
use rateless_set_reconcile.Base.{
  ℕ, zero, suc, ◌+◌, ◌-◌, ◌%◌, ◌≡◌, Option, none, some, List, [], ◌∷◌, length, ◌==◌, if◌then◌else◌,
  ◌>>=◌,
}
use rateless_set_reconcile.Base.Array.{Zero}
use rateless_set_reconcile.Base.Word.{u64}
use rateless_set_reconcile.Riblt.Symbol.{Symbol, HashedSymbol, CodedSymbol, empty_coded, hashed}
use rateless_set_reconcile.Riblt.Mapping.{Jump, new_mapping}
use rateless_set_reconcile.Riblt.Window.Visit.{walk_loop}

module _ {T : Type 0} ⦃s : Symbol T⦄ where
  instance abbrev pub coded_zero : Zero (CodedSymbol T)
  coded_zero = record { zero_value = empty_coded }

  -- What the loop body of `AddHashedSymbol` writes into a cell.
  pub add_to_cell : HashedSymbol T → CodedSymbol T → CodedSymbol T
  add_to_cell t c = record {
    sum = s.xor c.sum t.symbol;
    count = (c.count + 1) % u64;
    checksum = bit_xor c.checksum t.hash;
  }

  subtract_cell : CodedSymbol T → CodedSymbol T → CodedSymbol T
  subtract_cell c d = record {
    sum = s.xor c.sum d.sum;
    count = (c.count + u64 - d.count) % u64;
    checksum = bit_xor c.checksum d.checksum;
  }

  subtract_cells : List (CodedSymbol T) → List (CodedSymbol T) → List (CodedSymbol T)
  subtract_cells [] ds = []
  subtract_cells (c ∷ cs) [] = c ∷ cs
  subtract_cells (c ∷ cs) (d ∷ ds) = subtract_cell c d ∷ subtract_cells cs ds

  -- `none` is the panic on sketches of different sizes.
  pub subtract : List (CodedSymbol T) → List (CodedSymbol T) → Option (List (CodedSymbol T))
  unfolding subtract_cells subtract_cell
  subtract cs ds = if length cs == length ds then some (subtract_cells cs ds) else none

module _ {T : Type 0} ⦃s : Symbol T⦄ ⦃j : Jump⦄ where
  -- `none` says that the walk along the sketch still runs after `fuel` rounds.
  pub add_hashed_symbol : ℕ → List (CodedSymbol T) → HashedSymbol T → Option (List (CodedSymbol T))
  unfolding walk_loop add_to_cell
  add_hashed_symbol fuel cs t = do
    (cs', m) ← walk_loop fuel (add_to_cell t) cs (new_mapping t.hash)
    some cs'

  pub add_symbol : ℕ → List (CodedSymbol T) → T → Option (List (CodedSymbol T))
  unfolding add_hashed_symbol
  add_symbol fuel cs t = add_hashed_symbol fuel cs (hashed t)

  -- `AddHashedSymbol` for each of the symbols.
  pub add_hashed_symbols :
      ℕ → List (HashedSymbol T) → List (CodedSymbol T) → Option (List (CodedSymbol T))
  add_hashed_symbols fuel [] cs = some cs
  add_hashed_symbols fuel (t ∷ ts) cs = do
    cs' ← add_hashed_symbol fuel cs t
    add_hashed_symbols fuel ts cs'
