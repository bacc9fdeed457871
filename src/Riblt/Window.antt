-- ===== src/Riblt/Window.antt =====
-- riblt/encoder.go: the coding window, its heap of mappings, and the encoder.
-- A loop runs on fuel, and `none` says that it still runs when the fuel is used up. A `codedIdx`
-- is an `int` in two's complement, so that `int(m.lastIdx)` is the same bits, read with a sign.
pub mod Spec
pub mod Entries
pub mod Apply
pub mod Visit
pub mod Grow
pub mod Stream
pub mod Negative
use rateless_set_reconcile.Base.{
  ℕ, zero, suc, ◌+◌, ◌-◌, ◌<◌, ◌≡◌, Bool, true, false, Option, none, some, List, [], ◌∷◌, ◌++◌,
  arith, length, set, ltb, ◌==◌, if◌then◌else◌, ltb→le, le→ltb, ◌>>=◌,
}
use rateless_set_reconcile.Base.Array.{Zero, get}
use rateless_set_reconcile.Base.Word.{less_int}
use rateless_set_reconcile.Heap.{Order, sift_up, sift_down}
use rateless_set_reconcile.Riblt.Symbol.{
  Symbol, HashedSymbol, CodedSymbol, add, empty_coded, hashed, apply,
}
use rateless_set_reconcile.Riblt.Mapping.{Jump, RandomMapping, new_mapping, next_index}

pub record SymbolMapping : Type 0 where
  pub source_idx : ℕ
  pub coded_idx : ℕ

instance abbrev pub symbol_mapping_zero : Zero SymbolMapping
symbol_mapping_zero = record { zero_value = record { source_idx = 0; coded_idx = 0 } }

instance abbrev pub mapping_zero : Zero RandomMapping
mapping_zero = record { zero_value = new_mapping 0 }

instance abbrev pub hashed_zero : {T : Type 0} ⦃s : Symbol T⦄ → Zero (HashedSymbol T)
hashed_zero ⦃s⦄ = record { zero_value = record { symbol = s.zero_value; hash = 0 } }

pub coded_asymm :
    (x y : SymbolMapping)
    → less_int x.coded_idx y.coded_idx ≡ true
    → less_int y.coded_idx x.coded_idx ≡ false
coded_asymm x y h = ground arith

pub coded_trans :
    (x y z : SymbolMapping)
    → less_int y.coded_idx x.coded_idx ≡ false
    → less_int z.coded_idx y.coded_idx ≡ false
    → less_int z.coded_idx x.coded_idx ≡ false
coded_trans x y z h k = ground arith

-- `a.codedIdx <= b.codedIdx` is the negation of this test with its sides exchanged.
instance abbrev pub by_coded_idx : Order SymbolMapping
by_coded_idx = record {
  lt = λ x y. less_int x.coded_idx y.coded_idx;
  lt_asymm = coded_asymm;
  not_lt_trans = coded_trans;
}

pub fix_head : List SymbolMapping → List SymbolMapping
unfolding sift_down
fix_head m = sift_down (length m) m 0

pub fix_tail : List SymbolMapping → List SymbolMapping
unfolding sift_up
fix_tail m = sift_up m (length m - 1)

pub record CodingWindow (T : Type 0) : Type 0 where
  pub symbols : List (HashedSymbol T)
  pub mappings : List RandomMapping
  pub queue : List SymbolMapping
  pub next_idx : ℕ

-- Go's zero value of a window, which is also what `reset` leaves.
abbrev pub new_window : {T : Type 0} → CodingWindow T
new_window = record { symbols = []; mappings = []; queue = []; next_idx = 0 }

unfoldable pub reset : {T : Type 0} → CodingWindow T → CodingWindow T
reset e = record e { symbols = []; mappings = []; queue = []; next_idx = 0 }

unfoldable pub add_hashed_symbol_with_mapping :
    {T : Type 0} → CodingWindow T → HashedSymbol T → RandomMapping → CodingWindow T
unfolding fix_tail
add_hashed_symbol_with_mapping e t m =
    let symbols = e.symbols ++ t ∷ [] in
    let entry : SymbolMapping = record {
      source_idx = length symbols - 1;
      coded_idx = m.last_idx;
    } in
    record e {
      symbols = symbols;
      mappings = e.mappings ++ m ∷ [];
      queue = fix_tail (e.queue ++ entry ∷ []);
    }

unfoldable pub add_hashed_symbol : {T : Type 0} → CodingWindow T → HashedSymbol T → CodingWindow T
unfolding add_hashed_symbol_with_mapping
add_hashed_symbol e t = add_hashed_symbol_with_mapping e t (new_mapping t.hash)

pub add_symbol : {T : Type 0} ⦃s : Symbol T⦄ → CodingWindow T → T → CodingWindow T
unfolding add_hashed_symbol
add_symbol e t = add_hashed_symbol e (hashed t)

module _ {T : Type 0} ⦃s : Symbol T⦄ ⦃j : Jump⦄ where
  -- The source symbol at the head of the queue.
  abbrev pub head_symbol : CodingWindow T → HashedSymbol T
  head_symbol e = get e.symbols (get e.queue 0).source_idx

  -- `nextIndex` on the mapping at the head of the queue, and its new place in the queue.
  pub advance_head : CodingWindow T → CodingWindow T
  unfolding next_index fix_head
  advance_head e =
      let head = get e.queue 0 in
      let m = next_index (get e.mappings head.source_idx) in
      record e {
        mappings = set e.mappings head.source_idx m;
        queue = fix_head (set e.queue 0 (record head { coded_idx = m.last_idx }));
      }

  -- The loop of `applyWindow`.
  pub apply_loop : ℕ → ℕ → CodingWindow T → CodedSymbol T → Option (CodedSymbol T × CodingWindow T)
  apply_loop zero direction e cw = none
  apply_loop (suc fuel) direction e cw =
      let rest = apply_loop fuel direction (advance_head e) (apply cw (head_symbol e) direction) in
      if (get e.queue 0).coded_idx == e.next_idx then rest else some (cw, e)

  unfoldable pub apply_window :
      ℕ → ℕ → CodingWindow T → CodedSymbol T → Option (CodedSymbol T × CodingWindow T)
  unfolding apply_loop
  apply_window fuel direction e cw =
      if length e.queue == 0 then some (cw, record e { next_idx = e.next_idx + 1 }) else do
        (cw', e') ← apply_loop fuel direction e cw
        some (cw', record e' { next_idx = e'.next_idx + 1 })

  unfoldable pub produce_next_coded_symbol :
      ℕ → CodingWindow T → Option (CodedSymbol T × CodingWindow T)
  unfolding apply_window advance_head apply
  produce_next_coded_symbol fuel e = apply_window fuel add e empty_coded
