-- ===== src/Riblt/Tests.antt =====
-- The riblt package at concrete numbers: symbols are numbers that hash to themselves, and each step of
-- a mapping is by one index, but for the jump `far`.
use Prim.Native.Nat.{bit_xor}
use mathlib.Core.List.Perm
use rateless_set_reconcile.Base.{
  ℕ, ◌+◌, ◌≤◌, ◌<◌, ◌≡◌, refl, true, some, List, [], ◌∷◌, length, replicate, arith, ◌>>=◌,
}
use rateless_set_reconcile.Base.Array.{get}
use rateless_set_reconcile.Base.Xor
use rateless_set_reconcile.Base.Word.{u64, i63}
use rateless_set_reconcile.Riblt.Symbol.{
  Symbol, IsXor, HashedSymbol, CodedSymbol, add, remove, empty_coded, hashed, apply,
}
use rateless_set_reconcile.Riblt.Symbol.Laws.{apply-add-remove}
use rateless_set_reconcile.Riblt.Mapping.{
  Jump, RandomMapping, new_mapping, next_index, steps, steps-suc, Moves,
}
use rateless_set_reconcile.Riblt.Window.{
  CodingWindow, new_window, mapping_zero, add_hashed_symbol, add_hashed_symbol_with_mapping,
  apply_window, produce_next_coded_symbol,
}
use rateless_set_reconcile.Riblt.Window.Visit.{coded_stream}
use rateless_set_reconcile.Riblt.Window.Apply.{
  IsConsistent, AllMove, IsApplied, apply_window-IsApplied,
}
use rateless_set_reconcile.Riblt.Window.Grow.{
  new_window-IsConsistent, add_hashed_symbol_with_mapping-IsConsistent,
  add_hashed_symbol_with_mapping-AllMove,
}
use rateless_set_reconcile.Riblt.Window.Stream.{
  add_hashed_symbols as encoder_add, produce_coded_symbols, fresh_mappings, encoder-coded_stream,
  late_symbol_blocks,
}
use rateless_set_reconcile.Riblt.Window.Negative.{negative_index_blocks}
use rateless_set_reconcile.Riblt.Sketch.{add_hashed_symbols, subtract}
use rateless_set_reconcile.Riblt.Sketch.Laws.{sketch-encoder}
use rateless_set_reconcile.Riblt.Sketch.Linear.{sketch_of, subtract_common}
use rateless_set_reconcile.Riblt.Decoder.{Decoder, new_decoder, add_coded_symbol, decode_round}
use rateless_set_reconcile.Riblt.Decoder.Receive.{
  IsDecoding, IsSynced, new_decoder-IsDecoding, add_coded_symbol-IsDecoding,
}
use rateless_set_reconcile.Riblt.Decoder.Peel.{decode_round-IsDecoding}

instance abbrev one_step : Jump
one_step = record { jump = λ i r. 1 }

instance abbrev numbers : Symbol ℕ
numbers = record { zero_value = 0; xor = bit_xor; hash = λ n. n }

numbers-IsXor : IsXor numbers
numbers-IsXor = record {
  zero-xor = Xor.zero-xor;
  xor_comm = Xor.xor_comm;
  xor_assoc = Xor.xor_assoc;
  xor_self = Xor.xor_self;
}

abbrev empty : CodedSymbol ℕ
empty = empty_coded

next_index_one :
    (n : ℕ) (m : RandomMapping)
    → n ≤ 1000
    → m.last_idx < n
    → (m.last_idx < (next_index m).last_idx) × ((next_index m).last_idx < i63)
unfolding next_index
next_index_one n m h p = (omega arith, omega arith)

moves : (n : ℕ) (m : RandomMapping) → n ≤ 1000 → Moves n m
moves n m h k p = rw (steps-suc k m) (next_index_one n (steps k m) h p)

one-IsCounted : (apply empty (hashed 3) add).count < u64
unfolding apply
one-IsCounted = omega arith

abbrev items : List (HashedSymbol ℕ)
items = hashed 5 ∷ hashed 6 ∷ []

sketch-encoder_example :
    (cells : List (CodedSymbol ℕ)) × (e' : CodingWindow ℕ) × (add_hashed_symbols 4 items
        (replicate 3 empty_coded)
      ≡ some cells)
    × (produce_coded_symbols 4 3 (encoder_add items new_window) ≡ some (cells, e'))
sketch-encoder_example =
    sketch-encoder numbers-IsXor 3 4 items
      (moves 3 (new_mapping 5) (omega arith), (moves 3 (new_mapping 6) (omega arith), tt))
      (omega arith) (omega arith)

encoder-coded_stream_example :
    (e' : CodingWindow ℕ) × (produce_coded_symbols 4 3 (encoder_add items new_window)
      ≡ some (coded_stream 0 3 items (fresh_mappings items), e'))
    × IsConsistent e'
    × (e'.next_idx ≡ 3)
encoder-coded_stream_example =
    encoder-coded_stream numbers-IsXor 3 4 items
      (moves 3 (new_mapping 5) (omega arith), (moves 3 (new_mapping 6) (omega arith), tt))
      (omega arith)

abbrev one_item : CodingWindow ℕ
one_item = add_hashed_symbol_with_mapping new_window (hashed 5) (new_mapping 5)

one_item-IsConsistent : IsConsistent one_item
one_item-IsConsistent =
    add_hashed_symbol_with_mapping-IsConsistent new_window (hashed 5) (new_mapping 5)
      new_window-IsConsistent (omega arith) (omega arith)

one_item-AllMove : AllMove 3 one_item
one_item-AllMove =
    add_hashed_symbol_with_mapping-AllMove new_window (hashed 5) (new_mapping 5) 3
      (λ i p. absurd (omega arith)) (moves 3 (new_mapping 5) (omega arith))

one_item-next_idx : one_item.next_idx ≤ 0
unfolding add_hashed_symbol_with_mapping
one_item-next_idx = omega arith

one_item-sizes : length one_item.symbols < 2
unfolding add_hashed_symbol_with_mapping
one_item-sizes = omega arith

add_hashed_symbol_with_mapping-IsConsistent_example :
    IsConsistent (add_hashed_symbol_with_mapping one_item (hashed 6) (new_mapping 6))
add_hashed_symbol_with_mapping-IsConsistent_example =
    add_hashed_symbol_with_mapping-IsConsistent one_item (hashed 6) (new_mapping 6)
      one_item-IsConsistent one_item-next_idx (omega arith)

apply_window-IsApplied_example :
    (r : CodedSymbol ℕ × CodingWindow ℕ) × (apply_window 2 add one_item empty_coded
      ≡ some (r.0, record r.1 { next_idx = one_item.next_idx + 1 }))
    × IsApplied 3 add one_item empty_coded r
apply_window-IsApplied_example =
    apply_window-IsApplied numbers-IsXor 3 add 2 one_item empty_coded one_item-IsConsistent
      (omega (arith, one_item-next_idx)) one_item-AllMove one_item-sizes

-- An empty window that has produced one coded symbol.
abbrev passed : CodingWindow ℕ
passed = record new_window { next_idx = 1 }

passed-IsConsistent : IsConsistent passed
passed-IsConsistent = record {
  paired = refl;
  queued = Perm.nil;
  heap = λ c p q. absurd (omega arith);
  ahead = λ i p. absurd (omega arith);
  fits = λ i p. absurd (omega arith);
}

late_symbol_blocks_example :
    (e' : CodingWindow ℕ) × (produce_coded_symbols 2 3 (add_hashed_symbol passed (hashed 5))
      ≡ some (replicate 3 empty_coded, e'))
late_symbol_blocks_example =
    late_symbol_blocks passed (hashed 5) 3 2 passed-IsConsistent (omega arith) (omega arith)

apply-add-remove_example :
    apply (apply (apply empty (hashed 3) add) (hashed 5) add) (hashed 5) remove
    ≡ apply empty (hashed 3) add
apply-add-remove_example =
    apply-add-remove numbers-IsXor (apply empty (hashed 3) add) (hashed 5) one-IsCounted

subtract_common_example :
    (diff : List (CodedSymbol ℕ)) × ((sketch_of 4 3 (hashed 5 ∷ hashed 9 ∷ []) >>= λ a.
    sketch_of 4 3 (hashed 6 ∷ hashed 9 ∷ []) >>= λ b. subtract a b)
      ≡ some diff)
    × ((sketch_of 4 3 (hashed 5 ∷ []) >>= λ a. sketch_of 4 3 (hashed 6 ∷ []) >>= λ b. subtract a b)
        ≡ some diff)
subtract_common_example =
    subtract_common numbers-IsXor 3 4 (omega arith) (hashed 5 ∷ []) (hashed 6 ∷ []) (hashed 9 ∷ [])
      (moves 3 (new_mapping 5) (omega arith), tt) (moves 3 (new_mapping 6) (omega arith), tt)
      (moves 3 (new_mapping 9) (omega arith), tt)

abbrev first_cell : CodedSymbol ℕ
first_cell = apply empty (hashed 5) add

add_coded_symbol-IsDecoding_example :
    (d' : Decoder ℕ) × (add_coded_symbol 2 new_decoder first_cell ≡ some d')
    × IsDecoding 3 (first_cell ∷ []) d'
add_coded_symbol-IsDecoding_example =
    add_coded_symbol-IsDecoding numbers-IsXor 3 2 [] new_decoder first_cell
      (new_decoder-IsDecoding 3) (omega arith) (omega arith) (omega arith) (omega arith)

passed-IsSynced : IsSynced 3 1 passed
passed-IsSynced = record {
  consistent = passed-IsConsistent;
  index = refl;
  walked = refl;
  moves = λ i p. absurd (omega arith);
}

-- A decoder that has received one coded symbol of the symbol 5.
abbrev received : Decoder ℕ
received = record {
  cs = record { coded = first_cell; dirty = true } ∷ [];
  local = passed;
  window = passed;
  remote = passed;
  dirty = 0 ∷ [];
  pending = 1;
}

received-IsDecoding : IsDecoding 3 (first_cell ∷ []) received
received-IsDecoding = record {
  local = passed-IsSynced;
  remote = passed-IsSynced;
  window = passed-IsSynced;
  counted = refl;
  cells = refl;
}

decode_round-IsDecoding_example :
    (d' : Decoder ℕ) × (decode_round 2 received 0 ≡ some d') × IsDecoding 3 (first_cell ∷ []) d'
unfolding get apply
decode_round-IsDecoding_example =
    decode_round-IsDecoding numbers-IsXor 3 2 (first_cell ∷ []) (omega arith) (omega arith) received
      0 received-IsDecoding (moves 3 (new_mapping first_cell.sum) (omega arith))

-- A jump to an index that is negative as an `int`.
abbrev far : Jump
far = record { jump = λ i r. i63 }

-- The window of the symbol 5 after its first coded symbol, with that jump.
abbrev blocked : CodingWindow ℕ
blocked = record {
  symbols = hashed 5 ∷ [];
  mappings = next_index ⦃j = far⦄ (new_mapping 5) ∷ [];
  queue = record { source_idx = 0; coded_idx = i63 } ∷ [];
  next_idx = 1;
}

blocked_reached :
    produce_next_coded_symbol ⦃j = far⦄ 2 one_item ≡ some (apply empty (hashed 5) add, blocked)
unfolding produce_next_coded_symbol add_hashed_symbol_with_mapping get
blocked_reached = refl

negative_index_blocks_example :
    produce_coded_symbols ⦃j = far⦄ 2 3 blocked
    ≡ some (replicate 3 empty_coded, record blocked { next_idx = 4 })
unfolding get
negative_index_blocks_example =
    negative_index_blocks ⦃j = far⦄ blocked 0 3 2 (λ c p q. absurd (omega arith)) (omega arith)
      (omega arith) (omega arith) (omega arith) (omega arith)
