-- ===== src/Riblt/Decoder.antt =====
-- riblt/decoder.go: peeling the coded symbols received.
-- The counters `count` and `pending` are in two's complement; `none` is a loop that still runs, or a
-- panic on an index whose `int` is negative.
pub mod Fold
pub mod Receive
pub mod Peel
use rateless_set_reconcile.Base.{
  ℕ, zero, suc, ◌+◌, ◌-◌, ◌%◌, ◌≡◌, Bool, true, false, not, ◌&&◌, ◌||◌, Option, none, some, List,
  [], ◌∷◌, ◌++◌, length, set, ltb, leb, ◌==◌, if◌then◌else◌, ◌>>=◌,
}
use rateless_set_reconcile.Base.Array.{Zero, get}
use rateless_set_reconcile.Base.Word.{u64, i63}
use rateless_set_reconcile.Riblt.Symbol.{
  Symbol, HashedSymbol, CodedSymbol, add, remove, empty_coded, hashed, apply,
}
use rateless_set_reconcile.Riblt.Mapping.{Jump, RandomMapping, new_mapping, next_index}
use rateless_set_reconcile.Riblt.Window
use rateless_set_reconcile.Riblt.Window.{
  CodingWindow, new_window, apply_window, add_hashed_symbol_with_mapping,
}

pub record ReceivedSymbol (T : Type 0) : Type 0 where
  pub coded : CodedSymbol T
  pub dirty : Bool

-- The index of a Go slice of numbers.
instance abbrev pub index_zero : Zero ℕ
index_zero = record { zero_value = 0 }

instance abbrev pub received_zero : {T : Type 0} ⦃s : Symbol T⦄ → Zero (ReceivedSymbol T)
received_zero ⦃s⦄ = record { zero_value = record { coded = empty_coded; dirty = false } }

pub record Decoder (T : Type 0) : Type 0 where
  pub cs : List (ReceivedSymbol T)
  pub local : CodingWindow T
  pub window : CodingWindow T
  pub remote : CodingWindow T
  pub dirty : List ℕ
  pub pending : ℕ

abbrev pub new_decoder : {T : Type 0} → Decoder T
new_decoder = record {
  cs = [];
  local = new_window;
  window = new_window;
  remote = new_window;
  dirty = [];
  pending = 0;
}

unfoldable pub decoded : {T : Type 0} → Decoder T → Bool
decoded d = d.pending == 0

unfoldable pub local_symbols : {T : Type 0} → Decoder T → List (HashedSymbol T)
local_symbols d = d.local.symbols

unfoldable pub remote_symbols : {T : Type 0} → Decoder T → List (HashedSymbol T)
remote_symbols d = d.remote.symbols

unfoldable pub reset : {T : Type 0} → Decoder T → Decoder T
unfolding Window.reset
reset d = record d {
  cs = [];
  dirty = [];
  local = Window.reset d.local;
  remote = Window.reset d.remote;
  window = Window.reset d.window;
  pending = 0;
}

unfoldable pub add_hashed_symbol : {T : Type 0} → Decoder T → HashedSymbol T → Decoder T
unfolding Window.add_hashed_symbol
add_hashed_symbol d t = record d { window = Window.add_hashed_symbol d.window t }

pub add_symbol : {T : Type 0} ⦃s : Symbol T⦄ → Decoder T → T → Decoder T
unfolding add_hashed_symbol
add_symbol d t = add_hashed_symbol d (hashed t)

-- `count >= -1 && count <= 1`
abbrev pub is_small : ℕ → Bool
is_small count = count == 0 || (count == 1 || count == u64 - 1)

module _ {T : Type 0} ⦃s : Symbol T⦄ ⦃j : Jump⦄ where
  -- `c` after the three windows is stored, and counted unless it is empty.
  store_coded_symbol : Decoder T → CodedSymbol T → Decoder T
  store_coded_symbol d c =
      if c.count == 0 && c.checksum == 0
      then record d { cs = d.cs ++ record { coded = c; dirty = false } ∷ [] }
      else if is_small c.count
      then record d {
        cs = d.cs ++ record { coded = c; dirty = true } ∷ [];
        dirty = d.dirty ++ length d.cs ∷ [];
        pending = (d.pending + 1) % u64;
      }
      else record d {
        cs = d.cs ++ record { coded = c; dirty = false } ∷ [];
        pending = (d.pending + 1) % u64;
      }

  unfoldable pub add_coded_symbol : ℕ → Decoder T → CodedSymbol T → Option (Decoder T)
  unfolding store_coded_symbol
  add_coded_symbol fuel d c = do
    (c₁, window) ← apply_window fuel remove d.window c
    (c₂, remote) ← apply_window fuel remove d.remote c₁
    (c₃, local) ← apply_window fuel add d.local c₂
    some (store_coded_symbol (record d { window = window; remote = remote; local = local }) c₃)

  -- One round of `applyNewSymbol` on the cell `c`: the symbol applied, and the cell marked if it may
  -- now be pure.
  abbrev pub apply_to_cell : HashedSymbol T → ℕ → ReceivedSymbol T → ReceivedSymbol T
  apply_to_cell t direction c =
      let coded = apply c.coded t direction in
      record { coded = coded; dirty = c.dirty || is_small coded.count }

  -- Whether that round queues the cell.
  abbrev pub queues : HashedSymbol T → ℕ → ReceivedSymbol T → Bool
  queues t direction c = not c.dirty && is_small (apply c.coded t direction).count

  apply_new_symbol_loop :
      ℕ
      → HashedSymbol T
      → ℕ
      → List (ReceivedSymbol T)
      → List ℕ
      → RandomMapping
      → Option (List (ReceivedSymbol T) × List ℕ × RandomMapping)
  apply_new_symbol_loop zero t direction cs dirty m = none
  apply_new_symbol_loop (suc fuel) t direction cs dirty m =
      let c = get cs m.last_idx in
      let rest =
        apply_new_symbol_loop fuel t direction (set cs m.last_idx (apply_to_cell t direction c))
          (if queues t direction c then dirty ++ m.last_idx ∷ [] else dirty) (next_index m) in
      if leb i63 m.last_idx
      then none
      else if ltb m.last_idx (length cs)
      then rest
      else some (cs, dirty, m)

  pub apply_new_symbol : ℕ → Decoder T → HashedSymbol T → ℕ → Option (Decoder T × RandomMapping)
  unfolding apply_new_symbol_loop
  apply_new_symbol fuel d t direction = do
    (cs, dirty, m) ← apply_new_symbol_loop fuel t direction d.cs d.dirty (new_mapping t.hash)
    some (record d { cs = cs; dirty = dirty }, m)

  -- The symbol in a cell of one symbol, copied.
  abbrev pub pure_symbol : CodedSymbol T → HashedSymbol T
  pure_symbol c = record { symbol = s.xor s.zero_value c.sum; hash = s.hash c.sum }

  -- The `switch` of `TryDecode` on the coded symbol of a dirty cell.
  peel : ℕ → Decoder T → CodedSymbol T → Option (Decoder T)
  unfolding apply_new_symbol
  peel fuel d c =
      if c.count == 1
      then (if s.hash c.sum == c.checksum
          then (do
            (d', m) ← apply_new_symbol fuel d (pure_symbol c) remove
            some (record d' {
              remote = add_hashed_symbol_with_mapping d'.remote (pure_symbol c) m;
              pending = (d'.pending + (u64 - 1)) % u64;
            }))
          else some d)
      else if c.count == u64 - 1
      then (if s.hash c.sum == c.checksum
          then (do
            (d', m) ← apply_new_symbol fuel d (pure_symbol c) add
            some (record d' {
              local = add_hashed_symbol_with_mapping d'.local (pure_symbol c) m;
              pending = (d'.pending + (u64 - 1)) % u64;
            }))
          else some d)
      else if c.count == 0
      then (if c.checksum == 0
          then some (record d { pending = (d.pending + (u64 - 1)) % u64 })
          else some d)
      else some d

  abbrev pub clean : Decoder T → ℕ → Decoder T
  clean d cidx = record d { cs = set d.cs cidx (record (get d.cs cidx) { dirty = false }) }

  -- One round of the loop of `TryDecode`, on the dirty cell `cidx`.
  pub decode_round : ℕ → Decoder T → ℕ → Option (Decoder T)
  unfolding peel
  decode_round fuel d cidx = do d' ← peel fuel d (get d.cs cidx).coded; some (clean d' cidx)

  -- The loop from the entry `didx` of the list of dirty cells, which grows as it runs.
  pub decode_loop : ℕ → ℕ → ℕ → Decoder T → Option (Decoder T)
  unfolding decode_round
  decode_loop zero fuel didx d = none
  decode_loop (suc rounds) fuel didx d =
      let rest = decode_round fuel d (get d.dirty didx) >>= decode_loop rounds fuel (didx + 1) in
      if ltb didx (length d.dirty) then rest else some d

  unfoldable pub try_decode : ℕ → ℕ → Decoder T → Option (Decoder T)
  unfolding decode_loop
  try_decode rounds fuel d = do d' ← decode_loop rounds fuel 0 d; some (record d' { dirty = [] })
