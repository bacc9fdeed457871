-- ===== src/Riblt/Decoder/Peel.antt =====
-- A round of TryDecode keeps the account of what was received, whatever the dirty cell holds.
use mathlib.Core.List.{map-append}
use mathlib.Core.Option.{some-injective}
use rateless_set_reconcile.Base.{
  ℕ, zero, suc, ◌+◌, ◌-◌, ◌%◌, ◌<◌, ◌≤◌, ◌≡◌, refl, sym, ap, ◌∙◌, Bool, true, false, Bool-cases,
  inl, inr, Option, some, List, [], ◌∷◌, ◌++◌, map, arith, length, length-set, set, ltb, leb, ◌==◌,
  if◌then◌else◌,
}
use rateless_set_reconcile.Base.Array.{get}
use rateless_set_reconcile.Base.Word.{u64, i63}
use rateless_set_reconcile.Riblt.Symbol.{
  Symbol, IsXor, HashedSymbol, CodedSymbol, add, remove, apply,
}
use rateless_set_reconcile.Riblt.Mapping.{Jump, RandomMapping, new_mapping, next_index, Moves}
use rateless_set_reconcile.Riblt.Window.{CodingWindow, add_hashed_symbol_with_mapping}
use rateless_set_reconcile.Riblt.Window.Visit.{
  walk, visit, length-visit, visit_all, walk_loop, walk_loop-visit, walk-past, walk-fits,
  walk-Moves,
}
use rateless_set_reconcile.Riblt.Window.Grow.{
  add_hashed_symbol_with_mapping-IsConsistent, add_hashed_symbol_with_mapping-AllMove,
}
use rateless_set_reconcile.Riblt.Window.Stream.{fresh_mappings}
use rateless_set_reconcile.Riblt.Decoder.{
  Decoder, ReceivedSymbol, received_zero, apply_to_cell, apply_new_symbol_loop, apply_new_symbol,
  pure_symbol, peel, clean, decode_round, queues,
}
use rateless_set_reconcile.Riblt.Decoder.Fold.{map-visit, visit_all-visit, visit_all-one_more}
use rateless_set_reconcile.Riblt.Decoder.Receive.{IsSynced, IsDecoding, explained}

pub Moves-mono : ⦃j : Jump⦄ (k n : ℕ) (m : RandomMapping) → k ≤ n → Moves n m → Moves k m
Moves-mono k n m le h i p = h i (omega arith)

module _ {T : Type 0} ⦃s : Symbol T⦄ ⦃j : Jump⦄ where
  -- The loop of `applyNewSymbol` writes the cells as a walk does.
  new_symbol-walk :
      (fuel : ℕ) (t : HashedSymbol T) (d : ℕ) (cs : List (ReceivedSymbol T)) (dirty : List ℕ)
      (m : RandomMapping) (r : List (ReceivedSymbol T) × RandomMapping)
      → walk_loop fuel (apply_to_cell t d) cs m ≡ some r
      → (dirty' : List ℕ) × (apply_new_symbol_loop fuel t d cs dirty m ≡ some (r.0, dirty', r.1))
  unfolding walk_loop apply_new_symbol_loop
  new_symbol-walk zero t d cs dirty m r h = cc
  new_symbol-walk (suc fuel) t d cs dirty m r h = elim (Bool-cases (leb i63 m.last_idx)) [
    | inl negative ↦ (let gone = rw negative at h in cc)
    | inr fits ↦ elim (Bool-cases (ltb m.last_idx (length cs))) [
      | inl inside ↦
          let c = get cs m.last_idx in
          let (dirty', ran) =
            new_symbol-walk fuel t d (set cs m.last_idx (apply_to_cell t d c))
              (if queues t d c then dirty ++ m.last_idx ∷ [] else dirty) (next_index m) r
              (rw (fits, inside) at h) in
          (dirty', rw (fits, inside) ran)
      | inr outside ↦
          let same : ◌≡◌ {A = List (ReceivedSymbol T) × RandomMapping} (cs, m) r =
            some-injective _ _ (rw (fits, outside) at h) in
          (dirty, rw (fits, outside) (λ i. some ((same i).0, dirty, (same i).1)))
    ]
  ]

  apply_new_symbol-visit :
      (n fuel : ℕ) (d : Decoder T) (t : HashedSymbol T) (direction : ℕ)
      → length d.cs ≤ n
      → length d.cs < fuel
      → Moves n (new_mapping t.hash)
      → (dirty : List ℕ) × (apply_new_symbol fuel d t direction
          ≡ some (
            record d {
              cs = visit (apply_to_cell t direction) 0 (new_mapping t.hash) d.cs;
              dirty = dirty;
            },
            walk 0 (length d.cs) (new_mapping t.hash),
          ))
  unfolding apply_new_symbol
  apply_new_symbol-visit n fuel d t direction le f moves =
      let m = new_mapping t.hash in
      let (dirty, ran) =
        new_symbol-walk fuel t direction d.cs d.dirty m
          (visit (apply_to_cell t direction) 0 m d.cs, walk 0 (length d.cs) m)
          (walk_loop-visit fuel (apply_to_cell t direction) d.cs m f
            (Moves-mono (length d.cs) n m le moves) (omega arith)) in
      (dirty, rw ran)

  -- A symbol that has walked along all the cells may join a window that has passed them.
  join-IsSynced :
      (n k : ℕ) (e : CodingWindow T) (t : HashedSymbol T)
      → IsSynced n k e
      → k ≤ n
      → Moves n (new_mapping t.hash)
      → IsSynced n k (add_hashed_symbol_with_mapping e t (walk 0 k (new_mapping t.hash)))
  unfolding add_hashed_symbol_with_mapping
  join-IsSynced n k e t v le moves =
      let m = walk 0 k (new_mapping t.hash) in
      let past = walk-past n 0 k (new_mapping t.hash) (omega arith) (omega arith) moves in
      record {
        consistent =
            add_hashed_symbol_with_mapping-IsConsistent e t m v.consistent (omega (arith, v.index))
              (walk-fits n 0 k (new_mapping t.hash) (omega arith) (omega arith) moves);
        index = v.index;
        walked =
            ap (λ ms. ms ++ m ∷ []) v.walked
            ∙ sym (map-append (walk 0 k) (fresh_mappings e.symbols) (new_mapping t.hash ∷ []))
            ∙ ap (map (walk 0 k))
                (sym (map-append (λ (t : HashedSymbol T). new_mapping t.hash) e.symbols (t ∷ [])));
        moves =
            add_hashed_symbol_with_mapping-AllMove e t m n v.moves
              (walk-Moves n 0 k (new_mapping t.hash) moves);
      }

  -- Cleaning a cell leaves what the cells hold.
  codes-clean :
      (cs : List (ReceivedSymbol T)) (i : ℕ)
      → map (λ r. r.coded) (set cs i (record (get cs i) { dirty = false })) ≡ map (λ r. r.coded) cs
  unfolding get
  codes-clean [] i = refl
  codes-clean (c ∷ cs) zero = refl
  codes-clean (c ∷ cs) (suc i) = ap (◌∷◌ c.coded) (codes-clean cs i)

  clean-IsDecoding :
      (n : ℕ) (raw : List (CodedSymbol T)) (d : Decoder T) (cidx : ℕ)
      → IsDecoding n raw d
      → IsDecoding n raw (clean d cidx)
  clean-IsDecoding n raw d cidx v = record {
    local = v.local;
    remote = v.remote;
    window = v.window;
    counted = length-set d.cs cidx (record (get d.cs cidx) { dirty = false }) ∙ v.counted;
    cells = codes-clean d.cs cidx ∙ v.cells;
  }

  module _ (x : IsXor s) (n : ℕ) (raw : List (CodedSymbol T)) (d : Decoder T)
      (v : IsDecoding n raw d) (le : length raw ≤ n) (t : HashedSymbol T)
      (moves : Moves n (new_mapping t.hash)) where
    abbrev joined_cells : ℕ → List (ReceivedSymbol T)
    joined_cells direction = visit (apply_to_cell t direction) 0 (new_mapping t.hash) d.cs

    abbrev joined_mapping : RandomMapping
    joined_mapping = walk 0 (length d.cs) (new_mapping t.hash)

    joined_codes :
        (direction : ℕ)
        → map (λ r. r.coded) (joined_cells direction)
          ≡ visit (λ c. apply c t direction) 0 (new_mapping t.hash) (explained d raw)
    joined_codes direction =
        map-visit (λ r. r.coded) (apply_to_cell t direction) (λ c. apply c t direction) (λ c. refl)
          0 (new_mapping t.hash) d.cs
        ∙ ap (visit (λ c. apply c t direction) 0 (new_mapping t.hash)) v.cells

    joins :
        (e : CodingWindow T)
        → IsSynced n (length raw) e
        → IsSynced n (length raw) (add_hashed_symbol_with_mapping e t joined_mapping)
    joins e w = rw v.counted (join-IsSynced n (length raw) e t w le moves)

    joined_symbols :
        (e : CodingWindow T)
        → (add_hashed_symbol_with_mapping e t joined_mapping).symbols ≡ e.symbols ++ t ∷ []
    unfolding add_hashed_symbol_with_mapping
    joined_symbols e = refl

    -- A symbol found on the other side is taken out of all the cells.
    remote-IsDecoding :
        (dirty : List ℕ) (pending : ℕ)
        → IsDecoding n raw (record d {
          cs = joined_cells remove;
          dirty = dirty;
          remote = add_hashed_symbol_with_mapping d.remote t joined_mapping;
          pending = pending;
        })
    remote-IsDecoding dirty pending =
        let ls = d.local.symbols in
        let rs = d.remote.symbols in
        let ws = d.window.symbols in
        let at_w = visit_all remove 0 ws (fresh_mappings ws) raw in
        let m = new_mapping t.hash in
        record {
          local = v.local;
          remote = joins d.remote v.remote;
          window = v.window;
          counted = length-visit (apply_to_cell t remove) 0 m d.cs ∙ v.counted;
          cells =
              joined_codes remove
              ∙ sym (
                  visit_all-visit x add ls 0 (fresh_mappings ls) t remove m
                    (visit_all remove 0 rs (fresh_mappings rs) at_w))
              ∙ ap (visit_all add 0 ls (fresh_mappings ls))
                  (sym (visit_all-one_more x remove rs t at_w))
              ∙ ap
                  (λ us.
                    visit_all add 0 ls (fresh_mappings ls)
                      (visit_all remove 0 us (fresh_mappings us) at_w))
                  (sym (joined_symbols d.remote));
        }

    -- A symbol found on this side only is added to all the cells.
    local-IsDecoding :
        (dirty : List ℕ) (pending : ℕ)
        → IsDecoding n raw (record d {
          cs = joined_cells add;
          dirty = dirty;
          local = add_hashed_symbol_with_mapping d.local t joined_mapping;
          pending = pending;
        })
    local-IsDecoding dirty pending =
        let ls = d.local.symbols in
        let rs = d.remote.symbols in
        let ws = d.window.symbols in
        let at_r =
          visit_all remove 0 rs (fresh_mappings rs)
            (visit_all remove 0 ws (fresh_mappings ws) raw) in
        let m = new_mapping t.hash in
        record {
          local = joins d.local v.local;
          remote = v.remote;
          window = v.window;
          counted = length-visit (apply_to_cell t add) 0 m d.cs ∙ v.counted;
          cells =
              joined_codes add
              ∙ sym (visit_all-one_more x add ls t at_r)
              ∙ ap (λ us. visit_all add 0 us (fresh_mappings us) at_r)
                  (sym (joined_symbols d.local));
        }

  module _ (x : IsXor s) (n fuel : ℕ) (raw : List (CodedSymbol T)) (le : length raw ≤ n)
      (f : length raw < fuel) where
    abbrev Peels : Decoder T → Option (Decoder T) → Type 0
    Peels d o = (d' : Decoder T) × (o ≡ some d') × IsDecoding n raw d'

    Peels-if :
        (d : Decoder T) (b : Bool) (l m : Option (Decoder T))
        → Peels d l
        → Peels d m
        → Peels d (if b then l else m)
    Peels-if d true l m p q = p
    Peels-if d false l m p q = q

    pending_kept :
        (d : Decoder T) (pending : ℕ)
        → IsDecoding n raw d
        → Peels d (some (record d { pending = pending }))
    pending_kept d pending v = (
      record d { pending = pending },
      refl,
      record {
        local = v.local;
        remote = v.remote;
        window = v.window;
        counted = v.counted;
        cells = v.cells;
      },
    )

    peel-IsDecoding :
        (d : Decoder T) (c : CodedSymbol T)
        → IsDecoding n raw d
        → Moves n (new_mapping (s.hash c.sum))
        → Peels d (peel fuel d c)
    unfolding peel
    peel-IsDecoding d c v moves =
        let t = pure_symbol c in
        let same : Peels d (some d) = (d, refl, v) in
        let less = (d.pending + (u64 - 1)) % u64 in
        let few : length d.cs ≤ n = omega (arith, v.counted) in
        let quick : length d.cs < fuel = omega (arith, v.counted) in
        let (dirty_r, ran_r) = apply_new_symbol-visit n fuel d t remove few quick moves in
        let (dirty_l, ran_l) = apply_new_symbol-visit n fuel d t add few quick moves in
        Peels-if d (c.count == 1) _ _
          (Peels-if d (s.hash c.sum == c.checksum) _ _
            (_, rw ran_r, remote-IsDecoding x n raw d v le t moves dirty_r less) same)
          (Peels-if d (c.count == u64 - 1) _ _
            (Peels-if d (s.hash c.sum == c.checksum) _ _
              (_, rw ran_l, local-IsDecoding x n raw d v le t moves dirty_l less) same)
            (Peels-if d (c.count == 0) _ _
              (Peels-if d (c.checksum == 0) _ _ (pending_kept d less v) same) same))

    -- A round of TryDecode returns for any cell, and the cells keep holding what was received less
    -- the symbols accounted for, if XOR is an exclusive or, the mapping of the hash of the symbol
    -- that the cell holds moves on below `n` to indices that fit an int, at most `n` coded symbols
    -- were received, and the fuel is above their number.
    pub decode_round-IsDecoding :
        (d : Decoder T) (cidx : ℕ)
        → IsDecoding n raw d
        → Moves n (new_mapping (s.hash (get d.cs cidx).coded.sum))
        → (d' : Decoder T) × (decode_round fuel d cidx ≡ some d') × IsDecoding n raw d'
    unfolding decode_round
    decode_round-IsDecoding d cidx v moves =
        let (d', ran, v') = peel-IsDecoding d (get d.cs cidx).coded v moves in
        (clean d' cidx, rw ran, clean-IsDecoding n raw d' cidx v')
