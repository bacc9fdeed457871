-- ===== src/Riblt/Decoder/Receive.antt =====
-- What the decoder keeps of the coded symbols received: the symbols that it has and those that it
-- has found account for the difference between what was received and what is in its cells.
use mathlib.Core.List.{map-append}
use rateless_set_reconcile.Base.{
  ℕ, suc, ◌+◌, ◌%◌, ◌<◌, ◌≡◌, refl, sym, ap, ◌∙◌, Bool, true, false, some, List, [], ◌∷◌, ◌++◌, map,
  arith, length, length-append, ◌==◌, if◌then◌else◌, ◌&&◌,
}
use rateless_set_reconcile.Base.Word.{u64}
use rateless_set_reconcile.Riblt.Symbol.{Symbol, IsXor, CodedSymbol, add, remove}
use rateless_set_reconcile.Riblt.Mapping.{Jump}
use rateless_set_reconcile.Riblt.Window.{CodingWindow, new_window, apply_window}
use rateless_set_reconcile.Riblt.Window.Spec.{absorb, pass}
use rateless_set_reconcile.Riblt.Window.Visit.{walk, visit_all}
use rateless_set_reconcile.Riblt.Window.Apply.{IsConsistent, AllMove, apply_window-IsApplied}
use rateless_set_reconcile.Riblt.Window.Grow.{new_window-IsConsistent}
use rateless_set_reconcile.Riblt.Window.Stream.{fresh_mappings, next-IsConsistent}
use rateless_set_reconcile.Riblt.Decoder.{
  Decoder, new_decoder, is_small, store_coded_symbol, add_coded_symbol,
}
use rateless_set_reconcile.Riblt.Decoder.Fold.{map-walk-suc, visit_all-cell_at, length-visit_all}

-- The window `e` has passed `k` cells with the symbols it holds, all of which move on below `n`.
pub record IsSynced {T : Type 0} ⦃j : Jump⦄ (n k : ℕ) (e : CodingWindow T) : Type 0 where
  pub consistent : IsConsistent e
  pub index : e.next_idx ≡ k
  pub walked : e.mappings ≡ map (walk 0 k) (fresh_mappings e.symbols)
  pub moves : AllMove n e

pub new_window-IsSynced : {T : Type 0} ⦃j : Jump⦄ (n : ℕ) → IsSynced {T = T} n 0 new_window
new_window-IsSynced n = record {
  consistent = new_window-IsConsistent;
  index = refl;
  walked = refl;
  moves = λ i p. absurd (omega arith);
}

module _ {T : Type 0} ⦃s : Symbol T⦄ ⦃j : Jump⦄ where
  pub apply_window-IsSynced :
      IsXor s
      → (n k d fuel : ℕ) (e : CodingWindow T) (c : CodedSymbol T) → IsSynced n k e
      → k < n
      → length e.symbols < fuel
      → (e' : CodingWindow T) × (apply_window fuel d e c
          ≡ some (absorb d k e.symbols (map (walk 0 k) (fresh_mappings e.symbols)) c, e'))
        × (e'.symbols ≡ e.symbols)
        × IsSynced n (suc k) e'
  apply_window-IsSynced x n k d fuel e c v below f =
      let (r, ran, done) =
        apply_window-IsApplied x n d fuel e c v.consistent (omega (arith, v.index)) v.moves f in
      let e' : CodingWindow T = record r.1 { next_idx = e.next_idx + 1 } in
      let coded : r.0 ≡ absorb d k e.symbols (map (walk 0 k) (fresh_mappings e.symbols)) c =
        done.coded ∙ (λ i. absorb d (v.index i) e.symbols (v.walked i) c) in
      let walked : r.1.mappings ≡ map (walk 0 (suc k)) (fresh_mappings r.1.symbols) =
        done.mappings
        ∙ (λ i. map (pass (v.index i)) (v.walked i))
        ∙ map-walk-suc k (fresh_mappings e.symbols)
        ∙ (λ i. map (walk 0 (suc k)) (fresh_mappings (sym done.symbols i))) in
      (
        e',
        ran ∙ (λ i. some (coded i, e')),
        done.symbols,
        record {
          consistent = next-IsConsistent n d e c r done;
          index = omega (arith, v.index);
          walked = walked;
          moves = done.moves;
        },
      )

  -- What the cells hold of `raw`, the coded symbols received: the symbols of the window and those
  -- found on the other side removed, and those found on this side only added.
  abbrev pub explained : Decoder T → List (CodedSymbol T) → List (CodedSymbol T)
  explained d raw = visit_all add 0 d.local.symbols (fresh_mappings d.local.symbols) (
      visit_all remove 0 d.remote.symbols (fresh_mappings d.remote.symbols)
        (visit_all remove 0 d.window.symbols (fresh_mappings d.window.symbols) raw))

  pub record IsDecoding (n : ℕ) (raw : List (CodedSymbol T)) (d : Decoder T) : Type 0 where
    pub local : IsSynced n (length raw) d.local
    pub remote : IsSynced n (length raw) d.remote
    pub window : IsSynced n (length raw) d.window
    pub counted : length d.cs ≡ length raw
    pub cells : map (λ c. c.coded) d.cs ≡ explained d raw

  -- `d'` is `d` with one more cell, `c`.
  abbrev IsStored : Decoder T → CodedSymbol T → Decoder T → Type 0
  IsStored d c d' =
      (map (λ r. r.coded) d'.cs ≡ map (λ r. r.coded) d.cs ++ c ∷ [])
      × (length d'.cs ≡ length d.cs + 1)
      × (d'.local ≡ d.local)
      × (d'.remote ≡ d.remote)
      × (d'.window ≡ d.window)

  one_more_cell :
      (d : Decoder T) (c : CodedSymbol T) (b : Bool) (dirty : List ℕ) (pending : ℕ)
      → IsStored d c (record d {
        cs = d.cs ++ record { coded = c; dirty = b } ∷ [];
        dirty = dirty;
        pending = pending;
      })
  one_more_cell d c b dirty pending = (
    map-append (λ r. r.coded) d.cs (record { coded = c; dirty = b } ∷ []),
    length-append d.cs (record { coded = c; dirty = b } ∷ []),
    refl,
    refl,
    refl,
  )

  IsStored-if :
      (d : Decoder T) (c : CodedSymbol T) (b : Bool) (l m : Decoder T)
      → IsStored d c l
      → IsStored d c m
      → IsStored d c (if b then l else m)
  IsStored-if d c true l m p q = p
  IsStored-if d c false l m p q = q

  store-IsStored : (d : Decoder T) (c : CodedSymbol T) → IsStored d c (store_coded_symbol d c)
  unfolding store_coded_symbol
  store-IsStored d c =
      IsStored-if d c (c.count == 0 && c.checksum == 0) _ _
        (one_more_cell d c false d.dirty d.pending)
        (IsStored-if d c (is_small c.count) _ _
          (one_more_cell d c true (d.dirty ++ length d.cs ∷ []) ((d.pending + 1) % u64))
          (one_more_cell d c false d.dirty ((d.pending + 1) % u64)))

  explained-one_more :
      IsXor s
      → (d : Decoder T) (raw : List (CodedSymbol T)) (c : CodedSymbol T)
      → let k = length raw in
        explained d (raw ++ c ∷ [])
        ≡ explained d raw
          ++ absorb add k d.local.symbols (map (walk 0 k) (fresh_mappings d.local.symbols)) (
              absorb remove k d.remote.symbols (map (walk 0 k) (fresh_mappings d.remote.symbols)) (
                absorb remove k d.window.symbols
                  (map (walk 0 k) (fresh_mappings d.window.symbols))
                  c))
            ∷ []
  explained-one_more x d raw c =
      let k : ℕ = length raw in
      let ls = d.local.symbols in
      let rs = d.remote.symbols in
      let ws = d.window.symbols in
      let at_w = visit_all remove 0 ws (fresh_mappings ws) raw in
      let at_r = visit_all remove 0 rs (fresh_mappings rs) at_w in
      let size_w = length-visit_all x remove ws 0 (fresh_mappings ws) raw in
      let size_r = length-visit_all x remove rs 0 (fresh_mappings rs) at_w ∙ size_w in
      let locals = visit_all add 0 ls (fresh_mappings ls) in
      let remotes = visit_all remove 0 rs (fresh_mappings rs) in
      ap (λ cs. locals (remotes cs)) (visit_all-cell_at x remove k ws raw c refl)
      ∙ ap locals (visit_all-cell_at x remove k rs at_w _ size_w)
      ∙ visit_all-cell_at x add k ls at_r _ size_r

  -- A fresh decoder has received nothing.
  pub new_decoder-IsDecoding : (n : ℕ) → IsDecoding n [] new_decoder
  new_decoder-IsDecoding n = record {
    local = new_window-IsSynced n;
    remote = new_window-IsSynced n;
    window = new_window-IsSynced n;
    counted = refl;
    cells = refl;
  }

  -- AddCodedSymbol returns, and what the cells hold is explained by one more coded symbol, if XOR
  -- is an exclusive or, the decoder held what was received before, fewer than `n` coded symbols
  -- were received, and the fuel is above the number of symbols of each window.
  pub add_coded_symbol-IsDecoding :
      IsXor s
      → (n fuel : ℕ) (raw : List (CodedSymbol T)) (d : Decoder T) (c : CodedSymbol T)
      → IsDecoding n raw d
      → length raw < n
      → length d.local.symbols < fuel
      → length d.remote.symbols < fuel
      → length d.window.symbols < fuel
      → (d' : Decoder T) × (add_coded_symbol fuel d c ≡ some d') × IsDecoding n (raw ++ c ∷ []) d'
  unfolding add_coded_symbol
  add_coded_symbol-IsDecoding x n fuel raw d c v below fl fr fw =
      let k : ℕ = length raw in
      let (w, ran_w, sym_w, v_w) =
        apply_window-IsSynced x n k remove fuel d.window c v.window below fw in
      let c₁ =
        absorb remove k d.window.symbols (map (walk 0 k) (fresh_mappings d.window.symbols)) c in
      let (r, ran_r, sym_r, v_r) =
        apply_window-IsSynced x n k remove fuel d.remote c₁ v.remote below fr in
      let c₂ =
        absorb remove k d.remote.symbols (map (walk 0 k) (fresh_mappings d.remote.symbols)) c₁ in
      let (l, ran_l, sym_l, v_l) =
        apply_window-IsSynced x n k add fuel d.local c₂ v.local below fl in
      let c₃ = absorb add k d.local.symbols (map (walk 0 k) (fresh_mappings d.local.symbols)) c₂ in
      let mid : Decoder T = record d { window = w; remote = r; local = l } in
      let (cells, counted, el, er, ew) = store-IsStored mid c₃ in
      let kept_l = sym sym_l ∙ ap (λ (e : CodingWindow T). e.symbols) (sym el) in
      let kept_r = sym sym_r ∙ ap (λ (e : CodingWindow T). e.symbols) (sym er) in
      let kept_w = sym sym_w ∙ ap (λ (e : CodingWindow T). e.symbols) (sym ew) in
      let size : length (raw ++ c ∷ []) ≡ suc k = omega (arith, length-append raw (c ∷ [])) in
      (
        store_coded_symbol mid c₃,
        rw (ran_w, ran_r, ran_l),
        record {
          local = rw (el, size) v_l;
          remote = rw (er, size) v_r;
          window = rw (ew, size) v_w;
          counted = omega (arith, v.counted);
          cells =
              cells ∙ ap (λ cs. cs ++ c₃ ∷ []) v.cells ∙ sym (explained-one_more x d raw c) ∙ (λ i.
                visit_all add 0 (kept_l i) (fresh_mappings (kept_l i)) (
                  visit_all remove 0 (kept_r i) (fresh_mappings (kept_r i))
                    (visit_all remove 0 (kept_w i) (fresh_mappings (kept_w i)) (raw ++ c ∷ []))));
        },
      )
