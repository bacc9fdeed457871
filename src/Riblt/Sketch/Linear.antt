-- ===== src/Riblt/Sketch/Linear.antt =====
-- Subtracting sketches: what both hold vanishes.
use Prim.Native.Nat.{bit_xor}
use rateless_set_reconcile.Base.{
  ℕ, zero, suc, ◌<◌, ◌≡◌, refl, sym, ap, ◌∙◌, Bool, true, false, Option, some, List, [], ◌∷◌, ◌++◌,
  length, length-replicate, replicate, All, All-append, arith, ◌==◌, ==_iff, if◌then◌else◌, ◌>>=◌,
}
use rateless_set_reconcile.Base.Xor.{xor_self, xor-zero, xor_comm, xor_assoc}
use rateless_set_reconcile.Base.Word.{u64}
use rateless_set_reconcile.Riblt.Symbol.{
  Symbol, IsXor, HashedSymbol, CodedSymbol, add, empty_coded, apply,
}
use rateless_set_reconcile.Riblt.Symbol.Laws.{CodedSymbol_path}
use rateless_set_reconcile.Riblt.Mapping.{Jump, RandomMapping, new_mapping, Moves}
use rateless_set_reconcile.Riblt.Window.Spec.{pass}
use rateless_set_reconcile.Riblt.Window.Visit.{visit, length-visit, visit_all}
use rateless_set_reconcile.Riblt.Window.Stream.{fresh_mappings}
use rateless_set_reconcile.Riblt.Sketch.{
  subtract, subtract_cell, subtract_cells, add_hashed_symbols,
}
use rateless_set_reconcile.Riblt.Sketch.Laws.{add_hashed_symbols-visit_all}

abbrev IsCounted : {T : Type 0} → CodedSymbol T → Type 0
IsCounted c = c.count < u64

xor_cancel : (a b c : ℕ) → bit_xor (bit_xor a c) (bit_xor b c) ≡ bit_xor a b
xor_cancel a b c =
    rw (xor_assoc a c (bit_xor b c), xor_comm b c, ← xor_assoc c c b, xor_self c)
      (ap (bit_xor a) (xor_comm 0 b ∙ xor-zero b))

module _ {T : Type 0} ⦃s : Symbol T⦄ (x : IsXor s) where
  sum_cancel : (a b c : T) → s.xor (s.xor a c) (s.xor b c) ≡ s.xor a b
  sum_cancel a b c =
      rw (x.xor_assoc a c (s.xor b c), x.xor_comm b c, ← x.xor_assoc c c b, x.xor_self c)
        (ap (s.xor a) (x.zero-xor b))

  subtract_cell-apply :
      (c d : CodedSymbol T) (t : HashedSymbol T)
      → IsCounted d
      → subtract_cell (apply c t add) (apply d t add) ≡ subtract_cell c d
  unfolding subtract_cell apply
  subtract_cell-apply c d t h =
      CodedSymbol_path (sum_cancel c.sum d.sum t.symbol) (omega arith)
        (xor_cancel c.checksum d.checksum t.hash)

  subtract_cell-if :
      (b : Bool) (c d : CodedSymbol T) (t : HashedSymbol T)
      → IsCounted d
      → subtract_cell (if b then apply c t add else c) (if b then apply d t add else d)
        ≡ subtract_cell c d
  subtract_cell-if true c d t h = subtract_cell-apply c d t h
  subtract_cell-if false c d t h = refl

  module _ ⦃j : Jump⦄ where
    apply-IsCounted : (c : CodedSymbol T) (t : HashedSymbol T) → IsCounted (apply c t add)
    unfolding apply
    apply-IsCounted c t = omega arith

    visit-IsCounted :
        (t : HashedSymbol T) (i : ℕ) (m : RandomMapping) (cs : List (CodedSymbol T))
        → All IsCounted cs
        → All IsCounted (visit (λ c. apply c t add) i m cs)
    visit-IsCounted t i m [] h = tt
    visit-IsCounted t i m (c ∷ cs) h =
        (ground (arith, apply-IsCounted c t), visit-IsCounted t (suc i) (pass i m) cs h.1)

    -- A symbol that is added to both sides leaves the difference as it was.
    subtract_cells-visit :
        (t : HashedSymbol T) (i : ℕ) (m : RandomMapping) (cs ds : List (CodedSymbol T))
        → length cs ≡ length ds
        → All IsCounted ds
        → subtract_cells (visit (λ c. apply c t add) i m cs) (visit (λ c. apply c t add) i m ds)
          ≡ subtract_cells cs ds
    unfolding subtract_cells
    subtract_cells-visit t i m [] [] e h = refl
    subtract_cells-visit t i m [] (d ∷ ds) e h = absurd (omega arith)
    subtract_cells-visit t i m (c ∷ cs) [] e h = absurd (omega arith)
    subtract_cells-visit t i m (c ∷ cs) (d ∷ ds) e h =
        let cell = subtract_cell-if (m.last_idx == i) c d t h.0 in
        let rest = subtract_cells-visit t (suc i) (pass i m) cs ds (omega arith) h.1 in
        λ k. cell k ∷ rest k

    visit_all-IsCounted :
        (ts : List (HashedSymbol T)) (i : ℕ) (ms : List RandomMapping) (cs : List (CodedSymbol T))
        → All IsCounted cs
        → All IsCounted (visit_all add i ts ms cs)
    visit_all-IsCounted [] i ms cs h = h
    visit_all-IsCounted (t ∷ ts) i [] cs h = h
    visit_all-IsCounted (t ∷ ts) i (m ∷ ms) cs h =
        visit_all-IsCounted ts i ms _ (visit-IsCounted t i m cs h)

    length-visit_all :
        (ts : List (HashedSymbol T)) (i : ℕ) (ms : List RandomMapping) (cs : List (CodedSymbol T))
        → length (visit_all add i ts ms cs) ≡ length cs
    length-visit_all [] i ms cs = refl
    length-visit_all (t ∷ ts) i [] cs = refl
    length-visit_all (t ∷ ts) i (m ∷ ms) cs =
        length-visit_all ts i ms _ ∙ length-visit (λ c. apply c t add) i m cs

    -- The sketch of a list with more symbols at its end.
    visit_all-append :
        (ts us : List (HashedSymbol T)) (cs : List (CodedSymbol T))
        → visit_all add 0 (ts ++ us) (fresh_mappings (ts ++ us)) cs
          ≡ visit_all add 0 us (fresh_mappings us) (visit_all add 0 ts (fresh_mappings ts) cs)
    visit_all-append [] us cs = refl
    visit_all-append (t ∷ ts) us cs = visit_all-append ts us _

    -- Symbols that are added to both sides leave the difference as it was.
    subtract_cells-visit_all :
        (ts : List (HashedSymbol T)) (cs ds : List (CodedSymbol T))
        → length cs ≡ length ds
        → All IsCounted ds
        → subtract_cells
            (visit_all add 0 ts (fresh_mappings ts) cs)
            (visit_all add 0 ts (fresh_mappings ts) ds)
          ≡ subtract_cells cs ds
    subtract_cells-visit_all [] cs ds e h = refl
    subtract_cells-visit_all (t ∷ ts) cs ds e h =
        let m = new_mapping t.hash in
        let f = λ (c : CodedSymbol T). apply c t add in
        subtract_cells-visit_all ts (visit f 0 m cs) (visit f 0 m ds)
          (length-visit f 0 m cs ∙ e ∙ sym (length-visit f 0 m ds)) (visit-IsCounted t 0 m ds h)
        ∙ subtract_cells-visit t 0 m cs ds e h

-- The sketch with `n` cells of the symbols `ts`.
abbrev pub sketch_of :
    {T : Type 0} ⦃s : Symbol T⦄ ⦃j : Jump⦄
    → ℕ
    → ℕ
    → List (HashedSymbol T)
    → Option (List (CodedSymbol T))
sketch_of fuel n ts = add_hashed_symbols fuel ts (replicate n empty_coded)

module _ {T : Type 0} ⦃s : Symbol T⦄ ⦃j : Jump⦄ (x : IsXor s) (n fuel : ℕ) (f : n < fuel) where
  abbrev AllMoves : List (HashedSymbol T) → Type 0
  AllMoves ts = All (λ t. Moves n (new_mapping t.hash)) ts

  abbrev cells_of : List (HashedSymbol T) → List (CodedSymbol T)
  cells_of ts = visit_all add 0 ts (fresh_mappings ts) (replicate n empty_coded)

  sketch_of-cells_of :
      (ts : List (HashedSymbol T)) → AllMoves ts → sketch_of fuel n ts ≡ some (cells_of ts)
  sketch_of-cells_of ts moves =
      let size = length-replicate n (empty_coded {T = T}) in
      add_hashed_symbols-visit_all fuel ts (replicate n empty_coded) (rw size moves) (rw size f)

  empty-IsCounted : (k : ℕ) → All IsCounted (replicate k (empty_coded {T = T}))
  empty-IsCounted zero = tt
  empty-IsCounted (suc k) = (omega arith, empty-IsCounted k)

  length-cells_of : (ts : List (HashedSymbol T)) → length (cells_of ts) ≡ n
  length-cells_of ts =
      length-visit_all x ts 0 (fresh_mappings ts) (replicate n empty_coded)
      ∙ length-replicate n empty_coded

  subtract-cells :
      (cs ds : List (CodedSymbol T))
      → length cs ≡ length ds
      → subtract cs ds ≡ some (subtract_cells cs ds)
  unfolding subtract
  subtract-cells cs ds e = rw ((==_iff (length cs) (length ds)).1 e)

  -- Sketches of sets that share the symbols `common` differ as sketches of the other symbols do:
  -- if XOR is an exclusive or, all the mappings move on below `n` to indices that fit an int, and
  -- the fuel is above `n`, both differences are computed in full and are the same.
  pub subtract_common :
      (ts us common : List (HashedSymbol T))
      → AllMoves ts
      → AllMoves us
      → AllMoves common
      → (diff : List (CodedSymbol T)) × ((sketch_of fuel n (ts ++ common) >>= λ a.
            sketch_of fuel n (us ++ common) >>= λ b. subtract a b)
          ≡ some diff)
        × ((sketch_of fuel n ts >>= λ a. sketch_of fuel n us >>= λ b. subtract a b) ≡ some diff)
  subtract_common ts us common mt mu mc =
      let AllM = All-append (λ (t : HashedSymbol T). Moves n (new_mapping t.hash)) in
      let same : length (cells_of ts) ≡ length (cells_of us) =
        length-cells_of ts ∙ sym (length-cells_of us) in
      let all_same : length (cells_of (ts ++ common)) ≡ length (cells_of (us ++ common)) =
        length-cells_of (ts ++ common) ∙ sym (length-cells_of (us ++ common)) in
      let shared : subtract_cells (cells_of (ts ++ common)) (cells_of (us ++ common))
          ≡ subtract_cells (cells_of ts) (cells_of us) =
        rw
          (
            visit_all-append x ts common (replicate n empty_coded),
            visit_all-append x us common (replicate n empty_coded),
          )
          (subtract_cells-visit_all x common (cells_of ts) (cells_of us) same (
            visit_all-IsCounted x us 0 (fresh_mappings us) (replicate n empty_coded)
              (empty-IsCounted n))) in
      (
        subtract_cells (cells_of ts) (cells_of us),
        rw
            (
              sketch_of-cells_of (ts ++ common) (AllM ts common mt mc),
              sketch_of-cells_of (us ++ common) (AllM us common mu mc),
            )
            (subtract-cells _ _ all_same ∙ ap some shared),
        rw (sketch_of-cells_of ts mt, sketch_of-cells_of us mu) (subtract-cells _ _ same),
      )
