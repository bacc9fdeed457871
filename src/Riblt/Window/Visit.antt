-- ===== src/Riblt/Window/Visit.antt =====
-- A walk along a random mapping that writes the cells which it visits, as the loops of
-- Sketch.AddHashedSymbol and Decoder.applyNewSymbol do; and its definition by one pass over the cells.
use mathlib.Core.List.{append_assoc, append-nil}
use rateless_set_reconcile.Base.{
  ℕ, zero, suc, ◌+◌, ◌≤◌, ◌<◌, ◌≡◌, refl, sym, ap, subst, ◌∙◌, true, false, Option, none, some,
  List, [], ◌∷◌, ◌++◌, map, arith, length, set, replicate, length-append, ltb, leb, lt→leb, lt→ltb,
  le→ltb, ◌==◌, if◌then◌else◌, Bool-cases, ==_iff, inl, inr,
}
use rateless_set_reconcile.Base.Array.{Zero, get}
use rateless_set_reconcile.Base.Word.{i63}
use rateless_set_reconcile.Riblt.Symbol.{Symbol, HashedSymbol, CodedSymbol, add, empty_coded, apply}
use rateless_set_reconcile.Riblt.Mapping.{
  Jump, RandomMapping, next_index, Moves, Moves-now, Moves-fits, Moves-next_index,
}
use rateless_set_reconcile.Riblt.Window.Spec.{absorb, pass}

module _ ⦃j : Jump⦄ where
  -- The mapping after the indices from `i` to `i + n`.
  abbrev pub walk : ℕ → ℕ → RandomMapping → RandomMapping
  walk i zero m = m
  walk i (suc n) m = walk (suc i) n (pass i m)

  module _ {A : Type 0} where
    -- The cells from index `i` on, with `f` applied to each cell that the mapping visits.
    abbrev pub visit : (A → A) → ℕ → RandomMapping → List A → List A
    visit f i m [] = []
    visit f i m (c ∷ cs) = (if m.last_idx == i then f c else c) ∷ visit f (suc i) (pass i m) cs

    pub length-visit :
        (f : A → A) (i : ℕ) (m : RandomMapping) (cs : List A) → length (visit f i m cs) ≡ length cs
    length-visit f i m [] = refl
    length-visit f i m (c ∷ cs) = ap suc (length-visit f (suc i) (pass i m) cs)

    pub visit-append :
        (f : A → A) (i : ℕ) (m : RandomMapping) (cs : List A) (c : A)
        → visit f i m (cs ++ c ∷ [])
          ≡ visit f i m cs ++ visit f (i + length cs) (walk i (length cs) m) (c ∷ [])
    visit-append f i m [] c = ap (λ (k : ℕ). visit f k m (c ∷ [])) (omega arith)
    visit-append f i m (b ∷ cs) c = ap (◌∷◌ (if m.last_idx == i then f b else b)) (
        visit-append f (suc i) (pass i m) cs c
        ∙ ap
            (λ (k : ℕ).
              visit f (suc i) (pass i m) cs
              ++ visit f k (walk (suc i) (length cs) (pass i m)) (c ∷ []))
            (omega arith))

module _ {T : Type 0} ⦃s : Symbol T⦄ ⦃j : Jump⦄ where
  -- Each symbol in turn walks along all the cells.
  abbrev pub visit_all :
      ℕ
      → ℕ
      → List (HashedSymbol T)
      → List RandomMapping
      → List (CodedSymbol T)
      → List (CodedSymbol T)
  visit_all d i [] ms cs = cs
  visit_all d i (t ∷ ts) [] cs = cs
  visit_all d i (t ∷ ts) (m ∷ ms) cs = visit_all d i ts ms (visit (λ c. apply c t d) i m cs)

  -- The coded symbols numbered from `i` on, each by its definition.
  abbrev pub coded_stream :
      ℕ → ℕ → List (HashedSymbol T) → List RandomMapping → List (CodedSymbol T)
  coded_stream i zero ts ms = []
  coded_stream i (suc n) ts ms =
      absorb add i ts ms empty_coded ∷ coded_stream (suc i) n ts (map (pass i) ms)

  -- By symbols or by cells, the result is the same.
  pub visit_all-cons :
      (d i : ℕ) (ts : List (HashedSymbol T)) (ms : List RandomMapping) (c : CodedSymbol T)
      (cs : List (CodedSymbol T))
      → visit_all d i ts ms (c ∷ cs)
        ≡ absorb d i ts ms c ∷ visit_all d (suc i) ts (map (pass i) ms) cs
  visit_all-cons d i [] ms c cs = refl
  visit_all-cons d i (t ∷ ts) [] c cs = refl
  visit_all-cons d i (t ∷ ts) (m ∷ ms) c cs = visit_all-cons d i ts ms _ _

  visit_all-nil :
      (d i : ℕ) (ts : List (HashedSymbol T)) (ms : List RandomMapping) → visit_all d i ts ms [] ≡ []
  visit_all-nil d i [] ms = refl
  visit_all-nil d i (t ∷ ts) [] = refl
  visit_all-nil d i (t ∷ ts) (m ∷ ms) = visit_all-nil d i ts ms

  pub visit_all-coded_stream :
      (i n : ℕ) (ts : List (HashedSymbol T)) (ms : List RandomMapping)
      → visit_all add i ts ms (replicate n empty_coded) ≡ coded_stream i n ts ms
  visit_all-coded_stream i zero ts ms = visit_all-nil add i ts ms
  visit_all-coded_stream i (suc n) ts ms =
      visit_all-cons add i ts ms empty_coded (replicate n empty_coded)
      ∙ ap (◌∷◌ (absorb add i ts ms empty_coded))
          (visit_all-coded_stream (suc i) n ts (map (pass i) ms))

set-append_last {ℓ} :
    {A : Type ℓ} (a : List A) (x y : A) (b : List A) → set (a ++ x ∷ b) (length a) y ≡ a ++ y ∷ b
set-append_last [] x y b = refl
set-append_last (z ∷ a) x y b = ap (◌∷◌ z) (set-append_last a x y b)

get-append_middle {ℓ} :
    {A : Type ℓ} ⦃z : Zero A⦄ (a : List A) (x : A) (b : List A) → get (a ++ x ∷ b) (length a) ≡ x
unfolding get
get-append_middle [] x b = refl
get-append_middle (y ∷ a) x b = get-append_middle a x b

module _ {A : Type 0} ⦃z : Zero A⦄ ⦃j : Jump⦄ where
  -- `for int(m.lastIdx) < len(s) { … s[m.lastIdx] = f(s[m.lastIdx]) …; m.nextIndex() }`
  -- An index whose `int` is negative is below the length, and panics.
  unfoldable pub walk_loop : ℕ → (A → A) → List A → RandomMapping → Option (List A × RandomMapping)
  walk_loop zero f cs m = none
  walk_loop (suc fuel) f cs m =
      let rest = walk_loop fuel f (set cs m.last_idx (f (get cs m.last_idx))) (next_index m) in
      if leb i63 m.last_idx then none else if ltb m.last_idx (length cs) then rest else some (cs, m)

  module _ (fuel : ℕ) (f : A → A) where
    -- What the rest of the walk leaves, with the cells `before` done.
    abbrev walked : List A → List A → RandomMapping → Option (List A × RandomMapping)
    walked before cs m =
        some (before ++ visit f (length before) m cs, walk (length before) (length cs) m)

    walked-step :
        (before cs : List A) (c d : A) (m l : RandomMapping)
        → (if m.last_idx == length before then f c else c) ≡ d
        → pass (length before) m ≡ l
        → walked (before ++ d ∷ []) cs l ≡ walked before (c ∷ cs) m
    walked-step before cs c d m l p q =
        let next : ℕ = suc (length before) in
        let size : length (before ++ d ∷ []) ≡ next =
          omega (arith, length-append before (d ∷ [])) in
        ap (λ (k : ℕ). some ((before ++ d ∷ []) ++ visit f k l cs, walk k (length cs) l)) size
        ∙ ap (λ (r : List A). some (r, walk next (length cs) l))
            (append_assoc before (d ∷ []) (visit f next l cs))
        ∙ (λ i.
            some (before ++ sym p i ∷ visit f next (sym q i) cs, walk next (length cs) (sym q i)))

    write_here :
        (before cs : List A) (c : A) (k : ℕ)
        → k ≡ length before
        → set (before ++ c ∷ cs) k (f (get (before ++ c ∷ cs) k)) ≡ (before ++ f c ∷ []) ++ cs
    write_here before cs c k e =
        rw (e, get-append_middle before c cs, set-append_last before c (f c) cs)
          (sym (append_assoc before (f c ∷ []) cs))

    round_here :
        (before cs : List A) (c : A) (m : RandomMapping)
        → m.last_idx ≡ length before
        → m.last_idx < i63
        → walk_loop (suc fuel) f (before ++ c ∷ cs) m
          ≡ walk_loop fuel f ((before ++ f c ∷ []) ++ cs) (next_index m)
    unfolding walk_loop
    round_here before cs c m at small =
        let fits : leb i63 m.last_idx ≡ false = lt→leb _ _ small in
        let inside : ltb m.last_idx (length (before ++ c ∷ cs)) ≡ true =
          lt→ltb _ _ (omega (arith, length-append before (c ∷ cs))) in
        rw (fits, inside)
          (ap (λ (a : List A). walk_loop fuel f a (next_index m))
            (write_here before cs c m.last_idx at))

  walk_loop-visit_from :
      (cs : List A) (fuel : ℕ) (f : A → A) (before : List A) (m : RandomMapping)
      → length before ≤ m.last_idx
      → length cs < fuel
      → Moves (length before + length cs) m
      → m.last_idx < i63
      → walk_loop fuel f (before ++ cs) m ≡ walked fuel f before cs m
  unfolding walk_loop
  walk_loop-visit_from cs zero f before m lo hi moves small = absurd (omega arith)
  walk_loop-visit_from [] (suc fuel) f before m lo hi moves small =
      let past : ltb m.last_idx (length (before ++ [])) ≡ false = le→ltb _ _ (rw append-nil lo) in
      let fits : leb i63 m.last_idx ≡ false = lt→leb _ _ small in rw (fits, past)
  walk_loop-visit_from (c ∷ cs) (suc fuel) f before m lo hi moves small =
      let size = length-append before (c ∷ cs) in
      elim (Bool-cases (m.last_idx == length before)) [
        | inl here ↦
            let at : m.last_idx ≡ length before = (==_iff _ _).0 here in
            let bigger = length-append before (f c ∷ []) in
            let same : length before + suc (length cs) ≡ length (before ++ f c ∷ []) + length cs =
              omega arith in
            let on =
              walk_loop-visit_from cs fuel f (before ++ f c ∷ []) (next_index m)
                (omega (arith, Moves-now _ m moves)) (omega arith)
                (subst (λ (n : ℕ). Moves n (next_index m)) same (Moves-next_index _ m moves))
                (Moves-fits _ m moves (omega arith)) in
            round_here fuel f before cs c m at small
            ∙ on
            ∙ walked-step fuel f before cs c (f c) m (next_index m) (rw here) (rw here)
        | inr not_here ↦
            let bigger = length-append before (c ∷ []) in
            let same : length before + suc (length cs) ≡ length (before ++ c ∷ []) + length cs =
              omega arith in
            let on =
              walk_loop-visit_from cs (suc fuel) f (before ++ c ∷ []) m (ground arith) (omega arith)
                (subst (λ (n : ℕ). Moves n m) same moves) small in
            ap (λ (a : List A). walk_loop (suc fuel) f a m) (sym (append_assoc before (c ∷ []) cs))
            ∙ on
            ∙ walked-step fuel f before cs c c m m (rw not_here) (rw not_here)
      ]

  -- The walk ends, and leaves the cells as the definition says.
  pub walk_loop-visit :
      (fuel : ℕ) (f : A → A) (cs : List A) (m : RandomMapping)
      → length cs < fuel
      → Moves (length cs) m
      → m.last_idx < i63
      → walk_loop fuel f cs m ≡ some (visit f 0 m cs, walk 0 (length cs) m)
  walk_loop-visit fuel f cs m hi moves small =
      let start : 0 + length cs ≡ length cs = omega arith in
      walk_loop-visit_from cs fuel f [] m (omega arith) hi
        (subst (λ (n : ℕ). Moves n m) (sym start) moves) small

module _ ⦃j : Jump⦄ (n : ℕ) where
  -- A mapping that has not fallen behind the index is past it after `pass`.
  pub pass-past :
      (i : ℕ) (m : RandomMapping) → i ≤ m.last_idx → i < n → Moves n m → i < (pass i m).last_idx
  pass-past i m lo hi moves = elim (Bool-cases (m.last_idx == i)) [
    | inl here ↦ rw here (omega (arith, Moves-now n m moves, (==_iff _ _).0 here))
    | inr not_here ↦ rw not_here (ground arith)
  ]

  pub pass-Moves : (i : ℕ) (m : RandomMapping) → Moves n m → Moves n (pass i m)
  pass-Moves i m moves = elim (Bool-cases (m.last_idx == i)) [
    | inl here ↦ rw here (Moves-next_index n m moves)
    | inr not_here ↦ rw not_here moves
  ]

  pub pass-fits :
      (i : ℕ) (m : RandomMapping) → m.last_idx < i63 → i < n → Moves n m → (pass i m).last_idx < i63
  pass-fits i m small hi moves = elim (Bool-cases (m.last_idx == i)) [
    | inl here ↦ rw here (Moves-fits n m moves (omega (arith, (==_iff _ _).0 here)))
    | inr not_here ↦ rw not_here small
  ]

  pub walk-fits :
      (i k : ℕ) (m : RandomMapping)
      → m.last_idx < i63
      → i + k ≤ n
      → Moves n m
      → (walk i k m).last_idx < i63
  walk-fits i zero m small hi moves = small
  walk-fits i (suc k) m small hi moves =
      walk-fits (suc i) k (pass i m) (pass-fits i m small (omega arith) moves) (omega arith)
        (pass-Moves i m moves)

  pub walk-past :
      (i k : ℕ) (m : RandomMapping)
      → i ≤ m.last_idx
      → i + k ≤ n
      → Moves n m
      → i + k ≤ (walk i k m).last_idx
  walk-past i zero m lo hi moves = omega arith
  walk-past i (suc k) m lo hi moves = omega (
    arith,
    walk-past (suc i) k (pass i m) (pass-past i m lo (omega arith) moves) (omega arith)
        (pass-Moves i m moves),
  )

  pub walk-Moves : (i k : ℕ) (m : RandomMapping) → Moves n m → Moves n (walk i k m)
  walk-Moves i zero m moves = moves
  walk-Moves i (suc k) m moves = walk-Moves (suc i) k (pass i m) (pass-Moves i m moves)
