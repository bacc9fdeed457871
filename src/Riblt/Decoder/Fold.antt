-- ===== src/Riblt/Decoder/Fold.antt =====
-- How walks along the cells combine: with one another, with one more symbol, with one more cell.
use rateless_set_reconcile.Base.{
  ℕ, zero, suc, ◌+◌, ◌≡◌, refl, sym, ap, ◌∙◌, Bool, true, false, List, [], ◌∷◌, ◌++◌, map, arith,
  length, ◌==◌, if◌then◌else◌,
}
use rateless_set_reconcile.Riblt.Symbol.{Symbol, IsXor, HashedSymbol, CodedSymbol, apply}
use rateless_set_reconcile.Riblt.Symbol.Laws.{apply_comm}
use rateless_set_reconcile.Riblt.Mapping.{Jump, RandomMapping, new_mapping}
use rateless_set_reconcile.Riblt.Window.Spec.{absorb, pass}
use rateless_set_reconcile.Riblt.Window.Visit.{walk, visit, length-visit, visit-append, visit_all}
use rateless_set_reconcile.Riblt.Window.Stream.{fresh_mappings}

if_comm {ℓ} :
    {A : Type ℓ} (f g : A → A) (b e : Bool) (c : A)
    → f (g c) ≡ g (f c)
    → (if b then f (if e then g c else c) else if e then g c else c)
      ≡ (if e then g (if b then f c else c) else if b then f c else c)
if_comm f g true true c h = h
if_comm f g true false c h = refl
if_comm f g false true c h = refl
if_comm f g false false c h = refl

module _ ⦃j : Jump⦄ where
  -- Two walks whose writes commute do so.
  visit_comm :
      {A : Type 0} (f g : A → A)
      → ((c : A) → f (g c) ≡ g (f c))
      → (i : ℕ) (m l : RandomMapping) (cs : List A)
      → visit f i m (visit g i l cs) ≡ visit g i l (visit f i m cs)
  visit_comm f g h i m l [] = refl
  visit_comm f g h i m l (c ∷ cs) =
      let cell = if_comm f g (m.last_idx == i) (l.last_idx == i) c (h c) in
      let rest = visit_comm f g h (suc i) (pass i m) (pass i l) cs in λ k. cell k ∷ rest k

  -- A walk writes the part of each cell that it is about.
  pub map-visit :
      {A B : Type 0} (p : A → B) (f : A → A) (g : B → B)
      → ((c : A) → p (f c) ≡ g (p c))
      → (i : ℕ) (m : RandomMapping) (cs : List A) → map p (visit f i m cs) ≡ visit g i m (map p cs)
  map-visit p f g h i m [] = refl
  map-visit p f g h i m (c ∷ cs) =
      let cell = map-if p f g (m.last_idx == i) c (h c) in
      let rest = map-visit p f g h (suc i) (pass i m) cs in λ k. cell k ∷ rest k
    where
      map-if :
          {A B : Type 0} (p : A → B) (f : A → A) (g : B → B) (b : Bool) (c : A)
          → p (f c) ≡ g (p c)
          → p (if b then f c else c) ≡ (if b then g (p c) else p c)
      map-if p f g true c e = e
      map-if p f g false c e = refl

  -- One more step of a walk.
  walk-suc : (i n : ℕ) (m : RandomMapping) → walk i (suc n) m ≡ pass (i + n) (walk i n m)
  walk-suc i zero m = ap (λ (k : ℕ). pass k m) (omega arith)
  walk-suc i (suc n) m =
      walk-suc (suc i) n (pass i m)
      ∙ ap (λ (k : ℕ). pass k (walk (suc i) n (pass i m))) (omega arith)

  pub map-walk-suc :
      (n : ℕ) (ms : List RandomMapping) → map (pass n) (map (walk 0 n) ms) ≡ map (walk 0 (suc n)) ms
  map-walk-suc n [] = refl
  map-walk-suc n (m ∷ ms) =
      let start : 0 + n ≡ n = omega arith in
      let head = ap (λ (k : ℕ). pass k (walk 0 n m)) (sym start) ∙ sym (walk-suc 0 n m) in
      let rest = map-walk-suc n ms in λ k. head k ∷ rest k

module _ {T : Type 0} ⦃s : Symbol T⦄ ⦃j : Jump⦄ (x : IsXor s) where
  -- A walk along the cells commutes with the walks of other symbols.
  pub visit_all-visit :
      (d : ℕ) (ts : List (HashedSymbol T)) (i : ℕ) (ms : List RandomMapping) (t : HashedSymbol T)
      (e : ℕ) (l : RandomMapping) (cs : List (CodedSymbol T))
      → visit_all d i ts ms (visit (λ c. apply c t e) i l cs)
        ≡ visit (λ c. apply c t e) i l (visit_all d i ts ms cs)
  visit_all-visit d [] i ms t e l cs = refl
  visit_all-visit d (u ∷ ts) i [] t e l cs = refl
  visit_all-visit d (u ∷ ts) i (m ∷ ms) t e l cs =
      ap (visit_all d i ts ms)
        (visit_comm (λ c. apply c u d) (λ c. apply c t e) (λ c. apply_comm x c t u e d) i m l cs)
      ∙ visit_all-visit d ts i ms t e l (visit (λ c. apply c u d) i m cs)

  -- One more symbol is one more walk.
  pub visit_all-one_more :
      (d : ℕ) (ts : List (HashedSymbol T)) (t : HashedSymbol T) (cs : List (CodedSymbol T))
      → visit_all d 0 (ts ++ t ∷ []) (fresh_mappings (ts ++ t ∷ [])) cs
        ≡ visit (λ c. apply c t d) 0 (new_mapping t.hash) (visit_all d 0 ts (fresh_mappings ts) cs)
  visit_all-one_more d [] t cs = refl
  visit_all-one_more d (u ∷ ts) t cs = visit_all-one_more d ts t _

  -- One more cell takes the symbols whose mappings stand at it.
  pub visit_all-one_cell :
      (d : ℕ) (ts : List (HashedSymbol T)) (ms : List RandomMapping) (cs : List (CodedSymbol T))
      (c : CodedSymbol T)
      → visit_all d 0 ts ms (cs ++ c ∷ [])
        ≡ visit_all d 0 ts ms cs ++ absorb d (length cs) ts (map (walk 0 (length cs)) ms) c ∷ []
  visit_all-one_cell d [] ms cs c = refl
  visit_all-one_cell d (t ∷ ts) [] cs c = refl
  visit_all-one_cell d (t ∷ ts) (m ∷ ms) cs c =
      let f = λ (b : CodedSymbol T). apply b t d in
      let n : ℕ = length cs in
      let start : 0 + n ≡ n = omega arith in
      let c' = if (walk 0 n m).last_idx == n then f c else c in
      ap (visit_all d 0 ts ms) (
        visit-append f 0 m cs c
        ∙ ap (λ (k : ℕ). visit f 0 m cs ++ visit f k (walk 0 n m) (c ∷ [])) start)
      ∙ visit_all-one_cell d ts ms (visit f 0 m cs) c'
      ∙ ap
          (λ (k : ℕ).
            visit_all d 0 ts ms (visit f 0 m cs) ++ absorb d k ts (map (walk 0 k) ms) c' ∷ [])
          (length-visit f 0 m cs)

  pub length-visit_all :
      (d : ℕ) (ts : List (HashedSymbol T)) (i : ℕ) (ms : List RandomMapping)
      (cs : List (CodedSymbol T))
      → length (visit_all d i ts ms cs) ≡ length cs
  length-visit_all d [] i ms cs = refl
  length-visit_all d (t ∷ ts) i [] cs = refl
  length-visit_all d (t ∷ ts) i (m ∷ ms) cs =
      length-visit_all d ts i ms _ ∙ length-visit (λ c. apply c t d) i m cs

  -- The same with the number of cells named.
  pub visit_all-cell_at :
      (d k : ℕ) (ts : List (HashedSymbol T)) (cs : List (CodedSymbol T)) (c : CodedSymbol T)
      → length cs ≡ k
      → visit_all d 0 ts (fresh_mappings ts) (cs ++ c ∷ [])
        ≡ visit_all d 0 ts (fresh_mappings ts) cs
          ++ absorb d k ts (map (walk 0 k) (fresh_mappings ts)) c ∷ []
  visit_all-cell_at d k ts cs c e =
      let ms = fresh_mappings ts in
      visit_all-one_cell d ts ms cs c
      ∙ ap (λ (i : ℕ). visit_all d 0 ts ms cs ++ absorb d i ts (map (walk 0 i) ms) c ∷ []) e
