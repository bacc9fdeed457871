-- ===== src/Riblt/Window/Spec.antt =====
-- The coded symbols by their definition: number `i` holds each source symbol whose random mapping
-- visits `i`, once. No heap, no queue, and one pass over the symbols for each index.
use rateless_set_reconcile.Base.{
  ℕ, zero, suc, ◌<◌, ◌≡◌, refl, ap, ◌≢◌, List, [], ◌∷◌, map, arith, length, set, ◌==◌,
  if◌then◌else◌,
}
use rateless_set_reconcile.Base.Array.{get}
use rateless_set_reconcile.Riblt.Symbol.{Symbol, IsXor, HashedSymbol, CodedSymbol, apply}
use rateless_set_reconcile.Riblt.Symbol.Laws.{apply_comm}
use rateless_set_reconcile.Riblt.Mapping.{Jump, RandomMapping, next_index}
use rateless_set_reconcile.Riblt.Window.{mapping_zero, hashed_zero}

module _ {T : Type 0} ⦃s : Symbol T⦄ where
  -- Apply to `c` each symbol whose mapping stands at `i`.
  abbrev pub absorb :
      ℕ → ℕ → List (HashedSymbol T) → List RandomMapping → CodedSymbol T → CodedSymbol T
  absorb d i [] ms c = c
  absorb d i (t ∷ ts) [] c = c
  absorb d i (t ∷ ts) (m ∷ ms) c = absorb d i ts ms (if m.last_idx == i then apply c t d else c)

module _ ⦃j : Jump⦄ where
  -- The mapping that stands at `i` moves on.
  abbrev pub pass : ℕ → RandomMapping → RandomMapping
  pass i m = if m.last_idx == i then next_index m else m

-- How many mappings stand at `i`.
abbrev pub due : ℕ → List RandomMapping → ℕ
due i [] = 0
due i (m ∷ ms) = if m.last_idx == i then suc (due i ms) else due i ms

pub due-le-length : (i : ℕ) (ms : List RandomMapping) → due i ms < suc (length ms)
due-le-length i [] = omega arith
due-le-length i (m ∷ ms) = ground (arith, due-le-length i ms)

module _ {T : Type 0} ⦃s : Symbol T⦄ (x : IsXor s) where
  -- A symbol applied before the others is as good as one applied in its turn.
  pub absorb-apply :
      (d i : ℕ) (ts : List (HashedSymbol T)) (ms : List RandomMapping) (c : CodedSymbol T)
      (t : HashedSymbol T) (e : ℕ)
      → absorb d i ts ms (apply c t e) ≡ apply (absorb d i ts ms c) t e
  absorb-apply d i [] ms c t e = refl
  absorb-apply d i (u ∷ ts) [] c t e = refl
  absorb-apply d i (u ∷ ts) (m ∷ ms) c t e = ground (
    arith,
    apply_comm x c t u e d,
    absorb-apply d i ts ms c t e,
    absorb-apply d i ts ms (apply c u d) t e,
  )

  pub absorb-set :
      (d i k : ℕ) (ts : List (HashedSymbol T)) (ms : List RandomMapping) (m' : RandomMapping)
      (c : CodedSymbol T)
      → k < length ms
      → length ms ≡ length ts
      → (get ms k).last_idx ≡ i
      → m'.last_idx ≢ i
      → absorb d i ts (set ms k m') (apply c (get ts k) d) ≡ absorb d i ts ms c
  unfolding get
  absorb-set d i k [] [] m' c p q r t = absurd (omega arith)
  absorb-set d i k [] (m ∷ ms) m' c p q r t = absurd (omega arith)
  absorb-set d i k (u ∷ ts) [] m' c p q r t = absurd (omega arith)
  absorb-set d i zero (u ∷ ts) (m ∷ ms) m' c p q r t = ground arith
  absorb-set d i (suc k) (u ∷ ts) (m ∷ ms) m' c p q r t = ground (
    arith,
    apply_comm x c (get ts k) u d d,
    absorb-set d i k ts ms m' c,
    absorb-set d i k ts ms m' (apply c u d),
  )

pub due-set :
    (i k : ℕ) (ms : List RandomMapping) (m' : RandomMapping)
    → k < length ms
    → (get ms k).last_idx ≡ i
    → m'.last_idx ≢ i
    → due i ms ≡ suc (due i (set ms k m'))
unfolding get
due-set i k [] m' p q r = absurd (omega arith)
due-set i zero (m ∷ ms) m' p q r = ground arith
due-set i (suc k) (m ∷ ms) m' p q r = ground (arith, due-set i k ms m')

module _ ⦃j : Jump⦄ where
  pub pass-set :
      (i k : ℕ) (ms : List RandomMapping)
      → k < length ms
      → (get ms k).last_idx ≡ i
      → (next_index (get ms k)).last_idx ≢ i
      → map (pass i) (set ms k (next_index (get ms k))) ≡ map (pass i) ms
  unfolding get
  pass-set i k [] p q r = absurd (omega arith)
  pass-set i zero (m ∷ ms) p q r = ground arith
  pass-set i (suc k) (m ∷ ms) p q r = ap (◌∷◌ (pass i m)) (pass-set i k ms (omega arith) q r)

  pub pass-none :
      (i : ℕ) (ms : List RandomMapping)
      → ((k : ℕ) → k < length ms → (get ms k).last_idx ≢ i)
      → map (pass i) ms ≡ ms
  unfolding get
  pass-none i [] h = refl
  pass-none i (m ∷ ms) h =
      ground (arith, h zero (omega arith), pass-none i ms (λ k p. h (suc k) (omega arith)))

module _ {T : Type 0} ⦃s : Symbol T⦄ where
  pub absorb-none :
      (d i : ℕ) (ts : List (HashedSymbol T)) (ms : List RandomMapping) (c : CodedSymbol T)
      → ((k : ℕ) → k < length ms → (get ms k).last_idx ≢ i)
      → absorb d i ts ms c ≡ c
  unfolding get
  absorb-none d i [] ms c h = refl
  absorb-none d i (t ∷ ts) [] c h = refl
  absorb-none d i (t ∷ ts) (m ∷ ms) c h =
      ground (arith, h zero (omega arith), absorb-none d i ts ms c (λ k p. h (suc k) (omega arith)))
