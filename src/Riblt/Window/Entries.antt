-- ===== src/Riblt/Window/Entries.antt =====
-- What the queue holds: one entry for each source symbol, with the index its mapping stands at.
use mathlib.Core.List.{Mem, mem-cons, not-mem-nil}
use mathlib.Core.List.Perm
use mathlib.Core.Logic.Or
use native.Mathlib.Bridge.{le_prop}
use native.Mathlib.Nat.{ℕ_set}
use rateless_set_reconcile.Base.{
  ℕ, zero, suc, ◌+◌, ◌-◌, ◌≤◌, ◌<◌, ◌≡◌, refl, sym, ap, ◌∙◌, List, [], ◌∷◌, ◌++◌, Perm, arith,
  length, set,
}
use rateless_set_reconcile.Base.Array.{get, get-mem, set-perm}
use rateless_set_reconcile.Riblt.Mapping.{RandomMapping}
use rateless_set_reconcile.Riblt.Window.{SymbolMapping, mapping_zero, symbol_mapping_zero}

abbrev pub entry : ℕ → RandomMapping → SymbolMapping
entry k m = record { source_idx = k; coded_idx = m.last_idx }

abbrev pub entries : ℕ → List RandomMapping → List SymbolMapping
entries k [] = []
entries k (m ∷ ms) = entry k m ∷ entries (suc k) ms

pub length-entries : (k : ℕ) (ms : List RandomMapping) → length (entries k ms) ≡ length ms
length-entries k [] = refl
length-entries k (m ∷ ms) = ap suc (length-entries (suc k) ms)

pub entries-append :
    (k : ℕ) (ms : List RandomMapping) (m : RandomMapping)
    → entries k (ms ++ m ∷ []) ≡ entries k ms ++ entry (k + length ms) m ∷ []
entries-append k [] m = ap (λ (i : ℕ). entry i m ∷ []) (omega arith)
entries-append k (n ∷ ms) m = ap (◌∷◌ (entry k n)) (
    entries-append (suc k) ms m
    ∙ ap (λ (i : ℕ). entries (suc k) ms ++ entry i m ∷ []) (omega arith))

pub get-entries :
    (k i : ℕ) (ms : List RandomMapping)
    → i < length ms
    → get (entries k ms) i ≡ entry (k + i) (get ms i)
unfolding get
get-entries k i [] h = absurd (omega arith)
get-entries k zero (m ∷ ms) h = ap (λ (a : ℕ). entry a m) (omega arith)
get-entries k (suc i) (m ∷ ms) h =
    get-entries (suc k) i ms (omega arith) ∙ ap (λ (a : ℕ). entry a (get ms i)) (omega arith)

pub entries-set :
    (k i : ℕ) (ms : List RandomMapping) (m : RandomMapping)
    → set (entries k ms) i (entry (k + i) m) ≡ entries k (set ms i m)
entries-set k i [] m = refl
entries-set k zero (n ∷ ms) m = ap (λ (a : ℕ). entry a m ∷ entries (suc k) ms) (omega arith)
entries-set k (suc i) (n ∷ ms) m = ap (◌∷◌ (entry k n)) (
    ap (λ (a : ℕ). set (entries (suc k) ms) i (entry a m)) (omega arith)
    ∙ entries-set (suc k) i ms m)

-- An entry of the queue stands for a source symbol, at its mapping's index.
abbrev pub IsEntry : ℕ → List RandomMapping → SymbolMapping → Type 0
IsEntry k ms e =
    (k ≤ e.source_idx)
    × (e.source_idx < k + length ms)
    × (e.coded_idx ≡ (get ms (e.source_idx - k)).last_idx)

IsEntry-prop : (k : ℕ) (ms : List RandomMapping) (e : SymbolMapping) → IsProp (IsEntry k ms e)
IsEntry-prop k ms e = hlevel (le_prop, ℕ_set)

IsEntry-suc :
    (k : ℕ) (m : RandomMapping) (ms : List RandomMapping) (e : SymbolMapping)
    → IsEntry (suc k) ms e
    → IsEntry k (m ∷ ms) e
unfolding get
IsEntry-suc k m ms e (lo, hi, at) =
    let below : e.source_idx - k ≡ suc (e.source_idx - suc k) = omega arith in
    (omega arith, omega arith, at ∙ rw below)

IsEntry-zero :
    (k : ℕ) (m : RandomMapping) (ms : List RandomMapping) → IsEntry k (m ∷ ms) (entry k m)
unfolding get
IsEntry-zero k m ms =
    let none_left : k - k ≡ zero = omega arith in (omega arith, omega arith, rw none_left)

pub mem-entries :
    (k : ℕ) (ms : List RandomMapping) (e : SymbolMapping) → Mem e (entries k ms) → IsEntry k ms e
mem-entries k [] e h = absurd (not-mem-nil h)
mem-entries k (m ∷ ms) e h =
    Or.elim (IsEntry-prop k (m ∷ ms) e) (mem-cons.0 h) (λ p. rw p (IsEntry-zero k m ms))
      (λ r. IsEntry-suc k m ms e (mem-entries (suc k) ms e r))

module _ (q : List SymbolMapping) (ms : List RandomMapping) (same : Perm q (entries 0 ms)) where
  pub head-IsEntry : 0 < length q → IsEntry 0 ms (get q 0)
  head-IsEntry h = mem-entries 0 ms (get q 0) ((Perm.mem_iff same).0 (get-mem q 0 h))

  pub entry-mem : (i : ℕ) → i < length ms → Mem (entry i (get ms i)) q
  entry-mem i h =
      let at = get-entries 0 i ms h in
      let found = get-mem (entries 0 ms) i (rw length-entries h) in
      (Perm.mem_iff same).1 (rw (at, zero_add i) at found)
    where
      zero_add : (n : ℕ) → 0 + n ≡ n
      zero_add n = omega arith

  -- Writing the head of the queue follows writing the mapping that it stands for.
  pub set_head-perm :
      (m : RandomMapping)
      → 0 < length q
      → Perm
          (set q 0 (record (get q 0) { coded_idx = m.last_idx }))
          (entries 0 (set ms (get q 0).source_idx m))
  set_head-perm m h =
      let i = (get q 0).source_idx in
      let (_, inside, stands) = head-IsEntry h in
      let hi : i < length (entries 0 ms) = omega (arith, length-entries 0 ms) in
      let start : 0 + i ≡ i = omega arith in
      let here : get (entries 0 ms) i ≡ get q 0 =
        get-entries 0 i ms (omega arith)
        ∙ (λ t. record { source_idx = start t; coded_idx = same_idx h (sym stands) t }) in
      let there : set (entries 0 ms) i (entry i m) ≡ entries 0 (set ms i m) =
        ap (λ (a : ℕ). set (entries 0 ms) i (entry a m)) (sym start) ∙ entries-set 0 i ms m in
      let write = rw (here, there) at (set-perm (entries 0 ms) i (entry i m) hi) in
      Perm.cons_inv (
        Perm.trans (set-perm q 0 (entry i m) h)
          (Perm.trans (Perm.cons (entry i m) same) (Perm.symm write)))
    where
      same_idx :
          0 < length q
          → (get ms ((get q 0).source_idx - 0)).last_idx ≡ (get q 0).coded_idx
          → (get ms (get q 0).source_idx).last_idx ≡ (get q 0).coded_idx
      same_idx h e =
          let minus_zero : (get q 0).source_idx - 0 ≡ (get q 0).source_idx = omega arith in
          rw minus_zero at e
