-- ===== src/Base/Table.antt =====
-- Go's maps from numbers, as association lists without an order, and Go's memory as a function of the
-- pointer.
use Prim.Native.Nat.{ℕ}
use mathlib.Core.Path.{◌≡◌, refl}
use mathlib.Core.Bool.{Bool, true, false}
use mathlib.Core.Option.{Option, none, some}
use mathlib.Core.List.{List, [], ◌∷◌}
use native.Mathlib.Omega.{arith}
use rateless_set_reconcile.Base.Tests.{◌==◌, if◌then◌else◌}

abbrev pub Table : Type 0 → Type 0
Table V = List (ℕ × V)

module _ {V : Type 0} where
  unfoldable pub find : Table V → ℕ → Option V
  find [] k = none
  find ((j, v) ∷ t) k = if j == k then some v else find t k

  unfoldable pub erase : Table V → ℕ → Table V
  erase [] k = []
  erase ((j, v) ∷ t) k = let rest = erase t k in if j == k then rest else (j, v) ∷ rest

  unfoldable pub put : Table V → ℕ → V → Table V
  put t k v = (k, v) ∷ t

  pub find-put :
      (t : Table V) (k j : ℕ) (v : V) → find (put t k v) j ≡ (if k == j then some v else find t j)
  unfolding find put
  find-put t k j v = refl

  pub find-erase :
      (t : Table V) (k j : ℕ) → find (erase t k) j ≡ (if k == j then none else find t j)
  unfolding find erase
  find-erase [] k j = ground arith
  find-erase ((i, v) ∷ t) k j = ground (arith, find-erase t k j)

-- Whether a lookup finds something.
abbrev pub is_some : {V : Type 0} → Option V → Bool
is_some none = false
is_some (some v) = true

-- The memory after a write to the pointer `i`.
abbrev pub update : {A : Type 0} → (ℕ → A) → ℕ → A → ℕ → A
update f i v j = if i == j then v else f j
