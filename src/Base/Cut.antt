-- ===== src/Base/Cut.antt =====
-- Cutting one entry out of a slice, and counting the entries of a list.
use mathlib.Core.List.{Permᴰ}
use mathlib.Core.List.Perm
use mathlib.Core.Logic.{∥∥₁_elim}
use native.Mathlib.Nat.{ℕ_set}
use Prim.Native.Nat.{ℕ, suc, ◌-◌, ◌<◌, ◌≤◌}
use mathlib.Core.Path.{◌≡◌, refl, ◌∙◌}
use mathlib.Core.Logic.{inl, inr}
use mathlib.Core.Option.{Option, none, some}
use mathlib.Core.List.{List, [], ◌∷◌, ◌++◌, Perm}
use native.Mathlib.Omega.{arith}
use rateless_set_reconcile.Base.Tests.{◌==◌, ==_iff, Bool-cases, if◌then◌else◌, ◌>>=◌}
use rateless_set_reconcile.Base.Lists.{length, set, take, length-take, length-set}
use rateless_set_reconcile.Base.Array.{
  Zero, get, get-set, get-take, set-perm, take-append-get, append_one-perm,
}

module _ {A : Type 0} ⦃z : Zero A⦄ where
  -- The entry at `t` is cut out of the buffer: the last entry takes its place.
  unfoldable pub cut_at : ℕ → List A → List A
  cut_at t a = take (length a - 1) (set a t (get a (length a - 1)))

  pub length-cut_at : (t : ℕ) (a : List A) → t < length a → length (cut_at t a) ≡ length a - 1
  unfolding cut_at
  length-cut_at t a h = omega (
    arith,
    length-take (length a - 1) (set a t (get a (length a - 1))),
    length-set a t (get a (length a - 1)),
  )

  pub get-cut_at :
      (t : ℕ) (a : List A) (i : ℕ)
      → t < length a
      → i < t
      → i < length a - 1
      → get (cut_at t a) i ≡ get a i
  unfolding cut_at
  get-cut_at t a i h l k =
      get-take (length a - 1) _ i k ∙ ground (arith, get-set a t i (get a (length a - 1)) h)

  pub cut_at-perm : (t : ℕ) (a : List A) → t < length a → Perm (get a t ∷ cut_at t a) a
  unfolding cut_at
  cut_at-perm t a h =
      let n = length a - 1 in
      let w = get a n in
      let b = set a t w in
      let last : get b n ≡ w = ground (arith, get-set a t n w h) in
      let size : length b ≡ suc n = omega (arith, length-set a t w) in
      let whole : take n b ++ w ∷ [] ≡ b = rw last at (take-append-get n b size) in
      let traded : Perm (get a t ∷ (take n b ++ w ∷ [])) (w ∷ a) = rw whole (set-perm a t w h) in
      Perm.cons_inv (Perm.trans (Perm.symm (append_one-perm (get a t ∷ take n b) w)) traded)

-- How often a number stands in a list.
unfoldable pub occ : ℕ → List ℕ → ℕ
occ x [] = 0
occ x (y ∷ ys) = if y == x then suc (occ x ys) else occ x ys

occ-Permᴰ : (x : ℕ) {us vs : List ℕ} → Permᴰ us vs → occ x us ≡ occ x vs
unfolding occ
occ-Permᴰ x Permᴰ.nil = refl
occ-Permᴰ x (Permᴰ.cons y p) = ground (arith, occ-Permᴰ x p)
occ-Permᴰ x (Permᴰ.swap y w) = ground arith
occ-Permᴰ x (Permᴰ.trans p q) = occ-Permᴰ x p ∙ occ-Permᴰ x q

pub occ-perm : (x : ℕ) {us vs : List ℕ} → Perm us vs → occ x us ≡ occ x vs
occ-perm x p = ∥∥₁_elim p (ℕ_set _ _) (occ-Permᴰ x)

pub occ-append_one :
    (x y : ℕ) (ys : List ℕ) → occ x (ys ++ y ∷ []) ≡ (if y == x then suc (occ x ys) else occ x ys)
unfolding occ
occ-append_one x y [] = refl
occ-append_one x y (w ∷ ys) = ground (arith, occ-append_one x y ys)

pub occ-le-length : (x : ℕ) (ys : List ℕ) → occ x ys ≤ length ys
unfolding occ
occ-le-length x [] = omega arith
occ-le-length x (y ∷ ys) = ground (arith, occ-le-length x ys)

-- The first index of a number.
unfoldable pub index_of : List ℕ → ℕ → Option ℕ
index_of [] x = none
index_of (y ∷ ys) x = if y == x then some 0 else (index_of ys x >>= λ i. some (suc i))

module _ ⦃z : Zero ℕ⦄ where
  -- The first entry that is `x`, cut out of the list; `none` if there is none.
  unfoldable pub remove_first : List ℕ → ℕ → Option (List ℕ)
  unfolding index_of
  remove_first ys x = index_of ys x >>= λ i. some (cut_at i ys)

  index_of-found :
      (ys : List ℕ) (x : ℕ)
      → 0 < occ x ys
      → (i : ℕ) × (index_of ys x ≡ some i) × (i < length ys) × (get ys i ≡ x)
  unfolding occ index_of get
  index_of-found [] x h = absurd (omega arith)
  index_of-found (y ∷ ys) x h = elim (Bool-cases (y == x)) [
    | inl here ↦ (0, rw here, omega arith, (==_iff y x).0 here)
    | inr there ↦
        let (i, found, lt, at) = index_of-found ys x (rw there at h) in
        (suc i, rw (there, found), omega arith, at)
  ]

  pub record IsRemoved (ys : List ℕ) (x : ℕ) (zs : List ℕ) : Type 0 where
    pub shorter : length ys ≡ suc (length zs)
    pub counts : (w : ℕ) → occ w ys ≡ (if x == w then suc (occ w zs) else occ w zs)

  pub remove_first-IsRemoved :
      (ys : List ℕ) (x : ℕ)
      → 0 < occ x ys
      → (zs : List ℕ) × (remove_first ys x ≡ some zs) × IsRemoved ys x zs
  unfolding remove_first occ
  remove_first-IsRemoved ys x h =
      let (i, found, lt, at) = index_of-found ys x h in
      let same = cut_at-perm i ys lt in
      (
        cut_at i ys,
        rw found,
        record {
          shorter = omega (arith, length-cut_at i ys lt);
          counts = λ w. rw at at (occ-perm w (Perm.symm same));
        },
      )
