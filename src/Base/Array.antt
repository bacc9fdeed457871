-- ===== src/Base/Array.antt =====
-- Lists as Go slices that are read and written in place, with indices in range.
use mathlib.Core.List.{
  Mem, mem-cons, mem-cons_self, mem-cons_of_mem, not-mem-nil, perm_middle, append-nil,
}
use mathlib.Core.Logic.Or
use mathlib.Core.List.Perm
use Prim.Native.Nat.{ℕ, zero, suc, ◌<◌}
use mathlib.Core.Path.{◌≡◌, refl, ap, ◌∙◌}
use mathlib.Core.List.{List, [], ◌∷◌, ◌++◌, Perm}
use mathlib.Core.Option.{some}
use native.Mathlib.Omega.{arith}
use rateless_set_reconcile.Base.Tests.{◌==◌, if◌then◌else◌}
use rateless_set_reconcile.Base.Lists.{length, set, get_elem?, take, length-set}

-- A type with Go's zero value.
pub record Zero {ℓ} (A : Type ℓ) : Type ℓ where
  pub zero_value : A

module _ {ℓ} {A : Type ℓ} ⦃z : Zero A⦄ where
  -- `a[i]`. Past the end, where Go panics, it is the zero value.
  unfoldable pub get : List A → ℕ → A
  get [] i = z.zero_value
  get (x ∷ a) zero = x
  get (x ∷ a) (suc i) = get a i

  -- `a[i], a[j] = a[j], a[i]`
  unfoldable pub swap : List A → ℕ → ℕ → List A
  swap a i j = set (set a i (get a j)) j (get a i)

  pub get-get_elem? : (a : List A) (i : ℕ) → i < length a → get_elem? a i ≡ some (get a i)
  unfolding get
  get-get_elem? [] i h = absurd (omega arith)
  get-get_elem? (x ∷ a) zero h = refl
  get-get_elem? (x ∷ a) (suc i) h = get-get_elem? a i (omega arith)

  pub get-set :
      (a : List A) (i j : ℕ) (v : A)
      → i < length a
      → get (set a i v) j ≡ (if i == j then v else get a j)
  unfolding get
  get-set [] i j v h = absurd (omega arith)
  get-set (x ∷ a) zero zero v h = refl
  get-set (x ∷ a) (suc i) (suc j) v h = ground (arith, get-set a i j v)
  get-set (x ∷ a) i j v h = ground arith

  pub get-append_left : (a b : List A) (i : ℕ) → i < length a → get (a ++ b) i ≡ get a i
  unfolding get
  get-append_left [] b i h = absurd (omega arith)
  get-append_left (x ∷ a) b zero h = refl
  get-append_left (x ∷ a) b (suc i) h = get-append_left a b i (omega arith)

  pub get-append_last : (a : List A) (x : A) → get (a ++ x ∷ []) (length a) ≡ x
  unfolding get
  get-append_last [] x = refl
  get-append_last (y ∷ a) x = get-append_last a x

  pub get-take : (n : ℕ) (a : List A) (i : ℕ) → i < n → get (take n a) i ≡ get a i
  unfolding get
  get-take zero a i h = absurd (omega arith)
  get-take (suc n) [] i h = refl
  get-take (suc n) (x ∷ a) zero h = refl
  get-take (suc n) (x ∷ a) (suc i) h = get-take n a i (omega arith)

  pub take-append-get : (n : ℕ) (a : List A) → length a ≡ suc n → take n a ++ get a n ∷ [] ≡ a
  unfolding get
  take-append-get zero (x ∷ []) h = refl
  take-append-get (suc n) (x ∷ a) h = ap (◌∷◌ x) (take-append-get n a (omega arith))
  take-append-get n a h = absurd (omega arith)

  -- An entry in front of both lists stays where it is.
  trade_behind :
      (x u v : A) (us vs : List A) → Perm (u ∷ us) (v ∷ vs) → Perm (u ∷ x ∷ us) (v ∷ x ∷ vs)
  trade_behind x u v us vs p =
      let out : Perm (u ∷ x ∷ us) (x ∷ v ∷ vs) = Perm.trans (Perm.swap x u us) (Perm.cons x p) in
      Perm.trans out (Perm.swap v x vs)

  -- A write trades the old entry for the new one.
  pub set-perm : (a : List A) (i : ℕ) (v : A) → i < length a → Perm (get a i ∷ set a i v) (v ∷ a)
  unfolding get
  set-perm (y ∷ ys) zero v lt = Perm.swap v y ys
  set-perm (y ∷ ys) (suc k) v lt =
      trade_behind y (get ys k) v (set ys k v) ys (set-perm ys k v (omega arith))
  set-perm [] k v lt = absurd (omega arith)

  module _ (a : List A) (i j : ℕ) (hi : i < length a) (hj : j < length a) where
    pub get-swap :
        (c : ℕ)
        → get (swap a i j) c ≡ (if j == c then get a i else if i == c then get a j else get a c)
    unfolding swap
    get-swap c =
        rw
          (get-set (set a i (get a j)) j c (get a i) (rw length-set hj), get-set a i c (get a j) hi)

    pub swap-perm : Perm (swap a i j) a
    unfolding swap
    swap-perm =
        let b = set a i (get a j) in
        let kept : get b j ≡ get a j = ground (arith, get-set a i j (get a j)) in
        let second = rw kept at (set-perm b j (get a i) (rw length-set hj)) in
        Perm.cons_inv (Perm.trans second (set-perm a i (get a j) hi))

pub append_one-perm {ℓ} : {A : Type ℓ} (a : List A) (x : A) → Perm (a ++ x ∷ []) (x ∷ a)
append_one-perm xs x = let whole = perm_middle {a = x} xs [] in rw (append-nil xs) at whole

module _ {ℓ} {A : Type ℓ} ⦃z : Zero A⦄ where
  pub length-swap : (a : List A) (i j : ℕ) → length (swap a i j) ≡ length a
  unfolding swap
  length-swap xs i j = length-set (set xs i (get xs j)) j (get xs i) ∙ length-set xs i (get xs j)

  pub get-mem : (a : List A) (i : ℕ) → i < length a → Mem (get a i) a
  unfolding get
  get-mem [] i h = absurd (omega arith)
  get-mem (x ∷ a) zero h = mem-cons_self
  get-mem (x ∷ a) (suc i) h = mem-cons_of_mem x (get-mem a i (omega arith))

  -- What holds at every index holds of every entry.
  pub mem_of_get {κ} :
      (P : A → Type κ)
      → ((x : A) → IsProp (P x))
      → (a : List A) → ((i : ℕ) → i < length a → P (get a i))
      → (x : A) → Mem x a
      → P x
  unfolding get
  mem_of_get P c [] h x m = absurd (not-mem-nil m)
  mem_of_get P c (y ∷ a) h x m =
      Or.elim (c x) (mem-cons.0 m) (λ e. rw e (h zero (omega arith)))
        (mem_of_get P c a (λ i q. h (suc i) (omega arith)) x)
