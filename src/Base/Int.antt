-- ===== src/Base/Int.antt =====
-- Signed integers over the native numbers, under the library's names; `negsuc n` is -(n + 1).
use Prim.Native.Nat.{ℕ, suc, ◌+◌, ◌-◌, ◌%◌, ◌≤◌, ◌<◌}
use mathlib.Core.Path.{◌≡◌}
use mathlib.Core.Bool.{Bool}
use native.Mathlib.Omega.{arith}
use rateless_set_reconcile.Base.Tests.{ltb, leb, ◌==◌, if◌then◌else◌}
use rateless_set_reconcile.Base.Word.{u64, i63}

pub data ℤ : Type 0 where
  pos : ℕ → ℤ
  negsuc : ℕ → ℤ

abbrev pub pos_part : ℤ → ℕ
pos_part (pos n) = n
pos_part (negsuc n) = 0

abbrev pub neg_part : ℤ → ℕ
neg_part (pos n) = 0
neg_part (negsuc n) = suc n

-- a - b, as an integer.
abbrev pub sub_ℕ : ℕ → ℕ → ℤ
sub_ℕ a b = if leb b a then pos (a - b) else negsuc (b - a - 1)

infixl 65 ◌+ℤ◌ ◌-ℤ◌
infix 50 ◌≤ℤ◌
unfoldable pub ◌+ℤ◌ : ℤ → ℤ → ℤ
a +ℤ b = sub_ℕ (pos_part a + pos_part b) (neg_part a + neg_part b)

unfoldable pub ◌-ℤ◌ : ℤ → ℤ → ℤ
a -ℤ b = sub_ℕ (pos_part a + neg_part b) (neg_part a + pos_part b)

abbrev pub ◌≤ℤ◌ : ℤ → ℤ → Type 0
a ≤ℤ b = pos_part a + neg_part b ≤ pos_part b + neg_part a

abbrev pub ltb_ℤ : ℤ → ℤ → Bool
ltb_ℤ a b = ltb (pos_part a + neg_part b) (pos_part b + neg_part a)

abbrev pub eqb_ℤ : ℤ → ℤ → Bool
eqb_ℤ a b = (pos_part a + neg_part b) == (pos_part b + neg_part a)

-- The sum by its parts, so that `omega` needs not see how it is computed.
pub +ℤ_parts :
    (a b : ℤ)
    → pos_part (a +ℤ b) + neg_part a + neg_part b ≡ neg_part (a +ℤ b) + pos_part a + pos_part b
unfolding ◌+ℤ◌
+ℤ_parts a b = ground arith

pub -ℤ_parts :
    (a b : ℤ)
    → pos_part (a -ℤ b) + neg_part a + pos_part b ≡ neg_part (a -ℤ b) + pos_part a + neg_part b
unfolding ◌-ℤ◌
-ℤ_parts a b = ground arith

pub +ℤ-natural :
    (a b : ℤ)
    → pos 0 ≤ℤ a
    → pos 0 ≤ℤ b
    → (pos_part (a +ℤ b) ≡ pos_part a + pos_part b) × (neg_part (a +ℤ b) ≡ 0)
unfolding ◌+ℤ◌
+ℤ-natural a b p q = ground arith

pub -ℤ-natural :
    (a b : ℤ)
    → pos 0 ≤ℤ b
    → b ≤ℤ a
    → (pos_part (a -ℤ b) ≡ pos_part a - pos_part b) × (neg_part (a -ℤ b) ≡ 0)
unfolding ◌-ℤ◌
-ℤ-natural a b p q = ground arith

-- The integers that an `int64` holds.
abbrev pub Fits : ℤ → Type 0
Fits a = (pos_part a < i63) × (neg_part a ≤ i63)

-- The `int64` with the bits of an integer: sums and differences wrap around to it.
unfoldable pub int64 : ℤ → ℤ
int64 a =
    let bits = (pos_part a + (u64 - neg_part a % u64)) % u64 in
    if ltb bits i63 then pos bits else negsuc (u64 - bits - 1)

pub int64-Fits : (a : ℤ) → Fits a → int64 a ≡ a
unfolding int64
int64-Fits (pos n) h = ground arith
int64-Fits (negsuc n) h = ground arith
