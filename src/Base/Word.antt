-- ===== src/Base/Word.antt =====
-- Machine words: a `uint64` is a number below `2 ^ 64`, and an `int64` its two's complement.
use Prim.Native.Nat.{ℕ, ◌+◌, ◌%◌, ◌^◌, ◌<◌, ◌≤◌}
use mathlib.Core.Path.{◌≡◌}
use mathlib.Core.Bool.{Bool, false}
use native.Mathlib.Omega.{arith}
use rateless_set_reconcile.Base.Tests.{ltb}

abbrev pub u64 : ℕ
u64 = 2 ^ 64

-- One more than the greatest `int64`.
abbrev pub i63 : ℕ
i63 = 2 ^ 63

-- `<` of two's complements.
abbrev pub less_int : ℕ → ℕ → Bool
less_int a b = ltb ((a + i63) % u64) ((b + i63) % u64)

pub less_int-le : (a b : ℕ) → a < i63 → b < i63 → less_int b a ≡ false → a ≤ b
less_int-le a b p q h = ground arith
