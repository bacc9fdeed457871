-- ===== src/Base/Xor.antt =====
-- Exclusive or of unsigned words, `^` in the source: its laws at every width.
use Prim.Native.Nat.{
  ℕ, zero, suc, ◌+◌, ◌*◌, ◌/◌, ◌%◌, ◌≤◌, ◌<◌, digits, differ, bit_xor, bit_xor-bitwise,
}
use mathlib.Core.Path.{◌≡◌, refl, sym, ◌∙◌}
use mathlib.Core.WellFounded
use native.Mathlib.Omega.{arith}
use rateless_set_reconcile.Base.Order.{lt_wf}

abbrev xor_digits : ℕ → ℕ → ℕ → ℕ
xor_digits n a b = digits (λ b. b) differ n a b

-- The count of digits to go does not matter, once it is large enough.
xor_digits-fuel : (n m a b : ℕ) → a ≤ n → a ≤ m → xor_digits n a b ≡ xor_digits m a b
xor_digits-fuel zero zero a b p q = refl
xor_digits-fuel zero (suc m) zero b p q = refl
xor_digits-fuel zero (suc m) (suc a) b p q = absurd (omega arith)
xor_digits-fuel (suc n) zero zero b p q = refl
xor_digits-fuel (suc n) zero (suc a) b p q = absurd (omega arith)
xor_digits-fuel (suc n) (suc m) zero b p q = refl
xor_digits-fuel (suc n) (suc m) (suc a) b p q =
    rw (xor_digits-fuel n m (suc a / 2) (b / 2) (omega arith) (omega arith))

differ-bits : (x y : ℕ) → x < 2 → y < 2 → differ x y ≡ (x + y) % 2
differ-bits zero y hx hy = omega arith
differ-bits (suc zero) zero hx hy = refl
differ-bits (suc zero) (suc zero) hx hy = refl
differ-bits (suc zero) (suc (suc y)) hx hy = absurd (omega arith)
differ-bits (suc (suc x)) y hx hy = absurd (omega arith)

pub zero-xor : (b : ℕ) → bit_xor 0 b ≡ b
zero-xor b = bit_xor-bitwise 0 b

-- The lowest digit, and the rest.
xor_step : (a b : ℕ) → bit_xor a b ≡ bit_xor (a / 2) (b / 2) * 2 + (a + b) % 2
xor_step zero b = omega (arith, zero-xor b, zero-xor (b / 2))
xor_step (suc a) b = omega (
  arith,
  bit_xor-bitwise (suc a) b,
  bit_xor-bitwise (suc a / 2) (b / 2),
  xor_digits-fuel a (suc a / 2) (suc a / 2) (b / 2) (omega arith) (omega arith),
  differ-bits (suc a % 2) (b % 2) (omega arith) (omega arith),
)

xor-half : (a b : ℕ) → bit_xor a b / 2 ≡ bit_xor (a / 2) (b / 2)
xor-half a b = omega (arith, xor_step a b)

xor-parity : (a b : ℕ) → bit_xor a b % 2 ≡ (a + b) % 2
xor-parity a b = omega (arith, xor_step a b)

-- Two numbers with the same lowest digit and the same rest are equal.
by_halves : (a b : ℕ) → a / 2 ≡ b / 2 → a % 2 ≡ b % 2 → a ≡ b
by_halves a b h k = omega arith

pub xor-zero : (a : ℕ) → bit_xor a 0 ≡ a
xor-zero a = WellFounded.induction lt_wf {C = λ k. bit_xor k 0 ≡ k} a step
  where
    step : (n : ℕ) → ((m : ℕ) → m < n → bit_xor m 0 ≡ m) → bit_xor n 0 ≡ n
    step zero ih = zero-xor 0
    step (suc n) ih = omega (arith, xor_step (suc n) 0, ih (suc n / 2) (omega arith))

pub xor_self : (a : ℕ) → bit_xor a a ≡ 0
xor_self a = WellFounded.induction lt_wf {C = λ k. bit_xor k k ≡ 0} a step
  where
    step : (n : ℕ) → ((m : ℕ) → m < n → bit_xor m m ≡ 0) → bit_xor n n ≡ 0
    step zero ih = zero-xor 0
    step (suc n) ih = omega (arith, xor_step (suc n) (suc n), ih (suc n / 2) (omega arith))

pub xor_comm : (a b : ℕ) → bit_xor a b ≡ bit_xor b a
xor_comm a = WellFounded.induction lt_wf {C = λ k. (b : ℕ) → bit_xor k b ≡ bit_xor b k} a step
  where
    step :
        (n : ℕ)
        → ((m : ℕ) → m < n → (b : ℕ) → bit_xor m b ≡ bit_xor b m)
        → (b : ℕ) → bit_xor n b ≡ bit_xor b n
    step zero ih b = zero-xor b ∙ sym (xor-zero b)
    step (suc n) ih b =
        omega (arith, xor_step (suc n) b, xor_step b (suc n), ih (suc n / 2) (omega arith) (b / 2))

pub xor_assoc : (a b c : ℕ) → bit_xor (bit_xor a b) c ≡ bit_xor a (bit_xor b c)
xor_assoc a =
    WellFounded.induction lt_wf
      {C = λ k. (b c : ℕ) → bit_xor (bit_xor k b) c ≡ bit_xor k (bit_xor b c)} a step
  where
    step :
        (n : ℕ)
        → ((m : ℕ) → m < n → (b c : ℕ) → bit_xor (bit_xor m b) c ≡ bit_xor m (bit_xor b c))
        → (b c : ℕ) → bit_xor (bit_xor n b) c ≡ bit_xor n (bit_xor b c)
    step zero ih b c = rw (zero-xor b, zero-xor (bit_xor b c))
    step (suc n) ih b c =
        by_halves _ _
          (rw
            (
              xor-half (bit_xor (suc n) b) c,
              xor-half (suc n) b,
              xor-half (suc n) (bit_xor b c),
              xor-half b c,
            )
            (ih (suc n / 2) (omega arith) (b / 2) (c / 2)))
          (omega (
            arith,
            xor-parity (bit_xor (suc n) b) c,
            xor-parity (suc n) b,
            xor-parity (suc n) (bit_xor b c),
            xor-parity b c,
          ))
