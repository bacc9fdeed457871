-- ===== src/Base/Outcome.antt =====
-- How a call ends: it returns, it panics, or it still runs when the fuel is used up.
use mathlib.Core.Option.{Option, none, some}

pub data Outcome (A : Type 0) : Type 0 where
  ok : A → Outcome A
  panic : Outcome A
  running : Outcome A

infixl 5 ◌>>=◌
abbrev pub ◌>>=◌ : {A B : Type 0} → Outcome A → (A → Outcome B) → Outcome B
ok a >>= f = f a
panic >>= f = panic
running >>= f = running

-- A step that may panic.
abbrev pub or_panic : {A : Type 0} → Option A → Outcome A
or_panic none = panic
or_panic (some a) = ok a

-- The rest of a loop after a step that may panic.
abbrev pub and_then : {A B : Type 0} → Option A → (A → Outcome B) → Outcome B
and_then none f = panic
and_then (some a) f = f a
