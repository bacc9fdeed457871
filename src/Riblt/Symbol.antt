-- ===== src/Riblt/Symbol.antt =====
-- riblt/symbol.go: source symbols, hashed symbols and coded symbols.
pub mod Laws
use Prim.Native.Nat.{bit_xor}
use rateless_set_reconcile.Base.{ℕ, ◌+◌, ◌-◌, ◌%◌, ◌≡◌}
use rateless_set_reconcile.Base.Word.{u64}

-- The interface `Symbol`. The source symbols are the program's callers'; `zero_value` is Go's.
pub record Symbol (T : Type 0) : Type 0 where
  pub zero_value : T
  pub xor : T → T → T
  pub hash : T → ℕ

-- What the interface documents: `XOR` is exclusive or, with the zero value as its unit.
pub record IsXor {T : Type 0} (s : Symbol T) : Type 0 where
  pub zero-xor : (x : T) → s.xor s.zero_value x ≡ x
  pub xor_comm : (x y : T) → s.xor x y ≡ s.xor y x
  pub xor_assoc : (x y z : T) → s.xor (s.xor x y) z ≡ s.xor x (s.xor y z)
  pub xor_self : (x : T) → s.xor x x ≡ s.zero_value

pub record HashedSymbol (T : Type 0) : Type 0 where
  pub symbol : T
  pub hash : ℕ

-- `count` is an `int64`, in two's complement.
pub record CodedSymbol (T : Type 0) : Type 0 where
  pub sum : T
  pub count : ℕ
  pub checksum : ℕ

-- The two directions, 1 and -1.
abbrev pub add : ℕ
add = 1

abbrev pub remove : ℕ
remove = u64 - 1

module _ {T : Type 0} ⦃s : Symbol T⦄ where
  -- `CodedSymbol[T]{}`
  abbrev pub empty_coded : CodedSymbol T
  empty_coded = record { sum = s.zero_value; count = 0; checksum = 0 }

  -- `HashedSymbol[T]{t, t.Hash()}`
  abbrev pub hashed : T → HashedSymbol T
  hashed t = record { symbol = t; hash = s.hash t }

  unfoldable pub apply : CodedSymbol T → HashedSymbol T → ℕ → CodedSymbol T
  apply c t direction = record {
    sum = s.xor c.sum t.symbol;
    count = (c.count + direction) % u64;
    checksum = bit_xor c.checksum t.hash;
  }
