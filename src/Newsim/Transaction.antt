-- ===== src/Newsim/Transaction.antt =====
-- newsim/types.go: the transactions, their symbols, and the generator.
-- `ts` is the bit pattern of an `int64`. SipHash is not part of the repository: it is a parameter.
use Prim.Native.Nat.{bit_xor}
use rateless_set_reconcile.Base.{ℕ, zero, suc, ◌+◌, ◌/◌, ◌%◌, ◌≡◌, List, [], ◌∷◌}
use rateless_set_reconcile.Base.Xor.{zero-xor, xor_self, xor_comm, xor_assoc}
use rateless_set_reconcile.Base.Word.{u64}
use rateless_set_reconcile.Riblt.Symbol.{Symbol, IsXor}

pub record Transaction : Type 0 where
  pub idx : ℕ
  pub ts : ℕ

-- `transaction{}`
abbrev pub zero_transaction : Transaction
zero_transaction = record { idx = 0; ts = 0 }

-- `siphash.Hash(567, 890, b)` of a list of bytes.
pub record SipHash : Type 0 where
  pub sip : ℕ → ℕ → List ℕ → ℕ

-- The `n` lowest bytes of `x`, the least significant first (`binary.LittleEndian`).
unfoldable pub little_endian : ℕ → ℕ → List ℕ
little_endian zero x = []
little_endian (suc n) x = (x % 256) ∷ little_endian n (x / 256)

abbrev pub transaction_xor : Transaction → Transaction → Transaction
transaction_xor d t = record { idx = bit_xor d.idx t.idx; ts = bit_xor d.ts t.ts }

transaction_hash : ⦃h : SipHash⦄ → Transaction → ℕ
unfolding little_endian
transaction_hash ⦃h⦄ d = h.sip 567 890 (little_endian 8 d.idx)

-- Transactions are the source symbols of the riblt package.
instance pub transaction_symbol : ⦃h : SipHash⦄ → Symbol Transaction
unfolding transaction_hash
transaction_symbol ⦃h⦄ = record {
  zero_value = zero_transaction;
  xor = transaction_xor;
  hash = transaction_hash;
}

Transaction_path : {c d : Transaction} → c.idx ≡ d.idx → c.ts ≡ d.ts → c ≡ d
Transaction_path p q = λ i. record { idx = p i; ts = q i }

-- The XOR of transactions is what the interface Symbol documents: an exclusive or with the zero
-- transaction as its unit, for any SipHash.
pub transaction_symbol-IsXor : ⦃h : SipHash⦄ → IsXor (transaction_symbol ⦃h = h⦄)
unfolding transaction_symbol
transaction_symbol-IsXor = record {
  zero-xor = λ c. Transaction_path (zero-xor c.idx) (zero-xor c.ts);
  xor_comm = λ c d. Transaction_path (xor_comm c.idx d.idx) (xor_comm c.ts d.ts);
  xor_assoc = λ c d e. Transaction_path (xor_assoc c.idx d.idx e.idx) (xor_assoc c.ts d.ts e.ts);
  xor_self = λ c. Transaction_path (xor_self c.idx) (xor_self c.ts);
}

-- The generator: the number of the last transaction.
unfoldable pub generate : ℕ → ℕ → Transaction × ℕ
generate last at = (record { idx = (last + 1) % u64; ts = at }, (last + 1) % u64)
