-- ===== src/Ldpc/Transaction.antt =====
-- ldpc/transaction.go: transactions of 128 bytes. The hash BLAKE2b-512 is a parameter.
pub mod Marshal
use Prim.Native.Nat.{bit_xor}
use rateless_set_reconcile.Base.{
  ℕ, ◌==◌, not, ◌⊎◌, inl, inr, List, [], ◌∷◌, length, replicate, if◌then◌else◌,
}
use rateless_set_reconcile.Lt.Encoder.{TransactionData, Transaction}

-- `TxSize`
abbrev pub tx_size : ℕ
tx_size = 128

pub record Blake : Type 0 where
  pub sum512 : List ℕ → List ℕ

-- `TransactionData.XOR`: the exclusive or of the words is that of their bytes.
unfoldable pub xor_bytes : List ℕ → List ℕ → List ℕ
xor_bytes [] ys = []
xor_bytes (x ∷ xs) [] = x ∷ xs
xor_bytes (x ∷ xs) (y ∷ ys) = bit_xor x y ∷ xor_bytes xs ys

instance abbrev pub bytes_data : ⦃b : Blake⦄ → TransactionData (List ℕ)
bytes_data ⦃b⦄ = record { zero_value = replicate tx_size 0; xor = xor_bytes; hash = b.sum512 }

-- `serialized`, with its hash.
abbrev pub Serialized : Type 0
Serialized = Transaction (List ℕ)

pub record DataSizeError : Type 0 where
  pub length : ℕ

unfoldable pub unmarshal_binary : ⦃b : Blake⦄ → List ℕ → DataSizeError ⊎ Serialized
unmarshal_binary ⦃b⦄ bytes =
    if not (length bytes == tx_size)
    then inl (record { length = length bytes })
    else inr (record { tx_data = bytes; tx_hash = b.sum512 bytes })

abbrev pub serialized : Serialized → List ℕ
serialized t = t.tx_data
