-- ===== src/Lt/Tests.antt =====
-- The encoder of the package lt at concrete transactions: numbers, hashed to themselves.
use Prim.Native.Nat.{bit_xor, min}
use rateless_set_reconcile.Base.{
  ℕ, ◌-◌, ◌≡◌, refl, ◌⊎◌, true, false, some, List, [], ◌∷◌, length, arith,
}
use rateless_set_reconcile.Lt.Encoder.{
  TransactionData, Transaction, Hasher, Rng, Codeword, SaltedTransaction, Encoder, contains, salted,
  add_transaction, produce_codeword_of_degree,
}
use rateless_set_reconcile.Lt.Encoder.Window.{IsWindow, IsAdded, add_transaction-IsAdded}
use rateless_set_reconcile.Lt.Encoder.Shuffle.{produce_codeword_of_degree-window}

instance abbrev pub numbers : TransactionData ℕ
numbers = record { zero_value = 0; xor = bit_xor; hash = λ n. n ∷ [] }

-- The first byte, or 0.
abbrev pub first_byte : List ℕ → ℕ
first_byte [] = 0
first_byte (b ∷ bytes) = b

instance abbrev pub by_first_byte : Hasher
by_first_byte = record { sum64 = first_byte }

-- The largest number allowed.
instance abbrev pub largest : Rng ℕ
largest = record { intn = λ r n. (n - 1, r); intn-lt = λ r n p. omega arith }

abbrev pub tx : ℕ → Transaction ℕ
tx n = record { tx_data = n; tx_hash = n ∷ [] }

abbrev item : ℕ → SaltedTransaction ℕ
item n = record { salted_hash = n; transaction = tx n }

abbrev encoder : Encoder ℕ ℕ ℕ
encoder = record {
  rng = 0;
  window = item 4 ∷ item 7 ∷ [];
  degree_dist = 0;
  hashes = 7 ∷ 4 ∷ [];
  window_size = 2;
  shuffle_history = [];
}

encoder-IsWindow : IsWindow encoder
unfolding contains
encoder-IsWindow = record {
  hashed = λ h. ground arith;
  distinct = (refl, (refl, tt));
  bounded = omega arith;
}

add_transaction-IsAdded_example :
    ((contains encoder.hashes (salted (tx 9)) ≡ true)
      × (add_transaction encoder (tx 9) ≡ (false, encoder)))
    ⊎ ((e' : Encoder ℕ ℕ ℕ) × (contains encoder.hashes (salted (tx 9)) ≡ false)
        × (add_transaction encoder (tx 9) ≡ (true, e'))
        × IsAdded encoder (record { salted_hash = salted (tx 9); transaction = tx 9 }) e')
add_transaction-IsAdded_example = add_transaction-IsAdded encoder (tx 9) encoder-IsWindow

produce_codeword_of_degree-window_example :
    (c : Codeword ℕ) × (e' : Encoder ℕ ℕ ℕ) × (produce_codeword_of_degree 5 encoder ≡ some (c, e'))
    × (e'.window ≡ encoder.window)
    × (length c.members ≡ min 5 (length encoder.window))
produce_codeword_of_degree-window_example =
    produce_codeword_of_degree-window 5 encoder (omega arith) (omega arith)
