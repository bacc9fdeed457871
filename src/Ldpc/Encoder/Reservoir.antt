-- ===== src/Ldpc/Encoder/Reservoir.antt =====
-- ldpc/encoder.go: what the reservoir selects, and the codeword made of it.
use rateless_set_reconcile.Base.{ℕ, ◌+◌, ◌<◌, ◌≡◌, List, [], ◌∷◌, ◌++◌, length, map}
use Prim.Native.Nat.{bit_xor}
use rateless_set_reconcile.Base.Array.{get}
use rateless_set_reconcile.Base.Int.{pos, pos_part, ◌≤ℤ◌}
use rateless_set_reconcile.Base.Word.{i63}
use rateless_set_reconcile.Riblt.Decoder.{index_zero}
use rateless_set_reconcile.Lt.Encoder.{SaltedTransaction, Codeword, salted_zero}
use rateless_set_reconcile.Ldpc.Transaction.{bytes_data}
use rateless_set_reconcile.Ldpc.Encoder.{Encoder, Skips}

-- The steps that Go computes are not negative, and do not take an index of the window out of an `int`.
abbrev pub IsForward : (W R : Type 0) ⦃s : Skips W R⦄ → List (SaltedTransaction (List ℕ)) → Type 0
IsForward W R ⦃s⦄ window =
    (rng : R) (w : W)
    → (pos 0 ≤ℤ (s.skip rng w).0) × (length window + pos_part (s.skip rng w).0 + 1 < i63)

-- The exclusive or of the bytes at one index.
abbrev pub xor_at : ℕ → List (SaltedTransaction (List ℕ)) → ℕ
xor_at i [] = 0
xor_at i (x ∷ xs) = bit_xor (get x.transaction.tx_data i) (xor_at i xs)

-- `c'` is `c` with the entries `xs` added to it.
pub record IsCollected (xs : List (SaltedTransaction (List ℕ))) (c c' : Codeword (List ℕ))
    : Type 0 where
  pub size : length c'.symbol ≡ length c.symbol
  pub bytes :
      (i : ℕ) → i < length c.symbol → get c'.symbol i ≡ bit_xor (get c.symbol i) (xor_at i xs)
  pub members : c'.members ≡ c.members ++ map (λ (x : SaltedTransaction (List ℕ)). x.salted_hash) xs
