-- ===== src/Ldpc/Tests.antt =====
-- The package ldpc on a window of two transactions.
use rateless_set_reconcile.Base.{
  ℕ, ◌≡◌, refl, ◌⊎◌, ◌==◌, false, inl, inr, List, [], ◌∷◌, length, replicate,
}
use rateless_set_reconcile.Base.Int.{pos}
use rateless_set_reconcile.Riblt.Decoder.{index_zero}
use rateless_set_reconcile.Lt.Encoder.{SaltedTransaction}
use rateless_set_reconcile.Lt.Tests.{largest}
use rateless_set_reconcile.Ldpc.Transaction.{
  Blake, Serialized, unmarshal_binary, serialized, tx_size,
}
use rateless_set_reconcile.Ldpc.Transaction.Marshal.{IsTransaction, unmarshal_binary-serialized}
use rateless_set_reconcile.Ldpc.Encoder.{Encoder, Skips}

-- The bytes, hashed to themselves.
instance abbrev identity : Blake
identity = record { sum512 = λ bytes. bytes }

-- No entry is skipped.
instance abbrev no_skips : Skips ℕ ℕ
no_skips = record {
  first_w = λ r deg. (0, r);
  skip = λ r w. (pos 0, r);
  next_w = λ r w deg. (0, r);
}

abbrev tx : ℕ → Serialized
tx n = record { tx_data = n ∷ replicate 127 0; tx_hash = n ∷ replicate 127 0 }

abbrev item : ℕ → SaltedTransaction (List ℕ)
item n = record { salted_hash = n; transaction = tx n }

abbrev encoder : Encoder ℕ
encoder = record {
  window = item 4 ∷ item 7 ∷ item 9 ∷ [];
  degree_dist = 0;
  window_size = 3;
  hashes = 4 ∷ 7 ∷ 9 ∷ [];
}

-- Bytes of the wrong number.
abbrev short : List ℕ
short = 3 ∷ []

unmarshal_binary-serialized_example :
    (unmarshal_binary (serialized (tx 3)) ≡ inr (tx 3))
    × (((length short ≡ tx_size)
          × (s : Serialized) × (unmarshal_binary short ≡ inr s)
          × (serialized s ≡ short)
          × IsTransaction s)
        ⊎ (((length short == tx_size) ≡ false)
            × (unmarshal_binary short ≡ inl (record { length = length short }))))
unmarshal_binary-serialized_example = unmarshal_binary-serialized short (tx 3) (refl, refl)
