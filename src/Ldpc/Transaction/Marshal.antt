-- ===== src/Ldpc/Transaction/Marshal.antt =====
-- ldpc/transaction.go: UnmarshalBinary and Serialized are inverse to each other.
use rateless_set_reconcile.Base.{
  ℕ, ◌≡◌, refl, sym, ap, ◌∙◌, Bool-cases, ◌==◌, ==_iff, false, inl, inr, ◌⊎◌, List, length,
}
use rateless_set_reconcile.Ldpc.Transaction.{
  Blake, Serialized, unmarshal_binary, serialized, tx_size,
}

-- A transaction as UnmarshalBinary makes them.
abbrev pub IsTransaction : ⦃b : Blake⦄ → Serialized → Type 0
IsTransaction ⦃b⦄ t = (length t.tx_data ≡ tx_size) × (t.tx_hash ≡ b.sum512 t.tx_data)

Serialized_path : {s t : Serialized} → s.tx_data ≡ t.tx_data → s.tx_hash ≡ t.tx_hash → s ≡ t
Serialized_path p q = λ i. record { tx_data = p i; tx_hash = q i }

module _ ⦃b : Blake⦄ where
  unmarshal_binary-size :
      (bytes : List ℕ)
      → length bytes ≡ tx_size
      → unmarshal_binary bytes ≡ inr (record { tx_data = bytes; tx_hash = b.sum512 bytes })
  unfolding unmarshal_binary
  unmarshal_binary-size bytes size = rw ((==_iff (length bytes) tx_size).1 size) refl

  -- UnmarshalBinary of the bytes of a transaction of 128 bytes with their hash gives that
  -- transaction back; on any bytes it fails exactly when they are not 128, with their number in
  -- the error, and otherwise gives a transaction with these bytes and their hash.
  pub unmarshal_binary-serialized :
      (bytes : List ℕ) (t : Serialized)
      → IsTransaction t
      → (unmarshal_binary (serialized t) ≡ inr t)
        × (((length bytes ≡ tx_size)
              × (s : Serialized) × (unmarshal_binary bytes ≡ inr s)
              × (serialized s ≡ bytes)
              × IsTransaction s)
            ⊎ (((length bytes == tx_size) ≡ false)
                × (unmarshal_binary bytes ≡ inl (record { length = length bytes }))))
  unfolding unmarshal_binary
  unmarshal_binary-serialized bytes t (size, hashed) = (
    unmarshal_binary-size t.tx_data size ∙ ap inr (Serialized_path refl (sym hashed)),
    elim (Bool-cases (length bytes == tx_size)) [
      | inl same ↦
          let fits = (==_iff (length bytes) tx_size).0 same in
          inl (
            fits,
            record { tx_data = bytes; tx_hash = b.sum512 bytes },
            unmarshal_binary-size bytes fits,
            refl,
            (fits, refl),
          )
      | inr other ↦ inr (other, rw other refl)
    ],
  )
