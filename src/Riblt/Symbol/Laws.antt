-- ===== src/Riblt/Symbol/Laws.antt =====
-- Applying symbols to a coded symbol commutes, and the two directions undo one another.
use Prim.Native.Nat.{bit_xor}
use rateless_set_reconcile.Base.{ℕ, ◌<◌, ◌≡◌, sym, ◌∙◌, arith}
use rateless_set_reconcile.Base.Xor.{xor_self, xor-zero, xor_comm, xor_assoc}
use rateless_set_reconcile.Base.Word.{u64}
use rateless_set_reconcile.Riblt.Symbol.{
  Symbol, IsXor, HashedSymbol, CodedSymbol, add, remove, apply,
}

pub CodedSymbol_path :
    {T : Type 0} {c d : CodedSymbol T}
    → c.sum ≡ d.sum
    → c.count ≡ d.count
    → c.checksum ≡ d.checksum
    → c ≡ d
CodedSymbol_path p q r = λ i. record { sum = p i; count = q i; checksum = r i }

xor_right_comm : (a b c : ℕ) → bit_xor (bit_xor a b) c ≡ bit_xor (bit_xor a c) b
xor_right_comm a b c = rw (xor_assoc a b c, xor_comm b c) (sym (xor_assoc a c b))

module _ {T : Type 0} ⦃s : Symbol T⦄ (x : IsXor s) where
  sum_right_comm : (a b c : T) → s.xor (s.xor a b) c ≡ s.xor (s.xor a c) b
  sum_right_comm a b c = rw (x.xor_assoc a b c, x.xor_comm b c) (sym (x.xor_assoc a c b))

  -- The order in which two symbols are applied does not matter.
  pub apply_comm :
      (c : CodedSymbol T) (t u : HashedSymbol T) (d e : ℕ)
      → apply (apply c t d) u e ≡ apply (apply c u e) t d
  unfolding apply
  apply_comm c t u d e =
      CodedSymbol_path (sum_right_comm c.sum t.symbol u.symbol) (omega arith)
        (xor_right_comm c.checksum t.hash u.hash)

  sum_cancel : (a b : T) → s.xor (s.xor a b) b ≡ a
  sum_cancel a b = rw (x.xor_assoc a b b, x.xor_self b, x.xor_comm a s.zero_value) (x.zero-xor a)

  -- Adding a symbol to a coded symbol and removing it again leaves the coded symbol as it was, if
  -- XOR is an exclusive or and the count is a 64-bit number.
  pub apply-add-remove :
      (c : CodedSymbol T) (t : HashedSymbol T) → c.count < u64 → apply (apply c t add) t remove ≡ c
  unfolding apply
  apply-add-remove c t h =
      CodedSymbol_path (sum_cancel c.sum t.symbol) (omega arith)
        (xor_assoc c.checksum t.hash t.hash ∙ rw xor_self (xor-zero c.checksum))

  -- And removing it and adding it again.
  pub apply-remove-add :
      (c : CodedSymbol T) (t : HashedSymbol T) → c.count < u64 → apply (apply c t remove) t add ≡ c
  unfolding apply
  apply-remove-add c t h =
      CodedSymbol_path (sum_cancel c.sum t.symbol) (omega arith)
        (xor_assoc c.checksum t.hash t.hash ∙ rw xor_self (xor-zero c.checksum))
