-- ===== src/Simulator/Transaction.antt =====
-- simulator/transaction.go: the transactions, their symbols, and the generator.
-- `ts` is the bit pattern of an `int64`. The quantile sketch of another package is a parameter.
use Prim.Native.Nat.{bit_xor}
use rateless_set_reconcile.Base.{
  ℕ, ◌+◌, ◌%◌, ◌&&◌, ◌==◌, Bool, Option, none, some, List, if◌then◌else◌,
}
use rateless_set_reconcile.Base.Word.{u64}
use rateless_set_reconcile.Base.Int.{ℤ, ltb_ℤ}
use rateless_set_reconcile.Lt.Encoder
use rateless_set_reconcile.Lt.Encoder.{TransactionData, new_transaction}
use rateless_set_reconcile.Lt.Decoder.{Comparable}
use rateless_set_reconcile.Newsim.Transaction.{little_endian}

pub record Transaction : Type 0 where
  pub idx : ℕ
  pub ts : ℕ

abbrev pub transaction_xor : Transaction → Transaction → Transaction
transaction_xor d t = record { idx = bit_xor d.idx t.idx; ts = bit_xor d.ts t.ts }

unfoldable pub transaction_hash : Transaction → List ℕ
unfolding little_endian
transaction_hash d = little_endian 8 d.idx

-- Transactions are the data of the lt package.
instance abbrev pub transaction_data : TransactionData Transaction
transaction_data = record {
  zero_value = record { idx = 0; ts = 0 };
  xor = transaction_xor;
  hash = transaction_hash;
}

-- `==` of two transactions.
abbrev pub same_transaction : Transaction → Transaction → Bool
same_transaction d t = d.idx == t.idx && d.ts == t.ts

instance abbrev pub transaction_comparable : Comparable Transaction
transaction_comparable = record { same = same_transaction }

-- A transaction with its hash, `lt.Transaction[transaction]`.
abbrev pub Hashed : Type 0
Hashed = Encoder.Transaction Transaction

-- The generator: the number of the next transaction.
unfoldable pub generate : ℕ → ℕ → Hashed × ℕ
generate next at = (new_transaction (record { idx = next; ts = at }), (next + 1) % u64)

-- `Add` of a quantile sketch, of a transaction's latency (its time stamp and the time), and of a ratio.
pub record Sketches (K : Type 0) : Type 0 where
  pub add_latency : K → ℕ → ℤ → K
  pub add_ratio : K → ℕ → ℕ → K

pub record DistributionSketch (K : Type 0) : Type 0 where
  pub sketch : K
  pub warmup : ℤ

-- `none` is the nil sketch.
module _ {K : Type 0} ⦃k : Sketches K⦄ where
  unfoldable pub record_ratio :
      Option (DistributionSketch K) → ℕ → ℕ → ℤ → Option (DistributionSketch K)
  record_ratio none overlap total at = none
  record_ratio (some t) overlap total at =
      if ltb_ℤ at t.warmup
      then some t
      else some (record t { sketch = k.add_ratio t.sketch overlap total })

  unfoldable pub record_tx_latency :
      Option (DistributionSketch K) → Transaction → ℤ → Option (DistributionSketch K)
  record_tx_latency none tx at = none
  record_tx_latency (some t) tx at =
      if ltb_ℤ at t.warmup
      then some t
      else some (record t { sketch = k.add_latency t.sketch tx.ts at })
