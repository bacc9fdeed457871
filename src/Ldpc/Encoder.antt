-- ===== src/Ldpc/Encoder.antt =====
-- ldpc/encoder.go: the window of recent transactions, and codewords by reservoir sampling.
-- The random source, and the steps of the reservoir that Go computes from it in floating point, are
-- parameters. `running` is a loop that still runs when the fuel is used up.
pub mod Reservoir
use rateless_set_reconcile.Base.{
  ℕ, zero, suc, ◌+◌, ◌==◌, true, false, Bool, List, [], ◌∷◌, ◌++◌, length, replicate, take, set,
  ltb, leb, if◌then◌else◌,
}
use rateless_set_reconcile.Base.Array.{get}
use rateless_set_reconcile.Base.Int.{ℤ, pos, negsuc, ◌+ℤ◌, int64, ltb_ℤ}
use rateless_set_reconcile.Base.Word.{i63}
use rateless_set_reconcile.Base.Outcome.{Outcome, ok, panic, running, ◌>>=◌}
use rateless_set_reconcile.Lt.Encoder.{
  TransactionData, Transaction, SaltedTransaction, Codeword, Hasher, Rng, DegreeDistribution,
  contains, evict, salted, salted_zero,
}
use rateless_set_reconcile.Ldpc.Transaction.{Blake, bytes_data, Serialized, xor_bytes, tx_size}

pub record Encoder (D : Type 0) : Type 0 where
  pub window : List (SaltedTransaction (List ℕ))
  pub degree_dist : D
  pub window_size : ℕ
  pub hashes : List ℕ

module _ {D : Type 0} where
  unfoldable pub new_encoder : D → ℕ → Encoder D
  new_encoder dist ws = record { window = []; degree_dist = dist; window_size = ws; hashes = [] }

  unfoldable pub reset : Encoder D → D → ℕ → Encoder D
  reset e dist ws = record { window = []; degree_dist = dist; window_size = ws; hashes = [] }

  unfoldable pub add_transaction : ⦃h : Hasher⦄ → Encoder D → Serialized → Bool × Encoder D
  unfolding contains evict
  add_transaction e t =
      let hash = salted t in
      let kept =
        evict e.window_size (e.window ++ record { salted_hash = hash; transaction = t } ∷ [])
          (hash ∷ e.hashes) in
      if contains e.hashes hash
      then (false, e)
      else (true, record e { window = kept.0; hashes = kept.1 })

-- The floating-point variable `W` of the reservoir and the random numbers that go into it: its first
-- value for a degree, the number of entries to skip as the `int` that Go converts it to, and its next
-- value.
pub record Skips (W R : Type 0) : Type 0 where
  pub first_w : R → ℕ → W × R
  pub skip : R → W → ℤ × R
  pub next_w : R → W → ℕ → W × R

module _ {W R : Type 0} ⦃b : Blake⦄ ⦃r : Rng R⦄ ⦃s : Skips W R⦄ where
  -- What the round at index `midx` selects, if the index is not past the window; a negative index panics.
  unfoldable pub select :
      List (SaltedTransaction (List ℕ))
      → ℕ
      → List (SaltedTransaction (List ℕ))
      → ℤ
      → W
      → R
      → Outcome (List (SaltedTransaction (List ℕ)) × W × R)
  select window deg selected (negsuc k) w rng = panic
  select window deg selected (pos midx) w rng =
      let (i, rng₁) = r.intn rng deg in
      let (w', rng₂) = s.next_w rng₁ w deg in
      if ltb midx (length window)
      then ok (set selected i (get window midx), w', rng₂)
      else ok (selected, w, rng)

  unfoldable pub reservoir :
      ℕ
      → List (SaltedTransaction (List ℕ))
      → ℕ
      → List (SaltedTransaction (List ℕ))
      → ℤ
      → W
      → R
      → Outcome (List (SaltedTransaction (List ℕ)) × R)
  unfolding select ◌+ℤ◌ int64
  reservoir zero window deg selected midx w rng = running
  reservoir (suc fuel) window deg selected midx w rng =
      let skipped = s.skip rng w in
      let midx' = int64 (midx +ℤ skipped.0 +ℤ pos 1) in
      let rest =
        select window deg selected midx' w skipped.1
        >>= λ (n : List (SaltedTransaction (List ℕ)) × W × R).
            reservoir fuel window deg n.0 midx' n.1 n.2 in
      if ltb_ℤ midx (pos (length window)) then rest else ok (selected, rng)

-- The loop that adds what is selected to the codeword.
unfoldable pub collect : List (SaltedTransaction (List ℕ)) → Codeword (List ℕ) → Codeword (List ℕ)
unfolding xor_bytes
collect [] c = c
collect (x ∷ xs) c = collect xs (record {
  symbol = xor_bytes c.symbol x.transaction.tx_data;
  members = c.members ++ x.salted_hash ∷ [];
})

abbrev pub empty_codeword : Codeword (List ℕ)
empty_codeword = record { symbol = replicate tx_size 0; members = [] }

module _ (W : Type 0) {R D : Type 0} ⦃b : Blake⦄ ⦃r : Rng R⦄ ⦃s : Skips W R⦄ where
  unfoldable pub produce_codeword_of_degree :
      ℕ → Encoder D → ℕ → R → Outcome (Codeword (List ℕ) × R)
  unfolding reservoir collect
  produce_codeword_of_degree fuel e deg rng =
      let n = length e.window in
      let k = if ltb n deg then n else deg in
      let first = s.first_w rng k in
      let sampled =
        reservoir fuel e.window k (take k e.window) (pos k) first.0 first.1
        >>= λ (p : List (SaltedTransaction (List ℕ)) × R). ok (collect p.0 empty_codeword, p.1) in
      if k == 0 then ok (empty_codeword, rng) else sampled

  -- A degree whose `int` is negative panics as the length of the members.
  unfoldable pub produce_codeword :
      ⦃dist : DegreeDistribution D⦄
      → ℕ
      → Encoder D
      → R
      → Outcome (Codeword (List ℕ) × Encoder D × R)
  unfolding produce_codeword_of_degree
  produce_codeword ⦃dist⦄ fuel e rng =
      let (deg, state) = dist.uint64 e.degree_dist in
      let made =
        produce_codeword_of_degree fuel (record e { degree_dist = state }) deg rng
        >>= λ (p : Codeword (List ℕ) × R). ok (p.0, record e { degree_dist = state }, p.1) in
      if leb i63 deg then panic else made
