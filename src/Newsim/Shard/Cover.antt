-- ===== src/Newsim/Shard/Cover.antt =====
-- newsim/coding.go: the shards divide the hashes among them.
use Prim.Native.Nat.{min}
use native.Mathlib.Nat.{
  le-div_iff_mul-le, div-lt_iff_lt-mul, div-mul-le_self, mul-le-mul_right, mod-eq_of_lt, mod_self,
  zero-mul,
}
use rateless_set_reconcile.Base.{
  ℕ, ◌+◌, ◌-◌, ◌*◌, ◌/◌, ◌%◌, ◌≤◌, ◌<◌, ◌≡◌, refl, ◌↔◌, Bool-cases, inl, inr, true, ◌==◌, ==_iff,
  arith,
}
use rateless_set_reconcile.Base.Word.{u64}
use rateless_set_reconcile.Newsim.Shard.{shard_size, shard_start, shard_end, in_shard}

-- The last shard runs up to the end of the hash space.
in_last : (start h : ℕ) → (in_shard start 0 h ≡ true) ↔ (start ≤ h)
unfolding in_shard
in_last start h = ground arith

in_inner :
    (start end h : ℕ) → start < end → (in_shard start end h ≡ true) ↔ ((start ≤ h) × (h < end))
unfolding in_shard
in_inner start end h p = ground arith

module _ (n : ℕ) (some_shard : 0 < n) (fits : n < u64) where
  size_positive : 0 < shard_size n
  unfolding shard_size
  size_positive = (le-div_iff_mul-le {k = n} {x = 1} {y = u64 - 1} some_shard).1 (omega arith)

  bound : (k : ℕ) → k ≤ n → k * shard_size n ≤ u64 - 1
  unfolding shard_size
  bound k p =
      let most = div-mul-le_self (u64 - 1) n in
      let less : k * ((u64 - 1) / n) ≤ n * ((u64 - 1) / n) = mul-le-mul_right ((u64 - 1) / n) p in
      grind arith

  start_product : (k : ℕ) → k ≤ n → shard_start n k ≡ k * shard_size n
  unfolding shard_start
  start_product k p = mod-eq_of_lt (omega (arith, bound k p))

  end_inner : (k : ℕ) → k + 1 < n → shard_end n k ≡ (k + 1) * shard_size n
  unfolding shard_end
  end_inner k p =
      rw (mod-eq_of_lt {n = k + 1} {m = n} p)
        (mod-eq_of_lt (omega (arith, bound (k + 1) (omega arith))))

  end_last : (k : ℕ) → k + 1 ≡ n → shard_end n k ≡ 0
  unfolding shard_end
  end_last k p =
      let round : (k + 1) % n ≡ 0 = rw p (mod_self n) in rw (round, zero-mul (shard_size n)) refl

  -- With at least one shard and fewer than 2^64, a hash lies within the bounds of shard number
  -- `k`, below the number of shards, exactly if `k` is the quotient of the hash by the size of a
  -- shard, or the last shard if that quotient is beyond it: so each hash lies in exactly one
  -- shard.
  pub in_shard_iff :
      (h k : ℕ)
      → k < n
      → (in_shard (shard_start n k) (shard_end n k) h ≡ true) ↔ (k ≡ min (n - 1) (h / shard_size n))
  in_shard_iff h k p =
      let s = shard_size n in
      let from = le-div_iff_mul-le {k = s} {x = k} {y = h} size_positive in
      let upto = div-lt_iff_lt-mul {k = s} {x = h} {y = k + 1} size_positive in
      elim (Bool-cases ((k + 1) == n)) [
        | inl last ↦
            let at = (==_iff (k + 1) n).0 last in
            let inside = in_last (k * s) h in
            rw (start_product k (omega arith), end_last k at)
              (
                (λ i. let low = from.1 (inside.0 i) in omega arith),
                (λ e. inside.1 (from.0 (omega arith))),
              )
        | inr inner ↦
            let below : k + 1 < n = ground arith in
            let longer : k * s < (k + 1) * s = grind (arith, size_positive) in
            let inside = in_inner (k * s) ((k + 1) * s) h longer in
            rw (start_product k (omega arith), end_inner k below)
              (
                (λ i.
                    let (low, high) = inside.0 i in
                    let a = from.1 low in let b = upto.1 high in omega arith),
                (λ e. inside.1 (from.0 (omega arith), upto.0 (omega arith))),
              )
      ]
