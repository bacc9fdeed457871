-- ===== src/Newsim/Shard.antt =====
-- newsim/coding.go: the shards of the hash space, and taking one out of a buffer.
pub mod Cover
pub mod Split
use rateless_set_reconcile.Base.{
  ℕ, zero, suc, ◌+◌, ◌-◌, ◌*◌, ◌/◌, ◌%◌, ◌≡◌, Bool, true, false, ◌&&◌, ◌||◌, List, [], ◌∷◌, ◌++◌,
  length, set, take, ltb, leb, if◌then◌else◌,
}
use rateless_set_reconcile.Base.Array.{Zero, get}
use rateless_set_reconcile.Base.Cut.{cut_at}
use rateless_set_reconcile.Base.Word.{u64}

-- The bounds of shard number `k` of `n`.
unfoldable pub shard_size : ℕ → ℕ
shard_size n = (u64 - 1) / n

unfoldable pub shard_start : ℕ → ℕ → ℕ
unfolding shard_size
shard_start n k = (k * shard_size n) % u64

unfoldable pub shard_end : ℕ → ℕ → ℕ
unfolding shard_size
shard_end n k = (((k + 1) % n) * shard_size n) % u64

-- `(start < end && h >= start && h < end) || (start >= end && (h >= start || h < end))`
unfoldable pub in_shard : ℕ → ℕ → ℕ → Bool
in_shard start end h =
    (ltb start end && (leb start h && ltb h end)) || (leb end start && (leb start h || ltb h end))

module _ {A : Type 0} ⦃z : Zero A⦄ where
  -- The loop that moves the entries of a shard out of the buffer, from index `tidx`. The first result
  -- is what was moved, in order.
  unfoldable pub split_loop : ℕ → (A → Bool) → ℕ → List A → List A × List A
  split_loop zero belongs tidx buffer = ([], buffer)
  split_loop (suc fuel) belongs tidx buffer =
      let v = get buffer tidx in
      let cut = split_loop fuel belongs tidx (cut_at tidx buffer) in
      let skip = split_loop fuel belongs (tidx + 1) buffer in
      if ltb tidx (length buffer)
      then (if belongs v then (v ∷ cut.0, cut.1) else skip)
      else ([], buffer)

  unfoldable pub split_shard : (A → Bool) → List A → List A × List A
  unfolding split_loop
  split_shard belongs buffer = split_loop (length buffer + 1) belongs 0 buffer
