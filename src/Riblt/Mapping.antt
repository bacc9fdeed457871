-- ===== src/Riblt/Mapping.antt =====
-- riblt/random.go: the indices of the coded symbols that a source symbol is mapped to.
use rateless_set_reconcile.Base.{ℕ, zero, suc, ◌+◌, ◌*◌, ◌%◌, ◌<◌, ◌≡◌, refl}
use rateless_set_reconcile.Base.Word.{u64, i63}

-- `uint64(math.Ceil((float64(j)+1.5)*(1/math.Sqrt(1-float64(r)/(1<<64))-1)))` as a function of the
-- last index `j` and the random word `r`: the steps to advance, in Go's floating point.
pub record Jump : Type 0 where
  pub jump : ℕ → ℕ → ℕ

pub record RandomMapping : Type 0 where
  pub prng : ℕ
  pub last_idx : ℕ

abbrev pub multiplier : ℕ
multiplier = 0xda942042e4dd58b5

-- `randomMapping{hash, 0}`
abbrev pub new_mapping : ℕ → RandomMapping
new_mapping hash = record { prng = hash; last_idx = 0 }

module _ ⦃j : Jump⦄ where
  -- The source returns the new `lastIdx`, which is read off the result here.
  unfoldable pub next_index : RandomMapping → RandomMapping
  next_index m =
      let r = (m.prng * multiplier) % u64 in
      record { prng = r; last_idx = (m.last_idx + j.jump m.last_idx r) % u64 }

  pub steps : ℕ → RandomMapping → RandomMapping
  steps zero m = m
  steps (suc k) m = steps k (next_index m)

  pub steps-suc : (k : ℕ) (m : RandomMapping) → steps (suc k) m ≡ next_index (steps k m)
  unfolding steps
  steps-suc zero m = refl
  steps-suc (suc k) m = steps-suc k (next_index m)

  -- Below `n`, each call of `nextIndex` moves on, to an index that fits an `int`.
  abbrev pub Moves : ℕ → RandomMapping → Type 0
  Moves n m =
      (k : ℕ)
      → (steps k m).last_idx < n
      → ((steps k m).last_idx < (steps (suc k) m).last_idx) × ((steps (suc k) m).last_idx < i63)

  pub Moves-next_index : (n : ℕ) (m : RandomMapping) → Moves n m → Moves n (next_index m)
  unfolding steps
  Moves-next_index n m h k = h (suc k)

  pub Moves-now :
      (n : ℕ) (m : RandomMapping)
      → Moves n m
      → m.last_idx < n
      → m.last_idx < (next_index m).last_idx
  unfolding steps
  Moves-now n m h p = (h 0 p).0

  pub Moves-fits :
      (n : ℕ) (m : RandomMapping) → Moves n m → m.last_idx < n → (next_index m).last_idx < i63
  unfolding steps
  Moves-fits n m h p = (h 0 p).1
