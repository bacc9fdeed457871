-- ===== src/Lt/Encoder/Shuffle.antt =====
-- lt/encoder.go: the exchanges that select the transactions of a codeword are taken back.
use Prim.Native.Nat.{min}
use rateless_set_reconcile.Base.{
  ℕ, zero, suc, ◌+◌, ◌-◌, ◌≤◌, ◌<◌, ◌≡◌, refl, sym, ap, ◌∙◌, false, some, List, [], ◌∷◌, ◌++◌,
  length, ltb, ◌==◌, if◌then◌else◌, arith, length-append,
}
use rateless_set_reconcile.Base.Array.{
  Zero, get, swap, get-swap, length-swap, get-append_left, get-append_last,
}
use rateless_set_reconcile.Riblt.Decoder.{index_zero}
use rateless_set_reconcile.Lt.Encoder.{
  TransactionData, Rng, Codeword, SaltedTransaction, Encoder, Sampling, salted_zero, sample,
  sample_loop, revert, first_sampling, produce_codeword_of_degree,
}

module _ {A : Type 0} ⦃z : Zero A⦄ where
  -- Lists with the same entries at each index are the same.
  same_by_index :
      (a b : List A) → length a ≡ length b → ((i : ℕ) → i < length a → get a i ≡ get b i) → a ≡ b
  unfolding get
  same_by_index [] [] e h = refl
  same_by_index [] (y ∷ b) e h = absurd (omega arith)
  same_by_index (x ∷ a) [] e h = absurd (omega arith)
  same_by_index (x ∷ a) (y ∷ b) e h =
      let head = h 0 (omega arith) in
      let rest = same_by_index a b (omega arith) (λ i p. h (suc i) (omega arith)) in
      λ k. head k ∷ rest k

  swap-swap : (a : List A) (i j : ℕ) → i < length a → j < length a → swap (swap a i j) i j ≡ a
  swap-swap a i j hi hj =
      let size = length-swap a i j in
      let twice = length-swap (swap a i j) i j in
      same_by_index (swap (swap a i j) i j) a (twice ∙ size) (λ c p. ground (
        arith,
        get-swap (swap a i j) i j (omega arith) (omega arith) c,
        get-swap a i j hi hj c,
        get-swap a i j hi hj i,
        get-swap a i j hi hj j,
      ))

module _ {T : Type 0} ⦃d : TransactionData T⦄ where
  -- Later exchanges in the history do not matter.
  revert-append :
      (i : ℕ) (window : List (SaltedTransaction T)) (history : List ℕ) (j : ℕ)
      → i ≤ length history
      → revert i window (history ++ j ∷ []) ≡ revert i window history
  unfolding revert
  revert-append zero window history j h = refl
  revert-append (suc i) window history j h =
      rw (get-append_left history (j ∷ []) i (omega arith))
        (revert-append i (swap window i (get history i)) history j (omega arith))

module _ {T R : Type 0} ⦃d : TransactionData T⦄ ⦃r : Rng R⦄ where
  revert-sample :
      (n i : ℕ) (s : Sampling T R)
      → length s.history ≡ i
      → length s.window ≡ n
      → i < n
      → revert (suc i) (sample n i s).window (sample n i s).history ≡ revert i s.window s.history
  unfolding revert sample
  revert-sample n i s at size below =
      let j = (r.intn s.rng (n - i)).0 + i in
      let within : j < length s.window = omega (arith, r.intn-lt s.rng (n - i) (omega arith)) in
      let last : get (s.history ++ j ∷ []) i ≡ j =
        ap (get (s.history ++ j ∷ [])) (sym at) ∙ get-append_last s.history j in
      rw (last, swap-swap s.window i j (omega arith) within)
        (revert-append i s.window s.history j (omega arith))

  sample-lengths :
      (n i : ℕ) (s : Sampling T R)
      → (length (sample n i s).history ≡ suc (length s.history))
        × (length (sample n i s).window ≡ length s.window)
        × (length (sample n i s).codeword.members ≡ suc (length s.codeword.members))
  unfolding sample
  sample-lengths n i s =
      let j = (r.intn s.rng (n - i)).0 + i in
      let window = swap s.window i j in
      (
        omega (arith, length-append s.history (j ∷ [])),
        length-swap s.window i j,
        omega (arith, length-append s.codeword.members ((get window i).salted_hash ∷ [])),
      )

  -- What the loop selects, and that the exchanges of all its rounds are taken back.
  revert-sample_loop :
      (k n i : ℕ) (s : Sampling T R)
      → length s.history ≡ i
      → length s.window ≡ n
      → i + k ≤ n
      → let s' = sample_loop k n i s in
        (revert (i + k) s'.window s'.history ≡ revert i s.window s.history)
        × (length s'.codeword.members ≡ length s.codeword.members + k)
  unfolding sample_loop
  revert-sample_loop zero n i s at size below =
      let here : i + 0 ≡ i = omega arith in
      (ap (λ (a : ℕ). revert a s.window s.history) here, omega arith)
  revert-sample_loop (suc k) n i s at size below =
      let s₁ = sample n i s in
      let (at₁, size₁, members) = sample-lengths n i s in
      let (rest, count) =
        revert-sample_loop k n (suc i) s₁ (at₁ ∙ ap suc at) (size₁ ∙ size) (omega arith) in
      let s' = sample_loop k n (suc i) s₁ in
      let step : i + suc k ≡ suc i + k = omega arith in
      (
        ap (λ (a : ℕ). revert a s'.window s'.history) step
            ∙ rest
            ∙ revert-sample n i s at size (omega arith),
        omega (arith, count, members),
      )

module _ {T R D : Type 0} ⦃d : TransactionData T⦄ ⦃r : Rng R⦄ where
  -- For a positive degree and a window that is not empty, produceCodeword returns a codeword with
  -- as many members as the degree, or as the window has transactions if they are fewer, and the
  -- exchanges by which it selected them are taken back: the window is as it was.
  pub produce_codeword_of_degree-window :
      (deg : ℕ) (e : Encoder T R D)
      → 0 < deg
      → 0 < length e.window
      → (c : Codeword T) × (e' : Encoder T R D) × (produce_codeword_of_degree deg e ≡ some (c, e'))
        × (e'.window ≡ e.window)
        × (length c.members ≡ min deg (length e.window))
  unfolding produce_codeword_of_degree
  produce_codeword_of_degree-window deg e some_degree some_window =
      let n = length e.window in
      let k = if ltb n deg then n else deg in
      let few : k ≡ min deg n = ground arith in
      let busy : (k == 0) ≡ false = ground arith in
      let (back, count) = revert-sample_loop k n 0 (first_sampling e) refl refl (omega arith) in
      let s' = sample_loop k n 0 (first_sampling e) in
      let e' : Encoder T R D = record e {
        window = revert k s'.window s'.history;
        shuffle_history = s'.history;
        rng = s'.rng;
      } in
      let start : 0 + k ≡ k = omega arith in
      (
        s'.codeword,
        e',
        rw busy,
        ap (λ (a : ℕ). revert a s'.window s'.history) (sym start) ∙ back,
        omega arith,
      )
