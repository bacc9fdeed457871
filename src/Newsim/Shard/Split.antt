-- ===== src/Newsim/Shard/Split.antt =====
-- newsim/coding.go: what the loop that takes a shard out of a buffer leaves and what it moves.
use mathlib.Core.List.Perm
use rateless_set_reconcile.Base.{
  ℕ, zero, suc, ◌+◌, ◌<◌, ◌≤◌, ◌≡◌, Bool, true, false, List, [], ◌∷◌, ◌++◌, length, ltb, arith, All,
  ltb→lt, Bool-cases, Perm, inl, inr,
}
use rateless_set_reconcile.Base.Array.{Zero, get}
use rateless_set_reconcile.Newsim.Shard.{split_loop, split_shard}
use rateless_set_reconcile.Base.Cut.{cut_at, length-cut_at, get-cut_at, cut_at-perm}

module _ {A : Type 0} ⦃z : Zero A⦄ where
  pub All_of_get {κ} :
      (P : A → Type κ) (a : List A) → ((i : ℕ) → i < length a → P (get a i)) → All P a
  unfolding get
  All_of_get P [] h = tt
  All_of_get P (x ∷ a) h = (h 0 (omega arith), All_of_get P a (λ i k. h (suc i) (omega arith)))

  pub record IsSplit (belongs : A → Bool) (a : List A) (r : List A × List A) : Type 0 where
    pub moved : All (λ v. belongs v ≡ true) r.0
    pub kept : All (λ v. belongs v ≡ false) r.1
    pub same : Perm (r.0 ++ r.1) a

  split_loop-IsSplit :
      (fuel : ℕ) (belongs : A → Bool) (t : ℕ) (a : List A)
      → length a < fuel + t
      → t ≤ length a
      → ((i : ℕ) → i < t → belongs (get a i) ≡ false)
      → IsSplit belongs a (split_loop fuel belongs t a)
  unfolding split_loop
  split_loop-IsSplit zero belongs t a h l below = absurd (omega arith)
  split_loop-IsSplit (suc fuel) belongs t a h l below = elim (Bool-cases (ltb t (length a))) [
    | inl p ↦ elim (Bool-cases (belongs (get a t))) [
      | inl q ↦
          rw (p, q)
            (let r =
                split_loop-IsSplit fuel belongs t (cut_at t a)
                  (let n = length-cut_at t a (ltb→lt t (length a) p) in
                    omega (arith, ltb→lt t (length a) p))
                  (let n = length-cut_at t a (ltb→lt t (length a) p) in
                    omega (arith, ltb→lt t (length a) p))
                  (λ i k.
                    rw
                      (get-cut_at t a i (ltb→lt t (length a) p) k
                        (omega (arith, ltb→lt t (length a) p)))
                      (below i k)) in
              record {
                moved = (q, r.moved);
                kept = r.kept;
                same =
                    Perm.trans (Perm.cons (get a t) r.same)
                      (cut_at-perm t a (ltb→lt t (length a) p));
              })
      | inr q ↦
          rw (p, q)
            (split_loop-IsSplit fuel belongs (t + 1) a (omega arith)
              (omega (arith, ltb→lt t (length a) p)) (λ i k. ground (arith, below i)))
    ]
    | inr p ↦ rw p (record {
      moved = tt;
      kept = All_of_get _ a (λ i k. below i (ground arith));
      same = Perm.refl a;
    })
  ]

  -- The loop that takes a shard out of a buffer ends with every entry moved that belongs to the
  -- shard, with no such entry left, and with the moved and the left entries together those of the
  -- buffer.
  pub split_shard-IsSplit :
      (belongs : A → Bool) (a : List A) → IsSplit belongs a (split_shard belongs a)
  unfolding split_shard
  split_shard-IsSplit belongs a =
      split_loop-IsSplit (length a + 1) belongs 0 a (omega arith) (omega arith)
        (λ i k. absurd (omega arith))
