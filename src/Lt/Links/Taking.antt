-- ===== src/Lt/Links/Taking.antt =====
-- lt/decoder.go: a codeword is taken from the queue, loses its members, and is decoded.
use rateless_set_reconcile.Base.{
  ℕ, ◌≤◌, ◌<◌, ◌≡◌, refl, subst, Bool, true, false, Bool-cases, inl, inr, List, ◌∷◌, length, ◌==◌,
  ==_iff, arith,
}
use rateless_set_reconcile.Base.Cut.{occ}
use rateless_set_reconcile.Riblt.Decoder.{index_zero}
use rateless_set_reconcile.Lt.Links.{PendingCodeword, Links, set_codeword}
use rateless_set_reconcile.Lt.Links.Marking.{IsQueue, update_rule}

by_case {κ} : (c : ℕ) (P : ℕ → Type κ) → P c → ((x : ℕ) → (c == x) ≡ false → P x) → (x : ℕ) → P x
by_case c P new old x = elim (Bool-cases (c == x)) [
  | inl here ↦ subst P ((==_iff c x).0 here) new
  | inr there ↦ old x there
]

module _ {T : Type 0} where
  -- A codeword that is being decoded loses its members, and the others stay as they were.
  pub changed-IsQueue :
      (l l' : Links T) (busy : ℕ → Bool) (queue : List ℕ) (c : ℕ)
      → IsQueue l busy queue
      → l'.next_codeword ≡ l.next_codeword
      → ((x : ℕ) → (c == x) ≡ false → l'.codewords x ≡ l.codewords x)
      → busy c ≡ true
      → (l'.codewords c).queued ≡ true
      → length (l'.codewords c).members ≡ 0
      → c < l.next_codeword
      → IsQueue l' busy queue
  changed-IsQueue l l' busy queue c v same others b now empty inside = record {
    queued = λ x.
        by_case c (λ y. 0 < occ y queue → (l'.codewords y).queued ≡ true) (λ p. now)
          (λ y other. rw (others y other) (v.queued y)) x;
    ready = λ x.
        by_case c (λ y. (l'.codewords y).queued ≡ true → length (l'.codewords y).members ≤ 1)
          (λ p. omega (arith, empty)) (λ y other. rw (others y other) (v.ready y)) x;
    waiting = λ x.
        by_case c
          (λ y.
            y < l'.next_codeword
            → (l'.codewords y).queued ≡ false
            → 2 ≤ length (l'.codewords y).members)
          (λ p e. ground arith) (λ y other. rw (others y other, same) (v.waiting y)) x;
    finished = λ x.
        by_case c
          (λ y.
            (l'.codewords y).queued ≡ true
            → busy y ≡ false
            → occ y queue ≡ 0
            → ((l'.codewords y).decoded ≡ true) × (length (l'.codewords y).members ≡ 0))
          (λ p free e. ground arith) (λ y other. rw (others y other) (v.finished y)) x;
    fresh = λ x.
        by_case c
          (λ y.
            l'.next_codeword ≤ y
            → ((l'.codewords y).queued ≡ false) × (length (l'.codewords y).members ≡ 0))
          (λ p. absurd (omega (arith, inside, same)))
          (λ y other. rw (others y other, same) (v.fresh y)) x;
  }

  -- The codeword that was being decoded is decoded.
  pub finished-IsQueue :
      (l : Links T) (queue : List ℕ) (c : ℕ)
      → IsQueue l (λ x. c == x) queue
      → length (l.codewords c).members ≡ 0
      → c < l.next_codeword
      → IsQueue (set_codeword l c (record (l.codewords c) { decoded = true })) (λ x. false) queue
  finished-IsQueue l queue c v empty inside =
      let w : PendingCodeword T = record (l.codewords c) { decoded = true } in
      record {
        queued = λ x.
            update_rule (λ y z. 0 < occ y queue → z.queued ≡ true) l.codewords c w (v.queued c)
              (λ y other. v.queued y) x;
        ready = λ x.
            update_rule (λ y z. z.queued ≡ true → length z.members ≤ 1) l.codewords c w (v.ready c)
              (λ y other. v.ready y) x;
        waiting = λ x.
            update_rule (λ y z. y < l.next_codeword → z.queued ≡ false → 2 ≤ length z.members)
              l.codewords c w (v.waiting c) (λ y other. v.waiting y) x;
        finished = λ x.
            update_rule
              (λ y z.
                z.queued ≡ true
                → false ≡ false
                → occ y queue ≡ 0
                → (z.decoded ≡ true) × (length z.members ≡ 0))
              l.codewords c w (λ p b e. (refl, empty)) (λ y other p b e. v.finished y p other e) x;
        fresh = λ x.
            update_rule (λ y z. l.next_codeword ≤ y → (z.queued ≡ false) × (length z.members ≡ 0))
              l.codewords c w (v.fresh c) (λ y other. v.fresh y) x;
      }

  -- A codeword that is taken from the queue is being decoded.
  pub taken-IsQueue :
      (l : Links T) (queue : List ℕ) (c : ℕ)
      → IsQueue l (λ x. false) (c ∷ queue)
      → IsQueue l (λ x. c == x) queue
  unfolding occ
  taken-IsQueue l queue c v = record {
    queued = λ x p. v.queued x (ground arith);
    ready = v.ready;
    waiting = v.waiting;
    finished = λ x p b e. v.finished x p refl (rw b e);
    fresh = v.fresh;
  }
