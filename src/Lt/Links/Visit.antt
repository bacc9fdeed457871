-- ===== src/Lt/Links/Visit.antt =====
-- lt/decoder.go: one visit of markDecoded, to a codeword that waits for the transaction.
use rateless_set_reconcile.Base.{
  ℕ, suc, ◌+◌, ◌≤◌, ◌<◌, ◌≡◌, refl, ap, ◌∙◌, Bool, true, false, Bool-cases, inl, inr, List, [], ◌∷◌,
  length, leb, ◌==◌, ==_iff, if◌then◌else◌, arith,
}
use rateless_set_reconcile.Base.Cut.{occ, occ-le-length}
use rateless_set_reconcile.Base.Table.{update}
use rateless_set_reconcile.Riblt.Decoder.{index_zero}
use rateless_set_reconcile.Lt.Links.{PendingCodeword, Links, set_codeword, is_ready}
use rateless_set_reconcile.Lt.Links.Marking.{
  idle-same, idle-set, is_queued, IsMarking, IsQueue, IsMarked, update_rule,
}

pub nothing_lost : (c n : ℕ) → n + occ c [] ≡ n
unfolding occ
nothing_lost c n = omega arith

module _ {T : Type 0} where
  set-shrunk :
      (l : Links T) (c : ℕ) (w : PendingCodeword T)
      → length (l.codewords c).members ≡ suc (length w.members)
      → (x : ℕ)
      → length (update l.codewords c w x).members + occ x (c ∷ []) ≡ length (l.codewords x).members
  unfolding occ
  set-shrunk l c w shorter x =
      update_rule (λ y z. length z.members + occ y (c ∷ []) ≡ length (l.codewords y).members)
        l.codewords c w (ground arith) (λ y other. ground arith) x

  pub kept-IsMarked :
      (l : Links T) (queue : List ℕ) (c : ℕ) (w : PendingCodeword T)
      → length (l.codewords c).members ≡ suc (length w.members)
      → w.queued ≡ (l.codewords c).queued
      → IsMarked (c ∷ []) l queue (set_codeword l c w) queue
  kept-IsMarked l queue c w shorter same = record {
    pendings = refl;
    next_codeword = refl;
    next_pending = refl;
    shrunk = set-shrunk l c w shorter;
    work =
        ap (λ (n : ℕ). length queue + n)
          (idle-same l.next_codeword (is_queued (set_codeword l c w)) (is_queued l) (λ x p.
            update_rule (λ y z. z.queued ≡ (l.codewords y).queued) l.codewords c w same
              (λ y other. refl) x));
  }

  pub pushed-IsMarked :
      (l : Links T) (queue : List ℕ) (c : ℕ) (w : PendingCodeword T)
      → length (l.codewords c).members ≡ suc (length w.members)
      → w.queued ≡ true
      → (l.codewords c).queued ≡ false
      → c < l.next_codeword
      → IsMarked (c ∷ []) l queue (set_codeword l c w) (c ∷ queue)
  pushed-IsMarked l queue c w shorter now before inside = record {
    pendings = refl;
    next_codeword = refl;
    next_pending = refl;
    shrunk = set-shrunk l c w shorter;
    work =
        let less =
          idle-set l.next_codeword c (is_queued l) (is_queued (set_codeword l c w))
            (λ x.
              update_rule (λ y z. z.queued ≡ (if c == y then true else (l.codewords y).queued))
                l.codewords c w (let at = (==_iff c c).1 refl in ground arith)
                (λ y other. rw other refl) x)
            before inside in
        omega (arith, less);
  }

  pub IsMarked-trans :
      (c : ℕ) (cs : List ℕ) (l : Links T) (queue : List ℕ) (l₁ : Links T) (queue₁ : List ℕ)
      (l₂ : Links T) (queue₂ : List ℕ)
      → IsMarked (c ∷ []) l queue l₁ queue₁
      → IsMarked cs l₁ queue₁ l₂ queue₂
      → IsMarked (c ∷ cs) l queue l₂ queue₂
  unfolding occ
  IsMarked-trans c cs l queue l₁ queue₁ l₂ queue₂ a b = record {
    pendings = b.pendings ∙ a.pendings;
    next_codeword = b.next_codeword ∙ a.next_codeword;
    next_pending = b.next_pending ∙ a.next_pending;
    shrunk = λ x. let one = a.shrunk x in let rest = b.shrunk x in ground arith;
    work = b.work ∙ a.work;
  }

  pub points :
      (l : Links T) (p c : ℕ) (cs : List ℕ)
      → IsMarking l p (c ∷ cs)
      → 0 < occ p (l.codewords c).members
  unfolding occ
  points l p c cs m =
      let here = m c p in
      let at = (==_iff p p).1 refl in let to = (==_iff c c).1 refl in ground arith

  -- A codeword with a member is not past the end of the memory.
  pub member-inside :
      (l : Links T) (busy : ℕ → Bool) (queue : List ℕ)
      → IsQueue l busy queue
      → (c p : ℕ) → 0 < occ p (l.codewords c).members
      → c < l.next_codeword
  member-inside l busy queue v c p h =
      let size = occ-le-length p (l.codewords c).members in
      elim (Bool-cases (leb l.next_codeword c)) [
        | inl past ↦ absurd (omega (arith, (v.fresh c (ground arith)).1))
        | inr here ↦ ground arith
      ]

  pub ready-short : (w : PendingCodeword T) → is_ready w ≡ true → length w.members ≤ 1
  ready-short w h = ground arith

  pub ready-idle : (w : PendingCodeword T) → is_ready w ≡ true → w.queued ≡ false
  ready-idle w h = ground arith

  pub not_ready-long :
      (w : PendingCodeword T) → is_ready w ≡ false → w.queued ≡ false → 2 ≤ length w.members
  not_ready-long w h e = ground arith
