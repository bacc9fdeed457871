-- ===== src/Lt/Links/Marking.antt =====
-- lt/decoder.go: markDecoded finds the pointers it looks for, and queues what becomes decodable.
use rateless_set_reconcile.Base.{
  ℕ, zero, suc, ◌+◌, ◌≤◌, ◌<◌, ◌≡◌, refl, sym, subst, ◌∙◌, Bool, true, false, Bool-cases, inl, inr,
  List, ◌∷◌, length, ◌==◌, ==_iff, if◌then◌else◌, arith,
}
use rateless_set_reconcile.Base.Cut.{occ, IsRemoved}
use rateless_set_reconcile.Base.Table.{update}
use rateless_set_reconcile.Riblt.Decoder.{index_zero}
use rateless_set_reconcile.Lt.Links.{PendingCodeword, Links, set_codeword}

-- How many of the first `n` flags are not set.
unfoldable pub idle : ℕ → (ℕ → Bool) → ℕ
idle zero f = 0
idle (suc n) f = let rest = idle n f in if f n then rest else suc rest

pub idle-same : (n : ℕ) (f g : ℕ → Bool) → ((c : ℕ) → c < n → f c ≡ g c) → idle n f ≡ idle n g
unfolding idle
idle-same zero f g h = refl
idle-same (suc n) f g h =
    let rest = idle-same n f g (λ c p. h c (omega arith)) in
    let last = h n (omega arith) in ground arith

pub idle-set :
    (n c : ℕ) (f g : ℕ → Bool)
    → ((x : ℕ) → g x ≡ (if c == x then true else f x))
    → f c ≡ false
    → c < n
    → idle n f ≡ suc (idle n g)
unfolding idle
idle-set zero c f g h before p = absurd (omega arith)
idle-set (suc n) c f g h before p = elim (Bool-cases (c == n)) [
  | inl here ↦
      let at = (==_iff c n).0 here in
      let was : f n ≡ false = subst (λ m. f m ≡ false) at before in
      let now = h n in let rest = idle-same n f g (λ x q. ground (arith, h x)) in ground arith
  | inr there ↦
      let rest = idle-set n c f g h before (ground arith) in let last = h n in ground arith
]

module _ {T : Type 0} where
  abbrev pub is_queued : Links T → ℕ → Bool
  is_queued l c = (l.codewords c).queued

  -- Each codeword points to a transaction as often as the transaction points to it.
  abbrev pub IsLinked : Links T → Type 0
  IsLinked l = (c q : ℕ) → occ q (l.codewords c).members ≡ occ c (l.pendings q).blocking

  -- The same while the codewords blocked by `p` are visited, those of `rest` not yet.
  abbrev pub IsMarking : Links T → ℕ → List ℕ → Type 0
  IsMarking l p rest =
      (c q : ℕ)
      → occ q (l.codewords c).members
        ≡ (if p == q then occ c rest else occ c (l.pendings q).blocking)

  -- What is queued is decodable, what is not queued is not, and what has left the queue is decoded;
  -- the codewords that `busy` names are being decoded.
  pub record IsQueue (l : Links T) (busy : ℕ → Bool) (queue : List ℕ) : Type 0 where
    pub queued : (c : ℕ) → 0 < occ c queue → (l.codewords c).queued ≡ true
    pub ready : (c : ℕ) → (l.codewords c).queued ≡ true → length (l.codewords c).members ≤ 1
    pub waiting :
        (c : ℕ)
        → c < l.next_codeword
        → (l.codewords c).queued ≡ false
        → 2 ≤ length (l.codewords c).members
    pub finished :
        (c : ℕ)
        → (l.codewords c).queued ≡ true
        → busy c ≡ false
        → occ c queue ≡ 0
        → ((l.codewords c).decoded ≡ true) × (length (l.codewords c).members ≡ 0)
    pub fresh :
        (c : ℕ)
        → l.next_codeword ≤ c
        → ((l.codewords c).queued ≡ false) × (length (l.codewords c).members ≡ 0)

  -- The codewords of `rest` have lost one member each time they stand there; the work left, which is
  -- what is queued and what is still to be queued, is as it was.
  pub record IsMarked (rest : List ℕ) (l : Links T) (queue : List ℕ) (l' : Links T)
      (queue' : List ℕ) : Type 0 where
    pub pendings : l'.pendings ≡ l.pendings
    pub next_codeword : l'.next_codeword ≡ l.next_codeword
    pub next_pending : l'.next_pending ≡ l.next_pending
    pub shrunk :
        (c : ℕ) → length (l'.codewords c).members + occ c rest ≡ length (l.codewords c).members
    pub work :
        length queue' + idle l'.next_codeword (is_queued l')
        ≡ length queue + idle l.next_codeword (is_queued l)

  pub update-at : (f : ℕ → PendingCodeword T) (c : ℕ) (v : PendingCodeword T) → update f c v c ≡ v
  update-at f c v = rw ((==_iff c c).1 refl) refl

  -- What holds of the written codeword and of the others holds of all.
  pub update_rule {κ} :
      (P : ℕ → PendingCodeword T → Type κ) (f : ℕ → PendingCodeword T) (c : ℕ)
      (v : PendingCodeword T)
      → P c v
      → ((x : ℕ) → (c == x) ≡ false → P x (f x))
      → (x : ℕ) → P x (update f c v x)
  update_rule P f c v new old x = elim (Bool-cases (c == x)) [
    | inl here ↦ rw here (subst (λ y. P y v) ((==_iff c x).0 here) new)
    | inr there ↦ rw there (old x there)
  ]

  pub set-IsMarking :
      (l : Links T) (p c : ℕ) (cs : List ℕ) (v : PendingCodeword T)
      → IsMarking l p (c ∷ cs)
      → IsRemoved (l.codewords c).members p v.members
      → IsMarking (set_codeword l c v) p cs
  unfolding occ
  set-IsMarking l p c cs v m r x q =
      update_rule
        (λ y w. occ q w.members ≡ (if p == q then occ y cs else occ y (l.pendings q).blocking))
        l.codewords c v (let here = m c q in let gone = r.counts q in ground arith)
        (λ y other. let here = m y q in ground arith) x

  module _ (l : Links T) (busy : ℕ → Bool) (queue : List ℕ) (v : IsQueue l busy queue) (c : ℕ)
      (w : PendingCodeword T) (inside : c < l.next_codeword) where
    -- A codeword that loses a member and stays as it was otherwise.
    pub kept-IsQueue :
        w.queued ≡ (l.codewords c).queued
        → length (l.codewords c).members ≡ suc (length w.members)
        → ((l.codewords c).queued ≡ false → 2 ≤ length w.members)
        → IsQueue (set_codeword l c w) busy queue
    kept-IsQueue same shorter long = record {
      queued = λ x.
          update_rule (λ y z. 0 < occ y queue → z.queued ≡ true) l.codewords c w
            (λ p. same ∙ v.queued c p) (λ y other. v.queued y) x;
      ready = λ x.
          update_rule (λ y z. z.queued ≡ true → length z.members ≤ 1) l.codewords c w
            (λ p. omega (arith, v.ready c (sym same ∙ p))) (λ y other. v.ready y) x;
      waiting = λ x.
          update_rule (λ y z. y < l.next_codeword → z.queued ≡ false → 2 ≤ length z.members)
            l.codewords c w (λ p e. long (sym same ∙ e)) (λ y other. v.waiting y) x;
      finished = λ x.
          update_rule
            (λ y z.
              z.queued ≡ true
              → busy y ≡ false
              → occ y queue ≡ 0
              → (z.decoded ≡ true) × (length z.members ≡ 0))
            l.codewords c w
            (λ p b e. let gone = v.finished c (sym same ∙ p) b e in absurd (omega (arith, gone.1)))
            (λ y other. v.finished y) x;
      fresh = λ x.
          update_rule (λ y z. l.next_codeword ≤ y → (z.queued ≡ false) × (length z.members ≡ 0))
            l.codewords c w (λ p. absurd (omega arith)) (λ y other. v.fresh y) x;
    }

    -- A codeword that is put on the queue.
    pub pushed-IsQueue :
        w.queued ≡ true → length w.members ≤ 1 → IsQueue (set_codeword l c w) busy (c ∷ queue)
    unfolding occ
    pushed-IsQueue now short = record {
      queued = λ x.
          update_rule (λ y z. 0 < occ y (c ∷ queue) → z.queued ≡ true) l.codewords c w (λ p. now)
            (λ y other p. v.queued y (rw other at p)) x;
      ready = λ x.
          update_rule (λ y z. z.queued ≡ true → length z.members ≤ 1) l.codewords c w (λ p. short)
            (λ y other. v.ready y) x;
      waiting = λ x.
          update_rule (λ y z. y < l.next_codeword → z.queued ≡ false → 2 ≤ length z.members)
            l.codewords c w (λ p e. ground arith) (λ y other. v.waiting y) x;
      finished = λ x.
          update_rule
            (λ y z.
              z.queued ≡ true
              → busy y ≡ false
              → occ y (c ∷ queue) ≡ 0
              → (z.decoded ≡ true) × (length z.members ≡ 0))
            l.codewords c w (λ p b e. ground arith)
            (λ y other p b e. v.finished y p b (rw other at e)) x;
      fresh = λ x.
          update_rule (λ y z. l.next_codeword ≤ y → (z.queued ≡ false) × (length z.members ≡ 0))
            l.codewords c w (λ p. absurd (omega arith)) (λ y other. v.fresh y) x;
    }
