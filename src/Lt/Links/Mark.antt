-- ===== src/Lt/Links/Mark.antt =====
-- lt/decoder.go: the loop of markDecoded.
use rateless_set_reconcile.Base.{
  ℕ, ◌+◌, ◌<◌, ◌≡◌, refl, sym, ap, ◌∙◌, Bool, true, Bool-cases, inl, inr, Option, some, List, [],
  ◌∷◌, length, ◌==◌, ==_iff, if◌then◌else◌, arith,
}
use rateless_set_reconcile.Base.Cut.{occ, remove_first-IsRemoved}
use rateless_set_reconcile.Riblt.Decoder.{index_zero}
use rateless_set_reconcile.Lt.Encoder.{TransactionData}
use rateless_set_reconcile.Lt.Links.{
  PendingTransaction, PendingCodeword, Links, set_codeword, set_pending, is_ready, peel_transaction,
  mark_round, mark_loop, mark_decoded,
}
use rateless_set_reconcile.Lt.Links.Marking.{
  idle, is_queued, IsLinked, IsMarking, IsQueue, IsMarked, set-IsMarking, kept-IsQueue,
  pushed-IsQueue,
}
use rateless_set_reconcile.Lt.Links.Visit.{
  nothing_lost, kept-IsMarked, pushed-IsMarked, IsMarked-trans, points, member-inside, ready-short,
  ready-idle, not_ready-long,
}

module _ {T : Type 0} ⦃d : TransactionData T⦄ where
  -- What a round of the loop gives, and what the loop does.
  abbrev Marks :
      List ℕ → List ℕ → Links T → List ℕ → ℕ → (ℕ → Bool) → Option (Links T × List ℕ) → Type 0
  Marks visited rest l queue p busy o =
      (l' : Links T) × (queue' : List ℕ) × (o ≡ some (l', queue'))
      × IsMarking l' p rest
      × IsQueue l' busy queue'
      × IsMarked visited l queue l' queue'

  mark_round-Marks :
      (l : Links T) (queue : List ℕ) (p : ℕ) (t : T) (c : ℕ) (cs : List ℕ) (busy : ℕ → Bool)
      → IsMarking l p (c ∷ cs)
      → IsQueue l busy queue
      → Marks (c ∷ []) cs l queue p busy (mark_round l queue p t c)
  unfolding mark_round peel_transaction
  mark_round-Marks l queue p t c cs busy m v =
      let cw = l.codewords c in
      let found : 0 < occ p cw.members = points l p c cs m in
      let (zs, ran, r) = remove_first-IsRemoved cw.members p found in
      let w : PendingCodeword T = record cw { members = zs; symbol = d.xor cw.symbol t } in
      let inside : c < l.next_codeword = member-inside l busy queue v c p found in
      let z : PendingCodeword T = record w { queued = true } in
      elim (Bool-cases (is_ready w)) [
        | inl now ↦ (
          set_codeword l c z,
          c ∷ queue,
          rw (ran, now) refl,
          set-IsMarking l p c cs z m r,
          pushed-IsQueue l busy queue v c z inside refl (ready-short w now),
          pushed-IsMarked l queue c z r.shorter refl (ready-idle w now) inside,
        )
        | inr later ↦ (
          set_codeword l c w,
          queue,
          rw (ran, later) refl,
          set-IsMarking l p c cs w m r,
          kept-IsQueue l busy queue v c w inside refl r.shorter (not_ready-long w later),
          kept-IsMarked l queue c w r.shorter refl,
        )
      ]

  mark_loop-Marks :
      (cs : List ℕ) (l : Links T) (queue : List ℕ) (p : ℕ) (t : T) (busy : ℕ → Bool)
      → IsMarking l p cs
      → IsQueue l busy queue
      → Marks cs [] l queue p busy (mark_loop cs l queue p t)
  unfolding mark_loop
  mark_loop-Marks [] l queue p t busy m v = (
    l,
    queue,
    refl,
    m,
    v,
    record {
      pendings = refl;
      next_codeword = refl;
      next_pending = refl;
      shrunk = λ c. nothing_lost c (length (l.codewords c).members);
      work = refl;
    },
  )
  mark_loop-Marks (c ∷ cs) l queue p t busy m v =
      let (l₁, queue₁, ran, m₁, v₁, one) = mark_round-Marks l queue p t c cs busy m v in
      let (l₂, queue₂, rest, m₂, v₂, all) = mark_loop-Marks cs l₁ queue₁ p t busy m₁ v₁ in
      (l₂, queue₂, rw ran rest, m₂, v₂, IsMarked-trans c cs l queue l₁ queue₁ l₂ queue₂ one all)

  -- What markDecoded leaves: the transaction `p` blocks nothing, and no codeword points to it.
  pub record IsUnlinked (l : Links T) (queue : List ℕ) (p : ℕ) (l' : Links T) (queue' : List ℕ)
      : Type 0 where
    pub linked : IsLinked l'
    pub next_codeword : l'.next_codeword ≡ l.next_codeword
    pub next_pending : l'.next_pending ≡ l.next_pending
    pub named : (q : ℕ) → (l'.pendings q).salted_hash ≡ (l.pendings q).salted_hash
    pub shrunk :
        (c : ℕ)
        → length (l'.codewords c).members + occ p (l.codewords c).members
          ≡ length (l.codewords c).members
    pub counts :
        (c q : ℕ)
        → occ q (l'.codewords c).members ≡ (if p == q then 0 else occ q (l.codewords c).members)
    pub work :
        length queue' + idle l'.next_codeword (is_queued l')
        ≡ length queue + idle l.next_codeword (is_queued l)

  start-IsMarking : (l : Links T) (p : ℕ) → IsLinked l → IsMarking l p (l.pendings p).blocking
  start-IsMarking l p k c q = elim (Bool-cases (p == q)) [
    | inl same ↦
        rw same (k c q ∙ ap (λ (a : ℕ). occ c (l.pendings a).blocking) (sym ((==_iff p q).0 same)))
    | inr other ↦ rw other (k c q)
  ]

  -- The transaction `p` with nothing that it blocks.
  abbrev pub released : Links T → ℕ → Links T
  released l p = set_pending l p (record (l.pendings p) { blocking = [] })

  released-IsLinked : (l : Links T) (p : ℕ) → IsMarking l p [] → IsLinked (released l p)
  unfolding occ
  released-IsLinked l p m c q = elim (Bool-cases (p == q)) [
    | inl same ↦ rw same (let here = m c q in ground arith)
    | inr other ↦ rw other (let here = m c q in ground arith)
  ]

  released-named :
      (l l₁ : Links T) (p : ℕ)
      → l₁.pendings ≡ l.pendings
      → (q : ℕ) → ((released l₁ p).pendings q).salted_hash ≡ (l.pendings q).salted_hash
  released-named l l₁ p e q = elim (Bool-cases (p == q)) [
    | inl same ↦ rw same (
        ap (λ (a : ℕ). (l₁.pendings a).salted_hash) ((==_iff p q).0 same)
        ∙ ap (λ (f : ℕ → PendingTransaction). (f q).salted_hash) e)
    | inr other ↦ rw other (ap (λ (f : ℕ → PendingTransaction). (f q).salted_hash) e)
  ]

  unlinked-counts :
      (l l₁ : Links T) (p : ℕ)
      → IsLinked l
      → IsMarking l₁ p []
      → l₁.pendings ≡ l.pendings
      → (c q : ℕ)
      → occ q (l₁.codewords c).members ≡ (if p == q then 0 else occ q (l.codewords c).members)
  unfolding occ
  unlinked-counts l l₁ p k m e c q = elim (Bool-cases (p == q)) [
    | inl same ↦ rw same (rw same at (m c q))
    | inr other ↦ rw other (
        (rw other at (m c q))
        ∙ ap (λ (f : ℕ → PendingTransaction). occ c (f q).blocking) e
        ∙ sym (k c q))
  ]

  -- markDecoded on linked codewords and transactions finds every pointer that it removes: it takes
  -- the transaction out of each codeword as often as it stands there, leaves the other members as
  -- they were and the links consistent, and puts on the queue what has become decodable, each
  -- codeword once.
  pub mark_decoded-IsUnlinked :
      (l : Links T) (queue : List ℕ) (p : ℕ) (t : T) (busy : ℕ → Bool)
      → IsLinked l
      → IsQueue l busy queue
      → (l' : Links T) × (queue' : List ℕ) × (mark_decoded l queue p t ≡ some (l', queue'))
        × IsQueue l' busy queue'
        × IsUnlinked l queue p l' queue'
  unfolding mark_decoded
  mark_decoded-IsUnlinked l queue p t busy k v =
      let start : IsMarking l p (l.pendings p).blocking = start-IsMarking l p k in
      let (l₁, queue₁, ran, m, v₁, done) =
        mark_loop-Marks (l.pendings p).blocking l queue p t busy start v in
      (
        released l₁ p,
        queue₁,
        rw ran refl,
        record {
          queued = v₁.queued;
          ready = v₁.ready;
          waiting = v₁.waiting;
          finished = v₁.finished;
          fresh = v₁.fresh;
        },
        record {
          linked = released-IsLinked l₁ p m;
          next_codeword = done.next_codeword;
          next_pending = done.next_pending;
          named = released-named l l₁ p done.pendings;
          shrunk = λ c. ap (λ (n : ℕ). length (l₁.codewords c).members + n) (k c p) ∙ done.shrunk c;
          counts = unlinked-counts l l₁ p k m done.pendings;
          work = done.work;
        },
      )
