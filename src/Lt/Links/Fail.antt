-- ===== src/Lt/Links/Fail.antt =====
-- lt/decoder.go: a codeword whose last transaction does not have the hash that it announced.
use mathlib.Core.Option.{some-injective}
use rateless_set_reconcile.Base.{
  ℕ, ◌<◌, ◌≡◌, refl, ap, subst, ◌∙◌, false, Bool-cases, inl, inr, Option, none, some, List, [], ◌∷◌,
  length, leb, ◌==◌, ==_iff, if◌then◌else◌, arith,
}
use rateless_set_reconcile.Base.Cut.{occ, remove_first, IsRemoved, remove_first-IsRemoved}
use rateless_set_reconcile.Base.Table.{update}
use rateless_set_reconcile.Riblt.Decoder.{index_zero}
use rateless_set_reconcile.Lt.Links.{
  PendingTransaction, PendingCodeword, Links, set_codeword, set_pending, fail_members,
  fail_to_decode,
}
use rateless_set_reconcile.Lt.Links.Marking.{IsLinked, update_rule}

pub update_pending_rule {κ} :
    (P : ℕ → PendingTransaction → Type κ) (f : ℕ → PendingTransaction) (c : ℕ)
    (v : PendingTransaction)
    → P c v
    → ((x : ℕ) → (c == x) ≡ false → P x (f x))
    → (x : ℕ) → P x (update f c v x)
update_pending_rule P f c v new old x = elim (Bool-cases (c == x)) [
  | inl here ↦ rw here (subst (λ y. P y v) ((==_iff c x).0 here) new)
  | inr there ↦ rw there (old x there)
]

freed_if : List ℕ → ℕ → Option ℕ
freed_if zs hash = if leb (length zs) 0 then some hash else none

freed_if-some :
    (zs : List ℕ) (hash k : ℕ) → freed_if zs hash ≡ some k → (hash ≡ k) × ((x : ℕ) → occ x zs ≡ 0)
unfolding freed_if occ
freed_if-some [] hash k h = (some-injective _ _ h, λ x. refl)
freed_if-some (z ∷ zs) hash k h = ground arith

module _ {T : Type 0} where
  -- The codeword `c` has no members left, and nothing else of the codewords changed; `freed` is the
  -- hash of the transaction `p` if no codeword points to it any more.
  pub record IsFailed (l : Links T) (c p : ℕ) (freed : Option ℕ) (l' : Links T) : Type 0 where
    pub linked : IsLinked l'
    pub next_codeword : l'.next_codeword ≡ l.next_codeword
    pub next_pending : l'.next_pending ≡ l.next_pending
    pub named : (q : ℕ) → (l'.pendings q).salted_hash ≡ (l.pendings q).salted_hash
    pub emptied : length (l'.codewords c).members ≡ 0
    pub counts :
        (x q : ℕ)
        → occ q (l'.codewords x).members ≡ (if c == x then 0 else occ q (l.codewords x).members)
    pub same_queued : (x : ℕ) → (l'.codewords x).queued ≡ (l.codewords x).queued
    pub others : (x : ℕ) → (c == x) ≡ false → l'.codewords x ≡ l.codewords x
    pub unblocked :
        (k : ℕ)
        → freed ≡ some k
        → ((l.pendings p).salted_hash ≡ k) × ((x : ℕ) → occ p (l'.codewords x).members ≡ 0)

  -- The codeword with its members dropped.
  abbrev pub dropped : Links T → ℕ → PendingCodeword T
  dropped l c = record (l.codewords c) { members = [] }

  dropped-counts :
      (l : Links T) (c x q : ℕ)
      → occ q (update l.codewords c (dropped l c) x).members
        ≡ (if c == x then 0 else occ q (l.codewords x).members)
  unfolding occ
  dropped-counts l c x q = elim (Bool-cases (c == x)) [ inl e ↦ rw e refl | inr e ↦ rw e refl ]

  last_once :
      (l : Links T) (c p q : ℕ)
      → (l.codewords c).members ≡ p ∷ []
      → occ q (l.codewords c).members ≡ (if p == q then 1 else 0)
  unfolding occ
  last_once l c p q last = ap (occ q) last

  failed-IsLinked :
      (l : Links T) (c p : ℕ) (zs : List ℕ)
      → IsLinked l
      → (l.codewords c).members ≡ p ∷ []
      → IsRemoved (l.pendings p).blocking c zs
      → IsLinked
          (set_pending (set_codeword l c (dropped l c)) p (record (l.pendings p) { blocking = zs }))
  unfolding occ
  failed-IsLinked l c p zs k last r x q =
      dropped-counts l c x q
      ∙ update_pending_rule
          (λ y z. (if c == x then 0 else occ y (l.codewords x).members) ≡ occ x z.blocking)
          l.pendings p (record (l.pendings p) { blocking = zs })
          (elim (Bool-cases (c == x)) [
            | inl here ↦ rw here (
                subst (λ a. 0 ≡ occ a zs) ((==_iff c x).0 here)
                  (let one = last_once l c p p last in
                    let gone = r.counts c in
                    let same = k c p in
                    let at = (==_iff p p).1 refl in let to = (==_iff c c).1 refl in ground arith))
            | inr there ↦ rw there (let gone = r.counts x in let same = k x p in ground arith)
          ])
          (λ y other. elim (Bool-cases (c == x)) [
            | inl here ↦ rw here (
                subst (λ a. 0 ≡ occ a (l.pendings y).blocking) ((==_iff c x).0 here)
                  (let none_here = last_once l c p y last in let same = k c y in ground arith))
            | inr there ↦ rw there (k x y)
          ])
          q

  update_pending-at :
      (l : Links T) (p : ℕ) (zs : List ℕ)
      → let v : PendingTransaction = record (l.pendings p) { blocking = zs } in
        update l.pendings p v p ≡ v
  update_pending-at l p zs = rw ((==_iff p p).1 refl) refl

  last-points :
      (l : Links T) (c p : ℕ)
      → IsLinked l
      → (l.codewords c).members ≡ p ∷ []
      → 0 < occ c (l.pendings p).blocking
  last-points l c p k last =
      let one = last_once l c p p last in
      let same = k c p in let at = (==_iff p p).1 refl in ground arith

  -- The links after the codeword lost its last member.
  abbrev pub failed : Links T → ℕ → ℕ → List ℕ → Links T
  failed l c p zs =
      set_pending (set_codeword l c (dropped l c)) p (record (l.pendings p) { blocking = zs })

  fail_to_decode-failed :
      (l : Links T) (c p : ℕ) (zs : List ℕ)
      → (l.codewords c).members ≡ p ∷ []
      → remove_first (l.pendings p).blocking c ≡ some zs
      → fail_to_decode l c ≡ some (freed_if zs (l.pendings p).salted_hash, failed l c p zs)
  unfolding fail_to_decode fail_members freed_if
  fail_to_decode-failed l c p zs last ran = ap (fail_members l c) last ∙ rw ran refl

  pub fail_to_decode-IsFailed :
      (l : Links T) (c p : ℕ)
      → IsLinked l
      → (l.codewords c).members ≡ p ∷ []
      → (freed : Option ℕ) × (l' : Links T) × (fail_to_decode l c ≡ some (freed, l'))
        × IsFailed l c p freed l'
  fail_to_decode-IsFailed l c p k last =
      let (zs, ran, r) =
        remove_first-IsRemoved (l.pendings p).blocking c (last-points l c p k last) in
      let linked = failed-IsLinked l c p zs k last r in
      (
        freed_if zs (l.pendings p).salted_hash,
        failed l c p zs,
        fail_to_decode-failed l c p zs last ran,
        record {
          linked = linked;
          next_codeword = refl;
          next_pending = refl;
          named = λ q.
              update_pending_rule (λ y z. z.salted_hash ≡ (l.pendings y).salted_hash) l.pendings p
                (record (l.pendings p) { blocking = zs }) refl (λ y other. refl) q;
          emptied =
              update_rule (λ y z. c ≡ y → length z.members ≡ 0) l.codewords c (dropped l c)
                (λ e. refl) (λ y other e. absurd (ground arith)) c refl;
          counts = dropped-counts l c;
          same_queued = λ x.
              update_rule (λ y z. z.queued ≡ (l.codewords y).queued) l.codewords c (dropped l c)
                refl (λ y other. refl) x;
          others = λ x other. rw other refl;
          unblocked = λ h e.
              let (hash, none_left) = freed_if-some zs (l.pendings p).salted_hash h e in
              (
                hash,
                λ x.
                    linked x p
                    ∙ ap (λ (y : PendingTransaction). occ x y.blocking) (update_pending-at l p zs)
                    ∙ none_left x,
              );
        },
      )
