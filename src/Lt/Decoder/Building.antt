-- ===== src/Lt/Decoder/Building.antt =====
-- lt/decoder.go: the pointers stay consistent while AddCodeword links a codeword to its members.
use mathlib.Core.Option.{some-injective}
use rateless_set_reconcile.Base.{
  ℕ, ◌<◌, ◌≡◌, refl, sym, ap, subst, ◌∙◌, ◌⊎◌, Bool-cases, inl, inr, none, some, [], ◌∷◌, ◌++◌, leb,
  ◌==◌, ==_iff, arith,
}
use rateless_set_reconcile.Base.Cut.{occ, occ-append_one}
use rateless_set_reconcile.Base.Table.{find, put, is_some, find-put, update}
use rateless_set_reconcile.Lt.Encoder.{TransactionData}
use rateless_set_reconcile.Lt.Links.{PendingTransaction, PendingCodeword, Links, link, new_pending}
use rateless_set_reconcile.Lt.Links.Marking.{IsLinked, update_rule}
use rateless_set_reconcile.Lt.Links.Fail.{update_pending_rule}
use rateless_set_reconcile.Lt.Decoder.{Decoder}
use rateless_set_reconcile.Lt.Decoder.Peeling.{some-is_not_none, IsConsistent}

module _ {T : Type 0} where
  link-IsLinked : (l : Links T) (c p : ℕ) → IsLinked l → IsLinked (link l c p)
  unfolding link
  link-IsLinked l c p k x =
      let w : PendingCodeword T = record (l.codewords c) {
        members = (l.codewords c).members ++ p ∷ [];
      } in
      let tx : PendingTransaction = record (l.pendings p) {
        blocking = (l.pendings p).blocking ++ c ∷ [];
      } in
      update_rule (λ y z. (q : ℕ) → occ q z.members ≡ occ y (update l.pendings p tx q).blocking)
        l.codewords c w
        (update_pending_rule (λ q u. occ q w.members ≡ occ c u.blocking) l.pendings p tx
          (ground (
            arith,
            occ-append_one p p (l.codewords c).members,
            occ-append_one c c (l.pendings p).blocking,
            k c p,
            (==_iff p p).1 refl,
            (==_iff c c).1 refl,
          ))
          (λ q other. occ-append_one q p (l.codewords c).members ∙ rw other (k c q)))
        (λ y away.
          update_pending_rule (λ q u. occ q (l.codewords y).members ≡ occ y u.blocking) l.pendings p
            tx (k y p ∙ sym (occ-append_one y c (l.pendings p).blocking ∙ rw away refl))
            (λ q other. k y q))
        x

  link-salted_hash :
      (l : Links T) (c p q : ℕ) → ((link l c p).pendings q).salted_hash ≡ (l.pendings q).salted_hash
  unfolding link
  link-salted_hash l c p q =
      update_pending_rule (λ y z. z.salted_hash ≡ (l.pendings y).salted_hash) l.pendings p
        (record (l.pendings p) { blocking = (l.pendings p).blocking ++ c ∷ [] }) refl
        (λ y other. refl) q

  new_pending-salted_hash :
      (l : Links T) (hash q : ℕ)
      → q < l.next_pending
      → ((new_pending l hash).pendings q).salted_hash ≡ (l.pendings q).salted_hash
  unfolding new_pending
  new_pending-salted_hash l hash q old = elim (Bool-cases (l.next_pending == q)) [
    | inl same ↦ absurd (ground arith)
    | inr other ↦ rw other refl
  ]

module _ {T : Type 0} ⦃d : TransactionData T⦄ where
  pub link-IsConsistent :
      (e : Decoder T) (c p : ℕ)
      → IsConsistent e
      → find e.pending_transactions (e.links.pendings p).salted_hash ≡ some p
      → IsConsistent (record e { links = link e.links c p })
  unfolding link
  link-IsConsistent e c p v found = record {
    linked = link-IsLinked e.links c p v.linked;
    live = λ x q there.
        ap (find e.pending_transactions) (link-salted_hash e.links c p q)
        ∙ update_rule
            (λ y z.
              (r : ℕ)
              → 0 < occ r z.members
              → find e.pending_transactions (e.links.pendings r).salted_hash ≡ some r)
            e.links.codewords c
            (record (e.links.codewords c) { members = (e.links.codewords c).members ++ p ∷ [] })
            (λ r in_it. elim (Bool-cases (p == r)) [
              | inl same ↦
                  subst (λ s. find e.pending_transactions (e.links.pendings s).salted_hash ≡ some s)
                    ((==_iff p r).0 same) found
              | inr other ↦
                  v.live c r (ground (arith, occ-append_one r p (e.links.codewords c).members))
            ])
            (λ y other. v.live y) x q there;
    named = λ g q there. link-salted_hash e.links c p q ∙ v.named g q there;
    apart = v.apart;
    allocated = v.allocated;
  }

  -- The decoder with a transaction that it has never heard of.
  abbrev pub with_pending : Decoder T → ℕ → Decoder T
  with_pending e member = record e {
    pending_transactions = put e.pending_transactions member e.links.next_pending;
    links = new_pending e.links member;
  }

  module _ (e : Decoder T) (member : ℕ) (v : IsConsistent e)
      (unreceived : find e.received_transactions member ≡ none)
      (unknown : find e.pending_transactions member ≡ none) where
    -- What the map holds after the transaction is put in.
    find-with_pending :
        (g q : ℕ)
        → find (with_pending e member).pending_transactions g ≡ some q
        → ((member ≡ g) × (e.links.next_pending ≡ q)) ⊎ (find e.pending_transactions g ≡ some q)
    find-with_pending g q there = elim (Bool-cases (member == g)) [
      | inl same ↦ inl (
        (==_iff member g).0 same,
        some-injective _ _ (
            sym (find-put e.pending_transactions member g e.links.next_pending ∙ rw same refl)
            ∙ there),
      )
      | inr other ↦ inr (
          sym (find-put e.pending_transactions member g e.links.next_pending ∙ rw other refl)
          ∙ there)
    ]

    with_pending-kept :
        (g q : ℕ)
        → find e.pending_transactions g ≡ some q
        → find (with_pending e member).pending_transactions g ≡ some q
    with_pending-kept g q there = elim (Bool-cases (member == g)) [
      | inl same ↦ absurd (
          let gone = ap (find e.pending_transactions) ((==_iff member g).0 same) in
          some-is_not_none q (sym there ∙ sym gone ∙ unknown))
      | inr other ↦ find-put e.pending_transactions member g e.links.next_pending ∙ rw other there
    ]

    with_pending-IsLinked : IsLinked (new_pending e.links member)
    unfolding new_pending occ
    with_pending-IsLinked x =
        update_pending_rule (λ q u. occ q (e.links.codewords x).members ≡ occ x u.blocking)
          e.links.pendings e.links.next_pending (record { salted_hash = member; blocking = [] })
          (elim (Bool-cases (leb (occ e.links.next_pending (e.links.codewords x).members) 0)) [
            | inl none_there ↦ (ground arith)
            | inr there ↦ absurd (
                omega (
                  arith,
                  v.allocated (e.links.pendings e.links.next_pending).salted_hash
                      e.links.next_pending (v.live x e.links.next_pending (ground arith)),
                ))
          ])
          (λ q other. v.linked x q)

    pub with_pending-pending :
        find
          (with_pending e member).pending_transactions
          ((with_pending e member).links.pendings e.links.next_pending).salted_hash
        ≡ some e.links.next_pending
    unfolding new_pending
    with_pending-pending = rw ((==_iff e.links.next_pending e.links.next_pending).1 refl) (
        find-put e.pending_transactions member member e.links.next_pending
        ∙ rw ((==_iff member member).1 refl) refl)

    pub with_pending-IsConsistent : IsConsistent (with_pending e member)
    unfolding new_pending
    with_pending-IsConsistent = record {
      linked = with_pending-IsLinked;
      live = λ x q there.
          let was = v.live x q there in
          ap (find (with_pending e member).pending_transactions) (
            new_pending-salted_hash e.links member q
              (v.allocated (e.links.pendings q).salted_hash q was))
          ∙ with_pending-kept (e.links.pendings q).salted_hash q was;
      named = λ g q there. elim (find-with_pending g q there) [
        | inl (same, at) ↦ rw ((==_iff e.links.next_pending q).1 at) same
        | inr old ↦ new_pending-salted_hash e.links member q (v.allocated g q old) ∙ v.named g q old
      ];
      apart = λ g there. elim (Bool-cases (member == g)) [
        | inl same ↦ absurd (
            let gone =
              ap is_some
                (sym (ap (find e.received_transactions) ((==_iff member g).0 same)) ∙ unreceived) in
            ground arith)
        | inr other ↦
            find-put e.pending_transactions member g e.links.next_pending
            ∙ rw other (v.apart g there)
      ];
      allocated = λ g q there. elim (find-with_pending g q there) [
        | inl (same, at) ↦ omega (arith, at)
        | inr old ↦ omega (arith, v.allocated g q old)
      ];
    }
