-- ===== src/Lt/Decoder/Adding.antt =====
-- lt/decoder.go: AddCodeword and AddTransaction from one state of the decoder to the next.
use rateless_set_reconcile.Base.{
  ℕ, suc, ◌≤◌, ◌<◌, ◌≡◌, refl, sym, ap, ◌∙◌, true, false, Option, none, some, List, [], ◌∷◌, length,
  ◌==◌, ==_iff, arith,
}
use rateless_set_reconcile.Base.Cut.{occ}
use rateless_set_reconcile.Base.Table.{find, is_some}
use rateless_set_reconcile.Lt.Encoder.{TransactionData, Transaction, Hasher}
use rateless_set_reconcile.Lt.Links.{PendingCodeword, link, new_pending}
use rateless_set_reconcile.Lt.Decoder.{
  Comparable, Decoder, link_pending, take_out, add_known, add_member, add_members,
}
use rateless_set_reconcile.Lt.Decoder.Peeling.{
  some-is_not_none, IsConsistent, IsPeeling, kept-IsConsistent,
}
use rateless_set_reconcile.Lt.Decoder.Building.{
  link-IsConsistent, with_pending, with_pending-IsConsistent, with_pending-pending,
}

-- Between two calls a codeword is decoded and has no members left, or it is not and has two at least.
pub record IsSettled {T : Type 0} (next x : ℕ) (w : PendingCodeword T) : Type 0 where
  pub finished : w.queued ≡ true → (w.decoded ≡ true) × (length w.members ≡ 0)
  pub waiting : x < next → w.queued ≡ false → 2 ≤ length w.members
  pub fresh : next ≤ x → (w.queued ≡ false) × (length w.members ≡ 0)

module _ {T : Type 0} ⦃d : TransactionData T⦄ where
  -- The invariant of the decoder between two calls.
  pub record IsDecoder (e : Decoder T) : Type 0 where
    pub consistent : IsConsistent e
    pub settled : (x : ℕ) → IsSettled e.links.next_codeword x (e.links.codewords x)

  -- While the codeword `c` is put together.
  pub record IsBuilding (e : Decoder T) (c : ℕ) : Type 0 where
    pub consistent : IsConsistent e
    pub unqueued : (e.links.codewords c).queued ≡ false
    pub newest : e.links.next_codeword ≡ suc c
    pub settled :
        (x : ℕ) → (c == x) ≡ false → IsSettled e.links.next_codeword x (e.links.codewords x)

  pub of_queue : (e : Decoder T) → IsPeeling e (λ x. false) [] → IsDecoder e
  unfolding occ
  of_queue e v = record {
    consistent = v.consistent;
    settled = λ x. record {
      finished = λ q. v.stack.finished x q refl refl;
      waiting = v.stack.waiting x;
      fresh = v.stack.fresh x;
    };
  }

  pub to_queue : (e : Decoder T) → IsDecoder e → IsPeeling e (λ x. false) []
  unfolding occ
  to_queue e v = record {
    consistent = v.consistent;
    stack = record {
      queued = λ x p. absurd (omega arith);
      ready = λ x q. omega (arith, ((v.settled x).finished q).1);
      waiting = λ x. (v.settled x).waiting;
      finished = λ x q b o. (v.settled x).finished q;
      fresh = λ x. (v.settled x).fresh;
    };
  }

  link-IsBuilding :
      (e : Decoder T) (c p : ℕ)
      → IsBuilding e c
      → find e.pending_transactions (e.links.pendings p).salted_hash ≡ some p
      → IsBuilding (record e { links = link e.links c p }) c
  unfolding link
  link-IsBuilding e c p v found = record {
    consistent = link-IsConsistent e c p v.consistent found;
    unqueued = rw ((==_iff c c).1 refl) v.unqueued;
    newest = v.newest;
    settled = λ x other. rw other (v.settled x other);
  }

  with_pending-IsBuilding :
      (e : Decoder T) (c member : ℕ)
      → IsBuilding e c
      → find e.received_transactions member ≡ none
      → find e.pending_transactions member ≡ none
      → IsBuilding (with_pending e member) c
  unfolding new_pending
  with_pending-IsBuilding e c member v unreceived unknown = record {
    consistent = with_pending-IsConsistent e member v.consistent unreceived unknown;
    unqueued = v.unqueued;
    newest = v.newest;
    settled = v.settled;
  }

module _ {T : Type 0} ⦃d : TransactionData T⦄ ⦃k : Comparable T⦄ ⦃h : Hasher⦄ where
  take_out-IsBuilding :
      (e : Decoder T) (c : ℕ) (t : Transaction T) → IsBuilding e c → IsBuilding (take_out e c t) c
  take_out-IsBuilding e c t v = record {
    consistent =
        kept-IsConsistent e c
          (record (e.links.codewords c) { symbol = d.xor (e.links.codewords c).symbol t.tx_data })
          e.links.next_codeword v.consistent (λ q. refl);
    unqueued = rw ((==_iff c c).1 refl) v.unqueued;
    newest = v.newest;
    settled = λ x other. rw other (v.settled x other);
  }

  -- A step that does not panic and leaves a codeword that is being put together.
  abbrev Builds : ℕ → Option (Decoder T) → Type 0
  Builds c o = (e' : Decoder T) × (o ≡ some e') × IsBuilding e' c

  add_known-Builds :
      (r : Option (Transaction T)) (q : Option ℕ) (e : Decoder T) (c member : ℕ)
      → IsBuilding e c
      → find e.received_transactions member ≡ r
      → find e.pending_transactions member ≡ q
      → Builds c (add_known e c member r q)
  unfolding add_known link_pending
  add_known-Builds none none e c member v a b =
      let v' = with_pending-IsBuilding e c member v a b in
      (
        record e {
          pending_transactions = (with_pending e member).pending_transactions;
          links = link (with_pending e member).links c e.links.next_pending;
        },
        refl,
        link-IsBuilding (with_pending e member) c e.links.next_pending v'
            (with_pending-pending e member v.consistent a b),
      )
  add_known-Builds none (some p) e c member v a b = (
    record e { links = link e.links c p },
    refl,
    link-IsBuilding e c p v (ap (find e.pending_transactions) (v.consistent.named member p b) ∙ b),
  )
  add_known-Builds (some t) none e c member v a b =
      (take_out e c t, refl, take_out-IsBuilding e c t v)
  add_known-Builds (some t) (some p) e c member v a b =
      absurd (some-is_not_none p (sym b ∙ v.consistent.apart member (ap is_some a)))

  pub add_members-Builds :
      (ms : List ℕ) (e : Decoder T) (c : ℕ) → IsBuilding e c → Builds c (add_members e c ms)
  unfolding add_members add_member
  add_members-Builds [] e c v = (e, refl, v)
  add_members-Builds (m ∷ ms) e c v =
      let (e₁, ran, v₁) =
        add_known-Builds (find e.received_transactions m) (find e.pending_transactions m) e c m v
          refl refl in
      let (e₂, rest, v₂) = add_members-Builds ms e₁ c v₁ in (e₂, rw ran rest, v₂)
