-- ===== src/Lt/Decoder/Accept.antt =====
-- lt/decoder.go: AddCodeword and AddTransaction return, do not panic, and keep the invariant.
use rateless_set_reconcile.Base.{
  ℕ, suc, ◌+◌, ◌<◌, ◌≡◌, refl, sym, ap, ◌∙◌, false, Bool-cases, inl, inr, Option, none, some, List,
  [], ◌∷◌, length, leb, ==_iff, arith,
}
use rateless_set_reconcile.Base.Cut.{occ}
use rateless_set_reconcile.Base.Outcome.{ok}
use rateless_set_reconcile.Base.Table.{find, erase, is_some}
use rateless_set_reconcile.Lt.Encoder.{TransactionData, Transaction, Hasher, Codeword, salted}
use rateless_set_reconcile.Lt.Links.Marking.{is_queued}
use rateless_set_reconcile.Lt.Links.Mark.{mark_decoded-IsUnlinked}
use rateless_set_reconcile.Lt.Decoder.{
  Comparable, Decoder, new_decoder, store_new_transaction, set_queued, allocate, add_codeword,
  peel_pending, add_received, add_transaction, same_bytes,
}
use rateless_set_reconcile.Lt.Decoder.Memory.{is_received-store}
use rateless_set_reconcile.Lt.Decoder.Peeling.{IsConsistent, peeled-IsConsistent}
use rateless_set_reconcile.Lt.Decoder.Adding.{IsDecoder, to_queue, add_members-Builds}
use rateless_set_reconcile.Lt.Decoder.Closing.{
  idle-le, allocate-IsBuilding, queued-IsPeeling, settled-IsDecoder, Accepts,
  decode_codewords-Accepts,
}

module _ {T : Type 0} ⦃d : TransactionData T⦄ where
  pub new_decoder-IsDecoder : (memory : ℕ) → IsDecoder {T = T} (new_decoder memory)
  unfolding new_decoder occ find
  new_decoder-IsDecoder memory = record {
    consistent = record {
      linked = λ c q. refl;
      live = λ c q p. absurd (omega arith);
      named = λ g q p. absurd (ground arith);
      apart = λ g p. refl;
      allocated = λ g q p. absurd (ground arith);
    };
    settled = λ x. record {
      finished = λ p. absurd (ground arith);
      waiting = λ p. absurd (omega arith);
      fresh = λ p. (refl, refl);
    };
  }

module _ {T : Type 0} ⦃d : TransactionData T⦄ ⦃k : Comparable T⦄ ⦃h : Hasher⦄ where
  -- AddCodeword on a decoder that satisfies the invariant reaches none of its panics, and returns
  -- when the fuel for its loop is above the number of codewords received so far by at least three;
  -- afterwards the invariant holds again, so that pointers and maps agree, nothing is both pending
  -- and received, and each codeword either is decoded and has no members left or has two members
  -- at least; and one codeword more has been received.
  pub add_codeword-IsDecoder :
      (fuel : ℕ) (e : Decoder T) (raw : Codeword T)
      → IsDecoder e
      → e.links.next_codeword + 2 < fuel
      → (e' : Decoder T) × (txs : List (Transaction T)) × (add_codeword fuel e raw ≡ ok (e', txs))
        × IsDecoder e'
        × (e'.links.next_codeword ≡ suc e.links.next_codeword)
  unfolding add_codeword
  add_codeword-IsDecoder fuel e raw v enough =
      let c = e.links.next_codeword in
      let (e₁, ran, b) =
        add_members-Builds raw.members (allocate e raw.symbol) c
          (allocate-IsBuilding e raw.symbol v) in
      elim (Bool-cases (leb (length (e₁.links.codewords c).members) 1)) [
        | inl short ↦
            let left = idle-le e₁.links.next_codeword (is_queued (set_queued e₁ c).links) in
            let (e₂, txs, rest, v₂, same) =
              decode_codewords-Accepts fuel (set_queued e₁ c) (c ∷ [])
                (queued-IsPeeling e₁ c b (ground arith)) (omega (arith, left, b.newest, enough)) in
            (e₂, txs, rw (ran, short) rest, v₂, same ∙ b.newest)
        | inr long ↦
            (e₁, [], rw (ran, long) refl, settled-IsDecoder e₁ c b (ground arith), b.newest)
      ]

  stored-IsDecoder :
      (e : Decoder T) (t : Transaction T)
      → IsDecoder e
      → find e.pending_transactions (salted t) ≡ none
      → IsDecoder (store_new_transaction e (salted t) t)
  unfolding store_new_transaction
  stored-IsDecoder e t v unknown = record {
    consistent = record {
      linked = v.consistent.linked;
      live = v.consistent.live;
      named = v.consistent.named;
      apart = λ g there. elim (is_received-store e (salted t) t g there) [
        | inl same ↦ ap (find e.pending_transactions) (sym same) ∙ unknown
        | inr old ↦ v.consistent.apart g old
      ];
      allocated = v.consistent.allocated;
    };
    settled = v.settled;
  }

  peel_pending-Accepts :
      (q : Option ℕ) (fuel : ℕ) (e : Decoder T) (t : Transaction T)
      → IsDecoder e
      → find e.pending_transactions (salted t) ≡ q
      → e.links.next_codeword < fuel
      → Accepts e.links.next_codeword
          (peel_pending fuel (store_new_transaction e (salted t) t) (salted t) t q)
  unfolding peel_pending store_new_transaction
  peel_pending-Accepts none fuel e t v is enough =
      (store_new_transaction e (salted t) t, [], refl, stored-IsDecoder e t v is, refl)
  peel_pending-Accepts (some p) fuel e t v is enough =
      let named = v.consistent.named (salted t) p is in
      let start = to_queue e v in
      let (links, queue, ran, q, u) =
        mark_decoded-IsUnlinked e.links [] p t.tx_data (λ x. false) v.consistent.linked
          start.stack in
      let e₁ : Decoder T =
        record (store_new_transaction
          (record e { pending_transactions = erase e.pending_transactions (salted t) }) (salted t)
          t) { links = links } in
      let consistent : IsConsistent e₁ =
        peeled-IsConsistent e p v.consistent (ap (find e.pending_transactions) named ∙ is) t links
          [] queue (sym named) u in
      let left = idle-le e.links.next_codeword (is_queued e.links) in
      let (e₂, txs, rest, v₂, same) =
        decode_codewords-Accepts fuel e₁ queue (record { consistent = consistent; stack = q })
          (omega (arith, u.work, left, enough)) in
      let meets = (==_iff (e.links.pendings p).salted_hash (salted t)).1 named in
      (e₂, txs, rw (meets, ran) rest, v₂, same ∙ u.next_codeword)

  add_received-Accepts :
      (r : Option (Transaction T)) (fuel : ℕ) (e : Decoder T) (t : Transaction T)
      → IsDecoder e
      → find e.received_transactions (salted t) ≡ r
      → e.links.next_codeword < fuel
      → Accepts e.links.next_codeword (add_received fuel e t r)
  unfolding add_received store_new_transaction
  add_received-Accepts none fuel e t v is enough =
      peel_pending-Accepts (find e.pending_transactions (salted t)) fuel e t v refl enough
  add_received-Accepts (some old) fuel e t v is enough =
      let unknown = v.consistent.apart (salted t) (ap is_some is) in
      elim (Bool-cases (same_bytes old.tx_hash t.tx_hash)) [
        | inl same ↦ (e, [], rw same refl, v, refl)
        | inr other ↦ (
          store_new_transaction e (salted t) t,
          [],
          rw (other, unknown) refl,
          stored-IsDecoder e t v unknown,
          refl,
        )
      ]

  -- AddTransaction on a decoder that satisfies the invariant reaches none of its panics, and
  -- returns when the fuel for its loop is above the number of codewords received so far, whether
  -- the transaction is new, known, or in conflict with one that is known; afterwards the invariant
  -- holds again.
  pub add_transaction-IsDecoder :
      (fuel : ℕ) (e : Decoder T) (t : Transaction T)
      → IsDecoder e
      → e.links.next_codeword < fuel
      → (e' : Decoder T) × (txs : List (Transaction T)) × (add_transaction fuel e t ≡ ok (e', txs))
        × IsDecoder e'
        × (e'.links.next_codeword ≡ e.links.next_codeword)
  unfolding add_transaction
  add_transaction-IsDecoder fuel e t v enough =
      add_received-Accepts (find e.received_transactions (salted t)) fuel e t v refl enough
