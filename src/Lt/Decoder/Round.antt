-- ===== src/Lt/Decoder/Round.antt =====
-- lt/decoder.go: a round of decodeCodewords.
use rateless_set_reconcile.Base.{
  ℕ, zero, suc, ◌+◌, ◌≤◌, ◌<◌, ◌≡◌, refl, ap, ◌∙◌, Bool, true, false, Bool-cases, inl, inr, Option,
  some, List, [], ◌∷◌, ◌++◌, length, leb, ◌==◌, ==_iff, arith,
}
use rateless_set_reconcile.Base.Cut.{occ}
use rateless_set_reconcile.Base.Table.{find, erase}
use rateless_set_reconcile.Lt.Encoder.{
  TransactionData, Transaction, Hasher, new_transaction, salted,
}
use rateless_set_reconcile.Lt.Links.{PendingCodeword, Links}
use rateless_set_reconcile.Lt.Links.Marking.{idle, idle-same, is_queued, IsQueue, update_rule}
use rateless_set_reconcile.Lt.Links.Taking.{changed-IsQueue, finished-IsQueue, taken-IsQueue}
use rateless_set_reconcile.Lt.Links.Visit.{member-inside}
use rateless_set_reconcile.Lt.Links.Mark.{IsUnlinked, mark_decoded-IsUnlinked}
use rateless_set_reconcile.Lt.Links.Fail.{IsFailed, fail_to_decode-IsFailed}
use rateless_set_reconcile.Lt.Decoder.{
  Comparable, Decoder, Found, erase_freed, store_new_transaction, decode_last, decode_members,
  set_decoded, decode_round, decode_codewords,
}
use rateless_set_reconcile.Base.Outcome.{ok}
use rateless_set_reconcile.Lt.Decoder.Peeling.{
  IsPeeling, work, last-occ, last-live, last-not_received, peeled-IsConsistent, failed-IsConsistent,
  kept-IsConsistent,
}

module _ {T : Type 0} ⦃d : TransactionData T⦄ ⦃k : Comparable T⦄ ⦃h : Hasher⦄ where
  -- A step on the codeword `c` that is being decoded: it has no members left, the invariant holds
  -- again, and the work left is what it was.
  abbrev pub Decodes : Decoder T → ℕ → (ℕ → Bool) → List ℕ → Option (Found T) → Type 0
  Decodes e c busy queue o =
      (e' : Decoder T) × (queue' : List ℕ) × (txs : List (Transaction T)) × (o
        ≡ some (e', queue', txs))
      × IsPeeling e' busy queue'
      × (length (e'.links.codewords c).members ≡ 0)
      × (work e' queue' ≡ work e queue)
      × (e'.links.next_codeword ≡ e.links.next_codeword)

  module _ (e : Decoder T) (c p : ℕ) (queue : List ℕ) (v : IsPeeling e (λ x. c == x) queue)
      (last : (e.links.codewords c).members ≡ p ∷ [])
      (queued : (e.links.codewords c).queued ≡ true) where
    alive : find e.pending_transactions (e.links.pendings p).salted_hash ≡ some p
    alive = last-live e c p v.consistent last

    peeled-empty :
        (links : Links T) (queue' : List ℕ)
        → IsUnlinked e.links queue p links queue'
        → length (links.codewords c).members ≡ 0
    peeled-empty links queue' u =
        let one = last-occ e c p v.consistent last in
        let all = ap length last in omega (arith, u.shrunk c)

    failed-IsQueue :
        (freed : Option ℕ) (links : Links T)
        → IsFailed e.links c p freed links
        → IsQueue links (λ x. c == x) queue
    failed-IsQueue freed links f =
        let one = last-occ e c p v.consistent last in
        changed-IsQueue e.links links (λ x. c == x) queue c v.stack f.next_codeword f.others
          ((==_iff c c).1 refl) (f.same_queued c ∙ queued) f.emptied
          (member-inside e.links (λ x. c == x) queue v.stack c p (omega arith))

    decode_last-Decodes : Decodes e c (λ x. c == x) queue (decode_last e queue c p)
    unfolding decode_last store_new_transaction
    decode_last-Decodes =
        let t = new_transaction (e.links.codewords c).symbol in
        let unknown = last-not_received e c p v.consistent last in
        elim (Bool-cases (salted t == (e.links.pendings p).salted_hash)) [
          | inl meets ↦
              let (links, queue', ran, q, u) =
                mark_decoded-IsUnlinked e.links queue p t.tx_data (λ x. c == x) v.consistent.linked
                  v.stack in
              let e' : Decoder T =
                record (store_new_transaction
                  (record e { pending_transactions = erase e.pending_transactions (salted t) })
                  (salted t) t) { links = links } in
              (
                e',
                queue',
                t ∷ [],
                rw (unknown, alive, meets, ran) refl,
                record {
                  consistent =
                      peeled-IsConsistent e p v.consistent alive t links queue queue'
                        ((==_iff (salted t) (e.links.pendings p).salted_hash).0 meets) u;
                  stack = q;
                },
                peeled-empty links queue' u,
                u.work,
                u.next_codeword,
              )
          | inr differs ↦
              let (freed, links, ran, f) =
                fail_to_decode-IsFailed e.links c p v.consistent.linked last in
              let e' : Decoder T = record e {
                links = links;
                pending_transactions = erase_freed e.pending_transactions freed;
              } in
              (
                e',
                queue,
                [],
                rw (unknown, alive, differs, ran) refl,
                record {
                  consistent = failed-IsConsistent e p v.consistent alive c freed links f;
                  stack = failed-IsQueue freed links f;
                },
                f.emptied,
                ap (λ (n : ℕ). length queue + n)
                    (ap (λ (m : ℕ). idle m (is_queued links)) f.next_codeword
                      ∙ idle-same e.links.next_codeword (is_queued links) (is_queued e.links)
                          (λ x b. f.same_queued x)),
                f.next_codeword,
              )
        ]

  -- By the members that the codeword has.
  decode_members-Decodes :
      (ms : List ℕ) (e : Decoder T) (c : ℕ) (queue : List ℕ)
      → (e.links.codewords c).members ≡ ms
      → length ms ≤ 1
      → IsPeeling e (λ x. c == x) queue
      → (e.links.codewords c).queued ≡ true
      → Decodes e c (λ x. c == x) queue (decode_members e queue c ms)
  unfolding decode_members
  decode_members-Decodes [] e c queue same short v queued =
      (e, queue, [], refl, v, ap length same, refl, refl)
  decode_members-Decodes (p ∷ []) e c queue same short v queued =
      decode_last-Decodes e c p queue v same queued
  decode_members-Decodes (p ∷ q ∷ ps) e c queue same short v queued = absurd (ground arith)

  set_decoded-idle :
      (e : Decoder T) (c : ℕ)
      → idle e.links.next_codeword (is_queued (set_decoded e c).links)
        ≡ idle e.links.next_codeword (is_queued e.links)
  set_decoded-idle e c =
      let w : PendingCodeword T = record (e.links.codewords c) { decoded = true } in
      idle-same e.links.next_codeword (is_queued (set_decoded e c).links) (is_queued e.links)
        (λ x b.
          update_rule (λ y z. z.queued ≡ (e.links.codewords y).queued) e.links.codewords c w refl
            (λ y other. refl) x)

  -- A codeword that is queued is not past the end of the memory.
  queued-inside :
      (l : Links T) (busy : ℕ → Bool) (queue : List ℕ) (c : ℕ)
      → IsQueue l busy queue
      → (l.codewords c).queued ≡ true
      → c < l.next_codeword
  queued-inside l busy queue c v queued = elim (Bool-cases (leb l.next_codeword c)) [
    | inl past ↦ absurd (let gone = (v.fresh c (ground arith)).0 in ground arith)
    | inr here ↦ ground arith
  ]

  first-queued :
      (l : Links T) (busy : ℕ → Bool) (c : ℕ) (queue : List ℕ)
      → IsQueue l busy (c ∷ queue)
      → (l.codewords c).queued ≡ true
  unfolding occ
  first-queued l busy c queue v = v.queued c (let at = (==_iff c c).1 refl in ground arith)

  -- A round does not panic, keeps the invariant, and does one piece of the work.
  pub decode_round-IsPeeling :
      (e : Decoder T) (c : ℕ) (queue : List ℕ)
      → IsPeeling e (λ x. false) (c ∷ queue)
      → (e' : Decoder T) × (queue' : List ℕ) × (txs : List (Transaction T)) × (decode_round e queue
            c
          ≡ some (e', queue', txs))
        × IsPeeling e' (λ x. false) queue'
        × (suc (work e' queue') ≡ work e (c ∷ queue))
        × (e'.links.next_codeword ≡ e.links.next_codeword)
  unfolding decode_round
  decode_round-IsPeeling e c queue v =
      let queued = first-queued e.links (λ x. false) c queue v.stack in
      let (e', queue', txs, ran, v', empty, same, last) =
        decode_members-Decodes (e.links.codewords c).members e c queue refl (v.stack.ready c queued)
          (record { consistent = v.consistent; stack = taken-IsQueue e.links queue c v.stack })
          queued in
      let inside = queued-inside e.links (λ x. false) (c ∷ queue) c v.stack queued in
      let none_left : leb (length (e'.links.codewords c).members) 0 ≡ true = ground arith in
      (
        set_decoded e' c,
        queue',
        txs,
        rw (queued, ran, none_left) refl,
        record {
          consistent =
              kept-IsConsistent e' c (record (e'.links.codewords c) { decoded = true })
                e'.links.next_codeword v'.consistent (λ q. refl);
          stack = finished-IsQueue e'.links queue' c v'.stack empty (rw last inside);
        },
        (let left = set_decoded-idle e' c in omega (arith, same, left)),
        last,
      )

  -- The loop of decodeCodewords ends, with nothing left on the queue and the invariant kept, if
  -- the invariant holds for the queue that it starts with and the fuel is above the number of
  -- codewords that are queued or may still be.
  pub decode_codewords-IsPeeling :
      (fuel : ℕ) (e : Decoder T) (queue : List ℕ) (txs : List (Transaction T))
      → IsPeeling e (λ x. false) queue
      → work e queue < fuel
      → (e' : Decoder T) × (all : List (Transaction T)) × (decode_codewords fuel e queue txs
          ≡ ok (e', all))
        × IsPeeling e' (λ x. false) []
        × (e'.links.next_codeword ≡ e.links.next_codeword)
  unfolding decode_codewords
  decode_codewords-IsPeeling zero e queue txs v enough = absurd (omega arith)
  decode_codewords-IsPeeling (suc fuel) e [] txs v enough = (e, txs, refl, v, refl)
  decode_codewords-IsPeeling (suc fuel) e (c ∷ queue) txs v enough =
      let (e₁, queue₁, found, ran, v₁, less, same) = decode_round-IsPeeling e c queue v in
      let (e₂, all, rest, v₂, last) =
        decode_codewords-IsPeeling fuel e₁ queue₁ (txs ++ found) v₁ (omega (arith, less, enough)) in
      (e₂, all, rw ran rest, v₂, last ∙ same)
