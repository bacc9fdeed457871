-- ===== src/Lt/Decoder/Closing.antt =====
-- lt/decoder.go: a codeword that is put together is queued or waits, and what is queued is decoded.
use rateless_set_reconcile.Base.{
  ℕ, zero, suc, ◌≤◌, ◌<◌, ◌≡◌, refl, subst, Bool, true, false, Bool-cases, inl, inr, List, [], ◌∷◌,
  length, ◌==◌, ==_iff, arith,
}
use rateless_set_reconcile.Base.Cut.{occ, occ-le-length}
use rateless_set_reconcile.Base.Outcome.{Outcome, ok}
use rateless_set_reconcile.Lt.Encoder.{TransactionData, Transaction, Hasher}
use rateless_set_reconcile.Lt.Links.{PendingCodeword, new_codeword}
use rateless_set_reconcile.Lt.Links.Marking.{idle, update_rule}
use rateless_set_reconcile.Lt.Decoder.{Comparable, Decoder, set_queued, allocate, decode_codewords}
use rateless_set_reconcile.Lt.Decoder.Peeling.{IsPeeling, work, kept-IsConsistent}
use rateless_set_reconcile.Lt.Decoder.Round.{decode_codewords-IsPeeling}
use rateless_set_reconcile.Lt.Decoder.Adding.{IsSettled, IsDecoder, IsBuilding, of_queue}

pub idle-le : (n : ℕ) (f : ℕ → Bool) → idle n f ≤ n
unfolding idle
idle-le zero f = omega arith
idle-le (suc n) f = ground (arith, idle-le n f)

module _ {T : Type 0} ⦃d : TransactionData T⦄ ⦃k : Comparable T⦄ ⦃h : Hasher⦄ where
  pub allocate-IsBuilding :
      (e : Decoder T) (symbol : T)
      → IsDecoder e
      → IsBuilding (allocate e symbol) e.links.next_codeword
  unfolding new_codeword occ
  allocate-IsBuilding e symbol v =
      let c = e.links.next_codeword in
      record {
        consistent =
            kept-IsConsistent e c
              (record { symbol = symbol; members = []; queued = false; decoded = false }) (suc c)
              v.consistent
              (λ q.
                let size = occ-le-length q (e.links.codewords c).members in
                omega (arith, ((v.settled c).fresh (omega arith)).1));
        unqueued = rw ((==_iff c c).1 refl) refl;
        newest = refl;
        settled = λ x other. rw other (record {
          finished = (v.settled x).finished;
          waiting = λ p. (v.settled x).waiting (ground arith);
          fresh = λ p. (v.settled x).fresh (omega arith);
        });
      }

  -- A codeword of at most one member is put on the queue.
  pub queued-IsPeeling :
      (e : Decoder T) (c : ℕ)
      → IsBuilding e c
      → length (e.links.codewords c).members ≤ 1
      → IsPeeling (set_queued e c) (λ x. false) (c ∷ [])
  unfolding occ
  queued-IsPeeling e c v short =
      let w : PendingCodeword T = record (e.links.codewords c) { queued = true } in
      record {
        consistent = kept-IsConsistent e c w e.links.next_codeword v.consistent (λ q. refl);
        stack = record {
          queued = λ x.
              update_rule (λ y z. 0 < occ y (c ∷ []) → z.queued ≡ true) e.links.codewords c w
                (λ p. refl) (λ y other p. absurd (ground arith)) x;
          ready = λ x.
              update_rule (λ y z. z.queued ≡ true → length z.members ≤ 1) e.links.codewords c w
                (λ p. short) (λ y other q. omega (arith, ((v.settled y other).finished q).1)) x;
          waiting = λ x.
              update_rule
                (λ y z. y < e.links.next_codeword → z.queued ≡ false → 2 ≤ length z.members)
                e.links.codewords c w (λ p q. absurd (ground arith))
                (λ y other. (v.settled y other).waiting) x;
          finished = λ x.
              update_rule
                (λ y z.
                  z.queued ≡ true
                  → false ≡ false
                  → occ y (c ∷ []) ≡ 0
                  → (z.decoded ≡ true) × (length z.members ≡ 0))
                e.links.codewords c w
                (λ p b o. absurd (let at = (==_iff c c).1 refl in ground arith))
                (λ y other p b o. (v.settled y other).finished p) x;
          fresh = λ x.
              update_rule
                (λ y z. e.links.next_codeword ≤ y → (z.queued ≡ false) × (length z.members ≡ 0))
                e.links.codewords c w (λ p. absurd (omega (arith, v.newest)))
                (λ y other. (v.settled y other).fresh) x;
        };
      }

  pub settled-IsDecoder :
      (e : Decoder T) (c : ℕ)
      → IsBuilding e c
      → 2 ≤ length (e.links.codewords c).members
      → IsDecoder e
  settled-IsDecoder e c v long = record {
    consistent = v.consistent;
    settled = λ x. elim (Bool-cases (c == x)) [
      | inl here ↦
          subst (λ y. IsSettled e.links.next_codeword y (e.links.codewords y)) ((==_iff c x).0 here)
            (record {
              finished = λ p. absurd (let no = v.unqueued in ground arith);
              waiting = λ p q. long;
              fresh = λ p. absurd (omega (arith, v.newest));
            })
      | inr other ↦ v.settled x other
    ];
  }

  -- What a call returns, and the invariant after it.
  abbrev pub Accepts : ℕ → Outcome (Decoder T × List (Transaction T)) → Type 0
  Accepts next o =
      (e' : Decoder T) × (txs : List (Transaction T)) × (o ≡ ok (e', txs))
      × IsDecoder e'
      × (e'.links.next_codeword ≡ next)

  pub decode_codewords-Accepts :
      (fuel : ℕ) (e : Decoder T) (queue : List ℕ)
      → IsPeeling e (λ x. false) queue
      → work e queue < fuel
      → Accepts e.links.next_codeword (decode_codewords fuel e queue [])
  decode_codewords-Accepts fuel e queue v enough =
      let (e', txs, ran, v', same) = decode_codewords-IsPeeling fuel e queue [] v enough in
      (e', txs, ran, of_queue e' v', same)
