-- ===== src/Lt/Decoder/Peeling.antt =====
-- lt/decoder.go: the invariant of the decoder, and decoding the last transaction of a codeword.
use rateless_set_reconcile.Base.{
  ℕ, ◌+◌, ◌<◌, ◌≡◌, refl, sym, ap, ◌∙◌, Bool, true, false, Bool-cases, inl, inr, Option, none, some,
  List, [], ◌∷◌, length, ◌==◌, ==_iff, arith,
}
use mathlib.Core.Option.{some-injective}
use rateless_set_reconcile.Base.Cut.{occ}
use rateless_set_reconcile.Base.Table.{Table, find, erase, is_some, update, find-erase}
use rateless_set_reconcile.Lt.Encoder.{TransactionData, Transaction, Hasher, salted}
use rateless_set_reconcile.Lt.Links.{PendingCodeword, Links}
use rateless_set_reconcile.Lt.Links.Marking.{idle, is_queued, IsLinked, IsQueue, update_rule}
use rateless_set_reconcile.Lt.Links.Mark.{IsUnlinked}
use rateless_set_reconcile.Lt.Links.Fail.{IsFailed}
use rateless_set_reconcile.Lt.Decoder.{Comparable, Decoder, erase_freed, store_new_transaction}
use rateless_set_reconcile.Lt.Decoder.Memory.{is_received-store}

module _ {T : Type 0} ⦃d : TransactionData T⦄ where
  -- The pointers agree with one another and with the maps: each transaction that a codeword points to
  -- is the one pending under its hash, and nothing is both pending and received.
  pub record IsConsistent (e : Decoder T) : Type 0 where
    pub linked : IsLinked e.links
    pub live :
        (c q : ℕ)
        → 0 < occ q (e.links.codewords c).members
        → find e.pending_transactions (e.links.pendings q).salted_hash ≡ some q
    pub named :
        (h q : ℕ) → find e.pending_transactions h ≡ some q → (e.links.pendings q).salted_hash ≡ h
    pub apart :
        (h : ℕ)
        → is_some (find e.received_transactions h) ≡ true
        → find e.pending_transactions h ≡ none
    pub allocated : (h q : ℕ) → find e.pending_transactions h ≡ some q → q < e.links.next_pending

  -- And the queue holds what is decodable.
  pub record IsPeeling (e : Decoder T) (busy : ℕ → Bool) (queue : List ℕ) : Type 0 where
    pub consistent : IsConsistent e
    pub stack : IsQueue e.links busy queue

  -- The work left: codewords that are queued, and codewords that may still be.
  abbrev pub work : Decoder T → List ℕ → ℕ
  work e queue = length queue + idle e.links.next_codeword (is_queued e.links)

pub some-is_not_none : (q : ℕ) → some q ≡ none → ⊥
some-is_not_none q p = cc

nothing_at : (f : ℕ → ℕ) (p r : ℕ) → p ≡ r → f p ≡ 0 → 0 < f r → ⊥
nothing_at f p r e z h = let same = ap f e in absurd (omega arith)

-- What is left of a map without one key.
find_of_erase :
    (t : Table ℕ) (k h q : ℕ)
    → find (erase t k) h ≡ some q
    → ((k == h) ≡ false) × (find t h ≡ some q)
find_of_erase t k h q p = elim (Bool-cases (k == h)) [
  | inl same ↦
      absurd (let gone = find-erase t k h ∙ rw same refl in some-is_not_none q (sym p ∙ gone))
  | inr other ↦ (other, sym (find-erase t k h ∙ rw other refl) ∙ p)
]

find_erased : (t : Table ℕ) (k h : ℕ) → find t h ≡ none → find (erase t k) h ≡ none
find_erased t k h p = elim (Bool-cases (k == h)) [
  | inl same ↦ find-erase t k h ∙ rw same refl
  | inr other ↦ find-erase t k h ∙ rw other p
]

find_kept :
    (t : Table ℕ) (k h q : ℕ) → (k == h) ≡ false → find t h ≡ some q → find (erase t k) h ≡ some q
find_kept t k h q other p = find-erase t k h ∙ rw other p

module _ {T : Type 0} ⦃d : TransactionData T⦄ ⦃k : Comparable T⦄ ⦃h : Hasher⦄ where
  -- A codeword is written, with the same members.
  pub kept-IsConsistent :
      (e : Decoder T) (c : ℕ) (w : PendingCodeword T) (next : ℕ)
      → IsConsistent e
      → ((q : ℕ) → occ q w.members ≡ occ q (e.links.codewords c).members)
      → IsConsistent (record e {
        links = record e.links { codewords = update e.links.codewords c w; next_codeword = next };
      })
  kept-IsConsistent e c w next v same = record {
    linked = λ x.
        update_rule (λ y z. (q : ℕ) → occ q z.members ≡ occ y (e.links.pendings q).blocking)
          e.links.codewords c w (λ q. same q ∙ v.linked c q) (λ y other. v.linked y) x;
    live = λ x.
        update_rule
          (λ y z.
            (q : ℕ)
            → 0 < occ q z.members
            → find e.pending_transactions (e.links.pendings q).salted_hash ≡ some q)
          e.links.codewords c w (λ q p. v.live c q (omega (arith, same q, p))) (λ y other. v.live y)
          x;
    named = v.named;
    apart = v.apart;
    allocated = v.allocated;
  }

  -- A codeword with one transaction left.
  module _ (e : Decoder T) (c p : ℕ) (v : IsConsistent e)
      (last : (e.links.codewords c).members ≡ p ∷ []) where
    pub last-occ : occ p (e.links.codewords c).members ≡ 1
    unfolding occ
    last-occ = let at = (==_iff p p).1 refl in ap (occ p) last ∙ rw at refl

    pub last-live : find e.pending_transactions (e.links.pendings p).salted_hash ≡ some p
    last-live = v.live c p (omega (arith, last-occ))

    pub last-not_received :
        is_some (find e.received_transactions (e.links.pendings p).salted_hash) ≡ false
    last-not_received =
        elim (Bool-cases
          (is_some (find e.received_transactions (e.links.pendings p).salted_hash))) [
            | inl there ↦ absurd (
                some-is_not_none p (sym last-live ∙ v.apart (e.links.pendings p).salted_hash there))
            | inr gone ↦ gone
          ]

  -- A pending transaction.
  module _ (e : Decoder T) (p : ℕ) (v : IsConsistent e)
      (alive : find e.pending_transactions (e.links.pendings p).salted_hash ≡ some p) where
    survives :
        (x r : ℕ) {links : Links T} {queue queue' : List ℕ}
        → 0 < occ r (links.codewords x).members
        → IsUnlinked e.links queue p links queue'
        → ((p == r) ≡ false) × (0 < occ r (e.links.codewords x).members)
    survives x r there u = let counts = u.counts x r in ground arith

    other_hash :
        (t : Transaction T) (r : ℕ)
        → salted t ≡ (e.links.pendings p).salted_hash
        → (p == r) ≡ false
        → find e.pending_transactions (e.links.pendings r).salted_hash ≡ some r
        → (salted t == (e.links.pendings r).salted_hash) ≡ false
    other_hash t r meets other there =
        elim (Bool-cases (salted t == (e.links.pendings r).salted_hash)) [
          | inl same ↦
              let hash : (e.links.pendings p).salted_hash ≡ (e.links.pendings r).salted_hash =
                sym meets ∙ (==_iff (salted t) (e.links.pendings r).salted_hash).0 same in
              let both : p ≡ r =
                some-injective _ _ (sym alive ∙ ap (find e.pending_transactions) hash ∙ there) in
              absurd (ground arith)
          | inr differs ↦ differs
        ]

    -- The transaction is found: it is received, and taken out of the codewords that wait for it.
    pub peeled-IsConsistent :
        (t : Transaction T) (links : Links T) (queue queue' : List ℕ)
        → salted t ≡ (e.links.pendings p).salted_hash
        → IsUnlinked e.links queue p links queue'
        → IsConsistent
            (record (store_new_transaction
              (record e { pending_transactions = erase e.pending_transactions (salted t) })
              (salted t)
              t) { links = links })
    unfolding store_new_transaction
    peeled-IsConsistent t links queue queue' meets u =
        let e₀ : Decoder T = record e {
          pending_transactions = erase e.pending_transactions (salted t);
        } in
        record {
          linked = u.linked;
          live = λ x r there.
              let (other, was) = survives x r there u in
              rw (u.named r) (
                find_kept e.pending_transactions (salted t) (e.links.pendings r).salted_hash r
                  (other_hash t r meets other (v.live x r was)) (v.live x r was));
          named = λ g r there.
              u.named r ∙ v.named g r (find_of_erase e.pending_transactions (salted t) g r there).1;
          apart = λ g there. elim (is_received-store e₀ (salted t) t g there) [
            | inl same ↦
                find-erase e.pending_transactions (salted t) g
                ∙ rw ((==_iff (salted t) g).1 same) refl
            | inr old ↦ find_erased e.pending_transactions (salted t) g (v.apart g old)
          ];
          allocated = λ g r there.
              rw (u.next_pending)
                (v.allocated g r (find_of_erase e.pending_transactions (salted t) g r there).1);
        }

    still :
        (x r : ℕ) {c : ℕ} {freed : Option ℕ} {links : Links T}
        → 0 < occ r (links.codewords x).members
        → IsFailed e.links c p freed links
        → 0 < occ r (e.links.codewords x).members
    still x r there f = let counts = f.counts x r in ground arith

    not_freed :
        (x r g : ℕ) {c : ℕ} (links : Links T)
        → 0 < occ r (links.codewords x).members
        → IsFailed e.links c p (some g) links
        → (g == (e.links.pendings r).salted_hash) ≡ false
    not_freed x r g links there f = elim (Bool-cases (g == (e.links.pendings r).salted_hash)) [
      | inl same ↦
          let (hash, none_left) = f.unblocked g refl in
          let alike : (e.links.pendings p).salted_hash ≡ (e.links.pendings r).salted_hash =
            hash ∙ (==_iff g (e.links.pendings r).salted_hash).0 same in
          let both : p ≡ r =
            some-injective _ _ (
              sym alive
              ∙ ap (find e.pending_transactions) alike
              ∙ v.live x r (still x r there f)) in
          let empty = none_left x in
          absurd (nothing_at (λ (a : ℕ). occ a (links.codewords x).members) p r both empty there)
      | inr differs ↦ differs
    ]

    -- The codeword fails: it drops its last transaction, which is pending no more if nothing else
    -- points to it.
    pub failed-IsConsistent :
        (c : ℕ) (freed : Option ℕ) (links : Links T)
        → IsFailed e.links c p freed links
        → IsConsistent (record e {
          links = links;
          pending_transactions = erase_freed e.pending_transactions freed;
        })
    failed-IsConsistent c none links f = record {
      linked = f.linked;
      live = λ x r there. rw (f.named r) (v.live x r (still x r there f));
      named = λ g r there. f.named r ∙ v.named g r there;
      apart = v.apart;
      allocated = λ g r there. rw f.next_pending (v.allocated g r there);
    }
    failed-IsConsistent c (some g) links f = record {
      linked = f.linked;
      live = λ x r there. rw (f.named r) (
          find_kept e.pending_transactions g (e.links.pendings r).salted_hash r
            (not_freed x r g links there f) (v.live x r (still x r there f)));
      named =
          λ m r there. f.named r ∙ v.named m r (find_of_erase e.pending_transactions g m r there).1;
      apart = λ m there. find_erased e.pending_transactions g m (v.apart m there);
      allocated = λ m r there.
          rw f.next_pending (v.allocated m r (find_of_erase e.pending_transactions g m r there).1);
    }
