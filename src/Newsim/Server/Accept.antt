-- ===== src/Newsim/Server/Accept.antt =====
-- newsim/module.go: what becomes of the transactions that a server accepts: the counts and the received set.
use rateless_set_reconcile.Base.{
  ℕ, ◌+◌, ◌≡◌, refl, ◌∙◌, ap, Bool, true, false, Option, some, List, [], ◌∷◌, ◌==◌, ==_iff,
  if◌then◌else◌, Bool-cases, inl, inr, All, length, arith,
}
use rateless_set_reconcile.Base.Int.{ℤ}
use rateless_set_reconcile.Riblt.Symbol.{HashedSymbol}
use rateless_set_reconcile.Newsim.Transaction.{Transaction}
use rateless_set_reconcile.Newsim.Server.{
  Algorithm, Latencies, Peer, Server, ServerMetric, get_handler, set_handler, is_received,
  is_excluded, forward_to, forward_transaction, accept, accept_all, count_duplicate, count_new,
  record_tx_latency,
}

All_imp {ℓ} :
    {A : Type 0} (P Q : A → Type ℓ) (xs : List A) → ((x : A) → P x → Q x) → All P xs → All Q xs
All_imp P Q [] f h = tt
All_imp P Q (x ∷ xs) f h = (f x h.0, All_imp P Q xs f h.1)

module _ {A : Type 0} where
  -- Whether a module has a handler.
  abbrev pub has_handler : List (ℕ × Peer A) → ℕ → Bool
  has_handler [] m = false
  has_handler ((k, h) ∷ handlers) m = if k == m then true else has_handler handlers m

  get_handler-has_handler :
      (handlers : List (ℕ × Peer A)) (m : ℕ)
      → has_handler handlers m ≡ true
      → (h : Peer A) × (get_handler handlers m ≡ some h)
  unfolding get_handler
  get_handler-has_handler [] m p = absurd (ground arith)
  get_handler-has_handler ((k, h) ∷ handlers) m p = elim (Bool-cases (k == m)) [
    | inl here ↦ (h, rw here)
    | inr there ↦
        let (g, found) = get_handler-has_handler handlers m (rw there at p) in (g, rw there found)
  ]

  has_handler-set_handler :
      (handlers : List (ℕ × Peer A)) (m : ℕ) (new : Peer A) (p : ℕ)
      → has_handler (set_handler handlers m new) p ≡ has_handler handlers p
  unfolding set_handler
  has_handler-set_handler [] m new p = refl
  has_handler-set_handler ((k, h) ∷ handlers) m new p = elim (Bool-cases (k == m)) [
    | inl here ↦ rw here refl
    | inr there ↦ rw (there, has_handler-set_handler handlers m new p) refl
  ]

-- No number stands twice.
abbrev pub IsDistinct : List ℕ → Type 0
IsDistinct [] = Unit
IsDistinct (i ∷ is) = (is_received is i ≡ false) × IsDistinct is

module _ {A K : Type 0} where
  -- Every peer has a handler, and no received transaction is listed twice.
  pub record IsValid (s : Server A K) : Type 0 where
    pub wired : All (λ p. has_handler s.handlers p ≡ true) s.peers
    pub distinct : IsDistinct s.received

  -- Only the handlers' states differ.
  record IsForwarded (s s' : Server A K) : Type 0 where
    peers : s'.peers ≡ s.peers
    received : s'.received ≡ s.received
    metric : s'.metric ≡ s.metric
    handlers : (p : ℕ) → has_handler s'.handlers p ≡ has_handler s.handlers p

  -- `s'` is the server after the transactions `txs` were decoded.
  pub record IsAccepted (s : Server A K) (txs : List (HashedSymbol Transaction)) (s' : Server A K)
      : Type 0 where
    pub valid : IsValid s'
    pub handled :
        s'.metric.decoded_transactions + s'.metric.duplicate_transactions
        ≡ s.metric.decoded_transactions + s.metric.duplicate_transactions + length txs
    pub counted :
        s'.metric.received_transactions + s.metric.decoded_transactions
        ≡ s.metric.received_transactions + s'.metric.decoded_transactions
    pub listed :
        length s'.received + s.metric.decoded_transactions
        ≡ length s.received + s'.metric.decoded_transactions
    pub known : All (λ tx. is_received s'.received tx.symbol.idx ≡ true) txs
    pub kept : (i : ℕ) → is_received s.received i ≡ true → is_received s'.received i ≡ true

-- The algorithm's `forwardTransaction` returns.
abbrev pub Forwards : {A : Type 0} → Algorithm A → Type 0
Forwards {A} a =
    (state : A) (tx : HashedSymbol Transaction) → (state' : A) × (a.forward state tx ≡ some state')

is_received-head : (i : ℕ) (is : List ℕ) → is_received (i ∷ is) i ≡ true
unfolding is_received
is_received-head i is = rw ((==_iff i i).1 refl) refl

is_received-tail :
    (j : ℕ) (is : List ℕ) (i : ℕ) → is_received is i ≡ true → is_received (j ∷ is) i ≡ true
unfolding is_received
is_received-tail j is i h = elim (Bool-cases (j == i)) [ inl e ↦ rw e refl | inr e ↦ rw e h ]

module _ {A K : Type 0} (s : Server A K) (tx : HashedSymbol Transaction) (v : IsValid s) where
  count_duplicate-IsAccepted :
      is_received s.received tx.symbol.idx ≡ true → IsAccepted s (tx ∷ []) (count_duplicate s)
  count_duplicate-IsAccepted old = record {
    valid = record { wired = v.wired; distinct = v.distinct };
    handled = omega arith;
    counted = omega arith;
    listed = omega arith;
    known = (old, tt);
    kept = λ i h. h;
  }

  count_new-IsAccepted :
      (s' : Server A K)
      → IsForwarded s s'
      → is_received s.received tx.symbol.idx ≡ false
      → IsAccepted s (tx ∷ []) (count_new s' tx)
  count_new-IsAccepted s' f new =
      let decoded = ap (λ (m : ServerMetric). m.decoded_transactions) f.metric in
      let received = ap (λ (m : ServerMetric). m.received_transactions) f.metric in
      let duplicate = ap (λ (m : ServerMetric). m.duplicate_transactions) f.metric in
      let count = ap (λ (is : List ℕ). length is) f.received in
      record {
        valid = record {
          wired = rw f.peers (All_imp _ _ s.peers (λ p e. f.handlers p ∙ e) v.wired);
          distinct = rw f.received (new, v.distinct);
        };
        handled = omega arith;
        counted = omega arith;
        listed = omega arith;
        known = (is_received-head tx.symbol.idx s'.received, tt);
        kept = λ i h. is_received-tail tx.symbol.idx s'.received i (rw f.received h);
      }

-- What two steps accept, one after the other.
IsAccepted-trans :
    {A K : Type 0} {s t u : Server A K} (tx : HashedSymbol Transaction)
    (txs : List (HashedSymbol Transaction))
    → IsAccepted s (tx ∷ []) t
    → IsAccepted t txs u
    → IsAccepted s (tx ∷ txs) u
IsAccepted-trans tx txs p q = record {
  valid = q.valid;
  handled = omega (arith, p.handled, q.handled);
  counted = omega (arith, p.counted, q.counted);
  listed = omega (arith, p.listed, q.listed);
  known = (q.kept tx.symbol.idx p.known.0, q.known);
  kept = λ i h. q.kept i (p.kept i h);
}

module _ {A : Type 0} ⦃a : Algorithm A⦄ (forwards : Forwards a) where
  forward_if :
      (b : Bool) (h : A) (tx : HashedSymbol Transaction)
      → (h' : A) × ((if b then some h else a.forward h tx) ≡ some h')
  forward_if true h tx = (h, refl)
  forward_if false h tx = forwards h tx

module _ {A K : Type 0} ⦃a : Algorithm A⦄ (forwards : Forwards a) where
  forward_to-IsForwarded :
      (peers : List ℕ) (s : Server A K) (tx : HashedSymbol Transaction) (exclude : Option ℕ)
      → All (λ p. has_handler s.handlers p ≡ true) peers
      → (s' : Server A K) × (forward_to peers s tx exclude ≡ some s') × IsForwarded s s'
  unfolding forward_to
  forward_to-IsForwarded [] s tx exclude wired =
      (s, refl, record { peers = refl; received = refl; metric = refl; handlers = λ p. refl })
  forward_to-IsForwarded (p ∷ peers) s tx exclude wired =
      let (h, found) = get_handler-has_handler s.handlers p wired.0 in
      let (state, went) = forward_if forwards (is_excluded exclude p) h.algorithm tx in
      let new : Peer A = record h { algorithm = state } in
      let s₁ : Server A K = record s { handlers = set_handler s.handlers p new } in
      let same = has_handler-set_handler s.handlers p new in
      let (s', ran, f) =
        forward_to-IsForwarded peers s₁ tx exclude
          (All_imp _ _ peers (λ q e. same q ∙ e) wired.1) in
      (
        s',
        rw (found, went) ran,
        record {
          peers = f.peers;
          received = f.received;
          metric = f.metric;
          handlers = λ q. f.handlers q ∙ same q;
        },
      )

  module _ ⦃l : Latencies K⦄ where
    accept-IsAccepted :
        (s : Server A K) (tx : HashedSymbol Transaction) (from : Option ℕ) (at : ℤ)
        → IsValid s
        → (s' : Server A K) × (accept s tx from at ≡ some s') × IsAccepted s (tx ∷ []) s'
    unfolding accept forward_transaction
    accept-IsAccepted s tx from at v = elim (Bool-cases (is_received s.received tx.symbol.idx)) [
      | inl old ↦ (count_duplicate s, rw old, count_duplicate-IsAccepted s tx v old)
      | inr new ↦
          let s₁ : Server A K = record s {
            latency_sketch = record_tx_latency s.latency_sketch tx.symbol at;
          } in
          let (s', ran, f) = forward_to-IsForwarded s.peers s₁ tx from v.wired in
          let f' : IsForwarded s s' = record {
            peers = f.peers;
            received = f.received;
            metric = f.metric;
            handlers = f.handlers;
          } in
          (count_new s' tx, rw (new, ran), count_new-IsAccepted s tx v s' f' new)
    ]

    -- If the algorithm's forwardTransaction returns, every peer of the server has a handler and no
    -- received transaction is listed twice, then the server accepts all the transactions decoded:
    -- each is counted once, as decoded or as a duplicate, those decoded are the newly listed ones,
    -- all are received afterwards, none that was received is lost, and none is listed twice.
    pub accept_all-IsAccepted :
        (txs : List (HashedSymbol Transaction)) (s : Server A K) (from : Option ℕ) (at : ℤ)
        → IsValid s
        → (s' : Server A K) × (accept_all s txs from at ≡ some s') × IsAccepted s txs s'
    unfolding accept_all
    accept_all-IsAccepted [] s from at v = (
      s,
      refl,
      record {
        valid = v;
        handled = omega arith;
        counted = omega arith;
        listed = omega arith;
        known = tt;
        kept = λ i h. h;
      },
    )
    accept_all-IsAccepted (tx ∷ txs) s from at v =
        let (s₁, ran, done) = accept-IsAccepted s tx from at v in
        let (s', rest, all_done) = accept_all-IsAccepted txs s₁ from at done.valid in
        (s', rw (ran, rest), IsAccepted-trans tx txs done all_done)
