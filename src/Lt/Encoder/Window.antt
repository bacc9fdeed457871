-- ===== src/Lt/Encoder/Window.antt =====
-- lt/encoder.go: the window of transactions and the set of their hashes.
use Prim.Native.Nat.{min}
use rateless_set_reconcile.Base.{
  ℕ, ◌+◌, ◌≤◌, ◌≡◌, refl, sym, ap, ◌∙◌, ◌⊎◌, Bool-cases, inl, inr, true, false, List, [], ◌∷◌, ◌++◌,
  map, length, ltb, ◌==◌, ==_iff, subst, if◌then◌else◌, arith, length-append,
}
use rateless_set_reconcile.Lt.Encoder.{
  Hasher, Transaction, SaltedTransaction, Encoder, contains, delete, evict, salted, add_transaction,
}

contains-delete :
    (ks : List ℕ) (x h : ℕ) → contains (delete ks x) h ≡ (if x == h then false else contains ks h)
unfolding contains delete
contains-delete [] x h = ground arith
contains-delete (k ∷ ks) x h = elim (Bool-cases (k == x)) [
  | inl same ↦ rw same (ground (arith, contains-delete ks x h))
  | inr other ↦ rw other (ground (arith, contains-delete ks x h))
]

-- The salted hashes of the window.
abbrev pub salts : {T : Type 0} → List (SaltedTransaction T) → List ℕ
salts = map (λ x. x.salted_hash)

-- No two transactions of the window have the same salted hash.
abbrev pub IsDistinct : {T : Type 0} → List (SaltedTransaction T) → Type 0
IsDistinct [] = Unit
IsDistinct (x ∷ xs) = (contains (salts xs) x.salted_hash ≡ false) × IsDistinct xs

-- The set holds the hashes of the window, and no others.
abbrev pub IsHashed : {T : Type 0} → List ℕ → List (SaltedTransaction T) → Type 0
IsHashed hashes window = (h : ℕ) → contains hashes h ≡ contains (salts window) h

module _ {T : Type 0} where
  contains-append :
      (xs : List (SaltedTransaction T)) (x : SaltedTransaction T) (h : ℕ)
      → contains (salts (xs ++ x ∷ [])) h
        ≡ (if x.salted_hash == h then true else contains (salts xs) h)
  unfolding contains
  contains-append [] x h = refl
  contains-append (y ∷ xs) x h = ground (arith, contains-append xs x h)

  IsDistinct-append :
      (xs : List (SaltedTransaction T)) (x : SaltedTransaction T)
      → IsDistinct xs
      → contains (salts xs) x.salted_hash ≡ false
      → IsDistinct (xs ++ x ∷ [])
  unfolding contains
  IsDistinct-append [] x d new = (refl, tt)
  IsDistinct-append (y ∷ xs) x d new =
      let first = d.0 in
      (
        ground (arith, contains-append xs x y.salted_hash),
        IsDistinct-append xs x d.1 (ground arith),
      )

  IsHashed-append :
      (hashes : List ℕ) (xs : List (SaltedTransaction T)) (x : SaltedTransaction T)
      → IsHashed hashes xs
      → IsHashed (x.salted_hash ∷ hashes) (xs ++ x ∷ [])
  unfolding contains
  IsHashed-append hashes xs x h k = rw (contains-append xs x k, h k) refl

  IsHashed-delete :
      (hashes : List ℕ) (x : SaltedTransaction T) (xs : List (SaltedTransaction T))
      → IsHashed hashes (x ∷ xs)
      → contains (salts xs) x.salted_hash ≡ false
      → IsHashed (delete hashes x.salted_hash) xs
  unfolding contains
  IsHashed-delete hashes x xs h first k = elim (Bool-cases (x.salted_hash == k)) [
    | inl same ↦
        let at : x.salted_hash ≡ k = (==_iff _ _).0 same in
        rw (contains-delete hashes x.salted_hash k, same)
          (subst (λ a. false ≡ contains (salts xs) a) at (sym first))
    | inr other ↦ rw (contains-delete hashes x.salted_hash k, other) (rw other at (h k))
  ]

  -- The oldest entries were dropped, down to the size.
  record IsEvicted (size : ℕ) (xs : List (SaltedTransaction T))
      (r : List (SaltedTransaction T) × List ℕ) : Type 0 where
    hashed : IsHashed r.1 r.0
    distinct : IsDistinct r.0
    bounded : length r.0 ≡ min size (length xs)
    dropped : List (SaltedTransaction T)
    newest : xs ≡ dropped ++ r.0

  evict-IsEvicted :
      (size : ℕ) (xs : List (SaltedTransaction T)) (hashes : List ℕ)
      → IsHashed hashes xs
      → IsDistinct xs
      → IsEvicted size xs (evict size xs hashes)
  unfolding evict contains
  evict-IsEvicted size [] hashes h d = record {
    hashed = h;
    distinct = tt;
    bounded = omega arith;
    dropped = [];
    newest = refl;
  }
  evict-IsEvicted size (x ∷ xs) hashes h d = elim (Bool-cases (ltb size (length (x ∷ xs)))) [
    | inl long ↦
        let rest =
          evict-IsEvicted size xs (delete hashes x.salted_hash) (IsHashed-delete hashes x xs h d.0)
            d.1 in
        rw long (record {
          hashed = rest.hashed;
          distinct = rest.distinct;
          bounded = ground (arith, rest.bounded);
          dropped = x ∷ rest.dropped;
          newest = ap (◌∷◌ x) rest.newest;
        })
    | inr fits ↦
        rw fits
          (record { hashed = h; distinct = d; bounded = ground arith; dropped = []; newest = refl })
  ]

module _ {T R D : Type 0} where
  -- The window is not too long, its hashes are distinct, and the set holds them and no others.
  pub record IsWindow (e : Encoder T R D) : Type 0 where
    pub hashed : IsHashed e.hashes e.window
    pub distinct : IsDistinct e.window
    pub bounded : length e.window ≤ e.window_size

  -- A new transaction is at the end of the window, which has lost some of its oldest.
  pub record IsAdded (e : Encoder T R D) (x : SaltedTransaction T) (e' : Encoder T R D)
      : Type 0 where
    pub window : IsWindow e'
    pub dropped : List (SaltedTransaction T)
    pub newest : e.window ++ x ∷ [] ≡ dropped ++ e'.window
    pub size : length e'.window ≡ min e.window_size (length e.window + 1)

  -- In a window that is not too long, whose salted hashes are distinct and are the hashes of the
  -- set, AddTransaction refuses exactly a transaction whose salted hash is in the set, and changes
  -- nothing then; another one is put at the end, the window loses its oldest transactions down to
  -- its size, and is such a window again.
  pub add_transaction-IsAdded :
      ⦃h : Hasher⦄ (e : Encoder T R D) (t : Transaction T)
      → IsWindow e
      → ((contains e.hashes (salted t) ≡ true) × (add_transaction e t ≡ (false, e)))
        ⊎ ((e' : Encoder T R D) × (contains e.hashes (salted t) ≡ false)
            × (add_transaction e t ≡ (true, e'))
            × IsAdded e (record { salted_hash = salted t; transaction = t }) e')
  unfolding add_transaction
  add_transaction-IsAdded e t v = elim (Bool-cases (contains e.hashes (salted t))) [
    | inl old ↦ inl (old, rw old refl)
    | inr new ↦
        let x : SaltedTransaction T = record { salted_hash = salted t; transaction = t } in
        let kept = evict e.window_size (e.window ++ x ∷ []) (salted t ∷ e.hashes) in
        let e' : Encoder T R D = record e { window = kept.0; hashes = kept.1 } in
        let gone =
          evict-IsEvicted e.window_size (e.window ++ x ∷ []) (salted t ∷ e.hashes)
            (IsHashed-append e.hashes e.window x v.hashed)
            (IsDistinct-append e.window x v.distinct (sym (v.hashed (salted t)) ∙ new)) in
        let longer = length-append e.window (x ∷ []) in
        inr (
          e',
          new,
          rw new refl,
          record {
            window = record {
              hashed = gone.hashed;
              distinct = gone.distinct;
              bounded = omega (arith, gone.bounded);
            };
            dropped = gone.dropped;
            newest = gone.newest;
            size = omega (arith, gone.bounded);
          },
        )
  ]
