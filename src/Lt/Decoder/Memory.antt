-- ===== src/Lt/Decoder/Memory.antt =====
-- lt/decoder.go: the transactions that the decoder remembers.
use Prim.Native.Nat.{min}
use rateless_set_reconcile.Base.{
  ℕ, ◌+◌, ◌≡◌, refl, sym, ap, ◌∙◌, Bool, true, false, Bool-cases, inl, inr, ◌⊎◌, List, [], ◌∷◌,
  ◌++◌, Option, none, some, ◌&&◌, ◌||◌, length, length-append, ltb, ◌==◌, ==_iff, if◌then◌else◌,
  arith,
}
use rateless_set_reconcile.Base.Table.{Table, find, put, erase, is_some, find-put, find-erase}
use rateless_set_reconcile.Lt.Encoder.{TransactionData, Transaction, SaltedTransaction}
use rateless_set_reconcile.Lt.Decoder.{
  Comparable, Decoder, data_of, forget, free_memory, store_new_transaction,
}

module _ {T : Type 0} ⦃d : TransactionData T⦄ ⦃c : Comparable T⦄ where
  abbrev pub is_received : Table (Transaction T) → ℕ → Bool
  is_received received h = is_some (find received h)

  is_received-if :
      (b : Bool) (received : Table (Transaction T)) (k h : ℕ)
      → is_received (if b then erase received k else received) h ≡ true
      → is_received received h ≡ true
  is_received-if true received k h e = elim (Bool-cases (k == h)) [
    | inl same ↦ absurd (let gone = find-erase received k h in ground arith)
    | inr other ↦
        (let kept : find (erase received k) h ≡ find received h =
            find-erase received k h ∙ rw other refl in
          ap is_some (sym kept) ∙ e)
  ]
  is_received-if false received k h e = e

  is_received-free_memory :
      (memory : ℕ) (xs : List (SaltedTransaction T)) (received : Table (Transaction T)) (h : ℕ)
      → is_received (free_memory memory xs received).1 h ≡ true
      → is_received received h ≡ true
  unfolding free_memory
  is_received-free_memory memory [] received h e = e
  is_received-free_memory memory (x ∷ xs) received h e =
      elim (Bool-cases (ltb memory (length (x ∷ xs)))) [
        | inl long ↦
            is_received-if _ received x.salted_hash h
              (is_received-free_memory memory xs (forget x received) h (rw long at e))
        | inr fits ↦ rw fits at e
      ]

  -- Whether the map's entry `o` under the hash `g` is one of the transactions dropped.
  abbrev pub is_dropped : Option (Transaction T) → ℕ → List (SaltedTransaction T) → Bool
  is_dropped o g [] = false
  is_dropped o g (x ∷ xs) =
      (x.salted_hash == g && c.same (data_of o) x.transaction.tx_data) || is_dropped o g xs

  -- What the map holds under `g` once `older` are dropped, where it held `o`.
  abbrev pub after_drop :
      Option (Transaction T) → ℕ → List (SaltedTransaction T) → Option (Transaction T)
  after_drop o g older = if is_dropped o g older then none else o

  after_drop-none : (g : ℕ) (older : List (SaltedTransaction T)) → after_drop none g older ≡ none
  after_drop-none g older = elim (Bool-cases (is_dropped none g older)) [
    | inl gone ↦ rw gone refl
    | inr kept ↦ rw kept refl
  ]

  find-forget :
      (x : SaltedTransaction T) (older : List (SaltedTransaction T))
      (received : Table (Transaction T)) (g : ℕ)
      → after_drop (find (forget x received) g) g older ≡ after_drop (find received g) g (x ∷ older)
  find-forget x older received g =
      let k = x.salted_hash in
      elim (Bool-cases (c.same (data_of (find received k)) x.transaction.tx_data)) [
        | inl equal ↦ elim (Bool-cases (k == g)) [
          | inl here ↦
              let at : k ≡ g = (==_iff k g).0 here in
              let gone : find (erase received k) g ≡ none =
                find-erase received k g ∙ rw here refl in
              let equal' = rw at at equal in
              rw (equal, gone, here, equal') (after_drop-none g older)
          | inr other ↦
              let kept : find (erase received k) g ≡ find received g =
                find-erase received k g ∙ rw other refl in
              rw (equal, kept, other) refl
        ]
        | inr unequal ↦ elim (Bool-cases (k == g)) [
          | inl here ↦
              let at : k ≡ g = (==_iff k g).0 here in
              let unequal' = rw at at unequal in rw (unequal, here, unequal') refl
          | inr other ↦ rw (unequal, other) refl
        ]
      ]

  -- The loop keeps the newest transactions, as many as there is memory for, and drops the others from
  -- the map.
  abbrev IsFreed :
      ℕ
      → List (SaltedTransaction T)
      → Table (Transaction T)
      → List (SaltedTransaction T) × Table (Transaction T)
      → Type 0
  IsFreed memory xs received r =
      (length r.0 ≡ min memory (length xs))
      × (older : List (SaltedTransaction T)) × (xs ≡ older ++ r.0)
      × ((g : ℕ) → find r.1 g ≡ after_drop (find received g) g older)

  free_memory-IsFreed :
      (memory : ℕ) (xs : List (SaltedTransaction T)) (received : Table (Transaction T))
      → IsFreed memory xs received (free_memory memory xs received)
  unfolding free_memory
  free_memory-IsFreed memory [] received = (omega arith, [], refl, λ g. refl)
  free_memory-IsFreed memory (x ∷ xs) received = elim (Bool-cases (ltb memory (length (x ∷ xs)))) [
    | inl long ↦
        let (size, older, split, map_after) = free_memory-IsFreed memory xs (forget x received) in
        rw long (
          ground arith,
          x ∷ older,
          ap (◌∷◌ x) split,
          λ g. map_after g ∙ find-forget x older received g,
        )
    | inr fits ↦ rw fits (ground arith, [], refl, λ g. refl)
  ]

  pub is_received-store :
      (e : Decoder T) (hash : ℕ) (t : Transaction T) (h : ℕ)
      → is_received (store_new_transaction e hash t).received_transactions h ≡ true
      → (hash ≡ h) ⊎ (is_received e.received_transactions h ≡ true)
  unfolding store_new_transaction
  is_received-store e hash t h p =
      let before =
        is_received-free_memory e.memory
          (e.recent_transactions ++ record { salted_hash = hash; transaction = t } ∷ [])
          (put e.received_transactions hash t) h p in
      elim (Bool-cases (hash == h)) [
        | inl same ↦ inl ((==_iff hash h).0 same)
        | inr other ↦
            let old : find (put e.received_transactions hash t) h ≡ find e.received_transactions h =
              find-put e.received_transactions hash h t ∙ rw other refl in
            inr (ap is_some (sym old) ∙ before)
      ]

  -- storeNewTransaction remembers the newest transactions, the new one included, as many as the
  -- decoder's memory allows: what it drops is the oldest part, and the length is the memory or
  -- less. The map of received transactions, which has the new one under its hash, loses the entry
  -- of a hash exactly if one of those dropped has that hash and the same data, and is otherwise as
  -- it was.
  pub store_new_transaction-newest :
      (e : Decoder T) (hash : ℕ) (t : Transaction T)
      → let e' = store_new_transaction e hash t in
        (length e'.recent_transactions ≡ min e.memory (length e.recent_transactions + 1))
        × (older : List (SaltedTransaction T)) × (e.recent_transactions
              ++ record { salted_hash = hash; transaction = t } ∷ []
            ≡ older ++ e'.recent_transactions)
        × ((g : ℕ)
            → find e'.received_transactions g
              ≡ after_drop (if hash == g then some t else find e.received_transactions g) g older)
  unfolding store_new_transaction
  store_new_transaction-newest e hash t =
      let x : SaltedTransaction T = record { salted_hash = hash; transaction = t } in
      let (size, older, split, map_after) =
        free_memory-IsFreed e.memory (e.recent_transactions ++ x ∷ [])
          (put e.received_transactions hash t) in
      let longer = length-append e.recent_transactions (x ∷ []) in
      let start = λ (g : ℕ). find-put e.received_transactions hash g t in
      (
        omega arith,
        older,
        split,
        λ g. map_after g ∙ ap (λ (o : Option (Transaction T)). after_drop o g older) (start g),
      )
