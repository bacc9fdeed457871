-- ===== src/Simulator/Server/Register.antt =====
-- simulator/module.go: a transaction is registered once, and a second time is a panic.
use rateless_set_reconcile.Base.{
  ◌≡◌, refl, ◌∙◌, ◌⊎◌, false, ◌||◌, Bool-cases, inl, inr, List, [], ◌∷◌, map, arith,
}
use rateless_set_reconcile.Base.Int.{ℤ}
use rateless_set_reconcile.Base.Outcome.{Outcome, ok, panic}
use rateless_set_reconcile.Simulator.Transaction.{
  Transaction, Hashed, same_transaction, Sketches, record_tx_latency,
}
use rateless_set_reconcile.Simulator.Server.{Server, is_registered, register_received}
use rateless_set_reconcile.Simulator.Server.Handle.{register_decoded}

abbrev pub data_of : List Hashed → List Transaction
data_of = map (λ (tx : Hashed). tx.tx_data)

-- None of the transactions is registered, and no two of them are the same.
abbrev pub IsNew : List Transaction → List Hashed → Type 0
IsNew received [] = Unit
IsNew received (tx ∷ txs) =
    (is_registered received tx.tx_data ≡ false)
    × (is_registered (data_of txs) tx.tx_data ≡ false)
    × IsNew received txs

same_transaction_comm : (x y : Transaction) → same_transaction x y ≡ same_transaction y x
same_transaction_comm x y = ground arith

-- One more transaction that is registered.
IsNew-cons :
    (txs : List Hashed) (received : List Transaction) (t : Transaction)
    → IsNew received txs
    → is_registered (data_of txs) t ≡ false
    → IsNew (t ∷ received) txs
unfolding is_registered
IsNew-cons [] received t v other = tt
IsNew-cons (tx ∷ txs) received t v other =
    let swap = same_transaction_comm tx.tx_data t in
    (ground (arith, v.0), v.1, IsNew-cons txs received t v.2 (ground arith))

IsNew-uncons :
    (txs : List Hashed) (received : List Transaction) (t : Transaction)
    → IsNew (t ∷ received) txs
    → IsNew received txs × (is_registered (data_of txs) t ≡ false)
unfolding is_registered
IsNew-uncons [] received t v = (tt, refl)
IsNew-uncons (tx ∷ txs) received t v =
    let swap = same_transaction_comm tx.tx_data t in
    let (rest, other) = IsNew-uncons txs received t v.2 in
    ((ground (arith, v.0), v.1, rest), ground (arith, v.0))

module _ {F R D K : Type 0} ⦃k : Sketches K⦄ where
  -- What registering gives: all are new and registered, or one is not and the server panics.
  abbrev Registers : Server F R D K → List Hashed → Outcome (Server F R D K) → Type 0
  Registers s txs o =
      ((s' : Server F R D K) × (o ≡ ok s')
        × IsNew s.received txs
        × ((t : Transaction)
            → is_registered s'.received t
              ≡ (is_registered (data_of txs) t || is_registered s.received t)))
      ⊎ ((o ≡ panic) × ¬ IsNew s.received txs)

  register-step :
      (at : ℤ) (s s' : Server F R D K) (tx : Hashed) (txs : List Hashed)
      → is_registered s.received tx.tx_data ≡ false
      → s'.received ≡ tx.tx_data ∷ s.received
      → register_decoded at s (tx ∷ txs) ≡ register_decoded at s' txs
      → Registers s' txs (register_decoded at s' txs)
      → Registers s (tx ∷ txs) (register_decoded at s (tx ∷ txs))
  unfolding is_registered
  register-step at s s' tx txs new more same (inl (s'', ran, v, all)) =
      let (rest, other) = IsNew-uncons txs s.received tx.tx_data (rw more at v) in
      inl (s'', same ∙ ran, (new, other, rest), λ t. all t ∙ rw more (ground arith))
  register-step at s s' tx txs new more same (inr (ran, old)) =
      inr (same ∙ ran, λ v. old (rw more (IsNew-cons txs s.received tx.tx_data v.2 v.1)))

  -- When a codeword has given transactions, the server panics exactly if one of them was
  -- registered before or two of them are the same; otherwise all are registered, and nothing else
  -- is.
  pub register_decoded-result :
      (at : ℤ) (txs : List Hashed) (s : Server F R D K)
      → ((s' : Server F R D K) × (register_decoded at s txs ≡ ok s')
          × IsNew s.received txs
          × ((t : Transaction)
              → is_registered s'.received t
                ≡ (is_registered (data_of txs) t || is_registered s.received t)))
        ⊎ ((register_decoded at s txs ≡ panic) × ¬ IsNew s.received txs)
  unfolding register_decoded register_received is_registered
  register_decoded-result at [] s = inl (s, refl, tt, λ t. refl)
  register_decoded-result at (tx ∷ txs) s =
      elim (Bool-cases (is_registered s.received tx.tx_data)) [
        | inl old ↦ inr (rw old refl, λ v. absurd (let no = v.0 in ground arith))
        | inr new ↦
            let s' : Server F R D K = record s {
              received = tx.tx_data ∷ s.received;
              latency_sketch = record_tx_latency s.latency_sketch tx.tx_data at;
            } in
            register-step at s s' tx txs new refl (rw new refl) (register_decoded-result at txs s')
      ]
