-- ===== src/Simulator/Sender/Block.antt =====
-- simulator/node.go: starting a block leaves the encoder with transactions to encode.
use rateless_set_reconcile.Base.{
  ℕ, ◌<◌, ◌≡◌, refl, sym, ap, subst, Bool, true, false, inl, inr, some, List, [], ◌∷◌, ◌++◌, length,
  lt→leb, if◌then◌else◌, arith,
}
use rateless_set_reconcile.Base.Word.{i63}
use rateless_set_reconcile.Lt.Encoder
use rateless_set_reconcile.Lt.Encoder.{
  Encoder, Hasher, Rng, DegreeDistribution, Codeword, reset, produce_codeword, contains, salted,
}
use rateless_set_reconcile.Lt.Encoder.Window.{IsWindow, add_transaction-IsAdded}
use rateless_set_reconcile.Lt.Encoder.Shuffle.{produce_codeword_of_degree-window}
use rateless_set_reconcile.Simulator.Transaction.{Transaction, Hashed, transaction_data}
use rateless_set_reconcile.Simulator.Sender.{Floats, Soliton, Sender, move_block, start_block}

-- The degrees that are drawn are positive `int`s, as those of a soliton distribution are.
pub record IsPositive {D : Type 0} (dist : DegreeDistribution D) : Type 0 where
  pub positive : (x : D) → 0 < (dist.uint64 x).0
  pub fits : (x : D) → (dist.uint64 x).0 < i63

module _ {R D : Type 0} ⦃h : Hasher⦄ where
  move_block-step :
      (t : Hashed) (ts : List Hashed) (e e' : Encoder Transaction R D) (block : List Hashed)
      (b : Bool)
      → Encoder.add_transaction e t ≡ (b, e')
      → move_block (t ∷ ts) e block ≡ move_block ts e' (if b then block ++ t ∷ [] else block)
  unfolding move_block
  move_block-step t ts e e' block b ran =
      ap
        (λ (p : Bool × Encoder Transaction R D).
          move_block ts p.1 (if p.0 then block ++ t ∷ [] else block))
        ran

  -- What the step leaves is not empty if the rest of the loop leaves it so.
  step-busy :
      (t : Hashed) (ts : List Hashed) (e e' : Encoder Transaction R D) (block : List Hashed)
      (b : Bool)
      → Encoder.add_transaction e t ≡ (b, e')
      → 0 < length (move_block ts e' (if b then block ++ t ∷ [] else block)).0.window
      → 0 < length (move_block (t ∷ ts) e block).0.window
  step-busy t ts e e' block b ran =
      subst (λ (p : Encoder Transaction R D × List Hashed). 0 < length p.0.window)
        (sym (move_block-step t ts e e' block b ran))

  move_block-busy :
      (ts : List Hashed) (e : Encoder Transaction R D) (block : List Hashed)
      → IsWindow e
      → 0 < length e.window
      → 0 < length (move_block ts e block).0.window
  unfolding move_block
  move_block-busy [] e block v some_left = some_left
  move_block-busy (t ∷ ts) e block v some_left = elim (add_transaction-IsAdded e t v) [
    | inl (old, ran) ↦ step-busy t ts e e block false ran (move_block-busy ts e block v some_left)
    | inr (e', new, ran, a) ↦ step-busy t ts e e' block true ran (
        move_block-busy ts e' (block ++ t ∷ []) a.window
          (let size = a.size in let fits = v.bounded in omega arith))
  ]

  reset-IsWindow : (e : Encoder Transaction R D) (dist : D) (ws : ℕ) → IsWindow (reset e dist ws)
  unfolding reset contains
  reset-IsWindow e dist ws = record { hashed = λ x. refl; distinct = tt; bounded = omega arith }

  -- The first transaction of a block is never refused.
  block-busy :
      (ts : List Hashed) (e : Encoder Transaction R D) (dist : D) (block : List Hashed)
      → 0 < length ts
      → 0 < length (move_block ts (reset e dist (length ts)) block).0.window
  unfolding reset contains
  block-busy [] e dist block some_left = absurd (omega arith)
  block-busy (t ∷ ts) e dist block some_left =
      elim (add_transaction-IsAdded (reset e dist (length (t ∷ ts))) t
        (reset-IsWindow e dist (length (t ∷ ts)))) [
          | inl (old, ran) ↦ absurd (ground arith)
          | inr (e', new, ran, a) ↦
              step-busy t ts (reset e dist (length (t ∷ ts))) e' block true ran (
                move_block-busy ts e' (block ++ t ∷ []) a.window (let size = a.size in omega arith))
        ]

module _ {F R D : Type 0} ⦃f : Floats F⦄ ⦃s : Soliton D⦄ ⦃h : Hasher⦄ where
  pub start_block-busy :
      (n : Sender F R D) → 0 < length n.buffer → 0 < length (start_block n).encoder.window
  unfolding start_block
  start_block-busy n some_left =
      block-busy n.buffer n.encoder (s.robust_soliton (length n.buffer)) [] some_left

module _ {R D : Type 0} ⦃r : Rng R⦄ ⦃dist : DegreeDistribution D⦄ where
  -- An encoder with transactions produces, and keeps them.
  pub produce_codeword-busy :
      (e : Encoder Transaction R D)
      → IsPositive dist
      → 0 < length e.window
      → (c : Codeword Transaction) × (e' : Encoder Transaction R D) × (produce_codeword e
          ≡ some (c, e'))
        × (0 < length e'.window)
  unfolding produce_codeword
  produce_codeword-busy e p some_left =
      let draw = dist.uint64 e.degree_dist in
      let (c, e', ran, same, count) =
        produce_codeword_of_degree-window draw.0 (record e { degree_dist = draw.1 })
          (p.positive e.degree_dist) some_left in
      let fits = lt→leb _ _ (p.fits e.degree_dist) in (c, e', rw fits ran, rw same some_left)
