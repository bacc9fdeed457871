-- ===== src/Simulator/Sender.antt =====
-- simulator/node.go: the sender, its blocks and its window.
-- Go's `float64` and the soliton distribution are parameters. The random source, which the senders of a
-- server share, is part of the encoder's state here.
pub mod Block
pub mod Encoding
pub mod Fill
use rateless_set_reconcile.Base.{
  ℕ, zero, suc, Bool, true, false, not, ◌&&◌, Option, none, some, List, [], ◌∷◌, ◌++◌, length,
  if◌then◌else◌, ◌>>=◌,
}
use rateless_set_reconcile.Base.Int.{ℤ, pos, ◌+ℤ◌, ◌-ℤ◌, ltb_ℤ}
use rateless_set_reconcile.Base.Outcome.{Outcome, ok, running, and_then}
use rateless_set_reconcile.Lt.Encoder
use rateless_set_reconcile.Lt.Encoder.{
  Encoder, Hasher, Rng, DegreeDistribution, reset, produce_codeword,
}
use rateless_set_reconcile.Simulator.Transaction.{Transaction, Hashed, transaction_data}
use rateless_set_reconcile.Simulator.Message.{Codeword, Message, codeword}

-- The operations of `float64` that the program uses; `int(x)` is `truncated x`.
pub record Floats (F : Type 0) : Type 0 where
  pub of_int : ℤ → F
  pub divided : F → F → F
  pub times : F → F → F
  pub truncated : F → ℤ

-- `soliton.NewRobustSoliton` for a block size, with the constants 0.03 and 0.5, and the nil distribution.
pub record Soliton (D : Type 0) : Type 0 where
  pub nil_dist : D
  pub robust_soliton : ℕ → D

pub record Sender (F R D : Type 0) : Type 0 where
  pub buffer : List Hashed
  pub current_block : List Hashed
  pub encoder : Encoder Transaction R D
  pub send_window : ℤ
  pub in_flight : ℤ
  pub encoding_current_block : Bool
  pub outbox : List Message
  pub control_overhead : F
  pub detect_threshold : ℤ

abbrev pub when_some : {A B : Type 0} → Option A → B → (A → B) → B
when_some none b g = b
when_some (some a) b g = g a

module _ {R D : Type 0} ⦃h : Hasher⦄ where
  -- The loop that moves the buffer into the block, whose duplicates the encoder refuses.
  unfoldable pub move_block :
      List Hashed → Encoder Transaction R D → List Hashed → Encoder Transaction R D × List Hashed
  move_block [] e block = (e, block)
  move_block (t ∷ ts) e block =
      let added = Encoder.add_transaction e t in
      move_block ts added.1 (if added.0 then block ++ t ∷ [] else block)

module _ {F R D : Type 0} ⦃f : Floats F⦄ where
  abbrev pub min_block_size : Sender F R D → ℤ
  min_block_size n = f.truncated (f.divided (f.of_int n.detect_threshold) n.control_overhead)

module _ {F R D : Type 0} ⦃f : Floats F⦄ ⦃s : Soliton D⦄ ⦃h : Hasher⦄ where
  unfoldable pub start_block : Sender F R D → Sender F R D
  unfolding move_block
  start_block n =
      let size = length n.buffer in
      let moved = move_block n.buffer (reset n.encoder (s.robust_soliton size) size) [] in
      record n {
        send_window = f.truncated (f.times (f.of_int (pos size)) n.control_overhead);
        encoding_current_block = true;
        encoder = moved.0;
        current_block = moved.1;
        buffer = [];
      }

module _ {F R D : Type 0} ⦃r : Rng R⦄ ⦃dist : DegreeDistribution D⦄ where
  unfoldable pub produce : Sender F R D → Bool → Option (Option Codeword × Sender F R D)
  produce n new_block = do
    (raw, encoder) ← produce_codeword n.encoder
    some (some (record { raw = raw; new_block = new_block }), record n { encoder = encoder })

module _ {F R D : Type 0} where
  unfoldable pub send : Sender F R D → Codeword → Sender F R D
  unfolding ◌+ℤ◌
  send n cw = record n { outbox = n.outbox ++ codeword cw ∷ []; in_flight = n.in_flight +ℤ pos 1 }

module _ {F R D : Type 0} ⦃f : Floats F⦄ ⦃s : Soliton D⦄ ⦃h : Hasher⦄ ⦃r : Rng R⦄
    ⦃dist : DegreeDistribution D⦄ where
  -- The outer `none` is a panic of the encoder, the inner one a codeword that is not to be sent.
  unfoldable pub try_produce_codeword :
      Sender F R D → Bool → Option (Option Codeword × Sender F R D)
  unfolding start_block produce
  try_produce_codeword n may_start =
      if not n.encoding_current_block && may_start
      then (if not (ltb_ℤ (pos (length n.buffer)) (min_block_size n))
          then produce (start_block n) true
          else some (none, n))
      else if not n.encoding_current_block && not may_start
      then some (none, n)
      else produce n false

  unfoldable pub try_fill_send_window : ℕ → Sender F R D → Bool → Outcome (Sender F R D)
  unfolding try_produce_codeword send
  try_fill_send_window zero n may_start = running
  try_fill_send_window (suc fuel) n may_start =
      let sent =
        and_then (try_produce_codeword n may_start)
          (λ p. when_some p.0 (ok p.1) (λ cw. try_fill_send_window fuel (send p.1 cw) may_start)) in
      if ltb_ℤ n.in_flight n.send_window then sent else ok n

  unfoldable pub on_ack : ℕ → Sender F R D → Bool → Bool → Outcome (Sender F R D)
  unfolding try_fill_send_window ◌-ℤ◌
  on_ack fuel n ack_block may_start =
      let n₁ = record n { in_flight = n.in_flight -ℤ pos 1 } in
      let n₂ = if ack_block then record n₁ { encoding_current_block = false } else n₁ in
      try_fill_send_window fuel n₂ may_start

  unfoldable pub on_transaction : ℕ → Sender F R D → Hashed → Bool → Outcome (Sender F R D)
  unfolding try_fill_send_window
  on_transaction fuel n t may_start =
      try_fill_send_window fuel (record n { buffer = n.buffer ++ t ∷ [] }) may_start
