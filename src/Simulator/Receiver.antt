-- ===== src/Simulator/Receiver.antt =====
-- simulator/node.go: the receiver. The decoder is the server's, which its receivers share by pointer.
pub mod Acknowledge
use rateless_set_reconcile.Base.{
  ℕ, zero, suc, ◌+◌, Bool, true, false, not, ◌&&◌, List, [], ◌∷◌, ◌++◌, length, if◌then◌else◌,
}
use rateless_set_reconcile.Base.Int.{ℤ, pos, ltb_ℤ}
use rateless_set_reconcile.Base.Outcome.{Outcome, ok, ◌>>=◌}
use rateless_set_reconcile.Lt.Encoder.{Hasher}
use rateless_set_reconcile.Lt.Links.{Links}
use rateless_set_reconcile.Lt.Decoder.{Decoder, add_codeword}
use rateless_set_reconcile.Simulator.Transaction.{
  Transaction, Hashed, transaction_data, transaction_comparable,
}
use rateless_set_reconcile.Simulator.Message.{Codeword, Message, ack}
use rateless_set_reconcile.Simulator.Sender.{Floats}

pub record Receiver (F : Type 0) : Type 0 where
  pub cur_codewords : List ℕ
  pub current_block_received : Bool
  pub outbox : List Message
  pub detect_threshold : ℤ
  pub target_codeword_loss : F

-- The loop that counts the codewords that are not decoded.
unfoldable pub count_not_decoded : Links Transaction → List ℕ → ℕ
count_not_decoded l [] = 0
count_not_decoded l (c ∷ cs) =
    let rest = count_not_decoded l cs in if (l.codewords c).decoded then rest else suc rest

module _ {F : Type 0} where
  abbrev pub begin_block : Receiver F → Bool → Receiver F
  begin_block n new_block =
      if new_block then record n { cur_codewords = []; current_block_received = false } else n

  unfoldable pub acknowledge : ⦃f : Floats F⦄ → Receiver F → Links Transaction → Receiver F
  unfolding count_not_decoded
  acknowledge ⦃f⦄ n l =
      let limit =
        f.truncated (f.times (f.of_int (pos (length n.cur_codewords))) n.target_codeword_loss) in
      let block_received =
        not n.current_block_received
        && ltb_ℤ n.detect_threshold (pos (length n.cur_codewords))
        && not (ltb_ℤ limit (pos (count_not_decoded l n.cur_codewords))) in
      if block_received
      then record n { current_block_received = true; outbox = n.outbox ++ ack true ∷ [] }
      else record n { outbox = n.outbox ++ ack false ∷ [] }

  unfoldable pub on_codeword :
      ⦃f : Floats F⦄ ⦃h : Hasher⦄
      → ℕ
      → Receiver F
      → Decoder Transaction
      → Codeword
      → Outcome (Receiver F × Decoder Transaction × List Hashed)
  unfolding acknowledge add_codeword
  on_codeword fuel n e cw =
      let n₁ = begin_block n cw.new_block in
      let stub = e.links.next_codeword in
      add_codeword fuel e cw.raw >>= λ r. ok (
        acknowledge (record n₁ { cur_codewords = n₁.cur_codewords ++ stub ∷ [] }) r.0.links,
        r.0,
        r.1,
      )
