-- ===== src/Simulator/Receiver/Acknowledge.antt =====
-- simulator/node.go: the receiver answers each codeword with one acknowledgement.
use rateless_set_reconcile.Base.{
  ℕ, ◌+◌, ◌-◌, ◌≤◌, ◌<◌, ◌≡◌, refl, ◌∙◌, Bool, true, false, not, ◌&&◌, List, [], ◌∷◌, ◌++◌, length,
  if◌then◌else◌, arith,
}
use rateless_set_reconcile.Base.Int.{ℤ, pos, ltb_ℤ}
use rateless_set_reconcile.Base.Outcome.{ok}
use rateless_set_reconcile.Lt.Encoder.{Hasher}
use rateless_set_reconcile.Lt.Links.{Links}
use rateless_set_reconcile.Lt.Decoder.{Decoder}
use rateless_set_reconcile.Lt.Decoder.Adding.{IsDecoder}
use rateless_set_reconcile.Lt.Decoder.Accept.{add_codeword-IsDecoder}
use rateless_set_reconcile.Simulator.Transaction.{
  Transaction, Hashed, transaction_data, transaction_comparable,
}
use rateless_set_reconcile.Simulator.Message.{Codeword, ack}
use rateless_set_reconcile.Simulator.Sender.{Floats}
use rateless_set_reconcile.Simulator.Receiver.{
  Receiver, count_not_decoded, begin_block, acknowledge, on_codeword,
}

-- Those of the codewords that the decoder has decoded.
abbrev pub decoded_of : Links Transaction → List ℕ → List ℕ
decoded_of l [] = []
decoded_of l (c ∷ cs) = if (l.codewords c).decoded then c ∷ decoded_of l cs else decoded_of l cs

-- The codewords that are not decoded: all of them less those that are.
abbrev pub lost : Links Transaction → List ℕ → ℕ
lost l cs = length cs - length (decoded_of l cs)

decoded_of-shorter : (l : Links Transaction) (cs : List ℕ) → length (decoded_of l cs) ≤ length cs
decoded_of-shorter l [] = omega arith
decoded_of-shorter l (c ∷ cs) = ground (arith, decoded_of-shorter l cs)

count_not_decoded-lost : (l : Links Transaction) (cs : List ℕ) → count_not_decoded l cs ≡ lost l cs
unfolding count_not_decoded
count_not_decoded-lost l [] = omega arith
count_not_decoded-lost l (c ∷ cs) =
    ground (arith, count_not_decoded-lost l cs, decoded_of-shorter l cs)

-- The codewords of a block that goes on or begins, before the new one.
abbrev pub of_block : Bool → List ℕ → List ℕ
of_block true old = []
of_block false old = old

module _ {F : Type 0} ⦃f : Floats F⦄ where
  -- The codewords that may be lost of those received in the block.
  abbrev pub loss_limit : Receiver F → List ℕ → ℤ
  loss_limit n cs = f.truncated (f.times (f.of_int (pos (length cs))) n.target_codeword_loss)

  -- One acknowledgement is sent by a receiver that has the codewords `cs` of the block; it is one of the
  -- block exactly when the block was not received before, more codewords than the threshold have come,
  -- and no more than the limit are not decoded.
  pub record IsAcknowledged (n : Receiver F) (l : Links Transaction) (block received : Bool)
      (cs : List ℕ) (n' : Receiver F) : Type 0 where
    pub answered : n'.outbox ≡ n.outbox ++ ack block ∷ []
    pub codewords : n'.cur_codewords ≡ cs
    pub block_received :
        block ≡ true
        → (n'.current_block_received ≡ true)
          × (received ≡ false)
          × (ltb_ℤ n.detect_threshold (pos (length cs)) ≡ true)
          × (ltb_ℤ (loss_limit n cs) (pos (lost l cs)) ≡ false)
    pub block_open :
        block ≡ false
        → (n'.current_block_received ≡ received)
          × (received ≡ false
              → ltb_ℤ n.detect_threshold (pos (length cs)) ≡ true
              → ltb_ℤ (loss_limit n cs) (pos (lost l cs)) ≡ true)

  acknowledge_if : Receiver F → Bool → Receiver F
  acknowledge_if n b =
      if b
      then record n { current_block_received = true; outbox = n.outbox ++ ack true ∷ [] }
      else record n { outbox = n.outbox ++ ack false ∷ [] }

  acknowledge_if-IsAcknowledged :
      (b a t m : Bool) (n : Receiver F) (l : Links Transaction)
      → n.current_block_received ≡ a
      → ltb_ℤ n.detect_threshold (pos (length n.cur_codewords)) ≡ t
      → ltb_ℤ (loss_limit n n.cur_codewords) (pos (lost l n.cur_codewords)) ≡ m
      → b ≡ (not a && t && not m)
      → IsAcknowledged n l b n.current_block_received n.cur_codewords (acknowledge_if n b)
  unfolding acknowledge_if
  acknowledge_if-IsAcknowledged true a t m n l ea et em e = record {
    answered = refl;
    codewords = refl;
    block_received = λ yes. (refl, ea ∙ ground arith, et ∙ ground arith, em ∙ ground arith);
    block_open = λ no. absurd (ground arith);
  }
  acknowledge_if-IsAcknowledged false a t m n l ea et em e = record {
    answered = refl;
    codewords = refl;
    block_received = λ no. absurd (ground arith);
    block_open = λ no. (refl, λ p q. ground arith);
  }

  pub acknowledge-IsAcknowledged :
      (n : Receiver F) (l : Links Transaction)
      → (block : Bool) × IsAcknowledged n l block n.current_block_received n.cur_codewords
          (acknowledge n l)
  unfolding acknowledge acknowledge_if
  acknowledge-IsAcknowledged n l =
      let t = ltb_ℤ n.detect_threshold (pos (length n.cur_codewords)) in
      let m = ltb_ℤ (loss_limit n n.cur_codewords) (pos (lost l n.cur_codewords)) in
      let b = not n.current_block_received && t && not m in
      rw (count_not_decoded-lost l n.cur_codewords)
        (b, acknowledge_if-IsAcknowledged b n.current_block_received t m n l refl refl refl refl)

  begun-IsAcknowledged :
      (n : Receiver F) (l : Links Transaction) (b : Bool) (stub : ℕ)
      → (n' : Receiver F) × (block : Bool) × (acknowledge
            (record (begin_block n b) {
              cur_codewords = (begin_block n b).cur_codewords ++ stub ∷ [];
            })
            l
          ≡ n')
        × IsAcknowledged n l block
            (not b && n.current_block_received)
            (of_block b n.cur_codewords ++ stub ∷ [])
            n'
  begun-IsAcknowledged n l true stub =
      let received : Receiver F = record n {
        cur_codewords = stub ∷ [];
        current_block_received = false;
      } in
      let (block, a) = acknowledge-IsAcknowledged received l in
      (
        acknowledge received l,
        block,
        refl,
        record {
          answered = a.answered;
          codewords = a.codewords;
          block_received = a.block_received;
          block_open = a.block_open;
        },
      )
  begun-IsAcknowledged n l false stub =
      let received : Receiver F = record n { cur_codewords = n.cur_codewords ++ stub ∷ [] } in
      let (block, a) = acknowledge-IsAcknowledged received l in
      (
        acknowledge received l,
        block,
        refl,
        record {
          answered = a.answered;
          codewords = a.codewords;
          block_received = a.block_received;
          block_open = a.block_open;
        },
      )

  -- onCodeword of the simulator's receiver returns and keeps the decoder's invariant, if the
  -- invariant holds and the fuel is above the number of codewords that the decoder has received by
  -- at least three; the codeword is added to those of its block, of which there are none before it
  -- if it is the first; one acknowledgement is sent, which acknowledges the block exactly when it
  -- was not received before, more codewords than the threshold have come, and no more than the
  -- allowed number of them are not decoded; the block is then marked as received, and otherwise
  -- stays as it was, a new one not received.
  pub on_codeword-IsAcknowledged :
      ⦃h : Hasher⦄ (fuel : ℕ) (n : Receiver F) (e : Decoder Transaction) (cw : Codeword)
      → IsDecoder e
      → e.links.next_codeword + 2 < fuel
      → (n' : Receiver F) × (e' : Decoder Transaction) × (txs : List Hashed) × (block : Bool)
        × (on_codeword fuel n e cw ≡ ok (n', e', txs))
        × IsDecoder e'
        × IsAcknowledged n e'.links block
            (not cw.new_block && n.current_block_received)
            (of_block cw.new_block n.cur_codewords ++ e.links.next_codeword ∷ [])
            n'
  unfolding on_codeword
  on_codeword-IsAcknowledged fuel n e cw v enough =
      let (e', txs, ran, v', count) = add_codeword-IsDecoder fuel e cw.raw v enough in
      let (n', block, same, a) =
        begun-IsAcknowledged n e'.links cw.new_block e.links.next_codeword in
      (n', e', txs, block, rw ran (λ i. ok (same i, e', txs)), v', a)
