-- ===== src/Newsim/Coding/Sending.antt =====
-- newsim/coding.go: the sender of coded symbols, its window and its blocks.
use rateless_set_reconcile.Base.{
  ℕ, zero, suc, ◌+◌, ◌*◌, ◌/◌, ◌%◌, Bool, true, false, Option, none, some, List, [], ◌∷◌, ◌++◌,
  length, if◌then◌else◌, ◌>>=◌,
}
use rateless_set_reconcile.Base.Array.{get}
use rateless_set_reconcile.Base.Word.{u64}
use rateless_set_reconcile.Base.Int.{ℤ, pos, ◌+ℤ◌, ◌-ℤ◌}
use rateless_set_reconcile.Riblt.Mapping.{Jump}
use rateless_set_reconcile.Riblt.Symbol.{HashedSymbol, empty_coded}
use rateless_set_reconcile.Riblt.Window
use rateless_set_reconcile.Riblt.Window.{CodingWindow, hashed_zero, produce_next_coded_symbol}
use rateless_set_reconcile.Riblt.Decoder.{index_zero}
use rateless_set_reconcile.Newsim.Transaction.{Transaction, SipHash, transaction_symbol}
use rateless_set_reconcile.Newsim.Message.{Message, Codeword, Ack, codeword}
use rateless_set_reconcile.Newsim.Shard.{shard_start, shard_end, in_shard, split_shard}

-- The operations of `float64` that the sender uses.
pub record Floats (F : Type 0) : Type 0 where
  pub of_int : ℤ → F
  pub plus : F → F → F
  pub times : F → F → F
  pub lt : F → F → Bool

pub record Sender (F : Type 0) : Type 0 where
  pub buffer : List (HashedSymbol Transaction)
  pub encoder : CodingWindow Transaction
  pub send_window : F
  pub in_flight : ℤ
  pub encoding_current_block : Bool
  pub current_block_ack_count : ℕ
  pub receiving_current_block : Bool
  pub outbox : List Message
  pub control_overhead : F
  pub shard_schedule : List ℕ
  pub shard_randomizer : ℕ
  pub next_shard : ℕ

-- Whether the symbol falls into the shard with these bounds.
abbrev pub in_block : ℕ → ℕ → ℕ → HashedSymbol Transaction → Bool
in_block randomizer start end v = in_shard start end ((v.hash * randomizer) % u64)

-- `AddHashedSymbol` on the encoder or on the decoder's window, for each symbol moved into the block.
unfoldable pub add_all :
    CodingWindow Transaction → List (HashedSymbol Transaction) → CodingWindow Transaction
add_all e [] = e
add_all e (t ∷ ts) = add_all (Window.add_hashed_symbol e t) ts

abbrev when_some : {A B : Type 0} → Option A → B → (A → B) → B
when_some none b g = b
when_some (some a) b g = g a

module _ {F : Type 0} ⦃f : Floats F⦄ where
  -- `if w < 1 { w = 1 }`
  at_least_one : F → F
  at_least_one w = if f.lt w (f.of_int (pos 1)) then f.of_int (pos 1) else w

  abbrev pub block_start : Sender F → ℕ
  block_start n = shard_start (length n.shard_schedule) (get n.shard_schedule n.next_shard)

  abbrev pub block_end : Sender F → ℕ
  block_end n = shard_end (length n.shard_schedule) (get n.shard_schedule n.next_shard)

module _ {F : Type 0} ⦃f : Floats F⦄ ⦃h : SipHash⦄ where
  -- The next block: the shard's transactions move out of the buffer into the encoder.
  unfoldable pub start_block : Sender F → Sender F
  unfolding at_least_one
  start_block n =
      let split =
        split_shard (in_block n.shard_randomizer (block_start n) (block_end n)) n.buffer in
      record n {
        encoder = add_all (Window.reset n.encoder) split.0;
        buffer = split.1;
        next_shard = (n.next_shard + 1) % length n.shard_schedule;
        encoding_current_block = true;
        send_window =
            at_least_one (f.times (f.of_int (pos n.current_block_ack_count)) n.control_overhead);
        current_block_ack_count = 0;
        in_flight = pos 0;
      }

  -- `codeword{}`, with the fields that the start of a block fills in.
  new_codeword : Sender F → Codeword
  new_codeword n =
      if n.encoding_current_block
      then record { coded = empty_coded; new_block = false; start_hash = 0; end_hash = 0 }
      else record {
        coded = empty_coded;
        new_block = true;
        start_hash = block_start n;
        end_hash = block_end n;
      }

  burst_size : Sender F → ℕ
  burst_size n = if n.encoding_current_block then 0 else n.current_block_ack_count * 2 / 3

module _ {F : Type 0} ⦃f : Floats F⦄ ⦃h : SipHash⦄ ⦃j : Jump⦄ where
  -- The inner `none` is a codeword that is not to be sent.
  try_produce_codeword : ℕ → Sender F → Option (Option (Codeword × ℕ) × Sender F)
  unfolding new_codeword burst_size start_block
  try_produce_codeword fuel n =
      let n₁ = if n.encoding_current_block then n else start_block n in
      if f.lt (f.of_int n₁.in_flight) n₁.send_window
      then (do
        (coded, encoder) ← produce_next_coded_symbol fuel n₁.encoder
        some (
          some (record (new_codeword n) { coded = coded }, burst_size n),
          record n₁ { encoder = encoder },
        ))
      else some (none, n₁)

  send : Sender F → Codeword → Sender F
  send n cw = record n { outbox = n.outbox ++ codeword cw ∷ []; in_flight = n.in_flight +ℤ pos 1 }

  -- The loop that sends the burst.
  send_burst : ℕ → ℕ → Sender F → Option (Sender F)
  unfolding send
  send_burst fuel zero n = some n
  send_burst fuel (suc k) n = do
    (coded, encoder) ← produce_next_coded_symbol fuel n.encoder
    send_burst fuel k (
        send (record n { encoder = encoder })
          (record { coded = coded; new_block = false; start_hash = 0; end_hash = 0 }))

  try_fill_send_window : ℕ → ℕ → Sender F → Option (Sender F)
  unfolding try_produce_codeword send_burst
  try_fill_send_window zero fuel n = none
  try_fill_send_window (suc rounds) fuel n = do
    (produced, n₁) ← try_produce_codeword fuel n
    when_some produced (some n₁)
        (λ cw. send_burst fuel cw.1 (send n₁ cw.0) >>= try_fill_send_window rounds fuel)

  pub on_transaction : ℕ → ℕ → Sender F → HashedSymbol Transaction → Option (Sender F)
  unfolding try_fill_send_window
  on_transaction rounds fuel n t =
      try_fill_send_window rounds fuel (record n { buffer = n.buffer ++ t ∷ [] })

  -- The flags that an acknowledgement resets, and the window that it opens.
  pub receive_ack : Sender F → Ack → Sender F
  unfolding at_least_one ◌-ℤ◌
  receive_ack n a =
      let n₁ =
        if a.ack_block
        then record n { encoding_current_block = false; receiving_current_block = false }
        else n in
      let n₂ =
        if a.ack_start
        then record n₁ { current_block_ack_count = 0; receiving_current_block = true }
        else n₁ in
      if n₂.receiving_current_block
      then record n₂ {
        current_block_ack_count = n₂.current_block_ack_count + 1;
        in_flight = n₂.in_flight -ℤ pos 1;
        send_window = at_least_one (f.plus n₂.send_window n₂.control_overhead);
      }
      else n₂

  pub on_ack : ℕ → ℕ → Sender F → Ack → Option (List (HashedSymbol Transaction) × Sender F)
  unfolding try_fill_send_window receive_ack
  on_ack rounds fuel n a = do
    n' ← try_fill_send_window rounds fuel (receive_ack n a)
    some (a.txs, n')
