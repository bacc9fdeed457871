-- ===== src/Newsim/Coding/Receiving.antt =====
-- newsim/coding.go: the receiver of coded symbols.
use rateless_set_reconcile.Base.{
  ℕ, ◌+◌, Bool, true, false, not, ◌&&◌, Option, some, List, [], ◌∷◌, ◌++◌, if◌then◌else◌, ◌>>=◌,
}
use rateless_set_reconcile.Riblt.Mapping.{Jump}
use rateless_set_reconcile.Riblt.Symbol.{HashedSymbol}
use rateless_set_reconcile.Riblt.Window.{hashed_zero}
use rateless_set_reconcile.Riblt.Decoder
use rateless_set_reconcile.Riblt.Decoder.{
  Decoder, add_coded_symbol, try_decode, decoded, local_symbols, remote_symbols,
}
use rateless_set_reconcile.Newsim.Transaction.{Transaction, SipHash, transaction_symbol}
use rateless_set_reconcile.Newsim.Message.{Message, Codeword, ack}
use rateless_set_reconcile.Newsim.Shard.{split_shard}
use rateless_set_reconcile.Newsim.Coding.Sending.{in_block}

pub record Receiver : Type 0 where
  pub decoder : Decoder Transaction
  pub buffer : List (HashedSymbol Transaction)
  pub current_block_received : Bool
  pub current_block_size : ℕ
  pub current_block_count : ℕ
  pub shard_randomizer : ℕ
  pub outbox : List Message

unfoldable pub add_all : Decoder Transaction → List (HashedSymbol Transaction) → Decoder Transaction
add_all d [] = d
add_all d (t ∷ ts) = add_all (Decoder.add_hashed_symbol d t) ts

module _ ⦃h : SipHash⦄ where
  -- A codeword that starts a block moves the shard's transactions into the decoder.
  unfoldable pub start_block : Receiver → Codeword → Receiver
  start_block n cw =
      let split = split_shard (in_block n.shard_randomizer cw.start_hash cw.end_hash) n.buffer in
      record n {
        current_block_received = false;
        current_block_count = 0;
        decoder = add_all n.decoder split.0;
        buffer = split.1;
      }

  -- The acknowledgement of a codeword, and the transactions decoded if it completes the block.
  acknowledge : Receiver → Bool → (List (HashedSymbol Transaction) × Bool) × Receiver
  unfolding Decoder.reset
  acknowledge n ack_start =
      if decoded n.decoder
      then (
        (remote_symbols n.decoder, true),
        record n {
          current_block_received = true;
          outbox =
              n.outbox
              ++ ack (record {
                ack_block = true;
                ack_start = ack_start;
                txs = local_symbols n.decoder;
              })
                ∷ [];
          decoder = Decoder.reset n.decoder;
        },
      )
      else (
        ([], false),
        record n {
          outbox =
              n.outbox ++ ack (record { ack_block = false; ack_start = ack_start; txs = [] }) ∷ [];
        },
      )

  pub on_codeword :
      ⦃j : Jump⦄
      → ℕ
      → ℕ
      → Receiver
      → Codeword
      → Option ((List (HashedSymbol Transaction) × Bool) × Receiver)
  unfolding acknowledge start_block
  on_codeword rounds fuel n cw =
      let n₁ = if cw.new_block then start_block n cw else n in
      if n.current_block_received && not cw.new_block then some (([], false), n) else do
        d ← add_coded_symbol fuel n₁.decoder cw.coded
        d' ← try_decode rounds fuel d
        some (
            acknowledge
              (record n₁ { decoder = d'; current_block_count = n₁.current_block_count + 1 })
              cw.new_block)

unfoldable pub on_transaction : Receiver → HashedSymbol Transaction → Receiver
on_transaction n t = record n { buffer = n.buffer ++ t ∷ [] }
