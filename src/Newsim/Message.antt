-- ===== src/Newsim/Message.antt =====
-- newsim/messages.go: the messages between servers, and what they count for.
use rateless_set_reconcile.Base.{ℕ, ◌+◌, ◌*◌, Bool, List, length}
use rateless_set_reconcile.Riblt.Symbol.{HashedSymbol, CodedSymbol}
use rateless_set_reconcile.Newsim.Transaction.{Transaction}

pub record Codeword : Type 0 where
  pub coded : CodedSymbol Transaction
  pub new_block : Bool
  pub start_hash : ℕ
  pub end_hash : ℕ

pub record Ack : Type 0 where
  pub ack_block : Bool
  pub ack_start : Bool
  pub txs : List (HashedSymbol Transaction)

pub data Message : Type 0 where
  codeword : Codeword → Message
  ack : Ack → Message
  block_arrival : ℕ → Message
  response : HashedSymbol Transaction → Message
  announce : ℕ → Message
  request : ℕ → Message
  initial_broadcast : HashedSymbol Transaction → Message

-- `size`, with the global TXSIZE.
unfoldable pub size : ℕ → Message → ℕ
size txsize (codeword c) = 8 + txsize + 8 + 8
size txsize (ack a) = length a.txs * txsize + 8
size txsize (block_arrival n) = 0
size txsize (response payload) = txsize
size txsize (announce hash) = 32
size txsize (request hash) = 32
size txsize (initial_broadcast payload) = txsize
