-- ===== src/Simulator/Message.antt =====
-- simulator/messages.go: what the servers send, and what they schedule for themselves.
use rateless_set_reconcile.Base.{ℕ, Bool}
use rateless_set_reconcile.Lt.Encoder
use rateless_set_reconcile.Simulator.Transaction.{Transaction, Hashed}

pub record Codeword : Type 0 where
  pub raw : Encoder.Codeword Transaction
  pub new_block : Bool

pub data Message : Type 0 where
  codeword : Codeword → Message
  ack : Bool → Message
  block_arrival : ℕ → Message
  loopback : Hashed → Message
  create_new_block : Message
