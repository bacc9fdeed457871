-- ===== src/Simulator/Tests.antt =====
-- The servers of the program simulator on concrete transactions. Here every ratio is one, and every
-- degree is one.
use rateless_set_reconcile.Base.{
  ℕ, ◌+◌, ◌≡◌, ◌⊎◌, Bool, true, false, ◌||◌, none, some, List, [], ◌∷◌, ◌++◌, All, arith,
}
use rateless_set_reconcile.Base.Int.{ℤ, pos, ◌+ℤ◌, ◌≤ℤ◌}
use rateless_set_reconcile.Base.Outcome.{ok, panic}
use rateless_set_reconcile.Lt.Encoder.{DegreeDistribution, new_transaction}
use rateless_set_reconcile.Lt.Decoder.{Decoder, new_decoder}
use rateless_set_reconcile.Lt.Decoder.Adding.{IsDecoder}
use rateless_set_reconcile.Lt.Decoder.Accept.{new_decoder-IsDecoder}
use rateless_set_reconcile.Lt.Tests.{by_first_byte, largest}
use rateless_set_reconcile.Simulator.Transaction.{
  Transaction, Hashed, transaction_data, transaction_comparable, Sketches,
}
use rateless_set_reconcile.Simulator.Message.{Codeword}
use rateless_set_reconcile.Simulator.Sender.{
  Floats, Soliton, Sender, start_block, try_fill_send_window,
}
use rateless_set_reconcile.Simulator.Sender.Block.{IsPositive}
use rateless_set_reconcile.Simulator.Sender.Encoding.{IsSender, IsSent, IsFull}
use rateless_set_reconcile.Simulator.Sender.Fill.{try_fill_send_window-Fills}
use rateless_set_reconcile.Simulator.Receiver.{Receiver, on_codeword}
use rateless_set_reconcile.Simulator.Receiver.Acknowledge.{
  IsAcknowledged, on_codeword-IsAcknowledged,
}
use rateless_set_reconcile.Simulator.Limiter.{
  RateLimiter, Outgoing, schedule_forwarding_transactions,
}
use rateless_set_reconcile.Simulator.Limiter.Spacing.{
  IsSpaced, IsFirstSlot, schedule_forwarding_transactions-IsSpaced,
}
use rateless_set_reconcile.Simulator.Server.{Server, is_registered}
use rateless_set_reconcile.Simulator.Server.Handle.{register_decoded}
use rateless_set_reconcile.Simulator.Server.Register.{IsNew, data_of, register_decoded-result}

instance abbrev all_ones : Floats ℤ
all_ones = record { of_int = λ a. a; divided = λ a b. a; times = λ a b. a; truncated = λ a. a }

instance abbrev degree_one : DegreeDistribution ℕ
degree_one = record { uint64 = λ x. (1, x) }

instance abbrev solitons : Soliton ℕ
solitons = record { nil_dist = 0; robust_soliton = λ n. n }

instance abbrev counts : Sketches ℕ
counts = record { add_latency = λ k ts at. k + 1; add_ratio = λ k a b. k + 1 }

abbrev tx : ℕ → Hashed
tx n = new_transaction (record { idx = n; ts = 0 })

-- A sender whose buffer is large enough for a block.
abbrev sender : Sender ℤ ℕ ℕ
sender = record {
  buffer = tx 5 ∷ tx 6 ∷ tx 5 ∷ [];
  current_block = [];
  encoder = record {
    rng = 0;
    window = [];
    degree_dist = 0;
    hashes = [];
    window_size = 0;
    shuffle_history = [];
  };
  send_window = pos 1;
  in_flight = pos 0;
  encoding_current_block = false;
  outbox = [];
  control_overhead = pos 1;
  detect_threshold = pos 2;
}

degree_one-IsPositive : IsPositive degree_one
degree_one-IsPositive = record { positive = λ x. omega arith; fits = λ x. omega arith }

try_fill_send_window-Fills_example :
    (n' : Sender ℤ ℕ ℕ) × (sent : List Codeword) × (try_fill_send_window 9 sender true ≡ ok n')
    × IsSender n'
    × IsSent sender sent n'
    × IsFull n'
unfolding start_block
try_fill_send_window-Fills_example =
    try_fill_send_window-Fills 9 sender true degree_one-IsPositive (omega arith)
      (λ on. absurd (ground arith)) (omega arith)

abbrev receiver : Receiver ℤ
receiver = record {
  cur_codewords = [];
  current_block_received = true;
  outbox = [];
  detect_threshold = pos 0;
  target_codeword_loss = pos 1;
}

abbrev first_codeword : Codeword
first_codeword = record {
  raw = record { symbol = record { idx = 5; ts = 0 }; members = 5 ∷ [] };
  new_block = true;
}

on_codeword-IsAcknowledged_example :
    (n' : Receiver ℤ) × (e' : Decoder Transaction) × (txs : List Hashed) × (block : Bool)
    × (on_codeword 9 receiver (new_decoder 5) first_codeword ≡ ok (n', e', txs))
    × IsDecoder e'
    × IsAcknowledged receiver e'.links block false (0 ∷ []) n'
unfolding new_decoder
on_codeword-IsAcknowledged_example =
    on_codeword-IsAcknowledged 9 receiver (new_decoder 5) first_codeword (new_decoder-IsDecoder 5)
      (omega arith)

abbrev limiter : RateLimiter
limiter = record { last_scheduled = pos 7; min_interval = pos 2 }

schedule_forwarding_transactions-IsSpaced_example :
    let r = schedule_forwarding_transactions limiter [] (tx 5 ∷ tx 6 ∷ []) (pos 8) in
    (msgs : List Outgoing) × (slot : ℤ) × (r.1 ≡ [] ++ msgs)
    × IsSpaced (pos 2) slot (pos 8) (r.0.last_scheduled +ℤ pos 2) (tx 5 ∷ tx 6 ∷ []) msgs
    × IsFirstSlot limiter (pos 8) slot
    × All (λ msg. pos 0 ≤ℤ msg.delay) msgs
schedule_forwarding_transactions-IsSpaced_example =
    schedule_forwarding_transactions-IsSpaced limiter [] (tx 5) (tx 6 ∷ []) (pos 8) (omega arith)
      (omega arith, omega arith) (omega arith, omega arith)

abbrev server : Server ℤ ℕ ℕ ℕ
server = record {
  handlers = [];
  decoder = new_decoder 5;
  received = record { idx = 5; ts = 0 } ∷ [];
  rng = 0;
  block_arrival_burst = 1;
  control_overhead = pos 1;
  sender_threshold = pos 1;
  receiver_threshold = pos 1;
  target_codeword_loss = pos 0;
  force_synchronize = pos 0;
  latency_sketch = some (record { sketch = 0; warmup = pos 3 });
  overlap_sketch = none;
  metric = record { decoded_transactions = 0; received_codewords = 0 };
  rate_limiter = limiter;
}

register_decoded-result_example :
    ((s' : Server ℤ ℕ ℕ ℕ) × (register_decoded (pos 8) server (tx 6 ∷ tx 5 ∷ []) ≡ ok s')
      × IsNew server.received (tx 6 ∷ tx 5 ∷ [])
      × ((t : Transaction)
          → is_registered s'.received t
            ≡ (is_registered (data_of (tx 6 ∷ tx 5 ∷ [])) t || is_registered server.received t)))
    ⊎ ((register_decoded (pos 8) server (tx 6 ∷ tx 5 ∷ []) ≡ panic)
        × ¬ IsNew server.received (tx 6 ∷ tx 5 ∷ []))
register_decoded-result_example = register_decoded-result (pos 8) (tx 6 ∷ tx 5 ∷ []) server
