-- ===== src/Newsim/Tests.antt =====
-- The package newsim at concrete transactions, with functions in the place of SipHash and of floats.
use rateless_set_reconcile.Base.{
  ℕ, ◌+◌, ◌^◌, ◌≡◌, refl, true, false, none, some, List, [], ◌∷◌, ◌++◌, Perm, All, arith, ltb,
}
use rateless_set_reconcile.Base.Int.{ℤ, pos, negsuc, ◌≤ℤ◌, ltb_ℤ}
use rateless_set_reconcile.Riblt.Symbol.{HashedSymbol, IsXor}
use rateless_set_reconcile.Riblt.Window.{new_window}
use rateless_set_reconcile.Riblt.Decoder.{index_zero, new_decoder}
use rateless_set_reconcile.Newsim.Metric.{record_all, get_max, get_max-upper}
use rateless_set_reconcile.Newsim.Transaction.{
  Transaction, SipHash, transaction_symbol-IsXor, transaction_symbol,
}
use rateless_set_reconcile.Newsim.Message.{Codeword, announce, request, response}
use rateless_set_reconcile.Newsim.Shard.{split_shard, shard_size, shard_start, shard_end, in_shard}
use rateless_set_reconcile.Newsim.Shard.Cover.{in_shard_iff}
use Prim.Native.Nat.{min, ◌-◌, ◌/◌}
use mathlib.Core.Logic.{◌↔◌, ◌⊎◌}
use mathlib.Core.List.{Mem}
use rateless_set_reconcile.Newsim.Shard.Split.{IsSplit, split_shard-IsSplit}
use rateless_set_reconcile.Newsim.Coding.Sending
use rateless_set_reconcile.Newsim.Coding.Sending.{Floats, Sender, in_block, block_start, block_end}
use rateless_set_reconcile.Newsim.Coding.Receiving
use rateless_set_reconcile.Newsim.Coding.Receiving.{Receiver}
use rateless_set_reconcile.Newsim.Coding.Block.{start_block-divides, start_block-adds}
use rateless_set_reconcile.Newsim.Pull
use rateless_set_reconcile.Newsim.Pull.{
  Pull as PullState, lookup, forward_transaction, handle_message,
}
use rateless_set_reconcile.Newsim.Server.{Algorithm, Latencies, Server, accept_all}
use rateless_set_reconcile.Newsim.Server.Accept.{IsAccepted, Forwards, accept_all-IsAccepted}
use rateless_set_reconcile.Newsim.Pull.Exchange.{handle_message-exchange}

instance abbrev keyed_sum : SipHash
keyed_sum = record { sip = λ k l bytes. k + l }

instance abbrev integers : Floats ℤ
integers = record { of_int = λ z. z; plus = λ a b. a; times = λ a b. b; lt = ltb_ℤ }

get_max-upper_example :
    All
      (λ v. v ≤ℤ (get_max (record_all (record { max = pos 0 }) (negsuc 2 ∷ pos 4 ∷ []))).0)
      (negsuc 2 ∷ pos 4 ∷ [])
    × (pos 0 ≤ℤ (get_max (record_all (record { max = pos 0 }) (negsuc 2 ∷ pos 4 ∷ []))).0)
    × (((get_max (record_all (record { max = pos 0 }) (negsuc 2 ∷ pos 4 ∷ []))).0 ≡ pos 0)
        ⊎ Mem
            (get_max (record_all (record { max = pos 0 }) (negsuc 2 ∷ pos 4 ∷ []))).0
            (negsuc 2 ∷ pos 4 ∷ []))
    × ((get_max (record_all (record { max = pos 0 }) (negsuc 2 ∷ pos 4 ∷ []))).1
        ≡ record { max = pos 0 })
get_max-upper_example = get_max-upper (negsuc 2 ∷ pos 4 ∷ [])

split_shard-IsSplit_example :
    IsSplit
      (λ n. ltb n 4)
      (1 ∷ 6 ∷ 3 ∷ 8 ∷ 2 ∷ [])
      (split_shard (λ n. ltb n 4) (1 ∷ 6 ∷ 3 ∷ 8 ∷ 2 ∷ []))
split_shard-IsSplit_example = split_shard-IsSplit (λ n. ltb n 4) (1 ∷ 6 ∷ 3 ∷ 8 ∷ 2 ∷ [])

abbrev tx : ℕ → HashedSymbol Transaction
tx n = record { symbol = record { idx = n; ts = 0 }; hash = n }

abbrev sender : Sender ℤ
sender = record {
  buffer = tx 5 ∷ tx (2 ^ 63 + 1) ∷ tx 7 ∷ [];
  encoder = new_window;
  send_window = pos 1;
  in_flight = pos 0;
  encoding_current_block = false;
  current_block_ack_count = 0;
  receiving_current_block = false;
  outbox = [];
  control_overhead = pos 1;
  shard_schedule = 0 ∷ 1 ∷ [];
  shard_randomizer = 1;
  next_shard = 0;
}

start_block-divides_example :
    All
      (λ t. in_block 1 (block_start sender) (block_end sender) t ≡ true)
      (Sending.start_block sender).encoder.symbols
    × All
        (λ t. in_block 1 (block_start sender) (block_end sender) t ≡ false)
        (Sending.start_block sender).buffer
    × Perm
        ((Sending.start_block sender).encoder.symbols ++ (Sending.start_block sender).buffer)
        sender.buffer
start_block-divides_example = start_block-divides sender

abbrev receiver : Receiver
receiver = record {
  decoder = new_decoder;
  buffer = tx 5 ∷ tx 900 ∷ [];
  current_block_received = true;
  current_block_size = 0;
  current_block_count = 3;
  shard_randomizer = 1;
  outbox = [];
}

abbrev first_codeword : Codeword
first_codeword = record {
  coded = record { sum = record { idx = 0; ts = 0 }; count = 0; checksum = 0 };
  new_block = true;
  start_hash = 0;
  end_hash = 100;
}

start_block-adds_example :
    (moved : List (HashedSymbol Transaction)) × ((Receiving.start_block receiver
        first_codeword).decoder.window.symbols
      ≡ moved)
    × All (λ t. in_block 1 0 100 t ≡ true) moved
    × All (λ t. in_block 1 0 100 t ≡ false) (Receiving.start_block receiver first_codeword).buffer
    × Perm (moved ++ (Receiving.start_block receiver first_codeword).buffer) receiver.buffer
start_block-adds_example = start_block-adds receiver first_codeword

abbrev unaware : PullState
unaware = record { known = []; outbox = [] }

unaware-lookup : lookup unaware.known 5 ≡ none
unfolding lookup
unaware-lookup = refl

handle_message-exchange_example :
    let a' = forward_transaction unaware (tx 5) in
    let b' : PullState = record { known = (5, tx 5) ∷ []; outbox = [] } in
    (a'.outbox ≡ announce 5 ∷ [])
    × (handle_message unaware (announce 5) ≡ some ([], record unaware { outbox = request 5 ∷ [] }))
    × (handle_message a' (request 5)
        ≡ some ([], record a' { outbox = a'.outbox ++ response (tx 5) ∷ [] }))
    × (handle_message unaware (response (tx 5)) ≡ some (tx 5 ∷ [], b'))
    × (handle_message b' (announce 5) ≡ some ([], b'))
handle_message-exchange_example = handle_message-exchange unaware unaware (tx 5) unaware-lookup

transaction_symbol-IsXor_example : IsXor (transaction_symbol ⦃h = keyed_sum⦄)
transaction_symbol-IsXor_example = transaction_symbol-IsXor ⦃h = keyed_sum⦄

-- Announcements, as an algorithm between servers.
instance abbrev pulling : Algorithm PullState
pulling = record {
  collect = Pull.collect_outgoing_messages;
  forward = λ c t. some (forward_transaction c t);
  handle = λ c m. handle_message c m;
}

-- Latencies counted.
instance abbrev counting : Latencies ℕ
counting = record { add_latency = λ n ts at. n + 1 }

pulling-Forwards : Forwards pulling
pulling-Forwards state tx = (forward_transaction state tx, refl)

abbrev server : Server PullState ℕ
server = record {
  handlers =
      (1, record { algorithm = unaware; delay = pos 10 })
      ∷ (2, record { algorithm = unaware; delay = pos 20 })
      ∷ [];
  peers = 1 ∷ 2 ∷ [];
  block_arrival_burst = 3;
  initial_flood = false;
  latency_sketch = some (record { sketch = 0; warmup = pos 0 });
  metric = record {
    decoded_transactions = 0;
    received_transactions = 0;
    duplicate_transactions = 0;
    received_bytes = 0;
  };
  received = [];
}

accept_all-IsAccepted_example :
    (s' : Server PullState ℕ) × (accept_all server (tx 5 ∷ tx 6 ∷ tx 5 ∷ []) (some 1) (pos 30)
      ≡ some s')
    × IsAccepted server (tx 5 ∷ tx 6 ∷ tx 5 ∷ []) s'
accept_all-IsAccepted_example =
    accept_all-IsAccepted pulling-Forwards (tx 5 ∷ tx 6 ∷ tx 5 ∷ []) server (some 1) (pos 30)
      (record { wired = (refl, (refl, tt)); distinct = tt })

in_shard_iff_example :
    (in_shard (shard_start 4 3) (shard_end 4 3) (2 ^ 63 + 5) ≡ true)
    ↔ (3 ≡ min (4 - 1) ((2 ^ 63 + 5) / shard_size 4))
in_shard_iff_example = in_shard_iff 4 (omega arith) (omega arith) (2 ^ 63 + 5) 3 (omega arith)
