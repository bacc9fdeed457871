-- ===== src/Simulator/Server.antt =====
-- simulator/module.go: a server, its peers, and the transactions it has received.
-- A module is a number, and the map of handlers an association list, whose order stands for the order
-- in which Go visits the map. The quantile sketches, the random intervals between blocks and the random
-- source's seed belong to other packages: they are parameters.
pub mod Handle
pub mod Register
pub mod Start
use rateless_set_reconcile.Base.{
  ℕ, zero, suc, ◌+◌, Bool, true, false, not, ◌&&◌, Option, none, some, List, [], ◌∷◌, ◌++◌, length,
  map, ◌==◌, if◌then◌else◌,
}
use rateless_set_reconcile.Base.Int.{ℤ, pos, ltb_ℤ, eqb_ℤ}
use rateless_set_reconcile.Base.Outcome.{Outcome, ok, panic, ◌>>=◌, or_panic}
use rateless_set_reconcile.Base.Table.{update}
use rateless_set_reconcile.Base.Word.{u64}
use rateless_set_reconcile.Des.{OutgoingMessage}
use rateless_set_reconcile.Lt.Encoder.{Hasher, Rng, DegreeDistribution, new_encoder}
use rateless_set_reconcile.Lt.Decoder.{Decoder, new_decoder, has_decoded, add_transaction}
use rateless_set_reconcile.Newsim.Server.Handle.{bits}
use rateless_set_reconcile.Simulator.Transaction.{
  Transaction, Hashed, transaction_data, transaction_comparable, same_transaction, generate,
  DistributionSketch,
}
use rateless_set_reconcile.Simulator.Message.{
  Codeword, Message, codeword, ack, block_arrival, loopback, create_new_block,
}
use rateless_set_reconcile.Simulator.Sender
use rateless_set_reconcile.Simulator.Sender.{Floats, Soliton, Sender, on_ack, try_fill_send_window}
use rateless_set_reconcile.Simulator.Receiver.{Receiver, on_codeword}
use rateless_set_reconcile.Simulator.Limiter.{
  RateLimiter, Outgoing, schedule_forwarding_transactions,
}

pub record ServerMetric : Type 0 where
  pub decoded_transactions : ℕ
  pub received_codewords : ℕ

-- `handler` and `peer`.
pub record Peer (F R D : Type 0) : Type 0 where
  pub sender : Sender F R D
  pub receiver : Receiver F
  pub delay : ℤ

pub record Server (F R D K : Type 0) : Type 0 where
  pub handlers : List (ℕ × Peer F R D)
  pub decoder : Decoder Transaction
  pub received : List Transaction
  pub rng : R
  pub block_arrival_burst : ℕ
  pub control_overhead : F
  pub sender_threshold : ℤ
  pub receiver_threshold : ℤ
  pub target_codeword_loss : F
  pub force_synchronize : ℤ
  pub latency_sketch : Option (DistributionSketch K)
  pub overlap_sketch : Option (DistributionSketch K)
  pub metric : ServerMetric
  pub rate_limiter : RateLimiter

-- `time.Duration(s.rng.ExpFloat64() / s.blockArrivalIntv)`
pub record Intervals (R : Type 0) : Type 0 where
  pub next_interval : R → ℤ × R

unfoldable pub reset_metric : ServerMetric → ServerMetric
reset_metric m = record m { decoded_transactions = 0; received_codewords = 0 }

unfoldable pub is_registered : List Transaction → Transaction → Bool
is_registered [] t = false
is_registered (x ∷ received) t = if same_transaction x t then true else is_registered received t

-- The messages of an outbox, addressed to a peer.
abbrev pub addressed : ℕ → ℤ → List Message → List Outgoing
addressed m delay outbox = map (λ msg. record { payload = msg; to = some m; delay = delay }) outbox

module _ {F R D : Type 0} where
  unfoldable pub find_handler : List (ℕ × Peer F R D) → ℕ → Option (Peer F R D)
  find_handler [] m = none
  find_handler ((k, p) ∷ handlers) m = if k == m then some p else find_handler handlers m

  -- What the pointer's target becomes.
  unfoldable pub set_handler : List (ℕ × Peer F R D) → ℕ → Peer F R D → List (ℕ × Peer F R D)
  set_handler [] m new = []
  set_handler ((k, p) ∷ handlers) m new =
      if k == m then (k, new) ∷ handlers else (k, p) ∷ set_handler handlers m new

  -- `a.handlers[b] = …`
  unfoldable pub put_handler : List (ℕ × Peer F R D) → ℕ → Peer F R D → List (ℕ × Peer F R D)
  put_handler [] m new = (m, new) ∷ []
  put_handler ((k, p) ∷ handlers) m new =
      if k == m then (k, new) ∷ handlers else (k, p) ∷ put_handler handlers m new

  abbrev pub emptied : Peer F R D → Peer F R D
  emptied p = record p {
    sender = record p.sender { outbox = [] };
    receiver = record p.receiver { outbox = [] };
  }

  unfoldable pub collect_outgoing_messages :
      List (ℕ × Peer F R D) → List Outgoing → List Outgoing × List (ℕ × Peer F R D)
  collect_outgoing_messages [] outbox = (outbox, [])
  collect_outgoing_messages ((m, p) ∷ handlers) outbox =
      let rest = collect_outgoing_messages handlers (
        (outbox ++ addressed m p.delay p.sender.outbox) ++ addressed m p.delay p.receiver.outbox) in
      (rest.0, (m, emptied p) ∷ rest.1)

  -- A step of the sender to every peer.
  unfoldable pub each_sender :
      (Sender F R D → Outcome (Sender F R D))
      → List (ℕ × Peer F R D)
      → Outcome (List (ℕ × Peer F R D))
  each_sender step [] = ok []
  each_sender step ((m, p) ∷ handlers) = step p.sender >>= λ n.
      each_sender step handlers >>= λ rest. ok ((m, record p { sender = n }) ∷ rest)

module _ {F R D K : Type 0} where
  unfoldable pub new_handler : ⦃s : Soliton D⦄ → Server F R D K → ℤ → Peer F R D
  unfolding new_encoder
  new_handler ⦃s⦄ a delay = record {
    sender = record {
      buffer = [];
      current_block = [];
      encoder = new_encoder a.rng s.nil_dist 0;
      send_window = a.sender_threshold;
      in_flight = pos 0;
      encoding_current_block = false;
      outbox = [];
      control_overhead = a.control_overhead;
      detect_threshold = a.sender_threshold;
    };
    receiver = record {
      cur_codewords = [];
      current_block_received = false;
      outbox = [];
      detect_threshold = a.receiver_threshold;
      target_codeword_loss = a.target_codeword_loss;
    };
    delay = delay;
  }

  unfoldable pub connect_servers :
      ⦃s : Soliton D⦄ → (ℕ → Server F R D K) → ℕ → ℕ → ℤ → ℕ → Server F R D K
  unfolding new_handler put_handler
  connect_servers net a b delay =
      let sa = net a in
      let net' =
        update net a (record sa { handlers = put_handler sa.handlers b (new_handler sa delay) }) in
      let sb = net' b in
      update net' b (record sb { handlers = put_handler sb.handlers a (new_handler sb delay) })

  -- The panic "duplicate" is `panic`.
  unfoldable pub register_received : Server F R D K → Hashed → Outcome (Server F R D K)
  unfolding is_registered
  register_received s tx =
      if is_registered s.received tx.tx_data
      then panic
      else ok (record s { received = tx.tx_data ∷ s.received })

  abbrev pub can_start_new_block : Server F R D K → Bool
  can_start_new_block s = eqb_ℤ s.force_synchronize (pos 0)

  unfoldable pub schedule :
      Server F R D K → List Outgoing → List Hashed → ℤ → Server F R D K × List Outgoing
  unfolding schedule_forwarding_transactions
  schedule s out txs at =
      let scheduled = schedule_forwarding_transactions s.rate_limiter out txs at in
      (record s { rate_limiter = scheduled.0 }, scheduled.1)
