-- ===== src/Simulator/Server/Start.antt =====
-- simulator/module.go: newServers. A server's number is its index.
use rateless_set_reconcile.Base.{ℕ, zero, suc, none, List, [], ◌∷◌, if◌then◌else◌}
use rateless_set_reconcile.Base.Array.{Zero}
use rateless_set_reconcile.Base.Int.{ℤ, pos, ◌+ℤ◌, eqb_ℤ}
use rateless_set_reconcile.Des.{Simulator, schedule_message}
use rateless_set_reconcile.Lt.Decoder.{new_decoder}
use rateless_set_reconcile.Simulator.Transaction.{transaction_data}
use rateless_set_reconcile.Simulator.Message.{Message, block_arrival, create_new_block}
use rateless_set_reconcile.Simulator.Server.{Server, Intervals}

pub record ServerConfig (F : Type 0) : Type 0 where
  pub block_arrival_burst : ℕ
  pub decoder_memory : ℕ
  pub control_overhead : F
  pub sender_threshold : ℤ
  pub receiver_threshold : ℤ
  pub target_codeword_loss : F
  pub force_synchronize : ℤ

-- `rand.New(rand.NewSource(seed))`
pub record Seeds (R : Type 0) : Type 0 where
  pub seeded : ℤ → R

module _ {F R D K : Type 0} where
  unfoldable new_server : ServerConfig F → R → Server F R D K
  unfolding new_decoder
  new_server config rng = record {
    handlers = [];
    decoder = new_decoder config.decoder_memory;
    received = [];
    rng = rng;
    block_arrival_burst = config.block_arrival_burst;
    control_overhead = config.control_overhead;
    sender_threshold = config.sender_threshold;
    receiver_threshold = config.receiver_threshold;
    target_codeword_loss = config.target_codeword_loss;
    force_synchronize = config.force_synchronize;
    latency_sketch = none;
    overlap_sketch = none;
    metric = record { decoded_transactions = 0; received_codewords = 0 };
    rate_limiter = record { last_scheduled = pos 0; min_interval = pos 0 };
  }

module _ {F : Type 0} ⦃zm : Zero ℕ⦄ ⦃zp : Zero Message⦄ where
  -- What a server schedules for itself at the start.
  unfoldable schedule_first : Simulator ℕ Message → ServerConfig F → ℕ → ℤ → Simulator ℕ Message
  schedule_first sim config i delay =
      let sim₁ =
        schedule_message sim
          (record { payload = block_arrival config.block_arrival_burst; to = none; delay = delay })
          i in
      if eqb_ℤ config.force_synchronize (pos 0)
      then sim₁
      else schedule_message sim₁
          (record { payload = create_new_block; to = none; delay = config.force_synchronize }) i

module _ {F R D K : Type 0} ⦃zm : Zero ℕ⦄ ⦃zp : Zero Message⦄ ⦃v : Intervals R⦄
    ⦃seeds : Seeds R⦄ where
  -- `k` more servers, from index `i`.
  unfoldable servers_from :
      ℕ → ℕ → Simulator ℕ Message → ℤ → ServerConfig F → Simulator ℕ Message × List (Server F R D K)
  unfolding new_server schedule_first
  servers_from zero i sim starting_seed config = (sim, [])
  servers_from (suc k) i sim starting_seed config =
      let (delay, rng) = v.next_interval (seeds.seeded (starting_seed +ℤ pos i)) in
      let rest = servers_from k (suc i) (schedule_first sim config i delay) starting_seed config in
      (rest.0, new_server config rng ∷ rest.1)

  unfoldable new_servers :
      Simulator ℕ Message → ℕ → ℤ → ServerConfig F → Simulator ℕ Message × List (Server F R D K)
  unfolding servers_from
  new_servers sim n starting_seed config = servers_from n 0 sim starting_seed config
