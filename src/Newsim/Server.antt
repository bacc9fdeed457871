-- ===== src/Newsim/Server.antt =====
-- newsim/module.go: a server, its peers, and the transactions it has received.
-- A module is a number, and a map from modules an association list. The algorithm between two servers
-- is an interface; the quantile sketch and the random intervals between blocks, which other packages
-- compute, are parameters. `none` is a panic, or a call that still runs when its fuel is used up.
pub mod Accept
pub mod Handle
use rateless_set_reconcile.Base.{
  ℕ, zero, suc, ◌+◌, ◌≡◌, Bool, true, false, Option, none, some, List, [], ◌∷◌, ◌++◌, ◌==◌,
  if◌then◌else◌, ◌>>=◌, map, not,
}
use rateless_set_reconcile.Base.Int.{ℤ, ltb_ℤ}
use rateless_set_reconcile.Des.{OutgoingMessage}
use rateless_set_reconcile.Riblt.Symbol.{HashedSymbol, hashed}
use rateless_set_reconcile.Newsim.Transaction.{Transaction, SipHash, transaction_symbol, generate}
use rateless_set_reconcile.Newsim.Message.{Message, block_arrival, initial_broadcast, size}

-- The interface `algorithm`, on its state `A`.
pub record Algorithm (A : Type 0) : Type 0 where
  pub collect : A → ℕ → ℤ → List (OutgoingMessage ℕ Message) → List (OutgoingMessage ℕ Message) × A
  pub forward : A → HashedSymbol Transaction → Option A
  pub handle : A → Message → Option (List (HashedSymbol Transaction) × A)

-- `ddsketch.Add` of a transaction's latency, for its time stamp and the time it is decoded at.
pub record Latencies (K : Type 0) : Type 0 where
  pub add_latency : K → ℕ → ℤ → K

pub record DistributionSketch (K : Type 0) : Type 0 where
  pub sketch : K
  pub warmup : ℤ

-- `none` is the nil sketch.
record_tx_latency :
    {K : Type 0} ⦃l : Latencies K⦄
    → Option (DistributionSketch K)
    → Transaction
    → ℤ
    → Option (DistributionSketch K)
record_tx_latency none tx at = none
record_tx_latency ⦃l⦄ (some t) tx at =
    if ltb_ℤ at t.warmup
    then some t
    else some (record t { sketch = l.add_latency t.sketch tx.ts at })

pub record Peer (A : Type 0) : Type 0 where
  pub algorithm : A
  pub delay : ℤ

pub record ServerMetric : Type 0 where
  pub decoded_transactions : ℕ
  pub received_transactions : ℕ
  pub duplicate_transactions : ℕ
  pub received_bytes : ℕ

abbrev reset_metric : ServerMetric → ServerMetric
reset_metric s = record s {
  decoded_transactions = 0;
  received_transactions = 0;
  duplicate_transactions = 0;
  received_bytes = 0;
}

pub record Server (A K : Type 0) : Type 0 where
  pub handlers : List (ℕ × Peer A)
  pub peers : List ℕ
  pub block_arrival_burst : ℕ
  pub initial_flood : Bool
  pub latency_sketch : Option (DistributionSketch K)
  pub metric : ServerMetric
  pub received : List ℕ

module _ {A : Type 0} where
  unfoldable pub get_handler : List (ℕ × Peer A) → ℕ → Option (Peer A)
  get_handler [] m = none
  get_handler ((k, h) ∷ handlers) m = if k == m then some h else get_handler handlers m

  -- The algorithm's state changes behind its pointer.
  unfoldable pub set_handler : List (ℕ × Peer A) → ℕ → Peer A → List (ℕ × Peer A)
  set_handler [] m new = []
  set_handler ((k, h) ∷ handlers) m new =
      if k == m then (k, new) ∷ handlers else (k, h) ∷ set_handler handlers m new

-- Whether a transaction's number is in the set of those received.
unfoldable pub is_received : List ℕ → ℕ → Bool
is_received [] idx = false
is_received (i ∷ received) idx = if i == idx then true else is_received received idx

abbrev pub is_excluded : Option ℕ → ℕ → Bool
is_excluded none peer = false
is_excluded (some e) peer = e == peer

module _ {A K : Type 0} where
  abbrev pub count_duplicate : Server A K → Server A K
  count_duplicate s = record s {
    metric = record s.metric { duplicate_transactions = s.metric.duplicate_transactions + 1 };
  }

  -- The transaction is received, and counts as decoded.
  abbrev pub count_new : Server A K → HashedSymbol Transaction → Server A K
  count_new s tx = record s {
    received = tx.symbol.idx ∷ s.received;
    metric = record s.metric {
      decoded_transactions = s.metric.decoded_transactions + 1;
      received_transactions = s.metric.received_transactions + 1;
    };
  }

module _ {A K : Type 0} ⦃a : Algorithm A⦄ where
  -- The handler of each peer adds its messages.
  unfoldable pub collect_from :
      List ℕ
      → Server A K
      → List (OutgoingMessage ℕ Message)
      → Option (List (OutgoingMessage ℕ Message) × Server A K)
  collect_from [] s outbox = some (outbox, s)
  collect_from (p ∷ peers) s outbox = do
    h ← get_handler s.handlers p
    let (outbox', state) = a.collect h.algorithm p h.delay outbox
    collect_from peers
        (record s { handlers = set_handler s.handlers p (record h { algorithm = state }) }) outbox'

  unfoldable pub forward_to :
      List ℕ → Server A K → HashedSymbol Transaction → Option ℕ → Option (Server A K)
  forward_to [] s tx exclude = some s
  forward_to (p ∷ peers) s tx exclude = do
    h ← get_handler s.handlers p
    state ← if is_excluded exclude p then some h.algorithm else a.forward h.algorithm tx
    forward_to peers
        (record s { handlers = set_handler s.handlers p (record h { algorithm = state }) }) tx
        exclude

  unfoldable pub forward_transaction :
      Server A K → HashedSymbol Transaction → Option ℕ → Option (Server A K)
  unfolding forward_to
  forward_transaction s tx exclude = forward_to s.peers s tx exclude

  -- A transaction that was decoded: it is new, or a duplicate.
  unfoldable pub accept :
      ⦃l : Latencies K⦄ → Server A K → HashedSymbol Transaction → Option ℕ → ℤ → Option (Server A K)
  unfolding forward_transaction is_received record_tx_latency
  accept s tx from at =
      if is_received s.received tx.symbol.idx then some (count_duplicate s) else do
        s' ←
            forward_transaction
              (record s { latency_sketch = record_tx_latency s.latency_sketch tx.symbol at }) tx
              from
        some (count_new s' tx)

  unfoldable pub accept_all :
      ⦃l : Latencies K⦄
      → Server A K
      → List (HashedSymbol Transaction)
      → Option ℕ
      → ℤ
      → Option (Server A K)
  unfolding accept
  accept_all s [] from at = some s
  accept_all s (tx ∷ txs) from at = do s' ← accept s tx from at; accept_all s' txs from at
