-- ===== src/Newsim/Server/Handle.antt =====
-- newsim/module.go: HandleMessage, the arrival of blocks, and the servers that a simulation starts with.
-- The interval to the next block is drawn by another package, from the server's random state `R`.
use rateless_set_reconcile.Base.{
  ℕ, zero, suc, ◌+◌, ◌-◌, ◌%◌, Option, none, some, List, [], ◌∷◌, ◌++◌, if◌then◌else◌, ◌>>=◌,
}
use rateless_set_reconcile.Base.Word.{u64}
use rateless_set_reconcile.Base.Int.{ℤ, pos, negsuc}
use rateless_set_reconcile.Des.{OutgoingMessage}
use rateless_set_reconcile.Riblt.Symbol.{HashedSymbol, hashed}
use rateless_set_reconcile.Newsim.Transaction.{Transaction, SipHash, transaction_symbol, generate}
use rateless_set_reconcile.Newsim.Message.{Message, block_arrival, initial_broadcast, size}
use rateless_set_reconcile.Newsim.Server.{
  Algorithm, Latencies, Server, get_handler, set_handler, is_received, collect_from,
  forward_transaction, accept, accept_all,
}

-- A server with its random state, and the global generator of transactions.
pub record Running (A K R : Type 0) : Type 0 where
  pub server : Server A K
  pub rng : R
  pub last : ℕ

-- `time.Duration(s.rng.ExpFloat64() / s.blockArrivalIntv)`
pub record Intervals (R : Type 0) : Type 0 where
  pub next_interval : R → ℤ × R

-- The bits of an `int64`.
abbrev pub bits : ℤ → ℕ
bits (pos n) = n % u64
bits (negsuc n) = u64 - 1 - n % u64

-- `s.received[idx] = struct{}{}`
abbrev insert : List ℕ → ℕ → List ℕ
insert received idx = if is_received received idx then received else idx ∷ received

abbrev message_to : Option ℕ → ℤ → Message → OutgoingMessage ℕ Message
message_to to delay m = record { payload = m; to = to; delay = delay }

module _ {A K : Type 0} where
  -- A new transaction, sent to every peer.
  flood :
      List ℕ
      → Server A K
      → HashedSymbol Transaction
      → List (OutgoingMessage ℕ Message)
      → Option (List (OutgoingMessage ℕ Message))
  flood [] s tx outbox = some outbox
  flood (p ∷ peers) s tx outbox = do
    h ← get_handler s.handlers p
    flood peers s tx (outbox ++ message_to (some p) h.delay (initial_broadcast tx) ∷ [])

  count_own : Server A K → Transaction → Server A K
  count_own s tx = record s {
    received = insert s.received tx.idx;
    metric = record s.metric { received_transactions = s.metric.received_transactions + 1 };
  }

module _ {A K : Type 0} ⦃a : Algorithm A⦄ ⦃l : Latencies K⦄ where
  -- The transactions of a message between two servers, decoded and counted.
  receive : Server A K → Message → ℕ → ℤ → Option (Server A K)
  receive s (initial_broadcast tx) from at = accept s tx (some from) at
  receive s m from at = do
    h ← get_handler s.handlers from
    (txs, state) ← a.handle h.algorithm m
    accept_all
        (record s { handlers = set_handler s.handlers from (record h { algorithm = state }) }) txs
        (some from) at

  abbrev count_bytes : ℕ → Message → Server A K → Server A K
  count_bytes txsize m s = record s {
    metric = record s.metric { received_bytes = s.metric.received_bytes + size txsize m };
  }

module _ {A K R : Type 0} ⦃a : Algorithm A⦄ ⦃l : Latencies K⦄ ⦃h : SipHash⦄ ⦃v : Intervals R⦄ where
  -- The loop of a block arrival.
  arrive :
      ℕ
      → ℤ
      → Running A K R
      → List (OutgoingMessage ℕ Message)
      → Option (List (OutgoingMessage ℕ Message) × Running A K R)
  unfolding generate flood count_own
  arrive zero at r outbox = some (outbox, r)
  arrive (suc n) at r outbox = do
    let (tx, last) = generate r.last (bits at)
    outbox' ←
        if r.server.initial_flood
        then flood r.server.peers r.server (hashed tx) outbox
        else some outbox
    s ←
        if r.server.initial_flood
        then some r.server
        else forward_transaction r.server (hashed tx) none
    arrive n at (record r { server = count_own s tx; last = last }) outbox'

  collect_outgoing_messages :
      Running A K R
      → List (OutgoingMessage ℕ Message)
      → Option (List (OutgoingMessage ℕ Message) × Running A K R)
  unfolding collect_from
  collect_outgoing_messages r outbox = do
    (outbox', s) ← collect_from r.server.peers r.server outbox
    some (outbox', record r { server = s })

  handle_message :
      ℕ
      → Running A K R
      → Message
      → ℕ
      → ℤ
      → Option (List (OutgoingMessage ℕ Message) × Running A K R)
  unfolding arrive receive collect_outgoing_messages size
  handle_message txsize r (block_arrival n) from at = do
    (outbox, r') ← arrive n at r []
    let (delay, rng) = v.next_interval r'.rng
    collect_outgoing_messages (record r' { rng = rng })
        (outbox ++ message_to none delay (block_arrival r'.server.block_arrival_burst) ∷ [])
  handle_message txsize r m from at = do
    s ← receive r.server m from at
    collect_outgoing_messages (record r { server = count_bytes txsize m s }) []
