-- ===== src/Simulator/Limiter.antt =====
-- simulator/module.go: the limit on the rate at which a server forwards transactions. Times are those of an
-- `int64`, and their sums and differences wrap around.
pub mod Spacing
use rateless_set_reconcile.Base.{ℕ, Bool, Option, none, List, [], ◌∷◌, ◌++◌, if◌then◌else◌}
use rateless_set_reconcile.Base.Int.{ℤ, pos, ◌+ℤ◌, ◌-ℤ◌, int64, ltb_ℤ}
use rateless_set_reconcile.Des.{OutgoingMessage}
use rateless_set_reconcile.Simulator.Transaction.{Hashed}
use rateless_set_reconcile.Simulator.Message.{Message, loopback}

pub record RateLimiter : Type 0 where
  pub last_scheduled : ℤ
  pub min_interval : ℤ

abbrev pub Outgoing : Type 0
Outgoing = OutgoingMessage ℕ Message

-- The loop, from the next slot.
unfoldable pub schedule_from :
    RateLimiter → ℤ → List Outgoing → List Hashed → ℤ → RateLimiter × List Outgoing
unfolding ◌+ℤ◌ ◌-ℤ◌ int64
schedule_from l next_slot out [] at = (l, out)
schedule_from l next_slot out (tx ∷ txs) at =
    schedule_from (record l { last_scheduled = next_slot }) (int64 (next_slot +ℤ l.min_interval))
      (out ++ record { payload = loopback tx; to = none; delay = int64 (next_slot -ℤ at) } ∷ []) txs
      at

abbrev pub first_slot : RateLimiter → ℤ → ℤ
first_slot l at =
    let slot = int64 (l.last_scheduled +ℤ l.min_interval) in if ltb_ℤ at slot then slot else at

unfoldable pub schedule_forwarding_transactions :
    RateLimiter → List Outgoing → List Hashed → ℤ → RateLimiter × List Outgoing
unfolding schedule_from
schedule_forwarding_transactions l out txs at = schedule_from l (first_slot l at) out txs at
