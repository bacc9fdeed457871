-- ===== src/Des/Tests.antt =====
-- The simulator at concrete messages: modules and payloads are numbers, and the handlers' state counts
-- down how many messages they still send.
use mathlib.Core.List.{not-mem-nil}
use mathlib.Core.List.Perm
use mathlib.Core.Logic.Or
use rateless_set_reconcile.Base.{ℕ, zero, suc, ◌≡◌, some, List, [], ◌∷◌, Perm, arith}
use rateless_set_reconcile.Base.Int.{ℤ, pos, ◌+ℤ◌}
use rateless_set_reconcile.Riblt.Decoder.{index_zero}
use rateless_set_reconcile.Des.{OutgoingMessage, Simulator, schedule_message}
use rateless_set_reconcile.Des.Schedule.{IsTimely, IsCausal, queued, schedule_message-IsTimely}

abbrev start : Simulator ℕ ℕ
start = record { time = pos 5; mq = []; seq = 0 }

start-IsTimely : IsTimely start
start-IsTimely = record {
  heap = λ c p q. absurd (omega arith);
  due = λ m p. absurd (not-mem-nil p);
  numbered = λ m p. absurd (not-mem-nil p);
  counted = omega arith;
}

abbrev msg : OutgoingMessage ℕ ℕ
msg = record { payload = 7; to = some 1; delay = pos 3 }

msg-IsCausal : IsCausal (pos 5) msg
unfolding ◌+ℤ◌
msg-IsCausal = (omega arith, (omega arith, omega arith))

schedule_message-IsTimely_example :
    IsTimely (schedule_message start msg 0)
    × Perm (schedule_message start msg 0).mq (queued start msg 0 ∷ [])
    × ((schedule_message start msg 0).time ≡ pos 5)
    × ((schedule_message start msg 0).seq ≡ 1)
schedule_message-IsTimely_example =
    schedule_message-IsTimely start msg 0 start-IsTimely msg-IsCausal

abbrev scheduled : Simulator ℕ ℕ
scheduled = schedule_message start msg 0

-- Answers while the count lasts.
abbrev echo : ℕ → ℕ → ℕ → ℕ → ℤ → List (OutgoingMessage ℕ ℕ) × ℕ
echo zero to p from t = ([], 0)
echo (suc n) to p from t = (record { payload = p; to = some from; delay = pos 1 } ∷ [], n)
