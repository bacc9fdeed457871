-- ===== src/Des/Schedule.antt =====
-- Scheduling a message: what the queue holds, and that it stays in order.
use mathlib.Core.List.{Mem, mem-cons}
use mathlib.Core.List.Perm
use mathlib.Core.Logic.Or
use native.Mathlib.Bridge.{le_prop}
use rateless_set_reconcile.Base.{
  ◌+◌, ◌≤◌, ◌<◌, ◌≡◌, refl, ◌∙◌, List, [], ◌∷◌, Perm, arith, length, length-perm, All,
}
use rateless_set_reconcile.Base.Array.{Zero}
use rateless_set_reconcile.Base.Int.{ℤ, pos, ◌+ℤ◌, ◌≤ℤ◌, +ℤ_parts, Fits, int64-Fits}
use rateless_set_reconcile.Heap.Laws.{IsHeap}
use rateless_set_reconcile.Heap.Pop.{heap_push-IsHeap}
use rateless_set_reconcile.Des.{
  OutgoingMessage, QueuedMessage, Simulator, by_arrival, queued_zero, or_self, schedule_message,
  schedule_messages,
}

-- The statement holds of every queued message: by recursion, and invariant under permutation.
module _ {M P : Type 0} ⦃zm : Zero M⦄ ⦃zp : Zero P⦄ where
  abbrev pub queued : Simulator M P → OutgoingMessage M P → M → QueuedMessage M P
  queued s msg from = record {
    arrival = s.time +ℤ msg.delay;
    seq = s.seq;
    from = from;
    to = or_self msg.to from;
    payload = msg.payload;
  }

  -- The queue is a heap, no queued message is overdue, and sequence numbers are handed out in order.
  pub record IsTimely (s : Simulator M P) : Type 0 where
    pub heap : IsHeap (length s.mq) s.mq
    pub due : (m : QueuedMessage M P) → Mem m s.mq → s.time ≤ℤ m.arrival
    pub numbered : (m : QueuedMessage M P) → Mem m s.mq → m.seq < s.seq
    pub counted : length s.mq ≤ s.seq

  -- The message's delay is not negative, and its arrival fits an `int64`, when it is sent at `t`.
  abbrev pub IsCausal : ℤ → OutgoingMessage M P → Type 0
  IsCausal t msg = (pos 0 ≤ℤ msg.delay) × Fits (t +ℤ msg.delay)

  -- Scheduling a message whose delay is not negative and whose arrival does not overflow an int64
  -- keeps a timely simulator timely, adds that message, due at the time plus the delay, and no
  -- other to the queue, keeps the time, and counts one more message.
  pub schedule_message-IsTimely :
      (s : Simulator M P) (msg : OutgoingMessage M P) (from : M)
      → IsTimely s
      → IsCausal s.time msg
      → IsTimely (schedule_message s msg from)
        × Perm (schedule_message s msg from).mq (queued s msg from ∷ s.mq)
        × ((schedule_message s msg from).time ≡ s.time)
        × ((schedule_message s msg from).seq ≡ s.seq + 1)
  unfolding schedule_message
  schedule_message-IsTimely s msg from v late =
      let m = queued s msg from in
      let (heap, same) = heap_push-IsHeap s.mq m v.heap in
      rw (int64-Fits (s.time +ℤ msg.delay) late.1) (
        record {
          heap = heap;
          due = λ l p.
              Or.elim le_prop (mem-cons.0 ((Perm.mem_iff same).0 p))
                (λ e. rw e (omega (arith, late.0, +ℤ_parts s.time msg.delay))) (v.due l);
          numbered = λ l p.
              Or.elim le_prop (mem-cons.0 ((Perm.mem_iff same).0 p)) (λ e. rw e (omega arith))
                (λ q. omega (arith, v.numbered l q));
          counted = omega (arith, length-perm same, v.counted);
        },
        same,
        refl,
        refl,
      )

  -- All of a handler's messages.
  pub schedule_messages-IsTimely :
      (msgs : List (OutgoingMessage M P)) (s : Simulator M P) (from : M)
      → IsTimely s
      → All (IsCausal s.time) msgs
      → IsTimely (schedule_messages s msgs from)
        × ((schedule_messages s msgs from).time ≡ s.time)
        × ((schedule_messages s msgs from).seq ≡ s.seq + length msgs)
        × (length (schedule_messages s msgs from).mq ≡ length s.mq + length msgs)
  unfolding schedule_messages schedule_message
  schedule_messages-IsTimely [] s from v late = (v, refl, omega arith, omega arith)
  schedule_messages-IsTimely (msg ∷ msgs) s from v late =
      let (v', same, time, seq) = schedule_message-IsTimely s msg from v late.0 in
      let (v'', time', seq', count) =
        schedule_messages-IsTimely msgs (schedule_message s msg from) from v' late.1 in
      (v'', time' ∙ time, omega arith, omega (arith, length-perm same))
