-- ===== src/Des/Deliver.antt =====
-- Delivering a message: the earliest one, and never back in time.
use mathlib.Core.List.{Mem}
use mathlib.Core.List.Perm
use rateless_set_reconcile.Base.{◌+◌, ◌≡◌, true, false, none, List, length, All}
use rateless_set_reconcile.Base.Array.{Zero}
use rateless_set_reconcile.Base.Int.{ℤ, ◌≤ℤ◌, ltb_ℤ}
use rateless_set_reconcile.Heap.{heap_pop}
use rateless_set_reconcile.Des.{
  OutgoingMessage, QueuedMessage, Simulator, by_arrival, queued_zero, less, deliver_next_message,
  events_delivered,
}
use rateless_set_reconcile.Des.Schedule.{IsTimely, IsCausal}

-- A handler of the modules' state `S`.
abbrev pub Handler : Type 0 → Type 0 → Type 0 → Type 0
Handler M P S = S → M → P → M → ℤ → List (OutgoingMessage M P) × S

module _ {M P S : Type 0} ⦃zm : Zero M⦄ ⦃zp : Zero P⦄ (handle : Handler M P S) where
  -- `r` is the simulator and the modules' state after the message `m` was delivered.
  pub record IsDelivery (s : Simulator M P) (w : S) (m : QueuedMessage M P) (r : Simulator M P × S)
      : Type 0 where
    pub queued : Mem m s.mq
    pub first : (l : QueuedMessage M P) → Mem l s.mq → less l m ≡ false
    pub at : r.0.time ≡ m.arrival
    pub forward : s.time ≤ℤ r.0.time
    pub handled : r.1 ≡ (handle w m.to m.payload m.from m.arrival).1
    pub sent : length r.0.mq + 1 ≡ length s.mq + length (handle w m.to m.payload m.from m.arrival).0
    pub delivered : events_delivered r.0 ≡ events_delivered s + 1
    pub timely : IsTimely r.0

  -- No message that the handlers send, whichever queued message is delivered, is due in the past or
  -- at a time that does not fit an `int64`.
  abbrev pub AllCausal : Simulator M P → S → Type 0
  AllCausal s w =
      (l : QueuedMessage M P)
      → Mem l s.mq
      → All (IsCausal l.arrival) (handle w l.to l.payload l.from l.arrival).0

  -- A message that is overdue panics.
  pub deliver_next_message-overdue :
      (s : Simulator M P) (w : S)
      → ltb_ℤ (heap_pop s.mq).0.arrival s.time ≡ true
      → deliver_next_message handle s w ≡ none
  unfolding deliver_next_message
  deliver_next_message-overdue s w h = rw h
