-- ===== src/Des.antt =====
-- des/simulator.go: the discrete-event simulator.
-- Modules and payloads are the callers' types; a handler is a function of the modules' state. Times and
-- delays are the integers of an `int64`, in nanoseconds, and their sum wraps around.
pub mod Schedule
pub mod Deliver
mod Tests
use rateless_set_reconcile.Base.{
  ℕ, zero, suc, ◌+◌, ◌-◌, ◌≡◌, Bool, true, false, not, ◌&&◌, Option, none, some, List, [], ◌∷◌,
  length, arith, ltb, ◌==◌, if◌then◌else◌, ◌>>=◌,
}
use rateless_set_reconcile.Base.Array.{Zero}
use rateless_set_reconcile.Base.Outcome.{Outcome, ok, panic, running, and_then}
use rateless_set_reconcile.Base.Int.{ℤ, pos, ◌+ℤ◌, int64, ltb_ℤ, eqb_ℤ}
use rateless_set_reconcile.Heap.{Order, heap_push, heap_pop}

-- `to` is `none` for a message to the sender itself.
pub record OutgoingMessage (M P : Type 0) : Type 0 where
  pub payload : P
  pub to : Option M
  pub delay : ℤ

pub record QueuedMessage (M P : Type 0) : Type 0 where
  pub arrival : ℤ
  pub seq : ℕ
  pub from : M
  pub to : M
  pub payload : P

-- `Less` of the priority queue.
abbrev pub less : {M P : Type 0} → QueuedMessage M P → QueuedMessage M P → Bool
less a b =
    if ltb_ℤ a.arrival b.arrival
    then true
    else if eqb_ℤ a.arrival b.arrival
    then ltb a.seq b.seq
    else false

pub less_asymm : {M P : Type 0} (a b : QueuedMessage M P) → less a b ≡ true → less b a ≡ false
less_asymm a b h = ground arith

pub not_less_trans :
    {M P : Type 0} (a b c : QueuedMessage M P)
    → less b a ≡ false
    → less c b ≡ false
    → less c a ≡ false
not_less_trans a b c h k = ground arith

instance abbrev pub by_arrival : {M P : Type 0} → Order (QueuedMessage M P)
by_arrival = record { lt = less; lt_asymm = less_asymm; not_lt_trans = not_less_trans }

instance abbrev pub queued_zero :
    {M P : Type 0} ⦃m : Zero M⦄ ⦃p : Zero P⦄ → Zero (QueuedMessage M P)
queued_zero ⦃m⦄ ⦃p⦄ = record {
  zero_value = record {
    arrival = pos 0;
    seq = 0;
    from = m.zero_value;
    to = m.zero_value;
    payload = p.zero_value;
  };
}

pub record Simulator (M P : Type 0) : Type 0 where
  pub time : ℤ
  pub mq : List (QueuedMessage M P)
  pub seq : ℕ

-- A message with no receiver goes to its sender.
abbrev pub or_self : {M : Type 0} → Option M → M → M
or_self none from = from
or_self (some to) from = to

module _ {M P : Type 0} where
  pub events_queued : Simulator M P → ℕ
  events_queued s = length s.mq

  pub events_delivered : Simulator M P → ℕ
  events_delivered s = s.seq - length s.mq

  unfoldable pub drained : Simulator M P → Bool
  drained s = length s.mq == 0

module _ {M P : Type 0} ⦃zm : Zero M⦄ ⦃zp : Zero P⦄ where
  pub schedule_message : Simulator M P → OutgoingMessage M P → M → Simulator M P
  unfolding heap_push ◌+ℤ◌ int64
  schedule_message s msg from =
      let m : QueuedMessage M P = record {
        arrival = int64 (s.time +ℤ msg.delay);
        seq = s.seq;
        from = from;
        to = or_self msg.to from;
        payload = msg.payload;
      } in
      record s { mq = heap_push s.mq m; seq = s.seq + 1 }

  pub schedule_messages : Simulator M P → List (OutgoingMessage M P) → M → Simulator M P
  unfolding schedule_message
  schedule_messages s [] from = s
  schedule_messages s (msg ∷ msgs) from = schedule_messages (schedule_message s msg from) msgs from

  -- The handlers: the modules' state, the receiver, the payload, the sender and the time.
  module _ {S : Type 0} (handle : S → M → P → M → ℤ → List (OutgoingMessage M P) × S) where
    -- `none` is the panic "time reversal".
    pub deliver_next_message : Simulator M P → S → Option (Simulator M P × S)
    unfolding heap_pop schedule_messages
    deliver_next_message s w =
        let (m, rest) = heap_pop s.mq in
        let (nm, w') = handle w m.to m.payload m.from m.arrival in
        let s' : Simulator M P = record s { mq = rest; time = m.arrival } in
        if ltb_ℤ m.arrival s.time then none else some (schedule_messages s' nm m.to, w')

    pub run_until : ℕ → ℤ → Simulator M P → S → Outcome (Simulator M P × S)
    unfolding deliver_next_message drained
    run_until zero t s w = running
    run_until (suc fuel) t s w =
        let rest = and_then (deliver_next_message s w) (λ r. run_until fuel t r.0 r.1) in
        if not (drained s) && not (ltb_ℤ t s.time) then rest else ok (s, w)

    pub run : ℕ → Simulator M P → S → Outcome (Simulator M P × S)
    unfolding deliver_next_message drained
    run zero s w = running
    run (suc fuel) s w =
        let rest = and_then (deliver_next_message s w) (λ r. run fuel r.0 r.1) in
        if not (drained s) then rest else ok (s, w)
