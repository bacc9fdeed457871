-- ===== src/Simulator/Limiter/Spacing.antt =====
-- simulator/module.go: the slots at which a server forwards its transactions.
use mathlib.Core.List.{append_assoc, append-nil}
use rateless_set_reconcile.Base.{
  ℕ, suc, ◌+◌, ◌*◌, ◌<◌, ◌≡◌, refl, sym, ap, subst, ◌∙◌, ◌⊎◌, inl, inr, Bool-cases, List, [], ◌∷◌,
  ◌++◌, length, none, All, arith,
}
use rateless_set_reconcile.Base.Int.{
  ℤ, pos, pos_part, ◌+ℤ◌, ◌-ℤ◌, ◌≤ℤ◌, +ℤ_parts, -ℤ_parts, ltb_ℤ, +ℤ-natural, -ℤ-natural, Fits,
  int64-Fits,
}
use rateless_set_reconcile.Base.Word.{i63}
use rateless_set_reconcile.Simulator.Transaction.{Hashed}
use rateless_set_reconcile.Simulator.Message.{loopback}
use rateless_set_reconcile.Simulator.Limiter.{
  RateLimiter, Outgoing, schedule_from, first_slot, schedule_forwarding_transactions,
}

-- The messages are one for each transaction, in their order, to the server itself; the first is due at
-- `slot`, and each of the others the interval after the one before; `after` is the slot after the last.
abbrev pub IsSpaced : ℤ → ℤ → ℤ → ℤ → List Hashed → List Outgoing → Type 0
IsSpaced interval slot at after [] msgs = (msgs ≡ []) × (after ≡ slot)
IsSpaced interval slot at after (tx ∷ txs) [] = ⊥
IsSpaced interval slot at after (tx ∷ txs) (msg ∷ msgs) =
    (msg.payload ≡ loopback tx)
    × (msg.to ≡ none)
    × (msg.delay ≡ slot -ℤ at)
    × IsSpaced interval (slot +ℤ interval) at after txs msgs

IsSpaced-All :
    (txs : List Hashed) (interval slot at after : ℤ) (msgs : List Outgoing)
    → pos 0 ≤ℤ interval
    → at ≤ℤ slot
    → IsSpaced interval slot at after txs msgs
    → All (λ msg. pos 0 ≤ℤ msg.delay) msgs
IsSpaced-All [] interval slot at after [] i v s = tt
IsSpaced-All [] interval slot at after (msg ∷ msgs) i v s =
    (let gone = ap length (s.0) in absurd (omega arith))
IsSpaced-All (tx ∷ txs) interval slot at after [] i v s = tt
IsSpaced-All (tx ∷ txs) interval slot at after (msg ∷ msgs) i v s =
    let now = -ℤ_parts slot at in
    let later = +ℤ_parts slot interval in
    (
      rw (s.2) (omega (arith, now)),
      IsSpaced-All txs interval (slot +ℤ interval) at after msgs i (omega (arith, later)) s.3,
    )

-- A slot and the `k` intervals after it are natural, and fit an `int64`.
abbrev pub HasRoom : ℤ → ℤ → ℕ → Type 0
HasRoom slot interval k = (pos 0 ≤ℤ slot) × (pos_part slot + pos_part interval * k < i63)

HasRoom-next :
    (slot interval : ℤ) (k : ℕ)
    → pos 0 ≤ℤ interval
    → HasRoom slot interval (suc k)
    → HasRoom (slot +ℤ interval) interval k × Fits (slot +ℤ interval)
HasRoom-next slot interval k i room =
    let (sum, natural) = +ℤ-natural slot interval room.0 i in
    ((omega arith, omega arith), (omega arith, omega arith))

delay-Fits : (slot at : ℤ) → pos 0 ≤ℤ at → at ≤ℤ slot → pos_part slot < i63 → Fits (slot -ℤ at)
delay-Fits slot at p q r =
    let (difference, natural) = -ℤ-natural slot at p q in (omega arith, omega arith)

-- With no transaction left, the last slot used is the interval before `slot`.
abbrev Follows : RateLimiter → ℤ → List Hashed → Type 0
Follows l slot [] = l.last_scheduled +ℤ l.min_interval ≡ slot
Follows l slot (tx ∷ txs) = Unit {0}

Follows-after :
    (txs : List Hashed) (l : RateLimiter) → Follows l (l.last_scheduled +ℤ l.min_interval) txs
Follows-after [] l = refl
Follows-after (tx ∷ txs) l = tt

schedule_from-step :
    (tx : Hashed) (txs : List Hashed) (l : RateLimiter) (slot : ℤ) (out : List Outgoing) (at : ℤ)
    → Fits (slot +ℤ l.min_interval)
    → Fits (slot -ℤ at)
    → schedule_from l slot out (tx ∷ txs) at
      ≡ schedule_from
          (record l { last_scheduled = slot })
          (slot +ℤ l.min_interval)
          (out ++ record { payload = loopback tx; to = none; delay = slot -ℤ at } ∷ [])
          txs
          at
unfolding schedule_from
schedule_from-step tx txs l slot out at p q i =
    schedule_from (record l { last_scheduled = slot }) (int64-Fits (slot +ℤ l.min_interval) p i)
      (out ++ record { payload = loopback tx; to = none; delay = int64-Fits (slot -ℤ at) q i } ∷ [])
      txs at

-- What the loop leaves: the messages it sent are spaced.
abbrev Leaves : ℤ → ℤ → ℤ → List Outgoing → List Hashed → RateLimiter × List Outgoing → Type 0
Leaves interval slot at out txs r =
    (msgs : List Outgoing) × (r.1 ≡ out ++ msgs)
    × IsSpaced interval slot at (r.0.last_scheduled +ℤ interval) txs msgs
    × (r.0.min_interval ≡ interval)

schedule_from-IsSpaced :
    (txs : List Hashed) (l : RateLimiter) (slot : ℤ) (out : List Outgoing) (at : ℤ)
    → Follows l slot txs
    → pos 0 ≤ℤ at
    → at ≤ℤ slot
    → pos 0 ≤ℤ l.min_interval
    → HasRoom slot l.min_interval (length txs)
    → Leaves l.min_interval slot at out txs (schedule_from l slot out txs at)
unfolding schedule_from
schedule_from-IsSpaced [] l slot out at e p q i room = ([], sym (append-nil out), (refl, e), refl)
schedule_from-IsSpaced (tx ∷ txs) l slot out at e p q i room =
    let msg : Outgoing = record { payload = loopback tx; to = none; delay = slot -ℤ at } in
    let (room', fits) = HasRoom-next slot l.min_interval (length txs) i room in
    let later = +ℤ_parts slot l.min_interval in
    let (msgs, ran, spaced, same) =
      schedule_from-IsSpaced txs (record l { last_scheduled = slot }) (slot +ℤ l.min_interval)
        (out ++ msg ∷ []) at (Follows-after txs (record l { last_scheduled = slot })) p
        (omega arith) i room' in
    let step =
      schedule_from-step tx txs l slot out at fits
        (delay-Fits slot at p q (omega (arith, room.1))) in
    subst (Leaves l.min_interval slot at out (tx ∷ txs)) (sym step)
      (msg ∷ msgs, ran ∙ append_assoc out (msg ∷ []) msgs, (refl, refl, refl, spaced), same)

-- The first slot, when the sum does not wrap around.
abbrev pub IsFirstSlot : RateLimiter → ℤ → ℤ → Type 0
IsFirstSlot l at slot =
    (at ≤ℤ slot)
    × (l.last_scheduled +ℤ l.min_interval ≤ℤ slot)
    × ((slot ≡ at) ⊎ (slot ≡ l.last_scheduled +ℤ l.min_interval))

first_slot-IsFirstSlot :
    (l : RateLimiter) (at : ℤ)
    → Fits (l.last_scheduled +ℤ l.min_interval)
    → IsFirstSlot l at (first_slot l at)
first_slot-IsFirstSlot l at fits =
    elim (Bool-cases (ltb_ℤ at (l.last_scheduled +ℤ l.min_interval))) [
      | inl later ↦
          rw (int64-Fits (l.last_scheduled +ℤ l.min_interval) fits, later)
            (ground arith, omega arith, inr refl)
      | inr now ↦
          rw (int64-Fits (l.last_scheduled +ℤ l.min_interval) fits, now)
            (omega arith, ground arith, inl refl)
    ]

HasRoom-first :
    (l : RateLimiter) (at slot : ℤ) (k : ℕ)
    → IsFirstSlot l at slot
    → HasRoom at l.min_interval k
    → HasRoom (l.last_scheduled +ℤ l.min_interval) l.min_interval k
    → HasRoom slot l.min_interval k
HasRoom-first l at slot k (_, _, inl now) a b = rw now a
HasRoom-first l at slot k (_, _, inr later) a b = rw later b

module _ (l : RateLimiter) (out : List Outgoing) (tx : Hashed) (txs : List Hashed) (at : ℤ) where
  -- For at least one transaction, an interval that is not negative, and a time and a last slot
  -- that are not negative and leave room in an int64 for the intervals of all the transactions
  -- (and one more after the last slot), scheduleForwardingTransactions sends one message for each
  -- transaction, in their order, to the server itself: the first slot is the time or the interval
  -- after the last one used before, whichever is later, each further slot is the interval after
  -- the one before, what is remembered is the last slot used, and no delay is negative.
  pub schedule_forwarding_transactions-IsSpaced :
      pos 0 ≤ℤ l.min_interval
      → HasRoom at l.min_interval (length (tx ∷ txs))
      → HasRoom l.last_scheduled l.min_interval (suc (length (tx ∷ txs)))
      → let r = schedule_forwarding_transactions l out (tx ∷ txs) at in
        (msgs : List Outgoing) × (slot : ℤ) × (r.1 ≡ out ++ msgs)
        × IsSpaced l.min_interval slot at (r.0.last_scheduled +ℤ l.min_interval) (tx ∷ txs) msgs
        × IsFirstSlot l at slot
        × All (λ msg. pos 0 ≤ℤ msg.delay) msgs
  unfolding schedule_forwarding_transactions schedule_from
  schedule_forwarding_transactions-IsSpaced i room_at room_last =
      let slot = first_slot l at in
      let (room_next, fits) =
        HasRoom-next l.last_scheduled l.min_interval (length (tx ∷ txs)) i room_last in
      let first = first_slot-IsFirstSlot l at fits in
      let room = HasRoom-first l at slot (length (tx ∷ txs)) first room_at room_next in
      let (msgs, ran, spaced, same) =
        schedule_from-IsSpaced (tx ∷ txs) l slot out at tt room_at.0 first.0 i room in
      (
        msgs,
        slot,
        ran,
        spaced,
        first,
        IsSpaced-All (tx ∷ txs) l.min_interval slot at
            ((schedule_forwarding_transactions l out (tx ∷ txs) at).0.last_scheduled
              +ℤ l.min_interval)
            msgs i first.0 spaced,
      )
