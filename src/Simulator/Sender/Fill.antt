-- ===== src/Simulator/Sender/Fill.antt =====
-- simulator/node.go: tryFillSendWindow, whether a block is encoded or one may start.
use rateless_set_reconcile.Base.{
  ℕ, zero, suc, ◌≤◌, ◌<◌, ◌≡◌, refl, ◌∙◌, Bool, true, false, Bool-cases, inl, inr, none, some, List,
  [], ◌∷◌, length, if◌then◌else◌, arith,
}
use rateless_set_reconcile.Base.Int.{pos, ◌≤ℤ◌, ltb_ℤ, +ℤ_parts}
use rateless_set_reconcile.Base.Outcome.{ok}
use rateless_set_reconcile.Lt.Encoder.{Hasher, Rng, DegreeDistribution}
use rateless_set_reconcile.Simulator.Message.{Codeword}
use rateless_set_reconcile.Simulator.Sender.{
  Floats, Soliton, Sender, min_block_size, start_block, produce, send, try_produce_codeword,
  try_fill_send_window,
}
use rateless_set_reconcile.Simulator.Sender.Block.{IsPositive, start_block-busy}
use rateless_set_reconcile.Simulator.Sender.Encoding.{
  room, IsSender, IsSent, IsFull, Fills, fill-sent, fill-stopped, fill-full, produce-busy,
  encoding-Fills, send-encoding, send-busy, send-IsSent, nothing-IsSent,
}

module _ {F R D : Type 0} ⦃f : Floats F⦄ ⦃s : Soliton D⦄ ⦃h : Hasher⦄ ⦃r : Rng R⦄
    ⦃dist : DegreeDistribution D⦄ where
  -- No block is being encoded: none starts, or one starts with the whole buffer.
  produce-none :
      (n : Sender F R D) (may_start : Bool)
      → n.encoding_current_block ≡ false
      → (may_start ≡ true → ltb_ℤ (pos (length n.buffer)) (min_block_size n) ≡ true)
      → try_produce_codeword n may_start ≡ some (none, n)
  unfolding try_produce_codeword
  produce-none n true off small = rw (off, small refl) refl
  produce-none n false off small = rw off refl

  produce-start :
      (n : Sender F R D)
      → n.encoding_current_block ≡ false
      → ltb_ℤ (pos (length n.buffer)) (min_block_size n) ≡ false
      → try_produce_codeword n true ≡ produce (start_block n) true
  unfolding try_produce_codeword
  produce-start n off large = rw (off, large) refl

  start-same :
      (n : Sender F R D)
      → ((start_block n).outbox ≡ n.outbox)
        × ((start_block n).in_flight ≡ n.in_flight)
        × ((start_block n).encoding_current_block ≡ true)
  unfolding start_block
  start-same n = (refl, refl, refl)

  send-room-le :
      (n : Sender F R D) (cw : Codeword)
      → room (send n cw).send_window (send n cw).in_flight ≤ room n.send_window n.in_flight
  unfolding send
  send-room-le n cw = let more = +ℤ_parts n.in_flight (pos 1) in omega (arith, more)

  -- The rounds that are enough: a block that starts fills the window from empty at most.
  abbrev pub rounds : Sender F R D → ℕ
  rounds n =
      if n.encoding_current_block
      then room n.send_window n.in_flight
      else suc (room (start_block n).send_window n.in_flight)

  start-Fills :
      (fuel : ℕ) (n : Sender F R D)
      → IsPositive dist
      → n.encoding_current_block ≡ false
      → 0 < length n.buffer
      → ltb_ℤ (pos (length n.buffer)) (min_block_size n) ≡ false
      → ltb_ℤ n.in_flight n.send_window ≡ true
      → room (start_block n).send_window n.in_flight < fuel
      → Fills n (try_fill_send_window (suc fuel) n true)
  start-Fills fuel n p off busy large fits enough =
      let (out₀, flight₀, on₀) = start-same n in
      let (cw, n₁, ran, still, out, flight, window, on₁) =
        produce-busy (start_block n) true p (start_block-busy n busy) in
      let fewer = send-room-le n₁ cw in
      let less : room n₁.send_window n₁.in_flight < fuel = rw (window, flight, flight₀) enough in
      let (n', sent, rest, v, s', full) =
        encoding-Fills fuel (send n₁ cw) true p (send-encoding n₁ cw ∙ on₁ ∙ on₀)
          (send-busy n₁ cw still) (omega (arith, fewer, less)) in
      (
        n',
        cw ∷ sent,
        fill-sent fuel n n₁ true cw fits (produce-start n off large ∙ ran) ∙ rest,
        v,
        send-IsSent n n₁ n' cw sent (out ∙ out₀) (flight ∙ flight₀) s',
        full,
      )

  stopped-Fills :
      (fuel : ℕ) (n : Sender F R D) (may_start : Bool)
      → n.encoding_current_block ≡ false
      → (may_start ≡ true → ltb_ℤ (pos (length n.buffer)) (min_block_size n) ≡ true)
      → ltb_ℤ n.in_flight n.send_window ≡ true
      → Fills n (try_fill_send_window (suc fuel) n may_start)
  stopped-Fills fuel n may_start off small fits = (
    n,
    [],
    fill-stopped fuel n may_start fits (produce-none n may_start off small),
    (λ on. absurd (ground arith)),
    nothing-IsSent n,
    inr off,
  )

  idle-Fills :
      (may_start : Bool) (fuel : ℕ) (n : Sender F R D)
      → IsPositive dist
      → pos 1 ≤ℤ min_block_size n
      → n.encoding_current_block ≡ false
      → ltb_ℤ n.in_flight n.send_window ≡ true
      → room (start_block n).send_window n.in_flight < fuel
      → Fills n (try_fill_send_window (suc fuel) n may_start)
  idle-Fills false fuel n p m off fits enough =
      stopped-Fills fuel n false off (λ no. absurd (ground arith)) fits
  idle-Fills true fuel n p m off fits enough =
      elim (Bool-cases (ltb_ℤ (pos (length n.buffer)) (min_block_size n))) [
        | inl small ↦ stopped-Fills fuel n true off (λ yes. small) fits
        | inr large ↦ start-Fills fuel n p off (ground arith) large fits enough
      ]

  off-Fills :
      (fuel : ℕ) (n : Sender F R D) (may_start : Bool)
      → IsPositive dist
      → pos 1 ≤ℤ min_block_size n
      → n.encoding_current_block ≡ false
      → suc (room (start_block n).send_window n.in_flight) < fuel
      → Fills n (try_fill_send_window fuel n may_start)
  off-Fills zero n may_start p m off enough = absurd (omega arith)
  off-Fills (suc fuel) n may_start p m off enough =
      elim (Bool-cases (ltb_ℤ n.in_flight n.send_window)) [
        | inl fits ↦ idle-Fills may_start fuel n p m off fits (omega arith)
        | inr full ↦ (
          n,
          [],
          fill-full fuel n may_start full,
          (λ on. absurd (ground arith)),
          nothing-IsSent n,
          inl full,
        )
      ]

  -- tryFillSendWindow of the simulator's sender returns, if the degrees drawn are positive as an
  -- int, the smallest block size is at least one, the encoder has transactions while a block is
  -- encoded, and the fuel is above the room in the window (or, when no block is encoded, above one
  -- and the room in the window of a block that starts with the whole buffer); it reaches no panic,
  -- the codewords it puts into the outbox are as many as it adds to those in flight, and
  -- afterwards the window is full or no block is being encoded.
  pub try_fill_send_window-Fills :
      (fuel : ℕ) (n : Sender F R D) (may_start : Bool)
      → IsPositive dist
      → pos 1 ≤ℤ min_block_size n
      → IsSender n
      → rounds n < fuel
      → (n' : Sender F R D) × (sent : List Codeword) × (try_fill_send_window fuel n may_start
          ≡ ok n')
        × IsSender n'
        × IsSent n sent n'
        × IsFull n'
  unfolding start_block
  try_fill_send_window-Fills fuel n may_start p m v enough =
      elim (Bool-cases n.encoding_current_block) [
        | inl on ↦ encoding-Fills fuel n may_start p on (v on) (rw on at enough)
        | inr off ↦ off-Fills fuel n may_start p m off (rw off at enough)
      ]
