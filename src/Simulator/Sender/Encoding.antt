-- ===== src/Simulator/Sender/Encoding.antt =====
-- simulator/node.go: filling the send window while a block is encoded.
use mathlib.Core.List.{append_assoc, append-nil}
use rateless_set_reconcile.Base.{
  ℕ, zero, suc, ◌+◌, ◌-◌, ◌<◌, ◌≡◌, refl, sym, ap, ◌∙◌, ◌⊎◌, Bool, true, false, Bool-cases, inl,
  inr, none, some, List, [], ◌∷◌, ◌++◌, length, map, arith,
}
use rateless_set_reconcile.Base.Int.{ℤ, pos, negsuc, pos_part, neg_part, ◌+ℤ◌, ltb_ℤ, +ℤ_parts}
use rateless_set_reconcile.Base.Outcome.{Outcome, ok}
use rateless_set_reconcile.Lt.Encoder.{Hasher, Rng, DegreeDistribution}
use rateless_set_reconcile.Simulator.Message.{Codeword, Message, codeword}
use rateless_set_reconcile.Simulator.Sender.{
  Floats, Soliton, Sender, produce, send, try_produce_codeword, try_fill_send_window,
}
use rateless_set_reconcile.Simulator.Sender.Block.{IsPositive, produce_codeword-busy}

-- How many codewords the window has room for.
abbrev pub room : ℤ → ℤ → ℕ
room window in_flight =
    (pos_part window + neg_part in_flight) - (pos_part in_flight + neg_part window)

+ℤ_zero : (a : ℤ) → a +ℤ pos 0 ≡ a
unfolding ◌+ℤ◌
+ℤ_zero (pos n) = ground arith
+ℤ_zero (negsuc n) = ground arith

+ℤ_one : (a : ℤ) (n : ℕ) → (a +ℤ pos 1) +ℤ pos n ≡ a +ℤ pos (suc n)
unfolding ◌+ℤ◌
+ℤ_one (pos k) n = ground arith
+ℤ_one (negsuc k) n = ground arith

module _ {F R D : Type 0} where
  -- While a block is encoded, the encoder has transactions.
  abbrev pub IsSender : Sender F R D → Type 0
  IsSender n = n.encoding_current_block ≡ true → 0 < length n.encoder.window

  -- The codewords `sent` are in the outbox and in flight.
  abbrev pub IsSent : Sender F R D → List Codeword → Sender F R D → Type 0
  IsSent n sent n' =
      (n'.outbox ≡ n.outbox ++ map codeword sent)
      × (n'.in_flight ≡ n.in_flight +ℤ pos (length sent))

  -- The window is full, or no block is being encoded.
  abbrev pub IsFull : Sender F R D → Type 0
  IsFull n = (ltb_ℤ n.in_flight n.send_window ≡ false) ⊎ (n.encoding_current_block ≡ false)

  pub nothing-IsSent : (n : Sender F R D) → IsSent n [] n
  nothing-IsSent n = (sym (append-nil n.outbox), sym (+ℤ_zero n.in_flight))

  pub send-encoding :
      (n : Sender F R D) (cw : Codeword)
      → (send n cw).encoding_current_block ≡ n.encoding_current_block
  unfolding send
  send-encoding n cw = refl

  pub send-busy :
      (n : Sender F R D) (cw : Codeword)
      → 0 < length n.encoder.window
      → 0 < length (send n cw).encoder.window
  unfolding send
  send-busy n cw some_left = some_left

  pub send-IsSent :
      (n n₁ n' : Sender F R D) (cw : Codeword) (sent : List Codeword)
      → n₁.outbox ≡ n.outbox
      → n₁.in_flight ≡ n.in_flight
      → IsSent (send n₁ cw) sent n'
      → IsSent n (cw ∷ sent) n'
  unfolding send
  send-IsSent n n₁ n' cw sent a b (out, flight) = (
    out
        ∙ ap (λ (o : List Message). (o ++ codeword cw ∷ []) ++ map codeword sent) a
        ∙ append_assoc n.outbox (codeword cw ∷ []) (map codeword sent),
    flight ∙ ap (λ (i : ℤ). (i +ℤ pos 1) +ℤ pos (length sent)) b ∙ +ℤ_one n.in_flight (length sent),
  )

module _ {F R D : Type 0} ⦃f : Floats F⦄ ⦃s : Soliton D⦄ ⦃h : Hasher⦄ ⦃r : Rng R⦄
    ⦃dist : DegreeDistribution D⦄ where
  abbrev pub Fills : Sender F R D → Outcome (Sender F R D) → Type 0
  Fills n o =
      (n' : Sender F R D) × (sent : List Codeword) × (o ≡ ok n')
      × IsSender n'
      × IsSent n sent n'
      × IsFull n'

  pub produce-busy :
      (n : Sender F R D) (new_block : Bool)
      → IsPositive dist
      → 0 < length n.encoder.window
      → (cw : Codeword) × (n' : Sender F R D) × (produce n new_block ≡ some (some cw, n'))
        × (0 < length n'.encoder.window)
        × (n'.outbox ≡ n.outbox)
        × (n'.in_flight ≡ n.in_flight)
        × (n'.send_window ≡ n.send_window)
        × (n'.encoding_current_block ≡ n.encoding_current_block)
  unfolding produce
  produce-busy n new_block p some_left =
      let (c, e, ran, still) = produce_codeword-busy n.encoder p some_left in
      (
        record { raw = c; new_block = new_block },
        record n { encoder = e },
        rw ran refl,
        still,
        refl,
        refl,
        refl,
        refl,
      )

  -- The three ways in which a round goes on.
  pub fill-sent :
      (fuel : ℕ) (n n₁ : Sender F R D) (may_start : Bool) (cw : Codeword)
      → ltb_ℤ n.in_flight n.send_window ≡ true
      → try_produce_codeword n may_start ≡ some (some cw, n₁)
      → try_fill_send_window (suc fuel) n may_start
        ≡ try_fill_send_window fuel (send n₁ cw) may_start
  unfolding try_fill_send_window
  fill-sent fuel n n₁ may_start cw fits ran = rw (fits, ran) refl

  pub fill-stopped :
      (fuel : ℕ) (n : Sender F R D) (may_start : Bool)
      → ltb_ℤ n.in_flight n.send_window ≡ true
      → try_produce_codeword n may_start ≡ some (none, n)
      → try_fill_send_window (suc fuel) n may_start ≡ ok n
  unfolding try_fill_send_window
  fill-stopped fuel n may_start fits ran = rw (fits, ran) refl

  pub fill-full :
      (fuel : ℕ) (n : Sender F R D) (may_start : Bool)
      → ltb_ℤ n.in_flight n.send_window ≡ false
      → try_fill_send_window (suc fuel) n may_start ≡ ok n
  unfolding try_fill_send_window
  fill-full fuel n may_start full = rw full refl

  produce-encoding :
      (n : Sender F R D) (may_start : Bool)
      → n.encoding_current_block ≡ true
      → try_produce_codeword n may_start ≡ produce n false
  unfolding try_produce_codeword
  produce-encoding n may_start on = rw on refl

  send-room :
      (n n₁ : Sender F R D) (cw : Codeword) (fuel : ℕ)
      → ltb_ℤ n.in_flight n.send_window ≡ true
      → n₁.in_flight ≡ n.in_flight
      → room n₁.send_window n.in_flight < suc fuel
      → ltb_ℤ n.in_flight n₁.send_window ≡ true
      → room (send n₁ cw).send_window (send n₁ cw).in_flight < fuel
  unfolding send
  send-room n n₁ cw fuel fits flight enough fits₁ =
      let more = +ℤ_parts n.in_flight (pos 1) in rw flight (ground (arith, more))

  -- While a block is encoded.
  pub encoding-Fills :
      (fuel : ℕ) (n : Sender F R D) (may_start : Bool)
      → IsPositive dist
      → n.encoding_current_block ≡ true
      → 0 < length n.encoder.window
      → room n.send_window n.in_flight < fuel
      → Fills n (try_fill_send_window fuel n may_start)
  encoding-Fills zero n may_start p on some_left enough = absurd (omega arith)
  encoding-Fills (suc fuel) n may_start p on some_left enough =
      elim (Bool-cases (ltb_ℤ n.in_flight n.send_window)) [
        | inl fits ↦
            let (cw, n₁, ran, still, out, flight, window, on₁) = produce-busy n false p some_left in
            let less = send-room n n₁ cw fuel fits flight (rw window enough) (rw window fits) in
            let on' : (send n₁ cw).encoding_current_block ≡ true = send-encoding n₁ cw ∙ on₁ ∙ on in
            let (n', sent, rest, v, s', full) =
              encoding-Fills fuel (send n₁ cw) may_start p on' (send-busy n₁ cw still) less in
            (
              n',
              cw ∷ sent,
              fill-sent fuel n n₁ may_start cw fits (produce-encoding n may_start on ∙ ran) ∙ rest,
              v,
              send-IsSent n n₁ n' cw sent out flight s',
              full,
            )
        | inr full ↦
            (n, [], fill-full fuel n may_start full, λ q. some_left, nothing-IsSent n, inl full)
      ]
