-- ===== src/Simulator/Server/Handle.antt =====
-- simulator/module.go: HandleMessage.
-- The servers are reached by their numbers, since a server reads the decoders of its peers.
use rateless_set_reconcile.Base.{
  ℕ, zero, suc, ◌+◌, true, Option, none, some, List, [], ◌∷◌, ◌++◌, length, ◌==◌, if◌then◌else◌,
}
use rateless_set_reconcile.Base.Int.{ℤ}
use rateless_set_reconcile.Base.Outcome.{Outcome, ok, panic, ◌>>=◌, or_panic}
use rateless_set_reconcile.Base.Table.{update}
use rateless_set_reconcile.Lt.Encoder.{Hasher, Rng, DegreeDistribution}
use rateless_set_reconcile.Lt.Decoder.{Decoder, has_decoded, add_transaction}
use rateless_set_reconcile.Newsim.Server.Handle.{bits}
use rateless_set_reconcile.Simulator.Transaction.{
  Transaction, Hashed, transaction_data, transaction_comparable, generate, Sketches,
  DistributionSketch, record_ratio, record_tx_latency,
}
use rateless_set_reconcile.Simulator.Message.{
  Message, codeword, ack, block_arrival, loopback, create_new_block,
}
use rateless_set_reconcile.Simulator.Sender.{
  Floats, Soliton, on_ack, on_transaction, try_fill_send_window,
}
use rateless_set_reconcile.Simulator.Receiver.{on_codeword}
use rateless_set_reconcile.Simulator.Limiter.{Outgoing}
use rateless_set_reconcile.Simulator.Server.{
  Server, Intervals, find_handler, set_handler, collect_outgoing_messages, each_sender,
  register_received, can_start_new_block, schedule,
}

-- All servers, and the number of the next transaction that any of them generates.
pub record World (F R D K : Type 0) : Type 0 where
  pub servers : ℕ → Server F R D K
  pub next : ℕ

abbrev to_itself : ℤ → Message → Outgoing
to_itself delay m = record { payload = m; to = none; delay = delay }

-- How many of the transactions a decoder has received.
unfoldable pub overlap : ⦃h : Hasher⦄ → Decoder Transaction → List Hashed → ℕ
unfolding has_decoded
overlap e [] = 0
overlap e (tx ∷ txs) = let rest = overlap e txs in if has_decoded e tx then suc rest else rest

module _ {F R D K : Type 0} ⦃h : Hasher⦄ where
  -- The loop of a block arrival.
  unfoldable pub arrive :
      ℕ → ℕ → ℤ → Server F R D K → ℕ → List Hashed → Outcome (Server F R D K × ℕ × List Hashed)
  unfolding generate register_received add_transaction
  arrive fuel zero at s next txs = ok (s, next, txs)
  arrive fuel (suc n) at s next txs =
      let (tx, next') = generate next (bits at) in
      register_received s tx >>= λ s'. add_transaction fuel s'.decoder tx >>= λ r.
      let rest = arrive fuel n at (record s' { decoder = r.0 }) next' (txs ++ tx ∷ []) in
      if length r.1 == 0 then rest else panic

module _ {F R D K : Type 0} where
  -- The transactions that a codeword gave.
  unfoldable pub register_decoded :
      ⦃k : Sketches K⦄ → ℤ → Server F R D K → List Hashed → Outcome (Server F R D K)
  unfolding register_received record_tx_latency
  register_decoded at s [] = ok s
  register_decoded at s (tx ∷ txs) = register_received s tx >>= λ s'.
      register_decoded at
        (record s' { latency_sketch = record_tx_latency s'.latency_sketch tx.tx_data at }) txs

module _ {F R D K : Type 0} ⦃h : Hasher⦄ where
  -- The overlap of a block that starts, of which the message is the first codeword.
  unfoldable pub measure_overlap :
      ⦃k : Sketches K⦄
      → World F R D K
      → ℕ
      → ℤ
      → Message
      → Option ℕ
      → Option (DistributionSketch K)
      → Outcome (Option (DistributionSketch K))
  unfolding overlap find_handler record_ratio
  measure_overlap w self at (codeword cw) (some peer) l =
      let measured = or_panic (find_handler (w.servers peer).handlers self) >>= λ theirs.
      or_panic (find_handler (w.servers self).handlers peer) >>= λ ours. ok (
        record_ratio l (overlap (w.servers peer).decoder ours.sender.current_block)
          (length ours.sender.current_block) at) in
      if cw.new_block then measured else ok l
  measure_overlap w self at (codeword cw) none l = if cw.new_block then panic else ok l
  measure_overlap w self at m to l = ok l

  unfoldable pub measure_overlaps :
      ⦃k : Sketches K⦄
      → World F R D K
      → ℕ
      → ℤ
      → List Outgoing
      → Option (DistributionSketch K)
      → Outcome (Option (DistributionSketch K))
  unfolding measure_overlap
  measure_overlaps w self at [] l = ok l
  measure_overlaps w self at (msg ∷ msgs) l =
      measure_overlap w self at msg.payload msg.to l >>= λ l'. measure_overlaps w self at msgs l'

module _ {F R D K : Type 0} ⦃f : Floats F⦄ ⦃s : Soliton D⦄ ⦃h : Hasher⦄ ⦃r : Rng R⦄
    ⦃dist : DegreeDistribution D⦄ ⦃k : Sketches K⦄ ⦃v : Intervals R⦄ where
  -- The branches of HandleMessage: what the server becomes, what it sends, and the next number.
  unfoldable pub dispatch :
      ℕ → Server F R D K → ℕ → Message → ℕ → ℤ → Outcome (Server F R D K × List Outgoing × ℕ)
  unfolding arrive register_decoded on_codeword on_ack on_transaction try_fill_send_window schedule
      each_sender find_handler set_handler
  dispatch fuel a next (block_arrival n) from at =
      arrive fuel n at a next [] >>= λ (done : Server F R D K × ℕ × List Hashed).
      let (a', out) = schedule done.0 [] done.2 at in
      let (delay, rng) = v.next_interval a'.rng in
      ok (
        record a' { rng = rng },
        out ++ to_itself delay (block_arrival a'.block_arrival_burst) ∷ [],
        done.1,
      )
  dispatch fuel a next (loopback tx) from at =
      each_sender (λ n. on_transaction fuel n tx (can_start_new_block a)) a.handlers >>= λ handlers.
      ok (record a { handlers = handlers }, [], next)
  dispatch fuel a next create_new_block from at =
      each_sender (λ n. try_fill_send_window fuel n true) a.handlers >>= λ handlers.
      ok (
        record a { handlers = handlers },
        to_itself a.force_synchronize create_new_block ∷ [],
        next,
      )
  dispatch fuel a next (codeword cw) from at = or_panic (find_handler a.handlers from) >>= λ p.
      on_codeword fuel p.receiver a.decoder cw >>= λ c.
      let a₁ = record a {
        decoder = c.1;
        handlers = set_handler a.handlers from (record p { receiver = c.0 });
      } in
      register_decoded at a₁ c.2 >>= λ a₂.
      let a₃ = record a₂ {
        metric = record {
          decoded_transactions = a₂.metric.decoded_transactions + length c.2;
          received_codewords = a₂.metric.received_codewords + 1;
        };
      } in
      let (a₄, out) = schedule a₃ [] c.2 at in ok (a₄, out, next)
  dispatch fuel a next (ack ack_block) from at = or_panic (find_handler a.handlers from) >>= λ p.
      on_ack fuel p.sender ack_block (can_start_new_block a) >>= λ n.
      ok (record a { handlers = set_handler a.handlers from (record p { sender = n }) }, [], next)

  -- The overlap of the blocks that start, unless the sketch is nil.
  unfoldable pub record_overlaps :
      World F R D K
      → ℕ
      → ℤ
      → List Outgoing
      → Option (DistributionSketch K)
      → Outcome (World F R D K)
  unfolding measure_overlaps
  record_overlaps w self at out none = ok w
  record_overlaps w self at out (some l) = measure_overlaps w self at out (some l) >>= λ l'.
      ok (record w {
        servers = update w.servers self (record (w.servers self) { overlap_sketch = l' });
      })

  unfoldable pub handle_message :
      ℕ → World F R D K → ℕ → Message → ℕ → ℤ → Outcome (List Outgoing × World F R D K)
  unfolding dispatch record_overlaps collect_outgoing_messages
  handle_message fuel w self m from at =
      dispatch fuel (w.servers self) w.next m from at
      >>= λ (done : Server F R D K × List Outgoing × ℕ).
          let (out, handlers) = collect_outgoing_messages done.0.handlers done.1 in
          let w' : World F R D K = record {
            servers = update w.servers self (record done.0 { handlers = handlers });
            next = done.2;
          } in
          record_overlaps w' self at out (w'.servers self).overlap_sketch >>= λ w''. ok (out, w'')
