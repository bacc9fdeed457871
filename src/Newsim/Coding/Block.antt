-- ===== src/Newsim/Coding/Block.antt =====
-- newsim/coding.go: what the start of a block moves out of the buffers of the two ends.
use mathlib.Core.List.{append-nil, Perm, append_assoc}
use rateless_set_reconcile.Base.{◌≡◌, sym, ◌∙◌, true, false, List, [], ◌∷◌, ◌++◌, All}
use rateless_set_reconcile.Riblt.Symbol.{HashedSymbol}
use rateless_set_reconcile.Riblt.Window
use rateless_set_reconcile.Riblt.Window.{CodingWindow, hashed_zero}
use rateless_set_reconcile.Riblt.Decoder
use rateless_set_reconcile.Riblt.Decoder.{Decoder}
use rateless_set_reconcile.Newsim.Transaction.{Transaction, SipHash, transaction_symbol}
use rateless_set_reconcile.Newsim.Message.{Codeword}
use rateless_set_reconcile.Newsim.Shard.{split_shard}
use rateless_set_reconcile.Newsim.Shard.Split.{split_shard-IsSplit}
use rateless_set_reconcile.Newsim.Coding.Sending
use rateless_set_reconcile.Newsim.Coding.Sending.{Floats, Sender, in_block, block_start, block_end}
use rateless_set_reconcile.Newsim.Coding.Receiving
use rateless_set_reconcile.Newsim.Coding.Receiving.{Receiver}

symbols-add_all :
    (e : CodingWindow Transaction) (ts : List (HashedSymbol Transaction))
    → (Sending.add_all e ts).symbols ≡ e.symbols ++ ts
unfolding Sending.add_all Window.add_hashed_symbol Window.add_hashed_symbol_with_mapping
symbols-add_all e [] = sym (append-nil e.symbols)
symbols-add_all e (t ∷ ts) =
    symbols-add_all (Window.add_hashed_symbol e t) ts ∙ append_assoc e.symbols (t ∷ []) ts

window-add_all :
    (d : Decoder Transaction) (ts : List (HashedSymbol Transaction))
    → (Receiving.add_all d ts).window.symbols ≡ d.window.symbols ++ ts
unfolding Receiving.add_all Decoder.add_hashed_symbol Window.add_hashed_symbol
    Window.add_hashed_symbol_with_mapping
window-add_all d [] = sym (append-nil d.window.symbols)
window-add_all d (t ∷ ts) =
    window-add_all (Decoder.add_hashed_symbol d t) ts ∙ append_assoc d.window.symbols (t ∷ []) ts

module _ {F : Type 0} ⦃f : Floats F⦄ ⦃h : SipHash⦄ where
  -- The start of a block divides the sender's buffer: the encoder then holds the transactions of
  -- the shard and no others, the buffer keeps the transactions outside of it, and together they
  -- are the transactions that were in the buffer, each as often as before.
  pub start_block-divides :
      (n : Sender F)
      → let n' = Sending.start_block n in
        let belongs = in_block n.shard_randomizer (block_start n) (block_end n) in
        All (λ t. belongs t ≡ true) n'.encoder.symbols
        × All (λ t. belongs t ≡ false) n'.buffer
        × Perm (n'.encoder.symbols ++ n'.buffer) n.buffer
  unfolding Sending.start_block Window.reset
  start_block-divides n =
      let belongs = in_block n.shard_randomizer (block_start n) (block_end n) in
      let r = split_shard-IsSplit belongs n.buffer in
      let e = symbols-add_all (Window.reset n.encoder) (split_shard belongs n.buffer).0 in
      (rw e r.moved, r.kept, rw e r.same)

module _ ⦃h : SipHash⦄ where
  -- A codeword that starts a block adds to the decoder's own symbols exactly the transactions of
  -- the receiver's buffer that fall into the shard between its bounds, and leaves the others, each
  -- as often as before.
  pub start_block-adds :
      (n : Receiver) (cw : Codeword)
      → let n' = Receiving.start_block n cw in
        let belongs = in_block n.shard_randomizer cw.start_hash cw.end_hash in
        (moved : List (HashedSymbol Transaction)) × (n'.decoder.window.symbols
          ≡ n.decoder.window.symbols ++ moved)
        × All (λ t. belongs t ≡ true) moved
        × All (λ t. belongs t ≡ false) n'.buffer
        × Perm (moved ++ n'.buffer) n.buffer
  unfolding Receiving.start_block
  start_block-adds n cw =
      let belongs = in_block n.shard_randomizer cw.start_hash cw.end_hash in
      let r = split_shard-IsSplit belongs n.buffer in
      let moved = (split_shard belongs n.buffer).0 in
      (moved, window-add_all n.decoder moved, r.moved, r.kept, r.same)
