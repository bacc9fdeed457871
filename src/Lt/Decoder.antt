-- ===== src/Lt/Decoder.antt =====
-- lt/decoder.go: peeling the codewords received. `none` and `panic` are the panics of the source.
pub mod Memory
pub mod Peeling
pub mod Round
pub mod Building
pub mod Adding
pub mod Closing
pub mod Accept
mod Tests
use rateless_set_reconcile.Base.{
  ℕ, zero, suc, ◌+◌, ◌%◌, ◌^◌, ◌≡◌, Bool, true, false, not, ◌&&◌, Option, none, some, List, [], ◌∷◌,
  ◌++◌, length, ltb, leb, ◌==◌, if◌then◌else◌, ◌>>=◌,
}
use rateless_set_reconcile.Base.Outcome.{Outcome, ok, panic, running, and_then}
use rateless_set_reconcile.Base.Table.{Table, find, put, erase, is_some, update}
use rateless_set_reconcile.Lt.Encoder.{
  TransactionData, Transaction, Hasher, Codeword, SaltedTransaction, new_transaction, salted,
}
use rateless_set_reconcile.Lt.Links.{
  PendingTransaction, PendingCodeword, Links, set_codeword, new_codeword, new_pending, link,
  is_ready, mark_decoded, fail_to_decode,
}

-- `==` of the transactions' data, which are comparable.
pub record Comparable (T : Type 0) : Type 0 where
  pub same : T → T → Bool

pub record Decoder (T : Type 0) : Type 0 where
  pub received_transactions : Table (Transaction T)
  pub recent_transactions : List (SaltedTransaction T)
  pub pending_transactions : Table ℕ
  pub memory : ℕ
  pub links : Links T

-- `bytes.Equal`
abbrev pub same_bytes : List ℕ → List ℕ → Bool
same_bytes [] [] = true
same_bytes [] (y ∷ ys) = false
same_bytes (x ∷ xs) [] = false
same_bytes (x ∷ xs) (y ∷ ys) = x == y && same_bytes xs ys

module _ {T : Type 0} ⦃d : TransactionData T⦄ where
  unfoldable pub new_decoder : ℕ → Decoder T
  new_decoder memory = record {
    received_transactions = [];
    recent_transactions = [];
    pending_transactions = [];
    memory = memory;
    links = record {
      codewords =
          λ c. record { symbol = d.zero_value; members = []; queued = false; decoded = false };
      next_codeword = 0;
      pendings = λ p. record { salted_hash = 0; blocking = [] };
      next_pending = 0;
    };
  }

  unfoldable pub has_decoded : ⦃h : Hasher⦄ → Decoder T → Transaction T → Bool
  has_decoded e tx = is_some (find e.received_transactions (salted tx))

  -- The data of an entry of a map: the zero value where there is none.
  abbrev pub data_of : Option (Transaction T) → T
  data_of none = d.zero_value
  data_of (some t) = t.tx_data

-- A transaction that a failed codeword was the last to wait for is not pending any more.
abbrev pub erase_freed : Table ℕ → Option ℕ → Table ℕ
erase_freed pending none = pending
erase_freed pending (some k) = erase pending k

-- The decoder, the queue, and the transactions found.
abbrev pub Found : Type 0 → Type 0
Found T = Decoder T × List ℕ × List (Transaction T)

module _ {T : Type 0} ⦃d : TransactionData T⦄ ⦃c : Comparable T⦄ where
  -- One round of the loop that frees memory: the oldest transaction is forgotten.
  abbrev pub forget : SaltedTransaction T → Table (Transaction T) → Table (Transaction T)
  forget x received =
      if c.same (data_of (find received x.salted_hash)) x.transaction.tx_data
      then erase received x.salted_hash
      else received

  unfoldable pub free_memory :
      ℕ
      → List (SaltedTransaction T)
      → Table (Transaction T)
      → List (SaltedTransaction T) × Table (Transaction T)
  free_memory memory [] received = ([], received)
  free_memory memory (x ∷ xs) received =
      let rest = free_memory memory xs (forget x received) in
      if ltb memory (length (x ∷ xs)) then rest else (x ∷ xs, received)

  unfoldable pub store_new_transaction : Decoder T → ℕ → Transaction T → Decoder T
  unfolding free_memory
  store_new_transaction e hash t =
      let kept =
        free_memory e.memory
          (e.recent_transactions ++ record { salted_hash = hash; transaction = t } ∷ [])
          (put e.received_transactions hash t) in
      record e { recent_transactions = kept.0; received_transactions = kept.1 }

  module _ ⦃h : Hasher⦄ where
    -- A codeword whose last transaction is `p`.
    unfoldable pub decode_last : Decoder T → List ℕ → ℕ → ℕ → Option (Found T)
    unfolding store_new_transaction
    decode_last e queue c p =
        let hash = (e.links.pendings p).salted_hash in
        let t = new_transaction (e.links.codewords c).symbol in
        let failed = (do
          (freed, links) ← fail_to_decode e.links c
          some (
            record e {
              links = links;
              pending_transactions = erase_freed e.pending_transactions freed;
            },
            queue,
            [],
          )) in
        let e₁ =
          store_new_transaction
            (record e { pending_transactions = erase e.pending_transactions (salted t) }) (salted t)
            t in
        let found = (do
          (links, queue') ← mark_decoded e₁.links queue p t.tx_data
          some (record e₁ { links = links }, queue', t ∷ [])) in
        if is_some (find e.received_transactions hash)
        then none
        else if is_some (find e.pending_transactions hash)
        then (if salted t == hash then found else failed)
        else none

    -- The branches of `decodeCodewords` on the members of the codeword `c`.
    unfoldable pub decode_members : Decoder T → List ℕ → ℕ → List ℕ → Option (Found T)
    decode_members e queue c [] = some (e, queue, [])
    decode_members e queue c (p ∷ []) = decode_last e queue c p
    decode_members e queue c (p ∷ q ∷ ps) = none

    abbrev pub set_decoded : Decoder T → ℕ → Decoder T
    set_decoded e c = record e {
      links = set_codeword e.links c (record (e.links.codewords c) { decoded = true });
    }

    -- One round of `decodeCodewords`, on the codeword `c` from the top of the stack.
    unfoldable pub decode_round : Decoder T → List ℕ → ℕ → Option (Found T)
    unfolding decode_members
    decode_round e queue c =
        if (e.links.codewords c).queued
        then (do
          (e', queue', txs) ← decode_members e queue c (e.links.codewords c).members
          if leb (length (e'.links.codewords c).members) 0
              then some (set_decoded e' c, queue', txs)
              else none)
        else none

    unfoldable pub decode_codewords :
        ℕ → Decoder T → List ℕ → List (Transaction T) → Outcome (Decoder T × List (Transaction T))
    unfolding decode_round
    decode_codewords zero e queue txs = running
    decode_codewords (suc fuel) e [] txs = ok (e, txs)
    decode_codewords (suc fuel) e (c ∷ queue) txs =
        and_then (decode_round e queue c) (λ r. decode_codewords fuel r.0 r.1 (txs ++ r.2))

    -- One member of a raw codeword whose transaction is not received.
    unfoldable pub link_pending : Decoder T → ℕ → ℕ → Option ℕ → Decoder T
    link_pending e c member (some p) = record e { links = link e.links c p }
    link_pending e c member none = record e {
      pending_transactions = put e.pending_transactions member e.links.next_pending;
      links = link (new_pending e.links member) c e.links.next_pending;
    }

    -- One that is received: its data is taken out of the symbol.
    abbrev pub take_out : Decoder T → ℕ → Transaction T → Decoder T
    take_out e c t = record e {
      links =
          set_codeword e.links c (record (e.links.codewords c) {
            symbol = d.xor (e.links.codewords c).symbol t.tx_data;
          });
    }

    -- By what is received and what is pending of the member.
    unfoldable pub add_known :
        Decoder T → ℕ → ℕ → Option (Transaction T) → Option ℕ → Option (Decoder T)
    unfolding link_pending
    add_known e c member none pending = some (link_pending e c member pending)
    add_known e c member (some t) none = some (take_out e c t)
    add_known e c member (some t) (some p) = none

    unfoldable pub add_member : Decoder T → ℕ → ℕ → Option (Decoder T)
    unfolding add_known
    add_member e c member =
        add_known e c member (find e.received_transactions member)
          (find e.pending_transactions member)

    unfoldable pub add_members : Decoder T → ℕ → List ℕ → Option (Decoder T)
    unfolding add_member
    add_members e c [] = some e
    add_members e c (m ∷ ms) = add_member e c m >>= λ e'. add_members e' c ms

    abbrev pub set_queued : Decoder T → ℕ → Decoder T
    set_queued e c = record e {
      links = set_codeword e.links c (record (e.links.codewords c) { queued = true });
    }

    abbrev pub allocate : Decoder T → T → Decoder T
    allocate e symbol = record e { links = new_codeword e.links symbol }

    -- The pointer to the codeword is the next one that is free.
    unfoldable pub add_codeword :
        ℕ → Decoder T → Codeword T → Outcome (Decoder T × List (Transaction T))
    unfolding add_members decode_codewords
    add_codeword fuel e raw =
        let c = e.links.next_codeword in
        and_then (add_members (allocate e raw.symbol) c raw.members) (λ e'.
          if leb (length (e'.links.codewords c).members) 1
          then decode_codewords fuel (set_queued e' c) (c ∷ []) []
          else ok (e', []))

    -- A transaction that was stored is taken out of the codewords that wait for it, if any do.
    unfoldable pub peel_pending :
        ℕ → Decoder T → ℕ → Transaction T → Option ℕ → Outcome (Decoder T × List (Transaction T))
    unfolding decode_codewords
    peel_pending fuel e hash t none = ok (e, [])
    peel_pending fuel e hash t (some p) =
        if (e.links.pendings p).salted_hash == hash
        then and_then (mark_decoded e.links [] p t.tx_data) (λ r.
          decode_codewords fuel
            (record e { pending_transactions = erase e.pending_transactions hash; links = r.0 }) r.1
            [])
        else panic

    -- By what is received under the transaction's salted hash.
    unfoldable pub add_received :
        ℕ
        → Decoder T
        → Transaction T
        → Option (Transaction T)
        → Outcome (Decoder T × List (Transaction T))
    unfolding peel_pending store_new_transaction
    add_received fuel e t none =
        peel_pending fuel (store_new_transaction e (salted t) t) (salted t) t
          (find e.pending_transactions (salted t))
    add_received fuel e t (some existing) =
        if same_bytes existing.tx_hash t.tx_hash
        then ok (e, [])
        else if is_some (find e.pending_transactions (salted t))
        then panic
        else ok (store_new_transaction e (salted t) t, [])

    unfoldable pub add_transaction :
        ℕ → Decoder T → Transaction T → Outcome (Decoder T × List (Transaction T))
    unfolding add_received
    add_transaction fuel e t = add_received fuel e t (find e.received_transactions (salted t))
