-- ===== src/Lt/Links.antt =====
-- lt/decoder.go: the codewords received and the transactions pending, linked to one another by pointers.
-- A pointer is a number into the memory of its type. A pointer that the source sets to nil for the
-- garbage collector is dropped from its list.
pub mod Marking
pub mod Taking
pub mod Visit
pub mod Mark
pub mod Fail
use rateless_set_reconcile.Base.{
  ℕ, zero, suc, ◌+◌, Bool, true, false, not, ◌&&◌, Option, none, some, List, [], ◌∷◌, ◌++◌, length,
  leb, if◌then◌else◌, ◌>>=◌,
}
use rateless_set_reconcile.Base.Cut.{remove_first}
use rateless_set_reconcile.Base.Table.{update}
use rateless_set_reconcile.Riblt.Decoder.{index_zero}
use rateless_set_reconcile.Lt.Encoder.{TransactionData}

pub record PendingTransaction : Type 0 where
  pub salted_hash : ℕ
  pub blocking : List ℕ

pub record PendingCodeword (T : Type 0) : Type 0 where
  pub symbol : T
  pub members : List ℕ
  pub queued : Bool
  pub decoded : Bool

-- The memory: codewords and pending transactions by their pointers, and the next free pointers.
pub record Links (T : Type 0) : Type 0 where
  pub codewords : ℕ → PendingCodeword T
  pub next_codeword : ℕ
  pub pendings : ℕ → PendingTransaction
  pub next_pending : ℕ

module _ {T : Type 0} where
  abbrev pub set_codeword : Links T → ℕ → PendingCodeword T → Links T
  set_codeword l c cw = record l { codewords = update l.codewords c cw }

  abbrev pub set_pending : Links T → ℕ → PendingTransaction → Links T
  set_pending l p tx = record l { pendings = update l.pendings p tx }

  -- `&PendingCodeword[T]{}` with the symbol of a raw codeword.
  unfoldable pub new_codeword : Links T → T → Links T
  new_codeword l symbol = record l {
    codewords =
        update l.codewords l.next_codeword
          (record { symbol = symbol; members = []; queued = false; decoded = false });
    next_codeword = suc l.next_codeword;
  }

  -- `&pendingTransaction[T]{}` with its salted hash.
  unfoldable pub new_pending : Links T → ℕ → Links T
  new_pending l hash = record l {
    pendings = update l.pendings l.next_pending (record { salted_hash = hash; blocking = [] });
    next_pending = suc l.next_pending;
  }

  -- The codeword `c` and the transaction `p`, linked to one another.
  unfoldable pub link : Links T → ℕ → ℕ → Links T
  link l c p =
      let cw = l.codewords c in
      let tx = l.pendings p in
      record l {
        codewords = update l.codewords c (record cw { members = cw.members ++ p ∷ [] });
        pendings = update l.pendings p (record tx { blocking = tx.blocking ++ c ∷ [] });
      }

  -- `len(peelable.members) <= 1 && !peelable.queued`
  abbrev pub is_ready : PendingCodeword T → Bool
  is_ready cw = leb (length cw.members) 1 && not cw.queued

module _ {T : Type 0} ⦃d : TransactionData T⦄ where
  -- `peelTransaction`, with the panic where the codeword does not point to the transaction.
  unfoldable pub peel_transaction : PendingCodeword T → ℕ → T → Option (PendingCodeword T)
  peel_transaction cw p tx_data = do
    members ← remove_first cw.members p
    some (record cw { members = members; symbol = d.xor cw.symbol tx_data })

  -- One round of `markDecoded`. The queue is a stack: its head is the last entry of the slice.
  unfoldable pub mark_round : Links T → List ℕ → ℕ → T → ℕ → Option (Links T × List ℕ)
  unfolding peel_transaction
  mark_round l queue p tx_data c = do
    cw ← peel_transaction (l.codewords c) p tx_data
    some (
        if is_ready cw
        then (set_codeword l c (record cw { queued = true }), c ∷ queue)
        else (set_codeword l c cw, queue))

  unfoldable pub mark_loop : List ℕ → Links T → List ℕ → ℕ → T → Option (Links T × List ℕ)
  mark_loop [] l queue p tx_data = some (l, queue)
  mark_loop (c ∷ cs) l queue p tx_data = do
    (l', queue') ← mark_round l queue p tx_data c
    mark_loop cs l' queue' p tx_data

  unfoldable pub mark_decoded : Links T → List ℕ → ℕ → T → Option (Links T × List ℕ)
  mark_decoded l queue p tx_data = do
    (l', queue') ← mark_loop (l.pendings p).blocking l queue p tx_data
    some (set_pending l' p (record (l'.pendings p) { blocking = [] }), queue')

module _ {T : Type 0} where
  -- The branches on the members of the codeword `c`.
  unfoldable pub fail_members : Links T → ℕ → List ℕ → Option (Option ℕ × Links T)
  fail_members l c [] = none
  fail_members l c (p ∷ []) = do
    blocking ← remove_first (l.pendings p).blocking c
    let tx : PendingTransaction = record (l.pendings p) { blocking = blocking }
    let l' = set_pending (set_codeword l c (record (l.codewords c) { members = [] })) p tx
    some (if leb (length blocking) 0 then some tx.salted_hash else none, l')
  fail_members l c (p ∷ q ∷ ps) = none

  -- The salted hash of the transaction that was the codeword's last one, if it blocks nothing else.
  unfoldable pub fail_to_decode : Links T → ℕ → Option (Option ℕ × Links T)
  unfolding fail_members
  fail_to_decode l c = fail_members l c (l.codewords c).members
