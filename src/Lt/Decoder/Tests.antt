-- ===== src/Lt/Decoder/Tests.antt =====
-- The decoder of the package lt on concrete codewords of numbers.
use Prim.Native.Nat.{min}
use rateless_set_reconcile.Base.{
  ℕ, ◌+◌, ◌≡◌, refl, ap, subst, ◌∙◌, sym, false, ◌==◌, Option, none, some, if◌then◌else◌, List, [],
  ◌∷◌, ◌++◌, length, arith, suc, ◌<◌,
}
use rateless_set_reconcile.Base.Outcome.{Outcome, ok}
use rateless_set_reconcile.Lt.Encoder.{Transaction, SaltedTransaction, Codeword, new_transaction}
use rateless_set_reconcile.Base.Array.{get}
use rateless_set_reconcile.Base.Cut.{cut_at, remove_first}
use rateless_set_reconcile.Base.Table.{find, put, erase}
use rateless_set_reconcile.Lt.Links.{
  Links, link, new_pending, mark_loop, mark_round, new_codeword, mark_decoded,
}
use rateless_set_reconcile.Lt.Links.Marking.{IsQueue, idle}
use rateless_set_reconcile.Lt.Links.Mark.{IsUnlinked, mark_decoded-IsUnlinked}
use rateless_set_reconcile.Lt.Decoder.{
  Comparable, decode_last, Decoder, new_decoder, allocate, set_queued, add_members,
  store_new_transaction, decode_codewords, add_codeword, add_transaction,
}
use rateless_set_reconcile.Lt.Decoder.Memory.{after_drop, store_new_transaction-newest}
use rateless_set_reconcile.Lt.Decoder.Peeling.{IsPeeling, work}
use rateless_set_reconcile.Lt.Decoder.Round.{decode_codewords-IsPeeling}
use rateless_set_reconcile.Lt.Decoder.Adding.{IsDecoder, IsBuilding, to_queue, add_members-Builds}
use rateless_set_reconcile.Lt.Decoder.Closing.{allocate-IsBuilding, queued-IsPeeling}
use rateless_set_reconcile.Lt.Decoder.Accept.{
  new_decoder-IsDecoder, add_codeword-IsDecoder, add_transaction-IsDecoder,
}
use rateless_set_reconcile.Lt.Tests.{numbers, by_first_byte, tx}

instance abbrev compared : Comparable ℕ
compared = record { same = ◌==◌ }

abbrev empty_decoder : Decoder ℕ
empty_decoder = new_decoder 1

-- The sum of 5 and 6.
abbrev sum : Codeword ℕ
sum = record { symbol = 3; members = 5 ∷ 6 ∷ [] }

-- The decoder that has received the sum, which it cannot decode.
abbrev accepted :
    (e' : Decoder ℕ) × (txs : List (Transaction ℕ)) × (add_codeword 9 empty_decoder sum
      ≡ ok (e', txs))
    × IsDecoder e'
    × (e'.links.next_codeword ≡ 1)
unfolding new_decoder
accepted = add_codeword-IsDecoder 9 empty_decoder sum (new_decoder-IsDecoder 1) (omega arith)

-- The decoder after a call that returns.
abbrev after : Decoder ℕ → Outcome (Decoder ℕ × List (Transaction ℕ)) → Decoder ℕ
after e (ok (e', txs)) = e'
after e o = e

abbrev waiting : Decoder ℕ
waiting = after empty_decoder (add_codeword 9 empty_decoder sum)

waiting-IsDecoder : IsDecoder waiting
waiting-IsDecoder = subst IsDecoder (sym (ap (after empty_decoder) accepted.2)) accepted.3

waiting-next : waiting.links.next_codeword ≡ 1
waiting-next =
    ap (λ (e : Decoder ℕ). e.links.next_codeword) (ap (after empty_decoder) accepted.2) ∙ accepted.4

-- The transactions found, in the order in which they are returned.
abbrev found : Outcome (Decoder ℕ × List (Transaction ℕ)) → List (Transaction ℕ)
found (ok (e, txs)) = txs
found o = []

-- Once 5 is received, 6 is what is left of the sum.
finds_other : found (add_transaction 9 waiting (tx 5)) ≡ tx 6 ∷ []
unfolding add_transaction add_codeword new_decoder new_transaction mark_decoded
    store_new_transaction find put link new_pending new_codeword mark_loop mark_round remove_first
    cut_at decode_last get erase
finds_other = refl

add_codeword-IsDecoder_example :
    (e' : Decoder ℕ) × (txs : List (Transaction ℕ)) × (add_codeword 9 waiting
        (record { symbol = 5; members = 5 ∷ [] })
      ≡ ok (e', txs))
    × IsDecoder e'
    × (e'.links.next_codeword ≡ suc waiting.links.next_codeword)
add_codeword-IsDecoder_example =
    add_codeword-IsDecoder 9 waiting (record { symbol = 5; members = 5 ∷ [] }) waiting-IsDecoder
      (omega (arith, waiting-next))

add_transaction-IsDecoder_example :
    (e' : Decoder ℕ) × (txs : List (Transaction ℕ)) × (add_transaction 9 waiting (tx 5)
      ≡ ok (e', txs))
    × IsDecoder e'
    × (e'.links.next_codeword ≡ waiting.links.next_codeword)
add_transaction-IsDecoder_example =
    add_transaction-IsDecoder 9 waiting (tx 5) waiting-IsDecoder (omega (arith, waiting-next))

-- A codeword whose one member is not known yet, on the queue.
abbrev start : Decoder ℕ
start = allocate empty_decoder 5

start-Builds : (e' : Decoder ℕ) × (add_members start 0 (5 ∷ []) ≡ some e') × IsBuilding e' 0
unfolding new_decoder
start-Builds =
    add_members-Builds (5 ∷ []) start 0
      (allocate-IsBuilding empty_decoder 5 (new_decoder-IsDecoder 1))

abbrev or_start : Option (Decoder ℕ) → Decoder ℕ
or_start none = start
or_start (some e) = e

abbrev built : Decoder ℕ
built = or_start (add_members start 0 (5 ∷ []))

built-IsBuilding : IsBuilding built 0
built-IsBuilding =
    subst (λ (e : Decoder ℕ). IsBuilding e 0) (sym (ap or_start start-Builds.1)) start-Builds.2

built-IsPeeling : IsPeeling (set_queued built 0) (λ x. false) (0 ∷ [])
unfolding add_members new_decoder new_codeword find link new_pending
built-IsPeeling = queued-IsPeeling built 0 built-IsBuilding (omega arith)

built-work : work (set_queued built 0) (0 ∷ []) < 3
unfolding add_members idle new_decoder new_codeword find link new_pending
built-work = omega arith

decode_codewords-IsPeeling_example :
    (e' : Decoder ℕ) × (all : List (Transaction ℕ)) × (decode_codewords 3
        (set_queued built 0)
        (0 ∷ [])
        []
      ≡ ok (e', all))
    × IsPeeling e' (λ x. false) []
    × (e'.links.next_codeword ≡ (set_queued built 0).links.next_codeword)
decode_codewords-IsPeeling_example =
    decode_codewords-IsPeeling 3 (set_queued built 0) (0 ∷ []) [] built-IsPeeling built-work

mark_decoded-IsUnlinked_example :
    (l' : Links ℕ) × (queue' : List ℕ) × (mark_decoded waiting.links [] 0 5 ≡ some (l', queue'))
    × IsQueue l' (λ x. false) queue'
    × IsUnlinked waiting.links [] 0 l' queue'
mark_decoded-IsUnlinked_example =
    mark_decoded-IsUnlinked waiting.links [] 0 5 (λ x. false) waiting-IsDecoder.consistent.linked
      (to_queue waiting waiting-IsDecoder).stack

store_new_transaction-newest_example :
    let e' = store_new_transaction (store_new_transaction waiting 5 (tx 5)) 6 (tx 6) in
    (length e'.recent_transactions
      ≡ min
          (store_new_transaction waiting 5 (tx 5)).memory
          (length (store_new_transaction waiting 5 (tx 5)).recent_transactions + 1))
    × (older : List (SaltedTransaction ℕ)) × ((store_new_transaction waiting 5
            (tx 5)).recent_transactions
          ++ record { salted_hash = 6; transaction = tx 6 } ∷ []
        ≡ older ++ e'.recent_transactions)
    × ((g : ℕ)
        → find e'.received_transactions g
          ≡ after_drop
              (if 6 == g
                then some (tx 6)
                else find (store_new_transaction waiting 5 (tx 5)).received_transactions g)
              g
              older)
store_new_transaction-newest_example =
    store_new_transaction-newest (store_new_transaction waiting 5 (tx 5)) 6 (tx 6)
