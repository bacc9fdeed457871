-- ===== src/Newsim/Pull/Exchange.antt =====
-- newsim/pull.go: an announcement, the request it causes, and the response.
use rateless_set_reconcile.Base.{ℕ, ◌≡◌, refl, ==_iff, none, some, [], ◌∷◌, ◌++◌}
use rateless_set_reconcile.Riblt.Symbol.{HashedSymbol}
use rateless_set_reconcile.Newsim.Transaction.{Transaction}
use rateless_set_reconcile.Newsim.Message.{announce, request, response}
use rateless_set_reconcile.Newsim.Pull.{Pull, Known, lookup, forward_transaction, handle_message}

lookup-head :
    (k : ℕ) (t : HashedSymbol Transaction) (known : Known) → lookup ((k, t) ∷ known) k ≡ some t
unfolding lookup
lookup-head k t known = rw ((==_iff k k).1 refl) refl

-- A transaction that one side forwards and whose hash the other side does not know reaches it: the
-- announcement is answered by a request, the request by the transaction, and the transaction is
-- returned as decoded and known from then on, so that its announcement is not answered again.
pub handle_message-exchange :
    (a b : Pull) (t : HashedSymbol Transaction)
    → lookup b.known t.hash ≡ none
    → let a' = forward_transaction a t in
      let b' : Pull = record b { known = (t.hash, t) ∷ b.known } in
      (a'.outbox ≡ a.outbox ++ announce t.hash ∷ [])
      × (handle_message b (announce t.hash)
          ≡ some ([], record b { outbox = b.outbox ++ request t.hash ∷ [] }))
      × (handle_message a' (request t.hash)
          ≡ some ([], record a' { outbox = a'.outbox ++ response t ∷ [] }))
      × (handle_message b (response t) ≡ some (t ∷ [], b'))
      × (handle_message b' (announce t.hash) ≡ some ([], b'))
unfolding handle_message forward_transaction
handle_message-exchange a b t h = (
  refl,
  rw h refl,
  rw (lookup-head t.hash t a.known) refl,
  refl,
  rw (lookup-head t.hash t b.known) refl,
)
