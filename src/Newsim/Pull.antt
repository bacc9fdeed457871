-- ===== src/Newsim/Pull.antt =====
-- newsim/pull.go: transactions announced by their hashes, and pulled by the peer.
-- The map `known` is an association list, with the last entry written in front.
pub mod Exchange
use rateless_set_reconcile.Base.{
  ℕ, ◌≡◌, ◌==◌, Bool, true, false, Option, none, some, List, [], ◌∷◌, ◌++◌, if◌then◌else◌, map,
}
use rateless_set_reconcile.Base.Int.{ℤ}
use rateless_set_reconcile.Des.{OutgoingMessage}
use rateless_set_reconcile.Riblt.Symbol.{HashedSymbol}
use rateless_set_reconcile.Newsim.Transaction.{Transaction, zero_transaction}
use rateless_set_reconcile.Newsim.Message.{Message, announce, request, response}

abbrev pub Known : Type 0
Known = List (ℕ × HashedSymbol Transaction)

unfoldable pub lookup : Known → ℕ → Option (HashedSymbol Transaction)
lookup [] h = none
lookup ((k, t) ∷ known) h = if k == h then some t else lookup known h

pub record Pull : Type 0 where
  pub known : Known
  pub outbox : List Message

-- `c.known[m.hash]`: the zero value where the hash is not known.
abbrev pub or_zero : Option (HashedSymbol Transaction) → HashedSymbol Transaction
or_zero none = record { symbol = zero_transaction; hash = 0 }
or_zero (some t) = t

abbrev pub is_known : Option (HashedSymbol Transaction) → Bool
is_known none = false
is_known (some t) = true

module _ {M : Type 0} where
  -- Each message in the outbox, addressed to the peer.
  unfoldable pub collect_outgoing_messages :
      Pull → M → ℤ → List (OutgoingMessage M Message) → List (OutgoingMessage M Message) × Pull
  collect_outgoing_messages c peer delay outbox =
      let sent : Message → OutgoingMessage M Message =
        λ msg. record { payload = msg; to = some peer; delay = delay } in
      (outbox ++ map sent c.outbox, record c { outbox = [] })

unfoldable pub forward_transaction : Pull → HashedSymbol Transaction → Pull
forward_transaction c t = record c {
  known = (t.hash, t) ∷ c.known;
  outbox = c.outbox ++ announce t.hash ∷ [];
}

-- `none` is the panic on an unknown type of message.
unfoldable pub handle_message : Pull → Message → Option (List (HashedSymbol Transaction) × Pull)
unfolding lookup
handle_message c (announce hash) =
    if is_known (lookup c.known hash)
    then some ([], c)
    else some ([], record c { outbox = c.outbox ++ request hash ∷ [] })
handle_message c (request hash) =
    some ([], record c { outbox = c.outbox ++ response (or_zero (lookup c.known hash)) ∷ [] })
handle_message c (response payload) =
    some (payload ∷ [], record c { known = (payload.hash, payload) ∷ c.known })
handle_message c msg = none
