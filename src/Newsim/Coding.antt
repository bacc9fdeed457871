-- ===== src/Newsim/Coding.antt =====
-- newsim/coding.go: the two ends of a reconciliation by coded symbols.
-- Go's `float64` is a parameter. `none` is a loop that still runs when the fuel is used up, or the
-- panic on an unknown message; a nil sender or receiver is `none` of its own type.
pub mod Block
pub mod Sending
pub mod Receiving
use rateless_set_reconcile.Base.{
  ℕ, zero, suc, ◌+◌, ◌-◌, ◌*◌, ◌/◌, ◌%◌, ◌≡◌, Bool, true, false, not, ◌&&◌, ◌||◌, Option, none,
  some, List, [], ◌∷◌, ◌++◌, length, map, if◌then◌else◌, ◌>>=◌,
}
use rateless_set_reconcile.Base.Int.{ℤ}
use rateless_set_reconcile.Des.{OutgoingMessage}
use rateless_set_reconcile.Riblt.Mapping.{Jump}
use rateless_set_reconcile.Riblt.Symbol.{HashedSymbol}
use rateless_set_reconcile.Newsim.Transaction.{Transaction, SipHash}
use rateless_set_reconcile.Newsim.Message.{Message, codeword, ack}
use rateless_set_reconcile.Newsim.Coding.Sending
use rateless_set_reconcile.Newsim.Coding.Sending.{Floats, Sender, on_ack}
use rateless_set_reconcile.Newsim.Coding.Receiving
use rateless_set_reconcile.Newsim.Coding.Receiving.{Receiver, on_codeword}

pub record Coding (F : Type 0) : Type 0 where
  pub sender : Option (Sender F)
  pub receiver : Option Receiver

-- What is in an outbox, addressed to the peer.
abbrev pub addressed : {M : Type 0} → M → ℤ → List Message → List (OutgoingMessage M Message)
addressed peer delay msgs =
    map (λ msg. record { payload = msg; to = some peer; delay = delay }) msgs

abbrev pub sender_outbox : {F : Type 0} → Option (Sender F) → List Message
sender_outbox none = []
sender_outbox (some n) = n.outbox

abbrev pub receiver_outbox : Option Receiver → List Message
receiver_outbox none = []
receiver_outbox (some n) = n.outbox

-- `none` stays `none`: the methods of a nil sender or receiver return at once.
abbrev pub on_some : {A : Type 0} → (A → A) → Option A → Option A
on_some f none = none
on_some f (some a) = some (f a)

module _ {F : Type 0} {M : Type 0} where
  collect_outgoing_messages :
      Coding F
      → M
      → ℤ
      → List (OutgoingMessage M Message)
      → List (OutgoingMessage M Message) × Coding F
  collect_outgoing_messages c peer delay outbox = (
    (outbox ++ addressed peer delay (sender_outbox c.sender))
        ++ addressed peer delay (receiver_outbox c.receiver),
    record {
      sender = on_some (λ n. record n { outbox = [] }) c.sender;
      receiver = on_some (λ n. record n { outbox = [] }) c.receiver;
    },
  )

module _ {F : Type 0} ⦃f : Floats F⦄ ⦃h : SipHash⦄ ⦃j : Jump⦄ where
  forward_to_sender :
      ℕ → ℕ → Option (Sender F) → HashedSymbol Transaction → Option (Option (Sender F))
  forward_to_sender rounds fuel none t = some none
  forward_to_sender rounds fuel (some n) t = do
    n' ← Sending.on_transaction rounds fuel n t
    some (some n')

  forward_transaction : ℕ → ℕ → Coding F → HashedSymbol Transaction → Option (Coding F)
  unfolding forward_to_sender
  forward_transaction rounds fuel c t = do
    sender ← forward_to_sender rounds fuel c.sender t
    some (record {
      sender = sender;
      receiver = on_some (λ n. Receiving.on_transaction n t) c.receiver;
    })

  -- The transactions decoded: none where the source returns nil.
  handle_message : ℕ → ℕ → Coding F → Message → Option (List (HashedSymbol Transaction) × Coding F)
  handle_message rounds fuel c (codeword m) = elim c.receiver [
    | none ↦ some ([], c)
    | some n ↦ (do
      ((remote, decoded), n') ← on_codeword rounds fuel n m
      some (if decoded then remote else [], record c { receiver = some n' }))
  ]
  handle_message rounds fuel c (ack m) = elim c.sender [
    | none ↦ some ([], c)
    | some n ↦ (do (txs, n') ← on_ack rounds fuel n m; some (txs, record c { sender = some n' }))
  ]
  handle_message rounds fuel c m = none
