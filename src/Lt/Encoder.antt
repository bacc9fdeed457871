-- ===== src/Lt/Encoder.antt =====
-- lt/encoder.go and lt/transaction.go: the window of recent transactions, and the codewords over it.
-- SipHash with the encoder's salt, the random source and the distribution of degrees are other
-- packages': they are parameters. `none` is the panic on a degree that is zero or, as an `int`,
-- negative.
pub mod Window
pub mod Shuffle
use rateless_set_reconcile.Base.{
  ℕ, zero, suc, ◌+◌, ◌-◌, ◌%◌, ◌^◌, ◌<◌, ◌≡◌, Bool, true, false, Option, none, some, List, [], ◌∷◌,
  ◌++◌, length, ltb, leb, ◌==◌, if◌then◌else◌,
}
use rateless_set_reconcile.Base.Array.{Zero, get, swap}
use rateless_set_reconcile.Base.Word.{i63}
use rateless_set_reconcile.Riblt.Decoder.{index_zero}

-- The interface `TransactionData`, with Go's zero value.
pub record TransactionData (T : Type 0) : Type 0 where
  pub zero_value : T
  pub xor : T → T → T
  pub hash : T → List ℕ

pub record Transaction (T : Type 0) : Type 0 where
  pub tx_data : T
  pub tx_hash : List ℕ

unfoldable pub new_transaction : {T : Type 0} ⦃d : TransactionData T⦄ → T → Transaction T
new_transaction ⦃d⦄ t = record {
  tx_data = d.xor d.zero_value t;
  tx_hash = d.hash (d.xor d.zero_value t);
}

-- `Sum64` of the salted hasher on bytes.
pub record Hasher : Type 0 where
  pub sum64 : List ℕ → ℕ

-- `Intn` of the random source in the state `R`: below its argument, if that is positive.
pub record Rng (R : Type 0) : Type 0 where
  pub intn : R → ℕ → ℕ × R
  pub intn-lt : (r : R) (n : ℕ) → 0 < n → (intn r n).0 < n

-- `Uint64` of the distribution of degrees in the state `D`.
pub record DegreeDistribution (D : Type 0) : Type 0 where
  pub uint64 : D → ℕ × D

pub record Codeword (T : Type 0) : Type 0 where
  pub symbol : T
  pub members : List ℕ

pub record SaltedTransaction (T : Type 0) : Type 0 where
  pub salted_hash : ℕ
  pub transaction : Transaction T

pub record Encoder (T R D : Type 0) : Type 0 where
  pub rng : R
  pub window : List (SaltedTransaction T)
  pub degree_dist : D
  pub hashes : List ℕ
  pub window_size : ℕ
  pub shuffle_history : List ℕ

unfoldable pub contains : List ℕ → ℕ → Bool
contains [] h = false
contains (k ∷ ks) h = if k == h then true else contains ks h

unfoldable pub delete : List ℕ → ℕ → List ℕ
delete [] h = []
delete (k ∷ ks) h = let rest = delete ks h in if k == h then rest else k ∷ rest

module _ {T R D : Type 0} where
  unfoldable pub new_encoder : R → D → ℕ → Encoder T R D
  new_encoder r dist ws = record {
    rng = r;
    window = [];
    degree_dist = dist;
    hashes = [];
    window_size = ws;
    shuffle_history = [];
  }

  unfoldable pub reset : Encoder T R D → D → ℕ → Encoder T R D
  reset e dist ws = record e { degree_dist = dist; window = []; window_size = ws; hashes = [] }

-- The loop that drops the oldest transactions of a window that is too long.
unfoldable pub evict :
    {T : Type 0} → ℕ → List (SaltedTransaction T) → List ℕ → List (SaltedTransaction T) × List ℕ
evict size [] hashes = ([], hashes)
evict size (x ∷ xs) hashes =
    let rest = evict size xs (delete hashes x.salted_hash) in
    if ltb size (length (x ∷ xs)) then rest else (x ∷ xs, hashes)

-- `(uint32)(e.hasher.Sum64())`
abbrev pub salted : ⦃h : Hasher⦄ {T : Type 0} → Transaction T → ℕ
salted ⦃h⦄ t = h.sum64 t.tx_hash % 2 ^ 32

module _ {T R D : Type 0} ⦃h : Hasher⦄ where
  unfoldable pub add_transaction : Encoder T R D → Transaction T → Bool × Encoder T R D
  unfolding contains evict
  add_transaction e t =
      let hash = salted t in
      let kept =
        evict e.window_size (e.window ++ record { salted_hash = hash; transaction = t } ∷ [])
          (hash ∷ e.hashes) in
      if contains e.hashes hash
      then (false, e)
      else (true, record e { window = kept.0; hashes = kept.1 })

module _ {T : Type 0} ⦃d : TransactionData T⦄ where
  instance abbrev pub salted_zero : Zero (SaltedTransaction T)
  salted_zero = record {
    zero_value = record {
      salted_hash = 0;
      transaction = record { tx_data = d.zero_value; tx_hash = [] };
    };
  }

-- The state of the loop that samples: the window, the history, the codeword and the random source.
pub record Sampling (T R : Type 0) : Type 0 where
  pub window : List (SaltedTransaction T)
  pub history : List ℕ
  pub codeword : Codeword T
  pub rng : R

module _ {T R : Type 0} ⦃d : TransactionData T⦄ ⦃r : Rng R⦄ where
  -- One round of that loop: the entry at `i` is exchanged with one that is not yet selected.
  unfoldable pub sample : ℕ → ℕ → Sampling T R → Sampling T R
  sample n i s =
      let draw = r.intn s.rng (n - i) in
      let window = swap s.window i (draw.0 + i) in
      record {
        window = window;
        history = s.history ++ (draw.0 + i) ∷ [];
        codeword = record {
          symbol = d.xor s.codeword.symbol (get window i).transaction.tx_data;
          members = s.codeword.members ++ (get window i).salted_hash ∷ [];
        };
        rng = draw.1;
      }

  -- `k` more rounds, from index `i`.
  unfoldable pub sample_loop : ℕ → ℕ → ℕ → Sampling T R → Sampling T R
  sample_loop zero n i s = s
  sample_loop (suc k) n i s = sample_loop k n (suc i) (sample n i s)

module _ {T : Type 0} ⦃d : TransactionData T⦄ where
  -- The loop that takes the exchanges back, from the last one.
  unfoldable pub revert : ℕ → List (SaltedTransaction T) → List ℕ → List (SaltedTransaction T)
  revert zero window history = window
  revert (suc i) window history = revert i (swap window i (get history i)) history

module _ {T R D : Type 0} ⦃d : TransactionData T⦄ ⦃r : Rng R⦄ where
  abbrev pub first_sampling : Encoder T R D → Sampling T R
  first_sampling e = record {
    window = e.window;
    history = [];
    codeword = record { symbol = d.zero_value; members = [] };
    rng = e.rng;
  }

  unfoldable pub produce_codeword_of_degree :
      ℕ → Encoder T R D → Option (Codeword T × Encoder T R D)
  unfolding sample_loop revert
  produce_codeword_of_degree deg e =
      let n = length e.window in
      let k = if ltb n deg then n else deg in
      let s = sample_loop k n 0 (first_sampling e) in
      if k == 0
      then none
      else some (
        s.codeword,
        record e { window = revert k s.window s.history; shuffle_history = s.history; rng = s.rng },
      )

  -- A degree whose `int` is negative panics as the length of the members.
  unfoldable pub produce_codeword :
      ⦃dist : DegreeDistribution D⦄ → Encoder T R D → Option (Codeword T × Encoder T R D)
  unfolding produce_codeword_of_degree
  produce_codeword ⦃dist⦄ e =
      let (deg, state) = dist.uint64 e.degree_dist in
      let made = produce_codeword_of_degree deg (record e { degree_dist = state }) in
      if leb i63 deg then none else made
