-- ===== src/Riblt/Window/Apply.antt =====
-- `applyWindow` computes what the definition of the coded symbols says, and ends.
use mathlib.Core.List.Perm
use mathlib.Core.Logic.{◌≢◌}
use rateless_set_reconcile.Base.{
  ℕ, zero, suc, ◌+◌, ◌-◌, ◌≤◌, ◌<◌, ◌≡◌, refl, sym, ap, subst, ◌∙◌, Bool, true, false, some, map,
  Perm, arith, length, set, length-set, length-perm, ◌==◌, if◌then◌else◌, Bool-cases, ==_iff, inl,
  inr,
}
use rateless_set_reconcile.Base.Array.{get, get-set, mem_of_get}
use rateless_set_reconcile.Base.Word.{i63, less_int-le}
use rateless_set_reconcile.Heap.{parent}
use rateless_set_reconcile.Heap.Laws.{le, IsHeap, head_least}
use rateless_set_reconcile.Heap.Down.{sift_down_head}
use rateless_set_reconcile.Riblt.Symbol.{Symbol, IsXor, CodedSymbol, apply}
use rateless_set_reconcile.Riblt.Mapping.{
  Jump, RandomMapping, next_index, Moves, Moves-now, Moves-fits, Moves-next_index,
}
use rateless_set_reconcile.Riblt.Window.{
  CodingWindow, symbol_mapping_zero, mapping_zero, hashed_zero, by_coded_idx, fix_head, head_symbol,
  advance_head, apply_loop, apply_window,
}
use rateless_set_reconcile.Riblt.Window.Spec.{
  absorb, absorb-set, absorb-none, pass, pass-set, pass-none, due, due-set, due-le-length,
}
use rateless_set_reconcile.Riblt.Window.Entries.{
  entry, entries, length-entries, head-IsEntry, entry-mem, set_head-perm,
}

-- The queue is a heap of the mappings of the symbols, none of which has fallen behind, and whose
-- indices fit an `int`.
pub record IsConsistent {T : Type 0} (e : CodingWindow T) : Type 0 where
  pub paired : length e.mappings ≡ length e.symbols
  pub queued : Perm e.queue (entries 0 e.mappings)
  pub heap : IsHeap (length e.queue) e.queue
  pub ahead : (i : ℕ) → i < length e.mappings → e.next_idx ≤ (get e.mappings i).last_idx
  pub fits : (i : ℕ) → i < length e.mappings → (get e.mappings i).last_idx < i63

-- Each mapping of the window moves on below `n`.
abbrev pub AllMove : {T : Type 0} ⦃j : Jump⦄ → ℕ → CodingWindow T → Type 0
AllMove n e = (i : ℕ) → i < length e.mappings → Moves n (get e.mappings i)

module _ {T : Type 0} (e : CodingWindow T) (v : IsConsistent e) where
  pub length-queue : length e.queue ≡ length e.mappings
  length-queue = length-perm v.queued ∙ length-entries 0 e.mappings

  module _ (h : 0 < length e.queue) where
    pub head-lt : (get e.queue 0).source_idx < length e.mappings
    head-lt = omega (arith, (head-IsEntry e.queue e.mappings v.queued h).1)

    pub head-last_idx :
        (get e.mappings (get e.queue 0).source_idx).last_idx ≡ (get e.queue 0).coded_idx
    head-last_idx =
        let minus_zero : (get e.queue 0).source_idx - 0 ≡ (get e.queue 0).source_idx =
          omega arith in
        sym (rw minus_zero at ((head-IsEntry e.queue e.mappings v.queued h).2))

Moves-if :
    ⦃j : Jump⦄ (n : ℕ) (b : Bool) (l m : RandomMapping)
    → Moves n l
    → Moves n m
    → Moves n (if b then l else m)
Moves-if n true l m p q = p
Moves-if n false l m p q = q

module _ {T : Type 0} ⦃s : Symbol T⦄ ⦃j : Jump⦄ (e : CodingWindow T) (v : IsConsistent e) (n : ℕ)
    (below : e.next_idx < n) (moves : AllMove n e) (h : 0 < length e.queue)
    (due_now : (get e.queue 0).coded_idx ≡ e.next_idx) where
  abbrev head_idx : ℕ
  head_idx = (get e.queue 0).source_idx

  abbrev moved : RandomMapping
  moved = next_index (get e.mappings head_idx)

  moved-gt : e.next_idx < moved.last_idx
  moved-gt =
      let lt = head-lt e v h in
      let at = head-last_idx e v h in
      omega (arith, Moves-now n (get e.mappings head_idx) (moves head_idx lt) (omega arith))

  moved-fits : moved.last_idx < i63
  moved-fits =
      let lt = head-lt e v h in
      let at = head-last_idx e v h in
      Moves-fits n (get e.mappings head_idx) (moves head_idx lt) (omega arith)

  queue-edges :
      let q = set e.queue 0 (record (get e.queue 0) { coded_idx = moved.last_idx }) in
      (c : ℕ) → 0 < c → c < length q → parent c ≢ 0 → le (get q (parent c)) (get q c)
  queue-edges c p q r =
      let w = record (get e.queue 0) { coded_idx = moved.last_idx } in
      ground (
        arith,
        length-set e.queue 0 w,
        get-set e.queue 0 c w,
        get-set e.queue 0 (parent c) w,
        v.heap c,
      )

  advance_head-IsConsistent : IsConsistent (advance_head e)
  unfolding advance_head fix_head
  advance_head-IsConsistent =
      let w = record (get e.queue 0) { coded_idx = moved.last_idx } in
      let q = set e.queue 0 w in
      let sunk = sift_down_head (length q) q (omega arith) queue-edges in
      record {
        paired = length-set e.mappings head_idx moved ∙ v.paired;
        queued = Perm.trans sunk.same (set_head-perm e.queue e.mappings v.queued moved h);
        heap = rw (length-perm sunk.same) (sunk.heap);
        ahead = λ i p. ground (
          arith,
          length-set e.mappings head_idx moved,
          get-set e.mappings head_idx i moved (head-lt e v h),
          v.ahead i,
          moved-gt,
        );
        fits = λ i p. ground (
          arith,
          length-set e.mappings head_idx moved,
          get-set e.mappings head_idx i moved (head-lt e v h),
          v.fits i,
          moved-fits,
        );
      }

  advance_head-AllMove : AllMove n (advance_head e)
  unfolding advance_head
  advance_head-AllMove i p =
      let lt = head-lt e v h in
      let old : i < length e.mappings = omega (arith, length-set e.mappings head_idx moved) in
      subst (Moves n) (sym (get-set e.mappings head_idx i moved lt)) (
        Moves-if n (head_idx == i) moved (get e.mappings i)
          (Moves-next_index n (get e.mappings head_idx) (moves head_idx lt)) (moves i old))

  head_moves_once :
      due e.next_idx e.mappings ≡ suc (due (advance_head e).next_idx (advance_head e).mappings)
  unfolding advance_head
  head_moves_once =
      due-set e.next_idx head_idx e.mappings moved (head-lt e v h) (head-last_idx e v h ∙ due_now)
        (omega (arith, moved-gt))

  queue_stays : 0 < length (advance_head e).queue
  queue_stays = omega (
    arith,
    length-queue e v,
    length-queue (advance_head e) advance_head-IsConsistent,
    mappings_stay,
  )
    where
      mappings_stay : length (advance_head e).mappings ≡ length e.mappings
      mappings_stay = unfold advance_head in length-set e.mappings head_idx moved

-- What `applyWindow` does before it counts the index: `r` is the coded symbol and the window it leaves.
pub record IsApplied {T : Type 0} ⦃s : Symbol T⦄ ⦃j : Jump⦄ (n d : ℕ) (e : CodingWindow T)
    (c : CodedSymbol T) (r : CodedSymbol T × CodingWindow T) : Type 0 where
  pub coded : r.0 ≡ absorb d e.next_idx e.symbols e.mappings c
  pub symbols : r.1.symbols ≡ e.symbols
  pub mappings : r.1.mappings ≡ map (pass e.next_idx) e.mappings
  pub index : r.1.next_idx ≡ e.next_idx
  pub consistent : IsConsistent r.1
  pub past : (i : ℕ) → i < length r.1.mappings → e.next_idx < (get r.1.mappings i).last_idx
  pub moves : AllMove n r.1

module _ {T : Type 0} (e : CodingWindow T) (v : IsConsistent e) (h : 0 < length e.queue)
    (settled : (get e.queue 0).coded_idx ≢ e.next_idx) where
  -- Once the head of the queue is past the index, so is every mapping.
  all_past : (i : ℕ) → i < length e.mappings → e.next_idx < (get e.mappings i).last_idx
  all_past i p =
      let m = entry i (get e.mappings i) in
      let least =
        mem_of_get (le (get e.queue 0)) (λ x. hlevel) e.queue
          (λ k q. head_least (length e.queue) e.queue k v.heap q) m
          (entry-mem e.queue e.mappings v.queued i p) in
      let low = v.ahead (get e.queue 0).source_idx (head-lt e v h) in
      let at = head-last_idx e v h in
      let low_fits = v.fits (get e.queue 0).source_idx (head-lt e v h) in
      let head_fits : (get e.queue 0).coded_idx < i63 = omega arith in
      omega (arith, less_int-le _ _ head_fits (v.fits i p) least)

next_idx_stays :
    {T : Type 0} ⦃s : Symbol T⦄ ⦃j : Jump⦄ (e : CodingWindow T)
    → (advance_head e).next_idx ≡ e.next_idx
unfolding advance_head
next_idx_stays e = refl

module _ {T : Type 0} ⦃s : Symbol T⦄ ⦃j : Jump⦄ (x : IsXor s) (n d : ℕ) where
  loop_settles :
      (e : CodingWindow T) (c : CodedSymbol T)
      → IsConsistent e
      → AllMove n e
      → 0 < length e.queue
      → (get e.queue 0).coded_idx ≢ e.next_idx
      → IsApplied n d e c (c, e)
  loop_settles e c v moves h settled =
      let past = all_past e v h settled in
      let apart =
        λ (k : ℕ) (p : k < length e.mappings) (q : (get e.mappings k).last_idx ≡ e.next_idx).
          absurd {A = ⊥} (omega (arith, past k p)) in
      record {
        coded = sym (absorb-none d e.next_idx e.symbols e.mappings c apart);
        symbols = refl;
        mappings = sym (pass-none e.next_idx e.mappings apart);
        index = refl;
        consistent = v;
        past = past;
        moves = moves;
      }

  module _ (e : CodingWindow T) (c : CodedSymbol T) (v : IsConsistent e) (below : e.next_idx < n)
      (moves : AllMove n e) (h : 0 < length e.queue)
      (due_now : (get e.queue 0).coded_idx ≡ e.next_idx) where
    -- A round and what the rest of the loop does, together.
    round-IsApplied :
        (r : CodedSymbol T × CodingWindow T)
        → IsApplied n d (advance_head e) (apply c (head_symbol e) d) r
        → IsApplied n d e c r
    unfolding advance_head
    round-IsApplied r done =
        let k = (get e.queue 0).source_idx in
        let lt = head-lt e v h in
        let at = head-last_idx e v h ∙ due_now in
        let gt = moved-gt e v n below moves h due_now in
        let apart : (next_index (get e.mappings k)).last_idx ≢ e.next_idx = omega arith in
        record {
          coded =
              done.coded
              ∙ absorb-set x d e.next_idx k e.symbols e.mappings (next_index (get e.mappings k)) c
                  lt v.paired at apart;
          symbols = done.symbols;
          mappings = done.mappings ∙ pass-set e.next_idx k e.mappings lt at apart;
          index = done.index;
          consistent = done.consistent;
          past = done.past;
          moves = done.moves;
        }

  pub apply_loop-IsApplied :
      (fuel : ℕ) (e : CodingWindow T) (c : CodedSymbol T)
      → IsConsistent e
      → e.next_idx < n
      → AllMove n e
      → 0 < length e.queue
      → due e.next_idx e.mappings < fuel
      → (r : CodedSymbol T × CodingWindow T) × (apply_loop fuel d e c ≡ some r)
        × IsApplied n d e c r
  unfolding apply_loop
  apply_loop-IsApplied zero e c v below moves h f = absurd (omega arith)
  apply_loop-IsApplied (suc fuel) e c v below moves h f =
      elim (Bool-cases ((get e.queue 0).coded_idx == e.next_idx)) [
        | inl now ↦
            let due_now = (==_iff _ _).0 now in
            let (r, ran, done) =
              apply_loop-IsApplied fuel (advance_head e) (apply c (head_symbol e) d)
                (advance_head-IsConsistent e v n below moves h due_now)
                (rw (next_idx_stays e) below) (advance_head-AllMove e v n below moves h due_now)
                (queue_stays e v n below moves h due_now)
                (omega (arith, head_moves_once e v n below moves h due_now)) in
            (r, rw now ran, round-IsApplied e c v below moves h due_now r done)
        | inr settled ↦ ((c, e), rw settled, loop_settles e c v moves h (ground arith))
      ]

  -- On a consistent window whose next index is below `n` and whose mappings move on below `n` to
  -- indices that fit an int, with fuel above the number of symbols and XOR an exclusive or,
  -- applyWindow returns, applies exactly the symbols that are mapped to the index, and moves on
  -- their mappings.
  pub apply_window-IsApplied :
      (fuel : ℕ) (e : CodingWindow T) (c : CodedSymbol T)
      → IsConsistent e
      → e.next_idx < n
      → AllMove n e
      → length e.symbols < fuel
      → (r : CodedSymbol T × CodingWindow T) × (apply_window fuel d e c
          ≡ some (r.0, record r.1 { next_idx = e.next_idx + 1 }))
        × IsApplied n d e c r
  unfolding apply_window
  apply_window-IsApplied fuel e c v below moves f = elim (Bool-cases (length e.queue == 0)) [
    | inl empty ↦
        let no_mappings : length e.mappings ≡ 0 =
          omega (arith, length-queue e v, (==_iff _ _).0 empty) in
        (
          (c, e),
          rw empty,
          record {
            coded =
                sym (absorb-none d e.next_idx e.symbols e.mappings c (λ k p. absurd (omega arith)));
            symbols = refl;
            mappings = sym (pass-none e.next_idx e.mappings (λ k p. absurd (omega arith)));
            index = refl;
            consistent = v;
            past = λ i p. absurd (omega arith);
            moves = moves;
          },
        )
    | inr busy ↦
        let (r, ran, done) =
          apply_loop-IsApplied fuel e c v below moves (ground arith)
            (omega (arith, due-le-length e.next_idx e.mappings, v.paired)) in
        (
          r,
          rw (busy, ran) (ap (λ (i : ℕ). some (r.0, record r.1 { next_idx = i + 1 })) done.index),
          done,
        )
  ]
