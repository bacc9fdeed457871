-- ===== src/Newsim/Metric.antt =====
-- newsim/filter.go, over the integers: the largest value recorded, and the change since the last reading.
use mathlib.Core.List.{Mem, mem-cons_self, mem-cons_of_mem}
use rateless_set_reconcile.Base.{
  ◌≡◌, refl, sym, subst, ◌∙◌, ◌⊎◌, inl, inr, Bool-cases, List, [], ◌∷◌, All, arith, if◌then◌else◌,
}
use rateless_set_reconcile.Base.Int.{ℤ, pos, ◌-ℤ◌, ◌≤ℤ◌, ltb_ℤ}

pub record Maximum : Type 0 where
  pub max : ℤ

pub record Difference : Type 0 where
  pub last_read : ℤ
  pub current : ℤ

unfoldable pub record_max : Maximum → ℤ → Maximum
record_max m val = if ltb_ℤ m.max val then record m { max = val } else m

unfoldable pub get_max : Maximum → ℤ × Maximum
get_max m = (m.max, record m { max = pos 0 })

unfoldable pub record_current : Difference → ℤ → Difference
record_current d val = record d { current = val }

unfoldable pub get_difference : Difference → ℤ × Difference
unfolding ◌-ℤ◌
get_difference d = (d.current -ℤ d.last_read, record d { last_read = d.current })

-- `record` for each of the values.
unfoldable pub record_all : Maximum → List ℤ → Maximum
record_all m [] = m
record_all m (v ∷ vs) = record_all (record_max m v) vs

record_all-ge : (m : Maximum) (vs : List ℤ) → m.max ≤ℤ (record_all m vs).max
unfolding record_all record_max
record_all-ge m [] = omega arith
record_all-ge m (v ∷ vs) = ground (arith, record_all-ge (record_max m v) vs)

record_max-ge :
    (m : Maximum) (v : ℤ) → (m.max ≤ℤ (record_max m v).max) × (v ≤ℤ (record_max m v).max)
unfolding record_max
record_max-ge m v = ground arith

record_all-All : (m : Maximum) (vs : List ℤ) → All (λ v. v ≤ℤ (record_all m vs).max) vs
unfolding record_all
record_all-All m [] = tt
record_all-All m (v ∷ vs) =
    let h = record_max-ge m v in
    let g = record_all-ge (record_max m v) vs in
    let here : v ≤ℤ (record_all (record_max m v) vs).max = omega arith in
    (here, record_all-All (record_max m v) vs)

record_max-recorded :
    (m : Maximum) (v : ℤ) → ((record_max m v).max ≡ m.max) ⊎ ((record_max m v).max ≡ v)
unfolding record_max
record_max-recorded m v = elim (Bool-cases (ltb_ℤ m.max v)) [
  | inl more ↦ inr (rw more refl)
  | inr less ↦ inl (rw less refl)
]

-- The largest is the one it started with, or one that was recorded.
record_all-recorded :
    (m : Maximum) (vs : List ℤ) → ((record_all m vs).max ≡ m.max) ⊎ Mem (record_all m vs).max vs
unfolding record_all
record_all-recorded m [] = inl refl
record_all-recorded m (v ∷ vs) = elim (record_all-recorded (record_max m v) vs) [
  | inr later ↦ inr (mem-cons_of_mem v later)
  | inl now ↦ elim (record_max-recorded m v) [
    | inl old ↦ inl (now ∙ old)
    | inr new ↦ inr (subst (λ (a : ℤ). Mem a (v ∷ vs)) (sym (now ∙ new)) mem-cons_self)
  ]
]

-- What `get` of a maximum that started at 0 returns is at least each of the values recorded and at
-- least 0, and is 0 or one of them; and `get` starts the maximum at 0 again.
pub get_max-upper :
    (vs : List ℤ)
    → let m : Maximum = record_all (record { max = pos 0 }) vs in
      All (λ v. v ≤ℤ (get_max m).0) vs
      × (pos 0 ≤ℤ (get_max m).0)
      × (((get_max m).0 ≡ pos 0) ⊎ Mem (get_max m).0 vs)
      × ((get_max m).1 ≡ record { max = pos 0 })
unfolding get_max
get_max-upper vs =
    let m : Maximum = record { max = pos 0 } in
    (record_all-All m vs, record_all-ge m vs, record_all-recorded m vs, refl)
