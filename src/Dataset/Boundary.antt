-- ===== src/Dataset/Boundary.antt =====
-- The snapped boundaries: no two groups of one time stand on the two sides of one.
use oecophylla.Common.{
  ℕ, zero, suc, ◌+◌, ◌-◌, ◌≤◌, ◌≡◌, false, ◌&&◌, List, arith, length, ltb, max, Bool-cases, inl,
  inr,
}
use oecophylla.Dataset.Split.{
  straddles, snap_down, snap_up, Side, left, right, snap_split_boundary, Ends, snapped_ends,
  balanced_ends,
}

snap_down-clear :
    (lowest : ℕ) (times : List ℕ) (k : ℕ)
    → (ltb lowest (snap_down lowest times k) && straddles times (snap_down lowest times k)) ≡ false
unfolding snap_down
snap_down-clear lowest times zero = ground arith
snap_down-clear lowest times (suc k) =
    elim (Bool-cases (ltb lowest (suc k) && straddles times (suc k))) [
      | inl e ↦ rw e (snap_down-clear lowest times k)
      | inr e ↦ rw e e
    ]

snap_up-clear :
    (times : List ℕ) (turns k : ℕ)
    → length times ≤ k + turns
    → straddles times (snap_up times turns k) ≡ false
unfolding snap_up
snap_up-clear times zero k h = ground arith
snap_up-clear times (suc turns) k h = elim (Bool-cases (straddles times k)) [
  | inl e ↦ rw e (snap_up-clear times turns (suc k) (omega arith))
  | inr e ↦ rw e e
]

-- Clear above 0 is clear.
straddles_zero :
    (times : List ℕ) (k : ℕ) → (ltb 0 k && straddles times k) ≡ false → straddles times k ≡ false
straddles_zero times k h = ground arith

snap_split_boundary-clear :
    (boundary : ℕ) (times : List ℕ) (side : Side)
    → straddles times (snap_split_boundary boundary times side) ≡ false
unfolding snap_split_boundary
snap_split_boundary-clear boundary times side =
    let low =
      straddles_zero times (snap_down 0 times boundary) (snap_down-clear 0 times boundary) in
    let high = snap_up-clear times (length times - boundary) boundary (omega arith) in
    ground (arith, low, high)

-- Ends at which no two groups of one time are parted.
pub record IsClear (times : List ℕ) (e : Ends) : Type 0 where
  pub train_clear : straddles times e.train_end ≡ false
  pub validation_clear : straddles times e.validation_end ≡ false
  pub ordered : e.train_end ≤ e.validation_end

max_clear :
    (times : List ℕ) (t v : ℕ)
    → straddles times t ≡ false
    → (ltb t v && straddles times v) ≡ false
    → straddles times (max t v) ≡ false
max_clear times t v h k = elim (Bool-cases (ltb t v)) [
  | inl e ↦ let m : max t v ≡ v = ground arith in rw m (ground (arith, e, k))
  | inr e ↦ let m : max t v ≡ t = ground arith in rw m h
]

pub snapped_ends-IsClear : (times : List ℕ) (e : Ends) → IsClear times (snapped_ends times e)
unfolding snapped_ends
snapped_ends-IsClear times e =
    let t = snap_down 0 times e.train_end in
    let clear = straddles_zero times t (snap_down-clear 0 times e.train_end) in
    record {
      train_clear = clear;
      validation_clear =
          max_clear times t (snap_down t times e.validation_end) clear
            (snap_down-clear t times e.validation_end);
      ordered = omega arith;
    }

pub balanced_ends-IsClear : (times : List ℕ) (e : Ends) → IsClear times (balanced_ends times e)
unfolding balanced_ends
balanced_ends-IsClear times e =
    let t = snap_split_boundary e.train_end times left in
    let clear = snap_split_boundary-clear e.train_end times left in
    let v = snap_split_boundary-clear e.validation_end times right in
    record {
      train_clear = clear;
      validation_clear =
          max_clear times t (snap_split_boundary e.validation_end times right) clear
            (ground (arith, v));
      ordered = omega arith;
    }
